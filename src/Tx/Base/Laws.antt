-- ===== src/Tx/Base/Laws.antt =====
-- Lemmas on `pack` and on the serialized parts of an object of
-- hathor/transaction/base_transaction.py.
use khathor.Prelude.{ℕ, ◌<◌, ◌^◌, ◌≡◌, List, lt→ltb, All, ◌∷◌, ◌++◌, [], refl, ap, arith, ◌∙◌}
use khathor.Tx.Base.{
  pack_uint, concat_bytes, get_graph_struct, get_funds_struct, get_struct, get_struct_nonce, Tx,
  get_struct_without_nonce, block, Kind, transaction, funds_of_transaction, graph_of_block,
  base_graph_struct, funds_of_block, serialization_nonce_size,
}
use khathor.Errors.{Result, ok}
use khathor.Bytes.{Bytes, be, int_to_bytes}
use khathor.Bytes.Laws.{int_to_bytes_lem}

pub pack_uint_lem : (size n : ℕ) → n < 256 ^ size → pack_uint size n ≡ ok (be size n)
unfolding pack_uint
pack_uint_lem size n h = rw (lt→ltb n (256 ^ size) h)

-- The list of a serialization that does not fail.
module _ {A : Type 0} (f : A → Result Bytes) where
  pub concat_bytes-total :
      (P : A → Type 0)
      → ((x : A) → P x → (b : Bytes) × (f x ≡ ok b))
      → (xs : List A) → All P xs
      → (bs : Bytes) × (concat_bytes f xs ≡ ok bs)
  unfolding concat_bytes
  concat_bytes-total P total [] h = ([], refl)
  concat_bytes-total P total (x ∷ xs) h =
      let (b, e) = total x h.0 in
      let (bs, es) = concat_bytes-total P total xs h.1 in (b ++ bs, rw (e, es))

-- The class picks the method.
pub get_funds_struct-transaction :
    (tx : Tx) → tx.kind ≡ transaction → get_funds_struct tx ≡ funds_of_transaction tx
unfolding get_funds_struct
get_funds_struct-transaction tx k = ground arith

pub get_funds_struct-block : (tx : Tx) → tx.kind ≡ block → get_funds_struct tx ≡ funds_of_block tx
unfolding get_funds_struct
get_funds_struct-block tx k = ground arith

pub get_graph_struct-transaction :
    (tx : Tx) → tx.kind ≡ transaction → get_graph_struct tx ≡ base_graph_struct tx
unfolding get_graph_struct
get_graph_struct-transaction tx k = ground arith

pub get_graph_struct-block : (tx : Tx) → tx.kind ≡ block → get_graph_struct tx ≡ graph_of_block tx
unfolding get_graph_struct
get_graph_struct-block tx k = ground arith

pub get_struct_nonce_lem :
    (tx : Tx) (kind : Kind)
    → tx.kind ≡ kind
    → tx.nonce < 256 ^ serialization_nonce_size kind
    → get_struct_nonce tx ≡ ok (be (serialization_nonce_size kind) tx.nonce)
unfolding get_struct_nonce
get_struct_nonce_lem tx kind k h =
    ap (λ c. int_to_bytes tx.nonce (serialization_nonce_size c)) k
    ∙ int_to_bytes_lem tx.nonce (serialization_nonce_size kind) h

pub get_struct-parts :
    (tx : Tx) (f g n : Bytes)
    → get_funds_struct tx ≡ ok f
    → get_graph_struct tx ≡ ok g
    → get_struct_nonce tx ≡ ok n
    → get_struct tx ≡ ok ((f ++ g) ++ n)
unfolding get_struct get_struct_without_nonce
get_struct-parts tx f g n p q r = rw (p, q, r)
