-- ===== src/Tx/Verify/Blocks.antt =====
-- The verification of blocks: hathor/transaction/block.py, with `verify_pow` of base_transaction.py.
use khathor.Prelude.{
  [], ◌∷◌, refl, some, true, false, inl, inr, ℕ, ◌≡◌, List, not, ltb, length, ◌==◌, ◌≤◌, All, arith,
  ◌<◌, Option-cases, ◌++◌,
}
use khathor.Errors.{
  ok, err, Result, guard, assertion_error, block_with_inputs, transaction_data_error,
  too_many_outputs, guard-ok, >>=-eq-ok, block_with_tokens,
}
use khathor.Tx.Verify.{
  Network, verify_block_without_storage, without_tokens, verify_pow, verify_block, verify_no_inputs,
  verify_block_outputs, verify_data, verify_number_of_outputs, is_genesis,
}
use khathor.Tx.Base.{Tx, block}
use khathor.Bytes.{Bytes, from_be}
use khathor.Tx.Output.{TxOutput, get_token_index}
use khathor.Tx.Tokens.{Storage}
use khathor.Tx.Verify.Sets.{NoRepeat}
use khathor.Tx.Verify.ParentRound.{IsBlockParent, IsTxParent}
use khathor.Tx.Verify.Parents.{verify_parents_iff}

no_ok : (r : Result (Unit {0})) → r ≡ err assertion_error → r ≡ ok tt → ⊥
no_ok r q e = cc

pub outputs_bound : (k m : ℕ) → guard (not (ltb m k)) too_many_outputs ≡ ok tt → k ≤ m
outputs_bound k m e = ground arith

pub pow_below :
    (n : Network) (tx : Tx)
    → verify_pow n tx ≡ ok tt
    → (h : Bytes) × (target : ℕ) × (tx.hash ≡ some h)
      × (n.get_target tx.weight ≡ ok target)
      × (from_be 0 h < target)
unfolding verify_pow
pow_below n tx e = elim (Option-cases tx.hash) [
  | inl q ↦ absurd (no_ok (err assertion_error) refl (rw q at e))
  | inr (h, q) ↦
      let (target, g, e₁) = >>=-eq-ok (n.get_target tx.weight) _ (rw q at e) in
      (h, target, q, g, ground arith)
]

-- The limits of a block, as its verification checks them.
pub record IsValidBlock (n : Network) (tx : Tx) : Type 0 where
  pub no_inputs : length tx.inputs ≡ 0
  pub number_of_outputs : length tx.outputs ≤ n.max_num_outputs
  pub no_tokens : All (λ output. get_token_index output ≡ 0) tx.outputs
  pub data_size : length tx.block_data ≤ n.block_data_max_size

token_free : (k : ℕ) → not (ltb 0 k) ≡ true → k ≡ 0
token_free k e = ground arith

without_tokens_lem :
    (outputs : List TxOutput)
    → without_tokens outputs ≡ ok tt
    → All (λ output. get_token_index output ≡ 0) outputs
unfolding without_tokens
without_tokens_lem [] e = tt
without_tokens_lem (output ∷ outputs) e =
    let (a, e₁) = guard-ok (not (ltb 0 (get_token_index output))) block_with_tokens _ e in
    (token_free (get_token_index output) a, without_tokens_lem outputs e₁)

no_inputs_lem : (k : ℕ) → guard (k == 0) block_with_inputs ≡ ok tt → k ≡ 0
no_inputs_lem k e = ground arith

data_bound : (k m : ℕ) → guard (not (ltb m k)) transaction_data_error ≡ ok tt → k ≤ m
data_bound k m e = ground arith

valid_block :
    (n : Network) (tx : Tx)
    → verify_block_without_storage n tx ≡ ok tt
    → (verify_pow n tx ≡ ok tt) × IsValidBlock n tx
unfolding verify_block_without_storage verify_no_inputs verify_block_outputs verify_data
    verify_number_of_outputs
valid_block n tx e =
    let (u, e₁, e₂) = >>=-eq-ok (verify_pow n tx) _ e in
    let (v, e₃, e₄) = >>=-eq-ok (verify_no_inputs tx) _ e₂ in
    let (w, e₅, e₆) = >>=-eq-ok (verify_block_outputs n tx) _ e₄ in
    let (x, e₇, e₈) = >>=-eq-ok (verify_number_of_outputs n tx) _ e₅ in
    (
      e₁,
      record {
        no_inputs = no_inputs_lem (length tx.inputs) e₃;
        number_of_outputs = outputs_bound (length tx.outputs) n.max_num_outputs e₇;
        no_tokens = without_tokens_lem tx.outputs e₈;
        data_size = data_bound (length tx.block_data) n.block_data_max_size e₆;
      },
    )

three_parents :
    (P Q : Bytes → Type 0) (parents bs ts : List Bytes)
    → parents ≡ bs ++ ts
    → All P bs
    → All Q ts
    → length bs ≡ 1
    → length ts ≡ 2
    → (b : Bytes) × (t : Bytes) × (u : Bytes) × (parents ≡ b ∷ t ∷ u ∷ []) × P b × Q t × Q u
three_parents P Q parents (b ∷ []) (t ∷ u ∷ []) q p r l m = (b, t, u, q, p.0, r.0, r.1.0)
three_parents P Q parents [] ts q p r l m = absurd (omega (arith, l))
three_parents P Q parents (a ∷ b ∷ bs) ts q p r l m = absurd (omega (arith, l))
three_parents P Q parents (b ∷ []) [] q p r l m = absurd (omega (arith, m))
three_parents P Q parents (b ∷ []) (t ∷ []) q p r l m = absurd (omega (arith, m))
three_parents P Q parents (b ∷ []) (t ∷ u ∷ v ∷ ts) q p r l m = absurd (omega (arith, m))

-- A block that `verify` accepts, and that is no genesis block, has a hash below the target of its
-- weight, no inputs, at most the allowed number of outputs, all in Hathor's token, data of at most the
-- allowed size, and as parents, without repetition, one stored and older block, which is not too far
-- back, and two stored and older transactions behind it.
pub verified_block :
    (n : Network) (tx : Tx) (storage : Storage)
    → tx.kind ≡ block
    → is_genesis n tx ≡ false
    → verify_block n tx storage ≡ ok tt
    → (h : Bytes) × (target : ℕ) × (tx.hash ≡ some h)
      × (n.get_target tx.weight ≡ ok target)
      × (from_be 0 h < target)
      × IsValidBlock n tx
      × NoRepeat tx.parents
      × (b : Bytes) × (t : Bytes) × (u : Bytes) × (tx.parents ≡ b ∷ t ∷ u ∷ [])
      × IsBlockParent n storage tx b
      × IsTxParent n storage tx t
      × IsTxParent n storage tx u
unfolding verify_block
verified_block n tx storage k g e =
    let (u, e₁, e₂) = >>=-eq-ok (verify_block_without_storage n tx) _ (rw g at e) in
    let (pow, valid) = valid_block n tx e₁ in
    let (h, target, q, r, below) = pow_below n tx pow in
    let (_, distinct, bs, ts, order, hb, ht, lb, lt) = (verify_parents_iff n storage tx).0 e₂ in
    let (b, t, u, o, pb, pt, pu) =
      three_parents (IsBlockParent n storage tx) (IsTxParent n storage tx) tx.parents bs ts order hb
        ht (rw k at lb) lt in
    (h, target, q, r, below, valid, distinct, b, t, u, o, pb, pt, pu)
