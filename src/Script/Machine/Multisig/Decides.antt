-- ===== src/Script/Machine/Multisig/Decides.antt =====
-- `op_checkmultisig` of hathor/transaction/scripts.py against the relation `Signed`.
use mathlib.Core.Option
use mathlib.Core.Bool.{false≢true}
use khathor.Script.Data.{Item, int, bytes, Stack}
use khathor.Script.Machine.{ScriptExtras, LogEntry, checksig_of, check_signature, checksig_failed}
use khathor.Script.Machine.Multisig.{
  find_key, match_signatures, is_one, pop_many, op_checkmultisig, pop_counted, checkmultisig_of,
}
use khathor.Script.Machine.Multisig.Laws.{
  Signed, Found, nowhere, here, later, done, not-Signed_of_Found, Signed-of_Found, rest-Signed,
}
use khathor.Crypto.{Platform}
use khathor.Prelude.{
  List, All, true, ◌≡◌, Option, some, Bool, map, false, ◌∷◌, none, ◌↔◌, ◌++◌, Bool-cases, refl, inl,
  [], inr, ◌∙◌, length, ap, le→leb, suc, if◌then◌else◌, arith, length-append,
}
use khathor.Bytes.{Bytes}
use khathor.Tx.Base.{get_sighash_all}
use khathor.Errors.{ok}

abbrev pub AllValid : Platform → List Bytes → Type 0
AllValid p keys = All (λ key. p.valid_point key ≡ true) keys

pop_many-map :
    (xs : List Bytes) (rest : Stack)
    → pop_many (length xs) (map bytes xs ++ rest) ≡ ok (map bytes xs, rest)
unfolding pop_many
pop_many-map [] rest = refl
pop_many-map (x ∷ xs) rest = rw (pop_many-map xs rest) refl

length-map_bytes : (xs : List Bytes) → length (map bytes xs) ≡ length xs
length-map_bytes [] = refl
length-map_bytes (x ∷ xs) = ap suc (length-map_bytes xs)

pop_counted-map :
    (xs : List Bytes) (rest : Stack)
    → pop_counted (int (length xs) ∷ (map bytes xs ++ rest)) ≡ ok (map bytes xs, rest)
unfolding pop_counted
pop_counted-map xs rest =
    rw
      (le→leb (length xs) (length (map bytes xs ++ rest))
        (omega (arith, length-append (map bytes xs) rest, length-map_bytes xs)))
      (pop_many-map xs rest)

module _ (p : Platform) (extras : ScriptExtras) (d : Bytes)
    (sighash : get_sighash_all true extras.tx ≡ ok d) where
  check_signature_lem :
      (key signature : Bytes)
      → p.valid_point key ≡ true
      → check_signature p extras key signature ≡ ok (p.ecdsa_verify key signature (p.sha256 d))
  unfolding check_signature
  check_signature_lem key signature h = rw (h, sighash)

  find_key-yes :
      (signature key : Bytes) (keys : List Item) (log : List LogEntry)
      → p.valid_point key ≡ true
      → p.ecdsa_verify key signature (p.sha256 d) ≡ true
      → find_key p extras (bytes signature) (bytes key ∷ keys) log ≡ ok (some keys, log)
  unfolding find_key checksig_of is_one
  find_key-yes signature key keys log h v = rw (check_signature_lem key signature h) (rw v refl)

  find_key-no :
      (signature key : Bytes) (keys : List Item) (log : List LogEntry)
      → p.valid_point key ≡ true
      → p.ecdsa_verify key signature (p.sha256 d) ≡ false
      → find_key p extras (bytes signature) (bytes key ∷ keys) log
        ≡ find_key p extras (bytes signature) keys (log ++ checksig_failed ∷ [])
  unfolding find_key checksig_of is_one
  find_key-no signature key keys log h v = rw (check_signature_lem key signature h) (rw v refl)

  find_key-Found :
      (signature : Bytes) (keys : List Bytes) (log : List LogEntry)
      → AllValid p keys
      → (o : Option (List Bytes)) × (log' : List LogEntry) × (find_key p extras
            (bytes signature)
            (map bytes keys)
            log
          ≡ ok (Option.map (map bytes) o, log'))
        × Found p (p.sha256 d) signature keys o
  unfolding find_key
  find_key-Found signature [] log h = (none, log, refl, nowhere)
  find_key-Found signature (key ∷ keys) log h =
      elim (Bool-cases (p.ecdsa_verify key signature (p.sha256 d))) [
        | inl v ↦ (some keys, log, find_key-yes signature key (map bytes keys) log h.0 v, here v)
        | inr v ↦
            let (o, log', e, f) = find_key-Found signature keys (log ++ checksig_failed ∷ []) h.1 in
            (o, log', find_key-no signature key (map bytes keys) log h.0 v ∙ e, later v f)
      ]

  Found-AllValid :
      {signature : Bytes} {keys rest : List Bytes}
      → Found p (p.sha256 d) signature keys (some rest)
      → AllValid p keys
      → AllValid p rest
  Found-AllValid (here v) h = h.1
  Found-AllValid (later v f) h = Found-AllValid f h.1

  -- The loop ends, and its answer is whether the signatures are signed in order.
  abbrev Decides : List Bytes → List Bytes → List LogEntry → Type 0
  Decides signatures keys log =
      (v : Bool) × (log' : List LogEntry) × (match_signatures p extras (map bytes signatures)
          (map bytes keys) log
        ≡ ok (v, log'))
      × ((v ≡ true) ↔ Signed p (p.sha256 d) signatures keys)

  Decides-next :
      (signature : Bytes) (signatures keys : List Bytes) (log log' : List LogEntry)
      → AllValid p keys
      → ((rest : List Bytes) → AllValid p rest → Decides signatures rest log')
      → (o : Option (List Bytes))
      → find_key p extras (bytes signature) (map bytes keys) log
        ≡ ok (Option.map (map bytes) o, log')
      → Found p (p.sha256 d) signature keys o
      → Decides (signature ∷ signatures) keys log
  unfolding match_signatures
  Decides-next signature signatures keys log log' h ih none e f = (
    false,
    log',
    rw (e, match_signatures) refl,
    ((λ c. absurd (false≢true c)), (λ s. absurd (not-Signed_of_Found f s))),
  )
  Decides-next signature signatures keys log log' h ih (some rest) e f =
      let (v, log'', e', iff) = ih rest (Found-AllValid f h) in
      (
        v,
        log'',
        rw (e, match_signatures) e',
        ((λ t. Signed-of_Found f (iff.0 t)), (λ s. iff.1 (rest-Signed f s))),
      )

  match_signatures_iff :
      (signatures keys : List Bytes) (log : List LogEntry)
      → AllValid p keys
      → Decides signatures keys log
  unfolding match_signatures
  match_signatures_iff [] keys log h = (true, log, refl, ((λ _. done), (λ _. refl)))
  match_signatures_iff (signature ∷ signatures) keys log h =
      let (o, log', e, f) = find_key-Found signature keys log h in
      Decides-next signature signatures keys log log' h
        (λ rest h'. match_signatures_iff signatures rest log' h') o e f

  -- For a transaction with the sighash `d`: on a stack with the count of the public keys, the public
  -- keys, the count of the signatures and the signatures, where every key is a point of the curve, the
  -- opcode leaves what is below them under 1 or 0: 1 exactly when the signatures verify the digest of
  -- `d` with keys of their own in the same order.
  pub op_checkmultisig_iff :
      (keys signatures : List Bytes) (rest : Stack) (log : List LogEntry)
      → AllValid p keys
      → (v : Bool) × (log' : List LogEntry) × (op_checkmultisig p extras (record {
        stack =
            int (length keys)
            ∷ (map bytes keys ++ (int (length signatures) ∷ (map bytes signatures ++ rest)));
        log = log;
      })
          ≡ ok (record { stack = int (if v then 1 else 0) ∷ rest; log = log' }))
        × ((v ≡ true) ↔ Signed p (p.sha256 d) signatures keys)
  unfolding op_checkmultisig checkmultisig_of
  op_checkmultisig_iff keys signatures rest log h =
      let (v, log', e, iff) = match_signatures_iff signatures keys log h in
      (
        v,
        log',
        rw (pop_counted-map keys (int (length signatures) ∷ (map bytes signatures ++ rest)))
            (rw (pop_counted-map signatures rest) (rw e refl)),
        iff,
      )
