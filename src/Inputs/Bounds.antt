-- ===== src/Inputs/Bounds.antt =====
-- The limits that `verify_without_storage` of hathor/transaction/transaction.py checks.
use khathor.Prelude.{
  [], ◌∷◌, some, false, List, ◌<◌, ◌≡◌, All, ℕ, ◌≤◌, leb, length, not, ◌==◌, ltb, arith, ◌&&◌,
  ltb→lt, leb→le, Bool, ◌||◌,
}
use khathor.Errors.{
  ok, Result, guard, invalid_token, >>=-eq-ok, ◌>>◌, guard-ok, too_many_inputs,
  invalid_output_value, no_input_error,
}
use khathor.Tx.Verify.{
  verify_pow, Network, verify_number_of_inputs, verify_number_of_outputs, is_genesis,
}
use khathor.Tx.Base.{Tx}
use khathor.Tx.Tokens.{outputs_valid, verify_outputs}
use khathor.Inputs.{verify_without_storage, ChainView}
use khathor.Tx.Output.{TxOutput, get_token_index, is_token_authority}
use khathor.Bytes.{Bytes, from_be}
use khathor.Crypto.{Platform}
use khathor.Tx.Verify.Blocks.{pow_below, outputs_bound}

-- The limits of an output: its value is positive, its token is in the transaction's list, and it is no
-- authority over Hathor's token.
pub record IsValidOutput (tx : Tx) (output : TxOutput) : Type 0 where
  pub positive : 0 < output.value
  pub token : get_token_index output ≤ length tx.tokens
  pub no_authority : get_token_index output ≡ 0 → is_token_authority output ≡ false

valid_output :
    (tx : Tx) (output : TxOutput) (rest : Result (Unit {0}))
    → (guard (leb (get_token_index output) (length tx.tokens)) invalid_token
        >> (guard (not (get_token_index output == 0 && is_token_authority output)) invalid_token
            >> (guard (ltb 0 output.value) invalid_output_value >> rest)))
      ≡ ok tt
    → IsValidOutput tx output × (rest ≡ ok tt)
valid_output tx output rest e =
    let (a, e₁) = guard-ok (leb (get_token_index output) (length tx.tokens)) invalid_token _ e in
    let (b, e₂) =
      guard-ok (not (get_token_index output == 0 && is_token_authority output)) invalid_token _
        e₁ in
    let (c, e₃) = guard-ok (ltb 0 output.value) invalid_output_value _ e₂ in
    (
      record {
        positive = ltb→lt 0 output.value c;
        token = leb→le (get_token_index output) (length tx.tokens) a;
        no_authority = λ z. ground arith;
      },
      e₃,
    )

outputs_valid_lem :
    (tx : Tx) (outputs : List TxOutput)
    → outputs_valid tx outputs ≡ ok tt
    → All (IsValidOutput tx) outputs
unfolding outputs_valid
outputs_valid_lem tx [] e = tt
outputs_valid_lem tx (output ∷ outputs) e =
    let (v, r) = valid_output tx output (outputs_valid tx outputs) e in
    (v, outputs_valid_lem tx outputs r)

inputs_bounds :
    (k m : ℕ) (genesis : Bool)
    → genesis ≡ false
    → (guard (not (ltb m k)) too_many_inputs >> guard (not (k == 0) || genesis) no_input_error)
      ≡ ok tt
    → (0 < k) × (k ≤ m)
inputs_bounds k m genesis g e = ground arith

-- A transaction that passes the verification without a storage, and that is no genesis transaction,
-- has a hash below the target of its weight, at least one input, at most the allowed numbers of
-- inputs and outputs, and valid outputs.
pub verify_without_storage_bounds :
    (p : Platform) (n : Network) (view : ChainView) (tx : Tx)
    → is_genesis n tx ≡ false
    → verify_without_storage p n view tx ≡ ok tt
    → (h : Bytes) × (target : ℕ) × (tx.hash ≡ some h)
      × (n.get_target tx.weight ≡ ok target)
      × (from_be 0 h < target)
      × (0 < length tx.inputs)
      × (length tx.inputs ≤ n.max_num_inputs)
      × (length tx.outputs ≤ n.max_num_outputs)
      × All (IsValidOutput tx) tx.outputs
unfolding verify_without_storage verify_number_of_inputs verify_number_of_outputs verify_outputs
verify_without_storage_bounds p n view tx g e =
    let (u, e₁, e₂) = >>=-eq-ok (verify_pow n tx) _ e in
    let (v, e₃, e₄) = >>=-eq-ok (verify_number_of_inputs n tx) _ e₂ in
    let (w, e₅, e₆) = >>=-eq-ok (verify_number_of_outputs n tx) _ e₄ in
    let (h, target, q, r, below) = pow_below n tx e₁ in
    let (some_input, max_inputs) =
      inputs_bounds (length tx.inputs) n.max_num_inputs (is_genesis n tx) g e₃ in
    (
      h,
      target,
      q,
      r,
      below,
      some_input,
      max_inputs,
      outputs_bound (length tx.outputs) n.max_num_outputs e₅,
      outputs_valid_lem tx tx.outputs e₆,
    )
