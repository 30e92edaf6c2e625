-- ===== src/Inputs/Whole.antt =====
-- `Transaction.verify` of hathor/transaction/transaction.py.
use khathor.Prelude.{false, ℕ, ◌≡◌, some, ◌≢◌, map, All, ◌≤◌, some_injective}
use khathor.Errors.{ok, >>=-eq-ok}
use khathor.Crypto.{Platform}
use khathor.Tx.Verify.{Network, is_genesis, verify_parents}
use khathor.Inputs.{ChainView, verify_transaction, verify_without_storage, verify_inputs, outpoint}
use khathor.Tx.Base.{Tx}
use khathor.Bytes.{Bytes}
use khathor.Inputs.Round.{>>>-eq-ok, IsSpendable}
use khathor.Tx.Tokens.Sum.{has_mint, output_amount, input_amount}
use khathor.Tx.Tokens.{verify_sum}
use khathor.Tx.Verify.Sets.{NoRepeat}
use khathor.Inputs.Laws.{verify_inputs_iff}
use khathor.Tx.Tokens.Conserves.{verify_sum_mints_nothing}

module _ (p : Platform) (n : Network) (view : ChainView) (tx : Tx) (fuel : ℕ) where
  -- The verifications that run where `verify` accepts.
  pub record Verified : Type 0 where
    pub alone : verify_without_storage p n view tx ≡ ok tt
    pub inputs : verify_inputs p n view tx fuel ≡ some (ok tt)
    pub parents : verify_parents n view.storage tx ≡ ok tt
    pub sum : verify_sum n.token_settings view.storage tx ≡ ok tt

  verify-Verified :
      is_genesis n tx ≡ false → verify_transaction p n view tx fuel ≡ some (ok tt) → Verified
  unfolding verify_transaction
  verify-Verified g e =
      let (u, e₁, e₂) = >>>-eq-ok (some (verify_without_storage p n view tx)) _ tt (rw g at e) in
      let (v, e₃, e₄) = >>>-eq-ok (verify_inputs p n view tx fuel) _ tt e₂ in
      let (w, e₅, e₆) = >>=-eq-ok (verify_parents n view.storage tx) _ (some_injective e₄) in
      record { alone = some_injective e₁; inputs = e₃; parents = e₅; sum = e₆ }

  -- A transaction that `verify` accepts, and that is no genesis transaction, spends outputs that are
  -- all different and unlocked, and without a mint authority for a token other than Hathor's among
  -- them it creates no more of the token than it spends.
  pub verified_mints_nothing :
      (uid : Bytes)
      → is_genesis n tx ≡ false
      → verify_transaction p n view tx fuel ≡ some (ok tt)
      → uid ≢ n.token_settings.hathor_token_uid
      → has_mint n.token_settings view.storage uid false tx.inputs ≡ false
      → NoRepeat (map outpoint tx.inputs)
        × All (IsSpendable p n view tx fuel) tx.inputs
        × (output_amount n.token_settings view.storage uid tx tx.outputs
            ≤ input_amount n.token_settings view.storage uid tx.inputs)
  verified_mints_nothing uid g e ne no_mint =
      let v = verify-Verified g e in
      let (distinct, spendable) = (verify_inputs_iff p n view tx fuel).0 v.inputs in
      (
        distinct,
        spendable,
        verify_sum_mints_nothing n.token_settings view.storage tx uid v.sum ne no_mint,
      )
