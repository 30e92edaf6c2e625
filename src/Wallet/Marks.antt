-- ===== src/Wallet/Marks.antt =====
-- Every input that `get_inputs_from_amount` of hathor/wallet/base_wallet.py chooses is marked.
use khathor.Prelude.{
  [], ◌∷◌, refl, inl, inr, ℕ, Option, ◌≡◌, ◌≤◌, List, Bool-cases, leb, true, All, ◌∙◌, arith, none,
  ap, le→leb, Option-cases, sym, true_ne_false,
}
use khathor.Errors.{ok, Result, ok-injective}
use khathor.Dict.{Dict, is_some, lookup, erase}
use khathor.Dict.Laws.{Distinct, lookup-erase}
use khathor.Wallet.{
  WalletInputInfo, UnspentTx, key_of, input_info, Pool, mark_all, mark_maybe_spent,
  get_inputs_from_amount,
}
use khathor.Bytes.{Bytes, bytes_eq}
use khathor.Wallet.Choice.{marked, Chosen, pass, spend, choose-Chosen}
use khathor.Bytes.Laws.{bytes_eq_refl, eq_of_bytes_eq}
use khathor.Wallet.Enough.{IsOwn, available, Enough, choose-Enough}

module _ (get_private_key : Bytes → Result Bytes) (amount : ℕ) (max_ts : Option ℕ) (now : ℕ) where
  -- Every output of the list is among the unspent ones.
  Present : Dict UnspentTx → Pool → Type 0
  Present utxos self =
      (k : Bytes) → is_some (lookup k utxos) ≡ true → is_some (lookup k self.unspent_txs) ≡ true

  present_tail :
      (k key : Bytes) (utxo : UnspentTx) (utxos : Dict UnspentTx)
      → is_some (lookup k utxos) ≡ true
      → is_some (lookup k ((key, utxo) ∷ utxos)) ≡ true
  unfolding lookup is_some
  present_tail k key utxo utxos h = elim (Bool-cases (bytes_eq k key)) [
    | inl e ↦ rw e refl
    | inr e ↦ rw e h
  ]

  present_head :
      (key : Bytes) (utxo : UnspentTx) (utxos : Dict UnspentTx)
      → is_some (lookup key ((key, utxo) ∷ utxos)) ≡ true
  unfolding lookup is_some
  present_head key utxo utxos = rw (bytes_eq_refl key) refl

  -- The key of the input is the one at which the output stands.
  info-key :
      (key : Bytes) (utxo : UnspentTx) (info : WalletInputInfo)
      → IsOwn get_private_key amount max_ts now (key, utxo)
      → input_info get_private_key utxo ≡ ok info
      → key_of info.tx_id info.index ≡ key
  unfolding input_info
  info-key key utxo info o i =
      let p = ok-injective (rw o.known at i) in
      ap (λ x. key_of x.tx_id x.index) (sym p) ∙ sym o.at_key

  mark_one-total :
      (info : WalletInputInfo) (self : Pool)
      → is_some (lookup (key_of info.tx_id info.index) self.unspent_txs) ≡ true
      → (self' : Pool) × (mark_maybe_spent get_private_key amount max_ts now info self ≡ ok self')
        × (self'.unspent_txs ≡ erase (key_of info.tx_id info.index) self.unspent_txs)
  unfolding mark_maybe_spent is_some
  mark_one-total info self h =
      elim (Option-cases (lookup (key_of info.tx_id info.index) self.unspent_txs)) [
        | inl n ↦ absurd (true_ne_false (sym h ∙ ap is_some n))
        | inr (utxo, g) ↦ (
          marked get_private_key amount max_ts now (key_of info.tx_id info.index) utxo self,
          rw (g, mark_maybe_spent) refl,
          refl,
        )
      ]

  -- Behind the round of the first output, the others are still there.
  others-Present :
      (key : Bytes) (utxo : UnspentTx) (utxos : Dict UnspentTx) (self self' : Pool)
      → lookup key utxos ≡ none
      → self'.unspent_txs ≡ erase key self.unspent_txs
      → Present ((key, utxo) ∷ utxos) self
      → Present utxos self'
  unfolding Present is_some
  others-Present key utxo utxos self self' d q p = λ k h. elim (Bool-cases (bytes_eq k key)) [
    | inl e ↦
        let n : lookup k utxos ≡ none = ap (λ b. lookup b utxos) (eq_of_bytes_eq k key e) ∙ d in
        absurd (true_ne_false (sym h ∙ ap is_some n))
    | inr e ↦
        ap (λ l. is_some (lookup k l)) q
        ∙ ap is_some (rw e at (lookup-erase k key self.unspent_txs))
        ∙ p k (present_tail k key utxo utxos h)
  ]

  mark_all-total :
      (utxos : Dict UnspentTx) (infos : List WalletInputInfo) (n : ℕ) (self : Pool)
      → Chosen get_private_key amount max_ts now utxos infos n
      → All (IsOwn get_private_key amount max_ts now) utxos
      → Distinct utxos
      → Present utxos self
      → (self' : Pool) × (mark_all get_private_key amount max_ts now infos self ≡ ok self')
  unfolding mark_all Present Distinct
  mark_all-total utxos [] n self Chosen.stop o d p = (self, refl)
  mark_all-total ((key, utxo) ∷ utxos) infos n self (pass c) (o, os) (d, ds) p =
      mark_all-total utxos infos _ self c os ds (λ k h. p k (present_tail k key utxo utxos h))
  mark_all-total ((key, utxo) ∷ utxos) (info ∷ infos) n self (spend s u i c) (o, os) (d, ds) p =
      let at : key_of info.tx_id info.index ≡ key = info-key key utxo info o i in
      let here =
        ap (λ k. is_some (lookup k self.unspent_txs)) at ∙ p key (present_head key utxo utxos) in
      let (self₁, f, q) = mark_one-total info self here in
      let q' = q ∙ ap (λ k. erase k self.unspent_txs) at in
      let (self₂, g) =
        mark_all-total utxos infos _ self₁ c os ds
          (others-Present key utxo utxos self self₁ d q' p) in
      (self₂, rw f g)

  -- Inputs are returned for an amount that the unspent outputs which may be used cover, when no key
  -- stands twice among the unspent outputs and the wallet has their private keys.
  pub get_inputs_succeeds :
      (self : Pool)
      → Distinct self.unspent_txs
      → All (IsOwn get_private_key amount max_ts now) self.unspent_txs
      → amount ≤ available get_private_key amount max_ts now self.unspent_txs
      → (infos : List WalletInputInfo) × (total : ℕ) × (self' : Pool) × (get_inputs_from_amount
            get_private_key amount max_ts now self
          ≡ ok ((infos, total), self'))
  unfolding get_inputs_from_amount Enough Present
  get_inputs_succeeds self d o h =
      let (infos, total, f, le) =
        choose-Enough get_private_key amount max_ts now self.unspent_txs 0 o in
      let enough : leb amount total ≡ true = le→leb amount total (le (omega (arith, h))) in
      let (n, q, c) =
        choose-Chosen get_private_key amount max_ts now self.unspent_txs 0 infos total f in
      let (self', g) = mark_all-total self.unspent_txs infos n self c o d (λ k x. x) in
      (infos, total, self', rw f (rw enough (rw g refl)))
