-- ===== src/Wallet/Enough.antt =====
-- When `get_inputs_from_amount` of hathor/wallet/base_wallet.py finds enough.
use khathor.Prelude.{
  [], ◌∷◌, refl, inl, inr, ℕ, Option, if◌then◌else◌, ◌≡◌, not, ◌≤◌, ◌+◌, ◌&&◌, List, Bool-cases,
  leb, false, true, All, ◌∙◌, arith, leb→le,
}
use khathor.Errors.{ok, Result}
use khathor.Dict.{Dict}
use khathor.Wallet.{WalletInputInfo, UnspentTx, key_of, is_skipped, is_usable, input_info, choose}
use khathor.Bytes.{Bytes}

module _ (get_private_key : Bytes → Result Bytes) (amount : ℕ) (max_ts : Option ℕ) (now : ℕ) where
  -- The sum of the values of the outputs that may be used.
  unfoldable pub available : Dict UnspentTx → ℕ
  available [] = 0
  available ((key, utxo) ∷ utxos) =
      (if not (is_skipped get_private_key amount max_ts now utxo)
          && is_usable get_private_key amount max_ts now utxo
        then utxo.value
        else 0)
      + available utxos

  -- The wallet has the private key of the output, which stands at its own key.
  pub record IsOwn (entry : Bytes × UnspentTx) : Type 0 where
    pub private_key : Bytes
    pub known : get_private_key entry.1.address ≡ ok private_key
    pub at_key : entry.0 ≡ key_of entry.1.tx_id entry.1.index

  info_exists :
      (e : Bytes × UnspentTx)
      → IsOwn e
      → (info : WalletInputInfo) × (input_info get_private_key e.1 ≡ ok info)
  unfolding input_info
  info_exists e o =
      let info : WalletInputInfo = record {
        tx_id = e.1.tx_id;
        index = e.1.index;
        private_key = o.private_key;
      } in
      (info, rw o.known refl)

  -- The rounds of the loop.
  module _ (key : Bytes) (utxo : UnspentTx) (utxos : Dict UnspentTx) (total : ℕ) where
    choose-skip :
        is_skipped get_private_key amount max_ts now utxo ≡ true
        → choose get_private_key amount max_ts now ((key, utxo) ∷ utxos) total
          ≡ choose get_private_key amount max_ts now utxos total
    unfolding choose
    choose-skip s = rw (s, choose) refl

    choose-unusable :
        is_skipped get_private_key amount max_ts now utxo ≡ false
        → is_usable get_private_key amount max_ts now utxo ≡ false
        → choose get_private_key amount max_ts now ((key, utxo) ∷ utxos) total ≡ (
            if leb amount total
            then ok ([], total)
            else choose get_private_key amount max_ts now utxos total)
    unfolding choose
    choose-unusable s u =
        rw (s, choose)
          (rw (u, choose)
            (elim (Bool-cases (leb amount total)) [ inl l ↦ rw l refl | inr l ↦ rw l refl ]))

    choose-usable :
        (info : WalletInputInfo) (infos : List WalletInputInfo) (total' : ℕ)
        → is_skipped get_private_key amount max_ts now utxo ≡ false
        → is_usable get_private_key amount max_ts now utxo ≡ true
        → input_info get_private_key utxo ≡ ok info
        → choose get_private_key amount max_ts now utxos (total + utxo.value) ≡ ok (infos, total')
        → choose get_private_key amount max_ts now ((key, utxo) ∷ utxos) total ≡ (
            if leb amount (total + utxo.value)
            then ok (info ∷ [], total + utxo.value)
            else ok (info ∷ infos, total'))
    unfolding choose
    choose-usable info infos total' s u i f =
        rw (s, choose)
          (rw (u, choose)
            (rw i (elim (Bool-cases (leb amount (total + utxo.value))) [
              | inl l ↦ rw l refl
              | inr l ↦ rw l (rw f refl)
            ])))

  unfoldable pub Enough : Dict UnspentTx → ℕ → Type 0
  Enough utxos total =
      (infos : List WalletInputInfo) × (total' : ℕ) × (choose get_private_key amount max_ts now
          utxos total
        ≡ ok (infos, total'))
      × (amount ≤ total + available utxos → amount ≤ total')

  Enough-skip :
      (key : Bytes) (utxo : UnspentTx) (utxos : Dict UnspentTx) (total : ℕ)
      → is_skipped get_private_key amount max_ts now utxo ≡ true
      → Enough utxos total
      → Enough ((key, utxo) ∷ utxos) total
  unfolding Enough available
  Enough-skip key utxo utxos total s (infos, total', f, le) =
      (infos, total', choose-skip key utxo utxos total s ∙ f, λ h. le (omega (arith, rw s at h)))

  Enough-unusable :
      (key : Bytes) (utxo : UnspentTx) (utxos : Dict UnspentTx) (total : ℕ)
      → is_skipped get_private_key amount max_ts now utxo ≡ false
      → is_usable get_private_key amount max_ts now utxo ≡ false
      → Enough utxos total
      → Enough ((key, utxo) ∷ utxos) total
  unfolding Enough available
  Enough-unusable key utxo utxos total s u (infos, total', f, le) =
      elim (Bool-cases (leb amount total)) [
        | inl l ↦
            ([], total, choose-unusable key utxo utxos total s u ∙ rw l refl, λ h. leb→le _ _ l)
        | inr l ↦ (
          infos,
          total',
          choose-unusable key utxo utxos total s u ∙ rw l f,
          λ h. le (omega (arith, rw u at (rw s at h))),
        )
      ]

  Enough-usable :
      (key : Bytes) (utxo : UnspentTx) (utxos : Dict UnspentTx) (total : ℕ) (info : WalletInputInfo)
      → is_skipped get_private_key amount max_ts now utxo ≡ false
      → is_usable get_private_key amount max_ts now utxo ≡ true
      → input_info get_private_key utxo ≡ ok info
      → Enough utxos (total + utxo.value)
      → Enough ((key, utxo) ∷ utxos) total
  unfolding Enough available
  Enough-usable key utxo utxos total info s u i (infos, total', f, le) =
      let e = choose-usable key utxo utxos total info infos total' s u i f in
      elim (Bool-cases (leb amount (total + utxo.value))) [
        | inl l ↦ (info ∷ [], total + utxo.value, e ∙ rw l refl, λ h. leb→le _ _ l)
        | inr l ↦
            (info ∷ infos, total', e ∙ rw l refl, λ h. le (omega (arith, rw u at (rw s at h))))
      ]

  pub choose-Enough : (utxos : Dict UnspentTx) (total : ℕ) → All IsOwn utxos → Enough utxos total
  unfolding Enough choose available
  choose-Enough [] total o = ([], total, refl, λ h. omega (arith, h))
  choose-Enough ((key, utxo) ∷ utxos) total (o, os) =
      let (info, i) = info_exists (key, utxo) o in
      elim (Bool-cases (is_skipped get_private_key amount max_ts now utxo)) [
        | inl s ↦ Enough-skip key utxo utxos total s (choose-Enough utxos total os)
        | inr s ↦ elim (Bool-cases (is_usable get_private_key amount max_ts now utxo)) [
          | inl u ↦
              Enough-usable key utxo utxos total info s u i
                (choose-Enough utxos (total + utxo.value) os)
          | inr u ↦ Enough-unusable key utxo utxos total s u (choose-Enough utxos total os)
        ]
      ]
