-- ===== src/Wallet/Choice.antt =====
-- What `get_inputs_from_amount` of hathor/wallet/base_wallet.py chooses.
use khathor.Prelude.{
  [], ◌∷◌, none, some, true, false, inl, inr, ℕ, Option, List, ◌≡◌, ◌+◌, Bool-cases, ◌≤◌, All,
  arith, ap, subst, leb, Option-cases, ◌∙◌, leb→le, sym,
}
use khathor.Errors.{
  ok, err, Result, ok-injective, >>=-eq-ok, guard-ok, insufficient_funds, key_error,
}
use khathor.Dict.{Dict, lookup, insert, erase, is_some}
use khathor.Dict.Laws.{lookup-insert, lookup-erase, lookup-insert_same, erase_same}
use khathor.Wallet.{
  WalletInputInfo, UnspentTx, Pool, key_of, is_skipped, is_usable, input_info, choose,
  mark_maybe_spent, mark_all, get_inputs_from_amount,
}
use khathor.Bytes.{Bytes, bytes_eq}

module _ (get_private_key : Bytes → Result Bytes) (amount : ℕ) (max_ts : Option ℕ) (now : ℕ) where
  -- The inputs spend some of the utxos, in their order: ones that are not too new, not locked and no
  -- authorities. The number is the sum of their values.
  pub data Chosen : Dict UnspentTx → List WalletInputInfo → ℕ → Type 0 where
    stop : {utxos : Dict UnspentTx} → Chosen utxos [] 0
    pass :
        {e : Bytes × UnspentTx} {utxos : Dict UnspentTx} {infos : List WalletInputInfo} {n : ℕ}
        → Chosen utxos infos n
        → Chosen (e ∷ utxos) infos n
    spend :
        {key : Bytes} {utxo : UnspentTx} {utxos : Dict UnspentTx} {info : WalletInputInfo}
        {infos : List WalletInputInfo} {n : ℕ}
        → is_skipped get_private_key amount max_ts now utxo ≡ false
        → is_usable get_private_key amount max_ts now utxo ≡ true
        → input_info get_private_key utxo ≡ ok info
        → Chosen utxos infos n
        → Chosen ((key, utxo) ∷ utxos) (info ∷ infos) (utxo.value + n)

  -- The loop returned what was chosen.
  returned :
      (utxos : Dict UnspentTx) (infos infos' : List WalletInputInfo) (n total sum total' : ℕ)
      → Chosen utxos infos n
      → sum ≡ total + n
      → ◌≡◌ {A = Result (List WalletInputInfo × ℕ)} (ok (infos, sum)) (ok (infos', total'))
      → (n : ℕ) × (total' ≡ total + n) × Chosen utxos infos' n
  returned utxos infos infos' n total sum total' c s e =
      let p : (infos, sum) ≡ (infos', total') = ok-injective e in
      (n, sym (ap (λ r. r.1) p) ∙ s, subst (λ l. Chosen utxos l n) (ap (λ r. r.0) p) c)

  pub choose-Chosen :
      (utxos : Dict UnspentTx) (total : ℕ) (infos : List WalletInputInfo) (total' : ℕ)
      → choose get_private_key amount max_ts now utxos total ≡ ok (infos, total')
      → (n : ℕ) × (total' ≡ total + n) × Chosen utxos infos n
  unfolding choose
  choose-Chosen [] total infos total' e =
      returned [] [] infos 0 total total total' stop (omega arith) e
  choose-Chosen ((key, utxo) ∷ utxos) total infos total' e =
      elim (Bool-cases (is_skipped get_private_key amount max_ts now utxo)) [
        | inl s ↦
            let (n, q, c) = choose-Chosen utxos total infos total' (rw (s, choose) at e) in
            (n, q, pass c)
        | inr s ↦ elim (Bool-cases (is_usable get_private_key amount max_ts now utxo)) [
          | inl u ↦
              let (info, f, g) =
                >>=-eq-ok (input_info get_private_key utxo) _
                  (rw (u, choose) at (rw (s, choose) at e)) in
              elim (Bool-cases (leb amount (total + utxo.value))) [
                | inl l ↦
                    returned ((key, utxo) ∷ utxos) (info ∷ []) infos (utxo.value + 0) total
                      (total + utxo.value) total' (spend s u f stop) (omega arith) (rw l at g)
                | inr l ↦
                    let ((rest, sum), h, k) =
                      >>=-eq-ok
                        (choose get_private_key amount max_ts now utxos (total + utxo.value)) _
                        (rw l at g) in
                    let (n, q, c) = choose-Chosen utxos (total + utxo.value) rest sum h in
                    returned ((key, utxo) ∷ utxos) (info ∷ rest) infos (utxo.value + n) total sum
                      total' (spend s u f c) (omega (arith, q)) k
              ]
          | inr u ↦
              let r = rw (u, choose) at (rw (s, choose) at e) in
              elim (Bool-cases (leb amount total)) [
                | inl l ↦
                    returned ((key, utxo) ∷ utxos) [] infos 0 total total total' (pass stop)
                      (omega arith) (rw l at r)
                | inr l ↦
                    let (n, q, c) = choose-Chosen utxos total infos total' (rw l at r) in
                    (n, q, pass c)
              ]
        ]
      ]

  -- The output is no longer among the unspent ones, and kept among those that may be spent.
  abbrev pub IsTaken : Pool → WalletInputInfo → Type 0
  IsTaken self info =
      (lookup (key_of info.tx_id info.index) self.unspent_txs ≡ none)
      × (is_some (lookup (key_of info.tx_id info.index) self.maybe_spent_txs) ≡ true)

  -- The pool behind one round.
  abbrev pub marked : Bytes → UnspentTx → Pool → Pool
  marked k utxo self =
      let spent : UnspentTx = record utxo { maybe_spent_ts = some now } in
      record {
        unspent_txs = erase k self.unspent_txs;
        maybe_spent_txs = insert k spent self.maybe_spent_txs;
      }

  marked-IsTaken :
      (k : Bytes) (utxo : UnspentTx) (self : Pool) (other : WalletInputInfo)
      → IsTaken self other
      → IsTaken (marked k utxo self) other
  unfolding is_some
  marked-IsTaken k utxo self other (a, b) =
      let o = key_of other.tx_id other.index in
      let spent : UnspentTx = record utxo { maybe_spent_ts = some now } in
      elim (Bool-cases (bytes_eq o k)) [
        | inl e ↦ (
          rw e at (lookup-erase o k self.unspent_txs),
          ap is_some (rw e at (lookup-insert o k spent self.maybe_spent_txs)),
        )
        | inr e ↦ (
          rw e at (lookup-erase o k self.unspent_txs) ∙ a,
          ap is_some (rw e at (lookup-insert o k spent self.maybe_spent_txs)) ∙ b,
        )
      ]

  mark-IsTaken :
      (info other : WalletInputInfo) (self self' : Pool)
      → mark_maybe_spent get_private_key amount max_ts now info self ≡ ok self'
      → (IsTaken self' info) × (IsTaken self other → IsTaken self' other)
  unfolding mark_maybe_spent is_some
  mark-IsTaken info other self self' e =
      let k = key_of info.tx_id info.index in
      elim (Option-cases (lookup k self.unspent_txs)) [
        | inl n ↦ let c : err key_error ≡ ok self' = rw (n, mark_maybe_spent) at e in cc
        | inr (utxo, g) ↦
            let p : marked k utxo self ≡ self' = ok-injective (rw (g, mark_maybe_spent) at e) in
            let spent : UnspentTx = record utxo { maybe_spent_ts = some now } in
            subst (λ m. (IsTaken m info) × (IsTaken self other → IsTaken m other)) p
              (
                (
                  erase_same k self.unspent_txs,
                  ap is_some (lookup-insert_same k spent self.maybe_spent_txs),
                ),
                marked-IsTaken k utxo self other,
              )
      ]

  mark_all-IsTaken :
      (infos : List WalletInputInfo) (self self' : Pool)
      → mark_all get_private_key amount max_ts now infos self ≡ ok self'
      → (All (IsTaken self') infos)
        × ((other : WalletInputInfo) → IsTaken self other → IsTaken self' other)
  unfolding mark_all
  mark_all-IsTaken [] self self' e =
      let p : self ≡ self' = ok-injective e in (tt, λ other t. subst (λ m. IsTaken m other) p t)
  mark_all-IsTaken (info ∷ infos) self self' e =
      let (self₁, f, g) =
        >>=-eq-ok (mark_maybe_spent get_private_key amount max_ts now info self) _ e in
      let (all, keep) = mark_all-IsTaken infos self₁ self' g in
      (
        (keep info (mark-IsTaken info info self self₁ f).0, all),
        λ other t. keep other ((mark-IsTaken info other self self₁ f).1 t),
      )

  -- Where inputs are returned for an amount, their total is at least the amount and is the sum of the
  -- values of the outputs that they spend; these are unspent ones of the pool, that are neither too
  -- new nor locked nor authorities. When the call returns, none of them is among the unspent ones,
  -- and all are among those that may be spent.
  pub get_inputs-Chosen :
      (self self' : Pool) (infos : List WalletInputInfo) (total : ℕ)
      → get_inputs_from_amount get_private_key amount max_ts now self ≡ ok ((infos, total), self')
      → (amount ≤ total) × Chosen self.unspent_txs infos total × All (IsTaken self') infos
  unfolding get_inputs_from_amount
  get_inputs-Chosen self self' infos total e =
      let ((chosen, sum), f, g) =
        >>=-eq-ok (choose get_private_key amount max_ts now self.unspent_txs 0) _ e in
      let (enough, h) = guard-ok (leb amount sum) insufficient_funds _ g in
      let (self₁, k, l) = >>=-eq-ok (mark_all get_private_key amount max_ts now chosen self) _ h in
      let p : ((chosen, sum), self₁) ≡ ((infos, total), self') = ok-injective l in
      let (n, q, c) = choose-Chosen self.unspent_txs 0 chosen sum f in
      let same : n ≡ sum = omega (arith, q) in
      subst (λ r. (amount ≤ r.0.1) × Chosen self.unspent_txs r.0.0 r.0.1 × All (IsTaken r.1) r.0.0)
        p
        (
          leb→le amount sum enough,
          subst (Chosen self.unspent_txs chosen) same c,
          (mark_all-IsTaken chosen self self₁ k).0,
        )
