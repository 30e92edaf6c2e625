-- ===== src/Inputs/Round.antt =====
-- One round of the loop of `verify_inputs` of hathor/transaction/transaction.py.
use khathor.Prelude.{
  ◌∷◌, refl, none, some, true, false, suc, zero, inl, inr, ◌≡◌, arith, ℕ, ◌⊎◌, ◌+◌, lt→leb, List,
  ◌<◌, Bool-cases, ◌↔◌, ◌≤◌, length, ◌∙◌, sym, ap, subst, some_injective,
}
use khathor.Errors.{ok, err, ok-injective}
use khathor.Script.Eval.{Run, ◌>>>◌, script_eval}
use khathor.Crypto.{Platform}
use khathor.Tx.Verify.{Network, is_block, has_hash}
use khathor.Inputs.{
  ChainView, best_height, check_input, reward_cache, input_round, verify_spent_reward,
  verify_script, add_key, existing_output, except_script, InputState, except_inexistent,
  check_reward, elem_key, outpoint,
}
use khathor.Tx.Base.{Tx}
use khathor.Tx.Input.{TxInput}
use khathor.Tx.Tokens.{get_spent_tx, get_transaction}
use khathor.Inputs.Keys.{Key}

-- Where the rest returned, the call did.
pub >>>-eq-ok :
    {A B : Type 0} (r : Run A) (k : A → Run B) (b : B)
    → (r >>> k) ≡ some (ok b)
    → (a : A) × (r ≡ some (ok a)) × (k a ≡ some (ok b))
>>>-eq-ok none k b e = cc
>>>-eq-ok (some (err x)) k b e = cc
>>>-eq-ok (some (ok a)) k b e = (a, refl, e)

module _ (p : Platform) (n : Network) (view : ChainView) (tx : Tx) (fuel : ℕ) where
  -- The reward of a block is old enough for the transaction.
  pub record IsMature (spent_block : Tx) : Type 0 where
    pub best : ℕ
    pub measured : best_height p n view tx ≡ ok best
    pub old_enough : view.height spent_block + n.reward_spend_min_blocks ≤ best

  -- An input that spends an output which exists, is older, is mature and is unlocked by the data.
  pub record IsSpendable (txin : TxInput) : Type 0 where
    pub spent : Tx
    pub stored : view.storage txin.tx_id ≡ some spent
    pub hashed : has_hash spent ≡ true
    pub in_range : txin.index < length spent.outputs
    pub older : spent.timestamp < tx.timestamp
    pub mature : is_block spent ≡ true → IsMature spent
    pub unlocked : script_eval p fuel tx txin spent ≡ some (ok tt)

  -- The cache is unset or holds the height.
  abbrev pub CacheOk : ℕ → Type 0
  CacheOk cache = (cache ≡ 0) ⊎ (best_height p n view tx ≡ ok cache)

  reward_of_cache :
      (b : Tx) (cache : ℕ)
      → CacheOk cache
      → verify_spent_reward p n view tx b cache ≡ verify_spent_reward p n view tx b 0
  unfolding verify_spent_reward
  reward_of_cache b zero h = refl
  reward_of_cache b (suc c) (inl h) = absurd (omega arith)
  reward_of_cache b (suc c) (inr h) = rw h refl

  reward_iff :
      (b : Tx) (best : ℕ)
      → (verify_spent_reward p n view tx b 0 ≡ ok best)
        ↔ ((best_height p n view tx ≡ ok best) × (view.height b + n.reward_spend_min_blocks ≤ best))
  unfolding verify_spent_reward check_reward
  reward_iff b best = ground arith

  existing_iff :
      (txin : TxInput) (spent : Tx)
      → (existing_output p n view tx txin ≡ ok spent) ↔ (
          (view.storage txin.tx_id ≡ some spent)
          × (has_hash spent ≡ true)
          × (txin.index < length spent.outputs))
  unfolding existing_output except_inexistent get_spent_tx get_transaction
  existing_iff txin spent = ground arith

  script_iff :
      (txin : TxInput) (spent : Tx) (u : Unit {0})
      → (verify_script p fuel tx txin spent ≡ some (ok u))
        ↔ (script_eval p fuel tx txin spent ≡ some (ok tt))
  unfolding verify_script except_script
  script_iff txin spent u = ground arith

  reward_cache_lem :
      (spent : Tx) (cache cache' : ℕ)
      → CacheOk cache
      → reward_cache p n view tx spent cache ≡ ok cache'
      → (is_block spent ≡ true → IsMature spent) × CacheOk cache'
  unfolding reward_cache
  reward_cache_lem spent cache cache' c e = elim (Bool-cases (is_block spent)) [
    | inl b ↦
        let r = (reward_iff spent cache').0 (sym (reward_of_cache spent cache c) ∙ (rw b at e)) in
        (λ _. record { best = cache'; measured = r.0; old_enough = r.1 }, inr r.0)
    | inr b ↦ (λ b'. cc, let q = ok-injective (rw b at e) in rw (← q) c)
  ]

  reward_cache_total :
      (spent : Tx) (cache : ℕ)
      → CacheOk cache
      → (is_block spent ≡ true → IsMature spent)
      → (cache' : ℕ) × (reward_cache p n view tx spent cache ≡ ok cache') × CacheOk cache'
  unfolding reward_cache
  reward_cache_total spent cache c m = elim (Bool-cases (is_block spent)) [
    | inl b ↦
        let r = m b in
        (
          r.best,
          rw b (
              reward_of_cache spent cache c
              ∙ (reward_iff spent r.best).1 (r.measured, r.old_enough)),
          inr r.measured,
        )
    | inr b ↦ (cache, rw b refl, c)
  ]

  check_input_lem :
      (txin : TxInput) (spent : Tx) (cache cache' : ℕ)
      → check_input p n view tx txin cache ≡ ok (spent, cache')
      → (existing_output p n view tx txin ≡ ok spent)
        × (spent.timestamp < tx.timestamp)
        × (reward_cache p n view tx spent cache ≡ ok cache')
  unfolding check_input
  check_input_lem txin spent cache cache' e = ground arith

  add_key_iff :
      (txin : TxInput) (seen : List Key) (cache : ℕ) (state : InputState)
      → (add_key p n view tx txin seen cache ≡ ok state) ↔ (
          (elem_key (outpoint txin) seen ≡ false)
          × (state ≡ record { spent_outputs = outpoint txin ∷ seen; height_cache = cache }))
  unfolding add_key
  add_key_iff txin seen cache state = ground arith

  check_input_total :
      (txin : TxInput) (cache : ℕ)
      → CacheOk cache
      → (h : IsSpendable txin)
      → (cache' : ℕ) × (check_input p n view tx txin cache ≡ ok (h.spent, cache')) × CacheOk cache'
  unfolding check_input
  check_input_total txin cache c h =
      let (cache', e, c') = reward_cache_total h.spent cache c h.mature in
      (
        cache',
        rw ((existing_iff txin h.spent).1 (h.stored, h.hashed, h.in_range))
            (rw (lt→leb tx.timestamp h.spent.timestamp h.older) (rw e refl)),
        c',
      )

  round_parts :
      (txin : TxInput) (state state' : InputState) (spent : Tx) (cache' : ℕ) (u : Unit {0})
      → CacheOk state.height_cache
      → check_input p n view tx txin state.height_cache ≡ ok (spent, cache')
      → verify_script p fuel tx txin spent ≡ some (ok u)
      → add_key p n view tx txin state.spent_outputs cache' ≡ ok state'
      → IsSpendable txin
        × (elem_key (outpoint txin) state.spent_outputs ≡ false)
        × (state'.spent_outputs ≡ outpoint txin ∷ state.spent_outputs)
        × CacheOk state'.height_cache
  round_parts txin state state' spent cache' u c e₁ e₂ e₃ =
      let (found, older, e₄) = check_input_lem txin spent state.height_cache cache' e₁ in
      let (stored, hashed, in_range) = (existing_iff txin spent).0 found in
      let (mature, c') = reward_cache_lem spent state.height_cache cache' c e₄ in
      let (fresh, q) = (add_key_iff txin state.spent_outputs cache' state').0 e₃ in
      (
        record {
          spent = spent;
          stored = stored;
          hashed = hashed;
          in_range = in_range;
          older = older;
          mature = mature;
          unlocked = (script_iff txin spent u).0 e₂;
        },
        fresh,
        ap (λ s. s.spent_outputs) q,
        subst CacheOk (sym (ap (λ s. s.height_cache) q)) c',
      )

  pub round_lem :
      (txin : TxInput) (state state' : InputState)
      → CacheOk state.height_cache
      → input_round p n view tx fuel txin state ≡ some (ok state')
      → IsSpendable txin
        × (elem_key (outpoint txin) state.spent_outputs ≡ false)
        × (state'.spent_outputs ≡ outpoint txin ∷ state.spent_outputs)
        × CacheOk state'.height_cache
  unfolding input_round
  round_lem txin state state' c e =
      let ((spent, cache'), e₁, e₂) =
        >>>-eq-ok (some (check_input p n view tx txin state.height_cache)) _ state' e in
      let (u, e₃, e₄) = >>>-eq-ok (verify_script p fuel tx txin spent) _ state' e₂ in
      round_parts txin state state' spent cache' u c (some_injective e₁) e₃ (some_injective e₄)

  pub round_total :
      (txin : TxInput) (state : InputState)
      → CacheOk state.height_cache
      → IsSpendable txin
      → elem_key (outpoint txin) state.spent_outputs ≡ false
      → (state' : InputState) × (input_round p n view tx fuel txin state ≡ some (ok state'))
        × (state'.spent_outputs ≡ outpoint txin ∷ state.spent_outputs)
        × CacheOk state'.height_cache
  unfolding input_round
  round_total txin state c h fresh =
      let (cache', e, c') = check_input_total txin state.height_cache c h in
      let new : InputState = record {
        spent_outputs = outpoint txin ∷ state.spent_outputs;
        height_cache = cache';
      } in
      (
        new,
        rw e (
            rw ((script_iff txin h.spent tt).1 h.unlocked)
              (rw ((add_key_iff txin state.spent_outputs cache' new).1 (fresh, refl)) refl)),
        refl,
        c',
      )
