-- ===== src/Inputs/Laws.antt =====
-- `verify_inputs` of hathor/transaction/transaction.py.
use khathor.Prelude.{[], ◌∷◌, refl, some, inl, ℕ, ◌≡◌, List, ◌↔◌, map, All, subst, sym}
use khathor.Errors.{ok}
use khathor.Crypto.{Platform}
use khathor.Tx.Verify.{Network}
use khathor.Inputs.{ChainView, verify_inputs_loop, verify_inputs, InputState, outpoint, input_round}
use khathor.Tx.Base.{Tx}
use khathor.Tx.Input.{TxInput}
use khathor.Tx.Verify.Sets.{NoRepeat}
use khathor.Inputs.Round.{CacheOk, IsSpendable, round_total, >>>-eq-ok, round_lem}
use khathor.Inputs.Keys.{Fresh-NoRepeat, Fresh, All-Absent_nil}

module _ (p : Platform) (n : Network) (view : ChainView) (tx : Tx) (fuel : ℕ) where
  loop_lem :
      (txins : List TxInput) (state state' : InputState)
      → (CacheOk p n view tx fuel) state.height_cache
      → verify_inputs_loop p n view tx fuel txins state ≡ some (ok state')
      → All (IsSpendable p n view tx fuel) txins × Fresh (map outpoint txins) state.spent_outputs
  unfolding verify_inputs_loop
  loop_lem [] state state' c e = (tt, tt)
  loop_lem (txin ∷ txins) state state' c e =
      let (next, e₁, e₂) = >>>-eq-ok (input_round p n view tx fuel txin state) _ state' e in
      let (h, fresh, q, c') = (round_lem p n view tx fuel) txin state next c e₁ in
      let (hs, freshes) = loop_lem txins next state' c' e₂ in
      ((h, hs), (fresh, subst (Fresh (map outpoint txins)) q freshes))

  loop_total :
      (txins : List TxInput) (state : InputState)
      → (CacheOk p n view tx fuel) state.height_cache
      → All (IsSpendable p n view tx fuel) txins
      → Fresh (map outpoint txins) state.spent_outputs
      → (state' : InputState) × (verify_inputs_loop p n view tx fuel txins state ≡ some (ok state'))
  unfolding verify_inputs_loop
  loop_total [] state c h f = (state, refl)
  loop_total (txin ∷ txins) state c h f =
      let (next, e, q, c') = (round_total p n view tx fuel) txin state c h.0 f.0 in
      let (state', e') =
        loop_total txins next c' h.1 (subst (Fresh (map outpoint txins)) (sym q) f.1) in
      (state', rw e e')

  -- `verify_inputs` accepts exactly the transactions of whose inputs no two spend the same output, and
  -- each spends an output that exists, of an older transaction or block, of a block only when its
  -- reward is old enough, with data that the scripts accept within the fuel.
  pub verify_inputs_iff :
      (verify_inputs p n view tx fuel ≡ some (ok tt))
      ↔ (NoRepeat (map outpoint tx.inputs) × All (IsSpendable p n view tx fuel) tx.inputs)
  unfolding verify_inputs
  verify_inputs_iff =
      let start : InputState = record { spent_outputs = []; height_cache = 0 } in
      let keys = Fresh-NoRepeat (map outpoint tx.inputs) [] in
      (
        λ e.
            let (state', e₁, e₂) =
              >>>-eq-ok (verify_inputs_loop p n view tx fuel tx.inputs start) _ tt e in
            let (h, f) = loop_lem tx.inputs start state' (inl refl) e₁ in ((keys.0 f).0, h),
        λ h.
            let (state', e) =
              loop_total tx.inputs start (inl refl) h.1 (keys.1 (h.0, All-Absent_nil _)) in
            rw e refl,
      )
