-- ===== src/Script/Eval/Termination.antt =====
-- The rounds of the loop of `execute_eval` of hathor/transaction/scripts.py.
use khathor.Script.Opcode
use khathor.Script.Data.{op_pushdata1, op_pushdata}
use khathor.Crypto.{Platform}
use khathor.Prelude.{
  ℕ, ◌≡◌, length, ◌<◌, ◌≤◌, ◌+◌, arith, some, le→ltb, suc, zero, refl, Bool-cases, ltb, ap,
  if_cases, inr, leb, inl, ◌&&◌, ◌==◌, false, true, List, [],
}
use khathor.Script.Machine.{ScriptExtras, Vm, op_integer, LogEntry}
use khathor.Bytes.{Bytes, index}
use khathor.Script.Eval.{eval_loop, step, push, call_opcode, execute_eval, evaluate_final_stack}
use khathor.Errors.{ok, Result, ◌>>=◌, >>=-eq-ok, ok-injective, Result-cases, err, Exn}

op_pushdata-lt :
    (pos : ℕ) (script b : Bytes) (pos' : ℕ) → op_pushdata pos script ≡ ok (b, pos') → pos < pos'
unfolding op_pushdata
op_pushdata-lt pos script b pos' h = ground arith

op_pushdata1-lt :
    (pos : ℕ) (script b : Bytes) (pos' : ℕ) → op_pushdata1 pos script ≡ ok (b, pos') → pos < pos'
unfolding op_pushdata1
op_pushdata1-lt pos script b pos' h = ground arith

module _ (p : Platform) (extras : ScriptExtras) where
  push_step-lt :
      (r : Result (Bytes × ℕ)) (pos : ℕ) (vm : Vm) (v : Vm × ℕ)
      → ((b : Bytes) (pos' : ℕ) → r ≡ ok (b, pos') → pos < pos')
      → (r >>= λ q. ok (push p extras vm q)) ≡ ok v
      → pos < v.1
  push_step-lt r pos vm v lt h =
      let ((b, pos'), e, f) = >>=-eq-ok r _ h in
      rw (← ap (λ (w : Vm × ℕ). w.1) (ok-injective f)) (lt b pos' e)

  next_step-lt :
      (r : Result Vm) (pos : ℕ) (v : Vm × ℕ) → (r >>= λ vm. ok (vm, pos + 1)) ≡ ok v → pos < v.1
  next_step-lt r pos v h =
      let (vm, e, f) = >>=-eq-ok r _ h in omega (arith, ap (λ (w : Vm × ℕ). w.1) (ok-injective f))

  -- Each round moves the position forward.
  step-lt :
      (script : Bytes) (pos : ℕ) (vm : Vm) (v : Vm × ℕ)
      → step p extras script pos vm ≡ ok v
      → pos < v.1
  unfolding step
  step-lt script pos vm v h =
      let (opcode, _, e) = >>=-eq-ok (index script pos) _ h in
      if_cases (leb 1 opcode && leb opcode 75) e
        (push_step-lt (op_pushdata pos script) pos vm v (op_pushdata-lt pos script))
        λ e₁.
          if_cases (opcode == Opcode.op_pushdata1) e₁
            (push_step-lt (op_pushdata1 pos script) pos vm v (op_pushdata1-lt pos script))
            λ e₂.
              if_cases (leb Opcode.op_0 opcode && leb opcode Opcode.op_16) e₂
                (next_step-lt (op_integer opcode vm) pos v)
                (next_step-lt (call_opcode p extras opcode vm) pos v)

  eval_loop-out :
      (fuel : ℕ) (script : Bytes) (pos : ℕ) (vm : Vm)
      → ltb pos (length script) ≡ false
      → eval_loop p extras fuel script pos vm ≡ some (ok vm)
  unfolding eval_loop
  eval_loop-out zero script pos vm out = rw (out, eval_loop) refl
  eval_loop-out (suc fuel) script pos vm out = rw (out, eval_loop) refl

  eval_loop-err :
      (n fuel : ℕ) (script : Bytes) (pos : ℕ) (vm : Vm) (x : Exn)
      → suc n ≤ fuel
      → ltb pos (length script) ≡ true
      → step p extras script pos vm ≡ err x
      → eval_loop p extras fuel script pos vm ≡ some (err x)
  unfolding eval_loop
  eval_loop-err n zero script pos vm x h inside e = absurd (omega arith)
  eval_loop-err n (suc fuel) script pos vm x h inside e = rw (inside, e, eval_loop) refl

  eval_loop-more :
      (n fuel : ℕ) (script : Bytes) (pos : ℕ) (vm vm' : Vm) (pos' : ℕ) (r : Result Vm)
      → suc n ≤ fuel
      → ltb pos (length script) ≡ true
      → step p extras script pos vm ≡ ok (vm', pos')
      → ((fuel : ℕ) → n ≤ fuel → eval_loop p extras fuel script pos' vm' ≡ some r)
      → eval_loop p extras fuel script pos vm ≡ some r
  unfolding eval_loop
  eval_loop-more n zero script pos vm vm' pos' r h inside e f = absurd (omega arith)
  eval_loop-more n (suc fuel) script pos vm vm' pos' r h inside e f =
      rw (inside, e, eval_loop) (f fuel (omega arith))

  -- Fuel for the rest of the script is enough, and more fuel gives the same result.
  eval_loop-total :
      (enough : ℕ) (script : Bytes) (pos : ℕ) (vm : Vm)
      → length script ≤ pos + enough
      → (r : Result Vm) × ((fuel : ℕ)
          → enough ≤ fuel
          → eval_loop p extras fuel script pos vm ≡ some r)
  eval_loop-total zero script pos vm h =
      (ok vm, λ fuel _. eval_loop-out fuel script pos vm (le→ltb pos (length script) (omega arith)))
  eval_loop-total (suc n) script pos vm h = elim (Bool-cases (ltb pos (length script))) [
    | inr out ↦ (ok vm, λ fuel _. eval_loop-out fuel script pos vm out)
    | inl inside ↦ elim (Result-cases (step p extras script pos vm)) [
      | inr (x, e) ↦ (err x, λ fuel k. eval_loop-err n fuel script pos vm x k inside e)
      | inl ((vm', pos'), e) ↦
          let lt : pos < pos' = step-lt script pos vm (vm', pos') e in
          let (r, f) = eval_loop-total n script pos' vm' (omega arith) in
          (r, λ fuel k. eval_loop-more n fuel script pos vm vm' pos' r k inside e f)
    ]
  ]

-- The evaluation of a script of any bytes ends: as many rounds as the script has bytes are enough,
-- and with more fuel the result, or the error, is the same.
pub execute_eval_terminates :
    (p : Platform) (extras : ScriptExtras) (script : Bytes) (log : List LogEntry) (fuel : ℕ)
    → length script ≤ fuel
    → (r : Result (List LogEntry)) × (execute_eval p extras (length script) script log ≡ some r)
      × (execute_eval p extras fuel script log ≡ some r)
unfolding execute_eval
execute_eval_terminates p extras script log fuel h =
    let (r, f) =
      eval_loop-total p extras (length script) script 0 (record { stack = []; log = log })
        (omega arith) in
    (
      r >>= evaluate_final_stack p extras,
      rw (f (length script) (omega arith), execute_eval) refl,
      rw (f fuel h, execute_eval) refl,
    )
