-- ===== src/Script/Program/Run.antt =====
-- The loop of `execute_eval` of hathor/transaction/scripts.py on an assembled script.
use khathor.Script.Opcode
use khathor.Script.Machine.{ScriptExtras, Vm, LogEntry}
use khathor.Script.Program.{Instr, push, op, run, exec, IsInstr, encode, evaluate, assemble}
use khathor.Crypto.{Platform}
use khathor.Script.Eval.{step, eval_loop, execute_eval}
use khathor.Bytes.{Bytes}
use khathor.Prelude.{
  ◌++◌, Bool-cases, ◌<◌, ℕ, length, leb, ◌≤◌, ◌≡◌, ◌+◌, inl, ◌∷◌, leb→le, arith, [], inr,
  length-append, le→leb, refl, some, ◌&&◌, suc, le→ltb, zero, lt→ltb, List, ltb, true, All,
  append-nil, ◌∙◌, append_assoc,
}
use khathor.Errors.{◌>>=◌, ok, if-bind, err, Exn, Result-cases}
use khathor.Script.Builder.Laws.{pushed_form-long, pushed_form-short}
use khathor.Script.Program.Push.{index-length, op_pushdata1-long, op_pushdata-short}

module _ (p : Platform) (extras : ScriptExtras) where
  -- One round on a script with the instruction `i` at the position.
  abbrev StepRuns : Bytes → Instr → Bytes → Vm → Type 0
  StepRuns pre i post vm =
      step p extras (pre ++ (encode i ++ post)) (length pre) vm
      ≡ (exec p extras i vm >>= λ vm'. ok (vm', length (pre ++ encode i)))

  step-push_short :
      (pre b post : Bytes) (vm : Vm) → 0 < length b → length b ≤ 75 → StepRuns pre (push b) post vm
  unfolding step exec
  step-push_short pre b post vm h k =
      let e : length pre + 1 + length b ≡ length (pre ++ (length b ∷ b)) =
        omega (arith, length-append pre (length b ∷ b)) in
      rw (pushed_form-short b k) (
        rw (index-length pre (length b) (b ++ post)) (
          rw (le→leb 1 (length b) h, le→leb (length b) 75 k)
            (rw (op_pushdata-short pre b post k) (rw e refl))))

  step-push_long : (pre b post : Bytes) (vm : Vm) → 75 < length b → StepRuns pre (push b) post vm
  unfolding step exec
  step-push_long pre b post vm k =
      let e : length pre + 1 + 1 + length b ≡ length (pre ++ (Opcode.op_pushdata1 ∷ length b ∷ b)) =
        omega (arith, length-append pre (Opcode.op_pushdata1 ∷ length b ∷ b)) in
      rw (pushed_form-long b k) (
        rw (index-length pre Opcode.op_pushdata1 (length b ∷ (b ++ post)))
          (rw (op_pushdata1-long pre b post) (rw e refl)))

  step-op :
      (pre post : Bytes) (opcode : ℕ) (vm : Vm)
      → IsInstr (op opcode)
      → StepRuns pre (op opcode) post vm
  unfolding step exec
  step-op pre post opcode vm h =
      let e : length pre + 1 ≡ length (pre ++ opcode ∷ []) =
        omega (arith, length-append pre (opcode ∷ [])) in
      rw (index-length pre opcode post)
        (rw (h.0, h.1) (rw e (if-bind (leb Opcode.op_0 opcode && leb opcode Opcode.op_16) _ _ _)))

  step-instr : (pre post : Bytes) (i : Instr) (vm : Vm) → IsInstr i → StepRuns pre i post vm
  step-instr pre post (op opcode) vm h = step-op pre post opcode vm h
  step-instr pre post (push b) vm h = elim (Bool-cases (leb (length b) 75)) [
    | inl short ↦ step-push_short pre b post vm h.0 (leb→le _ _ short)
    | inr long ↦ step-push_long pre b post vm (ground arith)
  ]

  encode-pos : (i : Instr) → IsInstr i → 0 < length (encode i)
  encode-pos (op opcode) h = omega arith
  encode-pos (push b) h = ground arith

  eval_loop-end :
      (fuel : ℕ) (pre : Bytes) (vm : Vm)
      → eval_loop p extras fuel pre (length pre) vm ≡ some (ok vm)
  unfolding eval_loop
  eval_loop-end zero pre vm = rw (le→ltb (length pre) (length pre) (omega arith)) refl
  eval_loop-end (suc fuel) pre vm =
      rw (le→ltb (length pre) (length pre) (omega arith), eval_loop) refl

  position-inside :
      (pre post : Bytes) (i : Instr)
      → IsInstr i
      → ltb (length pre) (length (pre ++ (encode i ++ post))) ≡ true
  position-inside pre post i h = lt→ltb _ _ (
      omega (
        arith,
        length-append pre (encode i ++ post),
        length-append (encode i) post,
        encode-pos i h,
      ))

  eval_loop-ok :
      (fuel : ℕ) (pre post : Bytes) (i : Instr) (vm vm' : Vm)
      → IsInstr i
      → exec p extras i vm ≡ ok vm'
      → eval_loop p extras (suc fuel) (pre ++ (encode i ++ post)) (length pre) vm
        ≡ eval_loop p extras fuel (pre ++ (encode i ++ post)) (length (pre ++ encode i)) vm'
  unfolding eval_loop
  eval_loop-ok fuel pre post i vm vm' h e =
      rw (position-inside pre post i h, step-instr pre post i vm h, e, eval_loop) refl

  eval_loop-err :
      (fuel : ℕ) (pre post : Bytes) (i : Instr) (vm : Vm) (x : Exn)
      → IsInstr i
      → exec p extras i vm ≡ err x
      → eval_loop p extras (suc fuel) (pre ++ (encode i ++ post)) (length pre) vm ≡ some (err x)
  unfolding eval_loop
  eval_loop-err fuel pre post i vm x h e =
      rw (position-inside pre post i h, step-instr pre post i vm h, e, eval_loop) refl

  eval_loop-assemble :
      (is : List Instr) (fuel : ℕ) (pre : Bytes) (vm : Vm)
      → All IsInstr is
      → length is ≤ fuel
      → eval_loop p extras fuel (pre ++ assemble is) (length pre) vm ≡ some (run p extras is vm)
  unfolding run
  eval_loop-assemble [] fuel pre vm h k = rw (append-nil pre) (eval_loop-end fuel pre vm)
  eval_loop-assemble (i ∷ is) zero pre vm h k = absurd (omega arith)
  eval_loop-assemble (i ∷ is) (suc fuel) pre vm h k = elim (Result-cases (exec p extras i vm)) [
    | inr (x, e) ↦ rw e (eval_loop-err fuel pre (assemble is) i vm x h.0 e)
    | inl (vm', e) ↦ rw e (
        eval_loop-ok fuel pre (assemble is) i vm vm' h.0 e
        ∙ rw (← append_assoc pre (encode i) (assemble is))
            (eval_loop-assemble is fuel (pre ++ encode i) vm' h.1 (omega arith)))
  ]

  -- The evaluation of an assembled script, with a round of fuel for each instruction, is the run of
  -- its instructions followed by the test of the final stack: every error included.
  pub execute_eval-assemble :
      (prog : List Instr) (fuel : ℕ) (log : List LogEntry)
      → All IsInstr prog
      → length prog ≤ fuel
      → execute_eval p extras fuel (assemble prog) log ≡ some (evaluate p extras prog log)
  unfolding execute_eval evaluate
  execute_eval-assemble prog fuel log h k =
      rw (eval_loop-assemble prog fuel [] (record { stack = []; log = log }) h k, execute_eval) refl
