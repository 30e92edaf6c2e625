-- ===== src/Script/Eval/Stuck.antt =====
-- `MultiSig.get_multisig_data` of hathor/transaction/scripts.py on data that do not only push: its
-- loop has no branch for such an opcode.
use khathor.Script.Opcode
use khathor.Prelude.{
  ℕ, leb, ◌&&◌, ◌∷◌, Option, ltb, ◌≡◌, false, length, none, true, ◌==◌, suc, refl, zero, lt→ltb,
  arith,
}
use khathor.Script.Eval.{get_multisig_data, multisig_loop}
use khathor.Bytes.{Bytes, index}
use khathor.Errors.{ok}

-- An opcode that pushes no data.
abbrev pub PushesNothing : ℕ → Type 0
PushesNothing opcode =
    ((leb 1 opcode && leb opcode 75) ≡ false) × ((opcode == Opcode.op_pushdata1) ≡ false)

multisig_loop-stuck :
    (fuel : ℕ) (input_data : Bytes) (pos last_pos : ℕ) (top : Option Bytes) (opcode : ℕ)
    → ltb pos (length input_data) ≡ true
    → index input_data pos ≡ ok opcode
    → PushesNothing opcode
    → multisig_loop fuel input_data pos last_pos top ≡ none
unfolding multisig_loop
multisig_loop-stuck zero input_data pos last_pos top opcode inside e h =
    rw (inside, multisig_loop) refl
multisig_loop-stuck (suc fuel) input_data pos last_pos top opcode inside e h =
    rw (inside, e, h.0, h.1, multisig_loop)
      (multisig_loop-stuck fuel input_data pos pos top opcode inside e h)

-- Data whose first opcode pushes nothing, such as OP_1, keep the loop running for ever: it returns
-- with no amount of fuel.
pub get_multisig_data_runs_on :
    (fuel opcode : ℕ) (rest : Bytes)
    → PushesNothing opcode
    → get_multisig_data fuel (opcode ∷ rest) ≡ none
unfolding get_multisig_data index
get_multisig_data_runs_on fuel opcode rest h =
    rw
      (
        multisig_loop-stuck fuel (opcode ∷ rest) 0 0 none opcode (lt→ltb 0 _ (omega arith)) refl h,
        get_multisig_data,
      )
      refl
