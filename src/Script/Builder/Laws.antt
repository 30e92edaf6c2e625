-- ===== src/Script/Builder/Laws.antt =====
-- The bytes of the scripts that the builders of hathor/transaction/scripts.py make.
use khathor.Script.Opcode
use khathor.Script.Data.{Item, int, bytes}
use khathor.Bytes.{Bytes, slice, be}
use khathor.Script.Builder.{
  add_opcode, push_bytes, pack_int, timelock_prefix, multisig_output_script, one_byte, is_set,
  p2pkh_output_script, push_data,
}
use khathor.Prelude.{
  Option, ℕ, none, length, ◌∷◌, [], ◌≤◌, ◌≡◌, ◌++◌, ◌<◌, some, ◌^◌, length-take, arith, drop,
  append_assoc, suc, refl, length-drop, zero, if◌then◌else◌, leb,
}
use khathor.Errors.{ok, ◌>>=◌}
use khathor.Bytes.Laws.{length-be}

-- Pushed data, by its length: both forms of `pushData`.
abbrev pub pushed_form : Bytes → Bytes
pushed_form b = if leb (length b) 75 then length b ∷ b else Opcode.op_pushdata1 ∷ (length b ∷ b)

pub push_bytes_lem : (b s : Bytes) → length b < 256 → push_bytes b s ≡ ok (s ++ pushed_form b)
unfolding push_bytes one_byte
push_bytes_lem b s h = ground arith

pub pushed_form-short : (b : Bytes) → length b ≤ 75 → pushed_form b ≡ length b ∷ b
pushed_form-short b h = ground arith

pub pushed_form-long :
    (b : Bytes) → 75 < length b → pushed_form b ≡ Opcode.op_pushdata1 ∷ length b ∷ b
pushed_form-long b h = ground arith

-- The timelocks that the output scripts can check, with their four bytes.
pub data Locks : Option Item → Option Bytes → Type 0 where
  unlocked : Locks none none
  locked_int : (t : ℕ) → 65535 < t → t < 2 ^ 32 → Locks (some (int t)) (some (be 4 t))
  locked_bytes : (b : Bytes) → length b ≡ 4 → Locks (some (bytes b)) (some b)

-- What stands before the body of an output script.
abbrev pub lock_prefix : Option Bytes → Bytes
lock_prefix none = []
lock_prefix (some b) = 4 ∷ (b ++ Opcode.op_greaterthan_timestamp ∷ [])

lock_bytes_lem :
    (b : Bytes)
    → length b ≡ 4
    → (push_bytes b [] >>= λ s. ok (add_opcode Opcode.op_greaterthan_timestamp s))
      ≡ ok (lock_prefix (some b))
unfolding add_opcode
lock_bytes_lem b h =
    rw (push_bytes_lem b [] (omega (arith, h)))
      (rw (pushed_form-short b (omega (arith, h))) (rw h refl))

pack_int-four : (t : ℕ) → 65535 < t → t < 2 ^ 32 → pack_int t ≡ ok (be 4 t)
unfolding pack_int
pack_int-four t h k = ground arith

pub timelock_prefix_lem :
    (timelock : Option Item) (lock : Option Bytes)
    → Locks timelock lock
    → timelock_prefix timelock ≡ ok (lock_prefix lock)
unfolding timelock_prefix is_set push_data
timelock_prefix_lem _ _ unlocked = refl
timelock_prefix_lem _ _ (locked_int zero h k) = absurd (omega arith)
timelock_prefix_lem _ _ (locked_int (suc t) h k) =
    rw (pack_int-four (suc t) h k) (lock_bytes_lem (be 4 (suc t)) (length-be 4 (suc t)))
timelock_prefix_lem _ _ (locked_bytes [] e) = absurd (omega arith)
timelock_prefix_lem _ _ (locked_bytes (x ∷ xs) e) = lock_bytes_lem (x ∷ xs) e

-- The bodies of the two output scripts.
abbrev pub p2pkh_form : Bytes → Bytes
p2pkh_form hash =
    Opcode.op_dup
    ∷ Opcode.op_hash160
    ∷ 20
    ∷ (hash ++ Opcode.op_equalverify ∷ Opcode.op_checksig ∷ [])

abbrev pub multisig_form : Bytes → Bytes
multisig_form hash = Opcode.op_hash160 ∷ 20 ∷ (hash ++ Opcode.op_equal ∷ [])

-- The hash in an address of 25 bytes: address[1:-4].
abbrev pub hash_of : Bytes → Bytes
hash_of address = slice 1 20 address

pub length-hash_of : (address : Bytes) → length address ≡ 25 → length (hash_of address) ≡ 20
length-hash_of address e = length-take 20 (drop 1 address) (omega (arith, length-drop 1 address, e))

module _ (address : Bytes) (timelock : Option Item) (lock : Option Bytes) where
  pub p2pkh_output_script_lem :
      length address ≡ 25
      → Locks timelock lock
      → p2pkh_output_script address timelock ≡ ok (lock_prefix lock ++ p2pkh_form (hash_of address))
  unfolding p2pkh_output_script add_opcode
  p2pkh_output_script_lem e l =
      rw (e, timelock_prefix_lem timelock lock l)
        (rw (push_bytes_lem (hash_of address) _ (omega (arith, length-hash_of address e))) (
          rw (pushed_form-short (hash_of address) (omega (arith, length-hash_of address e)))
            (rw (length-hash_of address e) (simp append_assoc))))

  pub multisig_output_script_lem :
      length address ≡ 25
      → Locks timelock lock
      → multisig_output_script address timelock
        ≡ ok (lock_prefix lock ++ multisig_form (hash_of address))
  unfolding multisig_output_script add_opcode
  multisig_output_script_lem e l =
      rw (e, timelock_prefix_lem timelock lock l)
        (rw (push_bytes_lem (hash_of address) _ (omega (arith, length-hash_of address e))) (
          rw (pushed_form-short (hash_of address) (omega (arith, length-hash_of address e)))
            (rw (length-hash_of address e) (simp append_assoc))))
