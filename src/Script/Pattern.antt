-- ===== src/Script/Pattern.antt =====
-- Recognizing output scripts: `re_compile`, and the `re_match` and `parse_script` of `P2PKH` and
-- `MultiSig`, with `parse_address_script`, of hathor/transaction/scripts.py.
-- A compiled pattern is a matcher that hands the groups to what follows, so that a failure further on
-- goes back to the other alternatives, as Python's `re` does. The patterns are anchored at `^`, and
-- `$` accepts one newline (10) before the end.
pub mod Laws
use khathor.Script.Opcode
use khathor.Prelude.{
  Option, ℕ, none, some, ◌∷◌, [], if◌then◌else◌, ◌==◌, length, ◌&&◌, drop, leb, ◌++◌, take,
}
use khathor.Crypto.{
  Platform, get_address_b58_from_public_key_hash, get_address_b58_from_redeem_script_hash,
}
use khathor.Bytes.{Bytes, from_be}
use khathor.Errors.{Result, ok, ◌>>=◌, err, struct_error}
use khathor.Script.Data.{get_pushdata}

-- the first alternative that matches
abbrev pub or_else {ℓ} : {A : Type ℓ} → Option A → Option A → Option A
or_else none b = b
or_else (some a) b = some a

-- An opcode.
abbrev pub literal {ℓ} : {R : Type ℓ} → ℕ → (Bytes → Option R) → Bytes → Option R
literal opcode k [] = none
literal opcode k (b ∷ rest) = if b == opcode then k rest else none

-- The length byte `n` and `.{n}`; `pre` is the part of the group before it.
unfoldable pub sized : {R : Type 0} → Bytes → ℕ → (Bytes → Bytes → Option R) → Bytes → Option R
sized pre n k [] = none
sized pre n k (b ∷ rest) =
    if b == n && leb n (length rest) then k (pre ++ (b ∷ take n rest)) (drop n rest) else none

-- DATA_<n> for n up to 75, of `_re_pushdata`: the OP_PUSHDATA1 before the length is optional.
unfoldable pub pushed : {R : Type 0} → ℕ → (Bytes → Bytes → Option R) → Bytes → Option R
pushed n k bs =
    or_else (literal Opcode.op_pushdata1 (sized (Opcode.op_pushdata1 ∷ []) n k) bs)
      (sized [] n k bs)

-- `$`
abbrev pub at_end : {R : Type 0} → R → Bytes → Option R
at_end r [] = some r
at_end r (b ∷ []) = if b == 10 then some r else none
at_end r (b ∷ c ∷ rest) = none

-- The groups of both patterns: the pushed timelock, if there is one, and the pushed hash.
abbrev pub Groups : Type 0
Groups = Option Bytes × Bytes

-- OP_DUP OP_HASH160 (DATA_20) OP_EQUALVERIFY OP_CHECKSIG$
unfoldable pub p2pkh_body : Option Bytes → Bytes → Option Groups
p2pkh_body timelock = literal Opcode.op_dup (
    literal Opcode.op_hash160 (
      pushed 20 λ hash.
        literal Opcode.op_equalverify (literal Opcode.op_checksig (at_end (timelock, hash)))))

-- OP_HASH160 (DATA_20) OP_EQUAL$
unfoldable pub multisig_body : Option Bytes → Bytes → Option Groups
multisig_body timelock =
    literal Opcode.op_hash160 (pushed 20 λ hash. literal Opcode.op_equal (at_end (timelock, hash)))

-- ^(?:(DATA_4) OP_GREATERTHAN_TIMESTAMP)?, then the body
unfoldable pub with_timelock : (Option Bytes → Bytes → Option Groups) → Bytes → Option Groups
with_timelock body script =
    or_else (pushed 4 (λ t. literal Opcode.op_greaterthan_timestamp (body (some t))) script)
      (body none script)

-- P2PKH.re_match.search and MultiSig.re_match.search
unfoldable pub match_p2pkh : Bytes → Option Groups
match_p2pkh = with_timelock p2pkh_body

unfoldable pub match_multisig : Bytes → Option Groups
match_multisig = with_timelock multisig_body

-- An object of one of the two classes.
pub data Address : Type 0 where
  p2pkh : Bytes → Option ℕ → Address
  multisig : Bytes → Option ℕ → Address

-- struct.unpack('!I', pushdata_timelock[1:]), where the group matched
unfoldable pub timelock_value : Option Bytes → Result (Option ℕ)
timelock_value none = ok none
timelock_value (some pushdata_timelock) =
    if length (drop 1 pushdata_timelock) == 4
    then ok (some (from_be 0 (drop 1 pushdata_timelock)))
    else err struct_error

-- P2PKH.parse_script, from the result of the match
unfoldable pub p2pkh_of_groups : Platform → Option Groups → Result (Option Address)
p2pkh_of_groups p none = ok none
p2pkh_of_groups p (some (pushdata_timelock, pushdata_address)) = do
  timelock ← timelock_value pushdata_timelock
  public_key_hash ← get_pushdata pushdata_address
  ok (some (p2pkh (get_address_b58_from_public_key_hash p public_key_hash) timelock))

unfoldable pub parse_p2pkh : Platform → Bytes → Result (Option Address)
parse_p2pkh p script = p2pkh_of_groups p (match_p2pkh script)

unfoldable pub multisig_of_groups : Platform → Option Groups → Result (Option Address)
multisig_of_groups p none = ok none
multisig_of_groups p (some (pushdata_timelock, pushdata_address)) = do
  timelock ← timelock_value pushdata_timelock
  redeem_script_hash ← get_pushdata pushdata_address
  ok (some (multisig (get_address_b58_from_redeem_script_hash p redeem_script_hash) timelock))

unfoldable pub parse_multisig : Platform → Bytes → Result (Option Address)
parse_multisig p script = multisig_of_groups p (match_multisig script)

-- The first class whose pattern matches parses the script.
unfoldable pub parse_address_script : Platform → Bytes → Result (Option Address)
parse_address_script p script = elim (match_p2pkh script) [
  | some _ ↦ parse_p2pkh p script
  | none ↦ elim (match_multisig script) [ some _ ↦ parse_multisig p script | none ↦ ok none ]
]
