-- ===== src/Script/Pattern/Laws.antt =====
-- The parsers of `P2PKH` and `MultiSig` of hathor/transaction/scripts.py on the
-- scripts of the builders.
use mathlib.Core.Option
use khathor.Script.Opcode
use khathor.Script.Data.{Item, get_pushdata}
use khathor.Script.Pattern.{
  p2pkh, multisig, multisig_body, p2pkh_body, with_timelock, sized, pushed, Groups, or_else,
  match_p2pkh, literal, timelock_value, match_multisig, parse_p2pkh, parse_multisig,
  p2pkh_of_groups, multisig_of_groups, parse_address_script,
}
use khathor.Prelude.{
  Option, ℕ, ◌<◌, length, some, ◌≡◌, ◌∷◌, none, ◌++◌, ◌≤◌, [], arith, length-append, ==_refl,
  le→leb, take_of_length, drop_of_length, append_assoc, ne→==_false, refl, ◌∙◌, ◌==◌, false, ap,
  take, sym, append-nil,
}
use khathor.Bytes.{Bytes, from_be, index}
use khathor.Script.Builder.Laws.{
  lock_prefix, multisig_form, p2pkh_form, Locks, locked_int, locked_bytes, unlocked, hash_of,
  length-hash_of, p2pkh_output_script_lem, multisig_output_script_lem,
}
use khathor.Crypto.{
  Platform, get_address_b58_from_redeem_script_hash, get_address_b58_from_public_key_hash,
}
use khathor.Errors.{ok}
use khathor.Bytes.Laws.{length-be}
use khathor.Script.Builder.{p2pkh_output_script, multisig_output_script}

sized-append :
    {R : Type 0} (pre : Bytes) (n : ℕ) (k : Bytes → Bytes → Option R) (d rest : Bytes)
    → length d ≡ n
    → sized pre n k (n ∷ (d ++ rest)) ≡ k (pre ++ (n ∷ d)) rest
unfolding sized
sized-append pre n k d rest e =
    let le : n ≤ length (d ++ rest) = omega (arith, length-append d rest, e) in
    rw (==_refl n, le→leb n (length (d ++ rest)) le)
      (rw (take_of_length n d rest e, drop_of_length n d rest e) refl)

pushed-append :
    {R : Type 0} (n : ℕ) (k : Bytes → Bytes → Option R) (d rest : Bytes)
    → n < 76
    → length d ≡ n
    → pushed n k (n ∷ (d ++ rest)) ≡ k (n ∷ d) rest
unfolding pushed
pushed-append n k d rest h e = rw (ne→==_false n 76 (omega arith)) (sized-append [] n k d rest e)

p2pkh_body-form :
    (t : Option Bytes) (hash : Bytes)
    → length hash ≡ 20
    → p2pkh_body t (p2pkh_form hash) ≡ some (t, 20 ∷ hash)
unfolding p2pkh_body
p2pkh_body-form t hash e =
    pushed-append 20 _ hash (Opcode.op_equalverify ∷ Opcode.op_checksig ∷ []) (omega arith) e

multisig_body-form :
    (t : Option Bytes) (hash : Bytes)
    → length hash ≡ 20
    → multisig_body t (multisig_form hash) ≡ some (t, 20 ∷ hash)
unfolding multisig_body
multisig_body-form t hash e = pushed-append 20 _ hash (Opcode.op_equal ∷ []) (omega arith) e

-- The group of the timelock.
abbrev pub lock_group : Option Bytes → Option Bytes
lock_group none = none
lock_group (some b) = some (4 ∷ b)

abbrev pub IsLock : Option Bytes → Type 0
IsLock none = Unit
IsLock (some b) = length b ≡ 4

with_timelock-some :
    (body : Option Bytes → Bytes → Option Groups) (b rest : Bytes)
    → length b ≡ 4
    → with_timelock body (lock_prefix (some b) ++ rest)
      ≡ or_else (body (some (4 ∷ b)) rest) (body none (lock_prefix (some b) ++ rest))
unfolding with_timelock
with_timelock-some body b rest e = rw (append_assoc b (Opcode.op_greaterthan_timestamp ∷ []) rest) (
    rw
      (pushed-append 4 (λ t. literal Opcode.op_greaterthan_timestamp (body (some t))) b
        (Opcode.op_greaterthan_timestamp ∷ rest) (omega arith) e)
      refl)

with_timelock-other :
    (body : Option Bytes → Bytes → Option Groups) (op : ℕ) (rest : Bytes)
    → (op == 4) ≡ false
    → (op == Opcode.op_pushdata1) ≡ false
    → with_timelock body (op ∷ rest) ≡ body none (op ∷ rest)
unfolding with_timelock pushed sized
with_timelock-other body op rest a b = rw (a, b)

-- What the two patterns find in the built scripts.
module _ (lock : Option Bytes) (hash : Bytes) (l : IsLock lock) (e : length hash ≡ 20) where
  match_p2pkh-form :
      match_p2pkh (lock_prefix lock ++ p2pkh_form hash) ≡ some (lock_group lock, 20 ∷ hash)
  unfolding match_p2pkh
  match_p2pkh-form = go lock l
    where
      go :
          (o : Option Bytes)
          → IsLock o
          → with_timelock p2pkh_body (lock_prefix o ++ p2pkh_form hash)
            ≡ some (lock_group o, 20 ∷ hash)
      go none l =
          with_timelock-other p2pkh_body Opcode.op_dup _ refl refl ∙ p2pkh_body-form none hash e
      go (some b) l =
          with_timelock-some p2pkh_body b (p2pkh_form hash) l
          ∙ rw (p2pkh_body-form (some (4 ∷ b)) hash e) refl

  pub match_multisig-form :
      match_multisig (lock_prefix lock ++ multisig_form hash) ≡ some (lock_group lock, 20 ∷ hash)
  unfolding match_multisig
  match_multisig-form = go lock l
    where
      go :
          (o : Option Bytes)
          → IsLock o
          → with_timelock multisig_body (lock_prefix o ++ multisig_form hash)
            ≡ some (lock_group o, 20 ∷ hash)
      go none l =
          with_timelock-other multisig_body Opcode.op_hash160 _ refl refl
          ∙ multisig_body-form none hash e
      go (some b) l =
          with_timelock-some multisig_body b (multisig_form hash) l
          ∙ rw (multisig_body-form (some (4 ∷ b)) hash e) refl

  pub match_multisig-p2pkh_form : match_multisig (lock_prefix lock ++ p2pkh_form hash) ≡ none
  unfolding match_multisig multisig_body
  match_multisig-p2pkh_form = go lock l
    where
      go :
          (o : Option Bytes)
          → IsLock o
          → with_timelock multisig_body (lock_prefix o ++ p2pkh_form hash) ≡ none
      go none l = with_timelock-other multisig_body Opcode.op_dup _ refl refl
      go (some b) l = with_timelock-some multisig_body b (p2pkh_form hash) l

  match_p2pkh-multisig_form : match_p2pkh (lock_prefix lock ++ multisig_form hash) ≡ none
  unfolding match_p2pkh p2pkh_body
  match_p2pkh-multisig_form = go lock l
    where
      go :
          (o : Option Bytes)
          → IsLock o
          → with_timelock p2pkh_body (lock_prefix o ++ multisig_form hash) ≡ none
      go none l = with_timelock-other p2pkh_body Opcode.op_hash160 _ refl refl
      go (some b) l = with_timelock-some p2pkh_body b (multisig_form hash) l

get_pushdata-hash : (hash : Bytes) → length hash ≡ 20 → get_pushdata (20 ∷ hash) ≡ ok hash
unfolding get_pushdata index
get_pushdata-hash hash e =
    ap ok (ap (λ l. take 20 l) (sym (append-nil hash)) ∙ take_of_length 20 hash [] e)

timelock_value-group :
    (lock : Option Bytes)
    → IsLock lock
    → timelock_value (lock_group lock) ≡ ok (Option.map (from_be 0) lock)
unfolding timelock_value
timelock_value-group none l = refl
timelock_value-group (some b) l = rw l

pub Locks-IsLock : {t : Option Item} (lock : Option Bytes) → Locks t lock → IsLock lock
Locks-IsLock _ unlocked = tt
Locks-IsLock _ (locked_int t h k) = length-be 4 t
Locks-IsLock _ (locked_bytes b e) = e

parse_address_script-p2pkh :
    (p : Platform) (script : Bytes) (g : Groups)
    → match_p2pkh script ≡ some g
    → parse_address_script p script ≡ parse_p2pkh p script
unfolding parse_address_script
parse_address_script-p2pkh p script g h = rw (h, parse_address_script) refl

parse_address_script-multisig :
    (p : Platform) (script : Bytes) (g : Groups)
    → match_p2pkh script ≡ none
    → match_multisig script ≡ some g
    → parse_address_script p script ≡ parse_multisig p script
unfolding parse_address_script
parse_address_script-multisig p script g n h = rw (n, h, parse_address_script) refl

module _ (p : Platform) (address : Bytes) (timelock : Option Item) (lock : Option Bytes)
    (e : length address ≡ 25) (l : Locks timelock lock) where
  -- For an address of 25 bytes and a timelock that is absent or takes four bytes, the P2PKH script is
  -- built, and both parsers find in it the P2PKH address of the hash and the timelock.
  pub p2pkh_round_trip :
      (script : Bytes) × (p2pkh_output_script address timelock ≡ ok script)
      × (parse_p2pkh p script
          ≡ ok (
              some (
                p2pkh
                  (get_address_b58_from_public_key_hash p (hash_of address))
                  (Option.map (from_be 0) lock))))
      × (parse_address_script p script ≡ parse_p2pkh p script)
  unfolding parse_p2pkh p2pkh_of_groups
  p2pkh_round_trip =
      let k = length-hash_of address e in
      let i = Locks-IsLock lock l in
      (
        _,
        p2pkh_output_script_lem address timelock lock e l,
        rw (match_p2pkh-form lock (hash_of address) i k)
            (rw (timelock_value-group lock i) (rw (get_pushdata-hash (hash_of address) k) refl)),
        parse_address_script-p2pkh p _ _ (match_p2pkh-form lock (hash_of address) i k),
      )

  -- For an address of 25 bytes and a timelock that is absent or takes four bytes, the MultiSig script is
  -- built, and both parsers find in it the MultiSig address of the hash and the timelock.
  pub multisig_round_trip :
      (script : Bytes) × (multisig_output_script address timelock ≡ ok script)
      × (parse_multisig p script
          ≡ ok (
              some (
                multisig
                  (get_address_b58_from_redeem_script_hash p (hash_of address))
                  (Option.map (from_be 0) lock))))
      × (parse_address_script p script ≡ parse_multisig p script)
  unfolding parse_multisig multisig_of_groups
  multisig_round_trip =
      let k = length-hash_of address e in
      let i = Locks-IsLock lock l in
      (
        _,
        multisig_output_script_lem address timelock lock e l,
        rw (match_multisig-form lock (hash_of address) i k)
            (rw (timelock_value-group lock i) (rw (get_pushdata-hash (hash_of address) k) refl)),
        parse_address_script-multisig p _ _ (match_p2pkh-multisig_form lock (hash_of address) i k)
            (match_multisig-form lock (hash_of address) i k),
      )
