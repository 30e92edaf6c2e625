-- ===== src/Tx/Tokens/Balance.antt =====
-- The balance of one token in the `token_dict` of hathor/transaction/transaction.py, through the loops
-- over the inputs and the outputs.
use khathor.Prelude.{
  refl, ◌∷◌, [], ℕ, if◌then◌else◌, ◌+◌, ◌≡◌, some, false, arith, Bool-cases, inl, inr, ap, Bool,
  ◌||◌,
}
use khathor.Tx.Output.{TxOutput, is_token_authority, can_mint_token, can_melt_token}
use khathor.Tx.Tokens.{TokenInfo, spent_info, info_of, created_info, get_info, set_info, TokenDict}
use khathor.Bytes.{Bytes, bytes_eq}
use khathor.Prelude.Int.{pos_part, neg_part, -ℤ_parts, +ℤ_parts, pos}
use khathor.Errors.{ok}
use khathor.Bytes.Laws.{bytes_eq_refl, eq_of_bytes_eq}

-- What the spent output and the created output of a token add to its sums.
abbrev pub value_of : TxOutput → ℕ
value_of output = if is_token_authority output then 0 else output.value

-- The amount is the sum `o` of the outputs less the sum `i` of the inputs, and the authorities are
-- `mint` and `melt`.
pub record Tracks (info : TokenInfo) (i o : ℕ) (mint melt : Bool) : Type 0 where
  pub balanced : pos_part info.amount + i ≡ neg_part info.amount + o
  pub mints : info.can_mint ≡ mint
  pub melts : info.can_melt ≡ melt

info_of-set_info-same :
    (t : Bytes) (info : TokenInfo) (d : TokenDict) → info_of t (set_info t info d) ≡ info
unfolding info_of set_info
info_of-set_info-same t info [] = rw (bytes_eq_refl t) refl
info_of-set_info-same t info ((u, i) ∷ d) = elim (Bool-cases (bytes_eq t u)) [
  | inl e ↦ rw e (rw e refl)
  | inr e ↦ rw e (rw e (info_of-set_info-same t info d))
]

info_of-set_info-other :
    (t u : Bytes) (info : TokenInfo) (d : TokenDict)
    → bytes_eq t u ≡ false
    → info_of t (set_info u info d) ≡ info_of t d
unfolding info_of set_info
info_of-set_info-other t u info [] h = rw h refl
info_of-set_info-other t u info ((v, i) ∷ d) h = elim (Bool-cases (bytes_eq u v)) [
  | inl e ↦ let f : bytes_eq t v ≡ false = rw (eq_of_bytes_eq u v e) at h in rw e (rw f refl)
  | inr e ↦ rw e (ap (λ r. if bytes_eq t v then i else r) (info_of-set_info-other t u info d h))
]

pub get_info-info_of :
    (t : Bytes) (d : TokenDict) (info : TokenInfo) → get_info t d ≡ some info → info_of t d ≡ info
unfolding info_of get_info
get_info-info_of t [] info h = cc
get_info-info_of t ((u, i) ∷ d) info h = ground (arith, get_info-info_of t d info)

pub info_of-set_info :
    (t u : Bytes) (info : TokenInfo) (d : TokenDict)
    → info_of t (set_info u info d) ≡ (if bytes_eq t u then info else info_of t d)
info_of-set_info t u info d = elim (Bool-cases (bytes_eq t u)) [
  | inl e ↦ rw e (rw (← eq_of_bytes_eq t u e) (info_of-set_info-same t info d))
  | inr e ↦ rw e (info_of-set_info-other t u info d e)
]

pub spent_info-Tracks :
    (output : TxOutput) (info : TokenInfo) {i o : ℕ} {mint melt : Bool}
    → Tracks info i o mint melt
    → Tracks
        (spent_info output info)
        (i + value_of output)
        o
        (mint || can_mint_token output)
        (melt || can_melt_token output)
unfolding spent_info can_mint_token can_melt_token
spent_info-Tracks output info h = ground (arith, -ℤ_parts info.amount (pos output.value))

pub created_info-Tracks :
    (output : TxOutput) (info info' : TokenInfo) {i o : ℕ} {mint melt : Bool}
    → created_info output info ≡ ok info'
    → Tracks info i o mint melt
    → Tracks info' i (o + value_of output) mint melt
unfolding created_info
created_info-Tracks output info info' e h = ground (arith, +ℤ_parts info.amount (pos output.value))
