-- ===== src/Tx/Creation/Rules.antt =====
-- The rules of a transaction that creates a token: `verify_sum` and `verify_token_info` of
-- hathor/transaction/token_creation_tx.py, and `clean_token_string` of hathor/transaction/util.py.
pub mod Mints
use khathor.Prelude.{
  [], ◌∷◌, none, some, true, false, zero, suc, if◌then◌else◌, reverse, ℕ, length, Bool, ◌==◌, ◌++◌,
  ltb, not, ◌||◌,
}
use khathor.Errors.{
  err, Result, ◌>>◌, ◌>>=◌, guard, assertion_error, transaction_data_error, key_error,
  invalid_token,
}
use khathor.Tx.Creation.{Str, Text, TokenCreationTx}
use khathor.Prelude.Int.{ℤ, pos, negsuc}
use khathor.Tx.Tokens.{
  TokenSettings, TokenInfo, Storage, get_token_info_from_inputs, update_token_info_from_outputs,
  set_info, get_info, check_authorities_and_deposit, TokenDict,
}
use khathor.Tx.Base.{Tx}
use khathor.Bytes.{Bytes, bytes_eq}

abbrev space : ℕ
space = 32

module _ (t : Text) where
  -- What `re.sub(r'\s\s+', ' ', s)` writes for a run of `count` spaces that `first` starts.
  abbrev run_of : ℕ → ℕ → Str
  run_of zero first = []
  run_of (suc zero) first = first ∷ []
  run_of (suc (suc n)) first = space ∷ []

  -- The substitution, behind a run of `count` spaces.
  unfoldable pub collapse_spaces : ℕ → ℕ → Str → Str
  collapse_spaces count first [] = run_of count first
  collapse_spaces count first (c ∷ string) = elim (t.is_space c) [
    | true ↦ collapse_spaces (suc count) (if count == 0 then c else first) string
    | false ↦ run_of count first ++ c ∷ collapse_spaces 0 c string
  ]

  unfoldable pub lstrip : Str → Str
  lstrip [] = []
  lstrip (c ∷ string) = if t.is_space c then lstrip string else c ∷ string

  -- str.strip
  unfoldable pub strip : Str → Str
  strip string = reverse (lstrip (reverse (lstrip string)))

  unfoldable pub clean_token_string : Str → Str
  clean_token_string string = t.upper (strip (collapse_spaces 0 0 string))

  -- Two strings are compared like byte strings, by their elements.
  unfoldable pub verify_token_info : TokenCreationTx → Result (Unit {0})
  verify_token_info self = do
    let name_len = length self.token_name
    let symbol_len = length self.token_symbol
    guard (not (name_len == 0 || ltb t.max_length_token_name name_len)) transaction_data_error
    guard (not (symbol_len == 0 || ltb t.max_length_token_symbol symbol_len)) transaction_data_error
    guard
        (not
          (bytes_eq (clean_token_string self.token_name) (clean_token_string t.hathor_token_name)))
        transaction_data_error
    guard
        (not (
          bytes_eq (clean_token_string self.token_symbol)
            (clean_token_string t.hathor_token_symbol)))
        transaction_data_error

-- The created token may be minted and melted, and nothing of it is spent.
abbrev pub created_token_info : TokenInfo
created_token_info = record { amount = pos 0; can_mint = true; can_melt = true }

-- token_info.amount > 0
unfoldable pub is_positive : ℤ → Bool
is_positive (pos n) = ltb 0 n
is_positive (negsuc n) = false

-- The new token must be minted.
unfoldable pub check_minted : Bytes → TokenDict → Result (Unit {0})
check_minted hash token_dict = elim (get_info hash token_dict) [
  | none ↦ err key_error
  | some token_info ↦ guard (is_positive token_info.amount) invalid_token
]

module _ (s : TokenSettings) where
  -- The part of `verify_sum` behind the assertion on the hash.
  unfoldable pub verify_sum_of : Storage → Tx → Bytes → Result (Unit {0})
  verify_sum_of storage tx hash = do
    token_dict ← get_token_info_from_inputs s storage tx
    token_dict' ← update_token_info_from_outputs s tx (set_info hash created_token_info token_dict)
    check_minted hash token_dict'
    check_authorities_and_deposit s token_dict'

  -- The inputs are looked up before the hash is asserted.
  unfoldable pub verify_sum : Storage → TokenCreationTx → Result (Unit {0})
  verify_sum storage self = elim self.tx.hash [
    | none ↦ (do token_dict ← get_token_info_from_inputs s storage self.tx; err assertion_error)
    | some hash ↦ verify_sum_of storage self.tx hash
  ]
