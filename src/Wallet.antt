-- ===== src/Wallet.antt =====
-- The choice of the outputs that a payment spends: hathor/wallet/base_wallet.py, for one token.
pub mod Choice
pub mod Enough
pub mod Marks
use khathor.Prelude.{
  [], ◌∷◌, refl, none, some, true, false, zero, suc, inl, inr, ℕ, Bool, Option, leb, not, ltb, ◌+◌,
  ◌%◌, ◌&&◌, List, ◌||◌, ◌/◌,
}
use khathor.Errors.{ok, err, Result, key_error, ◌>>=◌, ◌>>◌, guard, insufficient_funds}
use khathor.Dict.{Dict, lookup, insert, erase}
use khathor.Bytes.{Bytes}

pub record WalletInputInfo : Type 0 where
  pub tx_id : Bytes
  pub index : ℕ
  pub private_key : Bytes

-- `timelock` is `none` for None, and `maybe_spent_ts` for infinity.
pub record UnspentTx : Type 0 where
  pub tx_id : Bytes
  pub index : ℕ
  pub value : ℕ
  pub timestamp : ℕ
  pub address : Bytes
  pub token_data : ℕ
  pub timelock : Option ℕ
  pub test_used : Bool
  pub maybe_spent_ts : Option ℕ

-- self.unspent_txs[token_uid] and self.maybe_spent_txs[token_uid]. The key (tx_id, index) is the index
-- before the bytes of the id.
pub record Pool : Type 0 where
  pub unspent_txs : Dict UnspentTx
  pub maybe_spent_txs : Dict UnspentTx

abbrev pub key_of : Bytes → ℕ → Bytes
key_of tx_id index = index ∷ tx_id

unfoldable pub is_locked : ℕ → UnspentTx → Bool
is_locked now utxo = elim utxo.timelock [ none ↦ false | some timelock ↦ not (ltb timelock now) ]

-- (self.token_data & TxOutput.TOKEN_AUTHORITY_MASK) > 0
unfoldable pub is_authority : UnspentTx → Bool
is_authority utxo = ltb 0 (utxo.token_data / 128 % 2)

-- max_ts is not None and utxo.timestamp > max_ts
unfoldable pub is_too_new : Option ℕ → UnspentTx → Bool
is_too_new none utxo = false
is_too_new (some max_ts) utxo = ltb max_ts utxo.timestamp

-- `get_private_key` of the subclasses
module _ (get_private_key : Bytes → Result Bytes) where
  unfoldable pub input_info : UnspentTx → Result WalletInputInfo
  input_info utxo = do
    key ← get_private_key utxo.address
    ok (record { tx_id = utxo.tx_id; index = utxo.index; private_key = key })

  module _ (amount : ℕ) (max_ts : Option ℕ) (now : ℕ) where
    -- The utxo is passed over, may not be used, or is taken.
    unfoldable pub is_skipped : UnspentTx → Bool
    is_skipped utxo = is_too_new max_ts utxo || utxo.test_used

    unfoldable pub is_usable : UnspentTx → Bool
    is_usable utxo = not (is_locked now utxo) && not (is_authority utxo)

    -- The loop over the utxos, with `total_inputs_amount`.
    unfoldable pub choose : Dict UnspentTx → ℕ → Result (List WalletInputInfo × ℕ)
    choose [] total = ok ([], total)
    choose ((key, utxo) ∷ utxos) total = elim (is_skipped utxo) [
      | true ↦ choose utxos total
      | false ↦ elim (is_usable utxo) [
        | true ↦ (do
          info ← input_info utxo
          elim (leb amount (total + utxo.value)) [
            | true ↦ ok (info ∷ [], total + utxo.value)
            | false ↦ (do
              (infos, total') ← choose utxos (total + utxo.value)
              ok (info ∷ infos, total'))
          ])
        | false ↦ elim (leb amount total) [ true ↦ ok ([], total) | false ↦ choose utxos total ]
      ]
    ]

    -- One round of the loop over the chosen inputs.
    unfoldable pub mark_maybe_spent : WalletInputInfo → Pool → Result Pool
    mark_maybe_spent info self = elim (lookup (key_of info.tx_id info.index) self.unspent_txs) [
      | none ↦ err key_error
      | some utxo ↦
          let marked : UnspentTx = record utxo { maybe_spent_ts = some now } in
          ok (record {
            unspent_txs = erase (key_of info.tx_id info.index) self.unspent_txs;
            maybe_spent_txs = insert (key_of info.tx_id info.index) marked self.maybe_spent_txs;
          })
    ]

    unfoldable pub mark_all : List WalletInputInfo → Pool → Result Pool
    mark_all [] self = ok self
    mark_all (info ∷ infos) self = do self' ← mark_maybe_spent info self; mark_all infos self'

    unfoldable pub get_inputs_from_amount : Pool → Result ((List WalletInputInfo × ℕ) × Pool)
    get_inputs_from_amount self = do
      (inputs_tx, total_inputs_amount) ← choose self.unspent_txs 0
      guard (leb amount total_inputs_amount) insufficient_funds
      self' ← mark_all inputs_tx self
      ok ((inputs_tx, total_inputs_amount), self')

-- maybe_spent_ts + UTXO_SPENT_INTERVAL < now
unfoldable pub is_overdue : ℕ → ℕ → UnspentTx → Bool
is_overdue interval now utxo = elim utxo.maybe_spent_ts [
  | none ↦ false
  | some t ↦ ltb (t + interval) now
]

-- `_check_utxos`, without its next call: the loop over `list(utxos)`.
unfoldable pub check_loop : ℕ → ℕ → Dict UnspentTx → Pool → Pool
check_loop interval now [] self = self
check_loop interval now ((key, utxo) ∷ utxos) self = elim (is_overdue interval now utxo) [
  | false ↦ check_loop interval now utxos self
  | true ↦
      let freed : UnspentTx = record utxo { maybe_spent_ts = none } in
      check_loop interval now utxos (record {
        unspent_txs = insert key freed self.unspent_txs;
        maybe_spent_txs = erase key self.maybe_spent_txs;
      })
]

unfoldable pub check_utxos : ℕ → ℕ → Pool → Pool
check_utxos interval now self = check_loop interval now self.maybe_spent_txs self
