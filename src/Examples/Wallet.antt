-- ===== src/Examples/Wallet.antt =====
-- The choice of outputs of hathor/wallet/base_wallet.py on a pool of two.
use khathor.Prelude.{[], ◌∷◌, refl, none, some, false, ℕ, List, ◌≤◌, ◌≡◌, All, arith}
use khathor.Errors.{ok, Result}
use khathor.Dict.{lookup, insert, erase}
use khathor.Wallet.{
  WalletInputInfo, UnspentTx, Pool, get_inputs_from_amount, choose, is_skipped, is_too_new,
  is_usable, is_locked, is_authority, input_info, mark_all, mark_maybe_spent,
}
use khathor.Wallet.Choice.{Chosen, IsTaken, get_inputs-Chosen}
use khathor.Bytes.{bytes_eq, Bytes}
use khathor.Wallet.Enough.{available}
use khathor.Wallet.Marks.{get_inputs_succeeds}

abbrev utxo : ℕ → ℕ → UnspentTx
utxo index value = record {
  tx_id = 7 ∷ [];
  index = index;
  value = value;
  timestamp = 100;
  address = 40 ∷ [];
  token_data = 0;
  timelock = none;
  test_used = false;
  maybe_spent_ts = none;
}

abbrev pool : Pool
pool = record {
  unspent_txs = (0 ∷ 7 ∷ [], utxo 0 3) ∷ (1 ∷ 7 ∷ [], utxo 1 4) ∷ [];
  maybe_spent_txs = [];
}

abbrev any_key : Bytes → Result Bytes
any_key address = ok address

abbrev chosen : List WalletInputInfo
chosen =
    record { tx_id = 7 ∷ []; index = 0; private_key = 40 ∷ [] }
    ∷ record { tx_id = 7 ∷ []; index = 1; private_key = 40 ∷ [] }
    ∷ []

abbrev marked : UnspentTx → UnspentTx
marked u = record u { maybe_spent_ts = some 200 }

abbrev pool_after : Pool
pool_after = record {
  unspent_txs = [];
  maybe_spent_txs = (0 ∷ 7 ∷ [], marked (utxo 0 3)) ∷ (1 ∷ 7 ∷ [], marked (utxo 1 4)) ∷ [];
}

get_inputs-pool : get_inputs_from_amount any_key 5 none 200 pool ≡ ok ((chosen, 7), pool_after)
unfolding get_inputs_from_amount choose is_skipped is_too_new is_usable is_locked is_authority
    input_info mark_all mark_maybe_spent lookup insert erase bytes_eq
get_inputs-pool = refl

get_inputs-Chosen_example :
    (5 ≤ 7)
    × Chosen any_key 5 none 200 pool.unspent_txs chosen 7
    × All (IsTaken any_key 5 none 200 pool_after) chosen
get_inputs-Chosen_example =
    get_inputs-Chosen any_key 5 none 200 pool pool_after chosen 7 get_inputs-pool

get_inputs_succeeds_example :
    (infos : List WalletInputInfo) × (total : ℕ) × (self' : Pool) × (get_inputs_from_amount any_key
        5 none 200 pool
      ≡ ok ((infos, total), self'))
unfolding khathor.Dict.Laws.Distinct lookup bytes_eq available is_skipped is_too_new is_usable
    is_locked is_authority
get_inputs_succeeds_example =
    get_inputs_succeeds any_key 5 none 200 pool (refl, (refl, tt))
      (
        record { private_key = 40 ∷ []; known = refl; at_key = refl },
        (record { private_key = 40 ∷ []; known = refl; at_key = refl }, tt),
      )
      (omega arith)
