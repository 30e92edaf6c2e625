-- ===== src/Script/Opcode.antt =====
-- `Opcode` of hathor/transaction/scripts.py: an IntEnum, so its members are numbers.
use khathor.Prelude.{ℕ}

abbrev pub op_0 : ℕ
op_0 = 0x50

abbrev pub op_1 : ℕ
op_1 = 0x51

abbrev pub op_2 : ℕ
op_2 = 0x52

abbrev pub op_16 : ℕ
op_16 = 0x60

abbrev pub op_dup : ℕ
op_dup = 0x76

abbrev pub op_equal : ℕ
op_equal = 0x87

abbrev pub op_equalverify : ℕ
op_equalverify = 0x88

abbrev pub op_checksig : ℕ
op_checksig = 0xac

abbrev pub op_hash160 : ℕ
op_hash160 = 0xa9

abbrev pub op_pushdata1 : ℕ
op_pushdata1 = 0x4c

abbrev pub op_greaterthan_timestamp : ℕ
op_greaterthan_timestamp = 0x6f

abbrev pub op_checkmultisig : ℕ
op_checkmultisig = 0xae

abbrev pub op_checkdatasig : ℕ
op_checkdatasig = 0xba

abbrev pub op_data_strequal : ℕ
op_data_strequal = 0xc0

abbrev pub op_data_greaterthan : ℕ
op_data_greaterthan = 0xc1

abbrev pub op_find_p2pkh : ℕ
op_find_p2pkh = 0xd0

abbrev pub op_data_match_value : ℕ
op_data_match_value = 0xd1
