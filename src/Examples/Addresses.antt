-- ===== src/Examples/Addresses.antt =====
-- Addresses of hathor/crypto/util.py on concrete bytes.
