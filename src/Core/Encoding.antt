-- ===== src/Core/Encoding.antt =====
-- The byte encodings that src/core/transaction.rs and src/core/block.rs build their hashed messages
-- from: big-endian integers, and strings behind their length.
use aion_blockchain.Prelude.{◌+◌, ◌*◌, ℕ, zero, suc, ◌/◌, ◌%◌, [], ◌∷◌, ◌++◌, length, Bytes, Str}

-- `to_be_bytes`: `k` bytes, the most significant first.
unfoldable pub be_bytes : ℕ → ℕ → Bytes
be_bytes zero n = []
be_bytes (suc k) n = be_bytes k (n / 256) ++ (n % 256) ∷ []

-- `u64::to_be_bytes` and `u128::to_be_bytes`
abbrev pub u64_bytes : ℕ → Bytes
u64_bytes n = be_bytes 8 n

abbrev pub u128_bytes : ℕ → Bytes
u128_bytes n = be_bytes 16 n

-- `from_be_bytes`
unfoldable pub be_value : ℕ → Bytes → ℕ
be_value acc [] = acc
be_value acc (b ∷ bs) = be_value (acc * 256 + b) bs

-- `append_string(buffer, value)` of both files; `append_bytes` is the same on bytes.
unfoldable pub append_string : Bytes → Str → Bytes
append_string buffer value = (buffer ++ u64_bytes (length value)) ++ value
