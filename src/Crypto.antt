-- ===== src/Crypto.antt =====
-- The third-party crates that the program calls, as an interface: sha2 (SHA-256 and its `{:x}`
-- form), hex, and ed25519-dalek. Their code is not in the repository, so every function that calls
-- them takes this record as an instance argument.

pub mod Toy
use aion_blockchain.Prelude.{ℕ, ◌<◌, ◌*◌, ◌≡◌, Bool, true, Option, some, All, length, Bytes, Str}
use aion_blockchain.Protocol.{is_fixed_hex}

pub record Crypto : Type 0 where
  -- `Sha256::digest`
  pub sha256 : Bytes → Bytes
  -- `format!("{:x}", digest)`
  pub lower_hex : Bytes → Str
  -- `hex::encode`, `hex::decode`
  pub hex_encode : Bytes → Str
  pub hex_decode : Str → Option Bytes
  -- `VerifyingKey::from_bytes(key).is_ok()`
  pub is_verifying_key : Bytes → Bool
  -- `VerifyingKey::verify(message, signature).is_ok()`: key, message, signature
  pub verify_bytes : Bytes → Bytes → Bytes → Bool
  -- `SigningKey::verifying_key().to_bytes()`
  pub verifying_key : Bytes → Bytes
  -- `SigningKey::sign(message).to_bytes()`: key, message
  pub sign_bytes : Bytes → Bytes → Bytes

abbrev pub IsByte : ℕ → Type 0
IsByte b = b < 256

-- The documented behaviour of the crates that theorems may rest on.
pub record IsLawful (c : Crypto) : Type 0 where
  pub digest_length : (m : Bytes) → length (c.sha256 m) ≡ 32
  pub digest_bytes : (m : Bytes) → All IsByte (c.sha256 m)
  pub lower_hex_format :
      (m : Bytes) → All IsByte m → is_fixed_hex (c.lower_hex m) (2 * length m) ≡ true
  pub hex_encode_format :
      (m : Bytes) → All IsByte m → is_fixed_hex (c.hex_encode m) (2 * length m) ≡ true
  pub decode-encode : (m : Bytes) → All IsByte m → c.hex_decode (c.hex_encode m) ≡ some m
  pub verifying_key_length : (k : Bytes) → length (c.verifying_key k) ≡ 32
  pub verifying_key_bytes : (k : Bytes) → All IsByte (c.verifying_key k)
  pub verifying_key_valid : (k : Bytes) → c.is_verifying_key (c.verifying_key k) ≡ true
  pub signature_length : (k m : Bytes) → length (c.sign_bytes k m) ≡ 64
  pub signature_bytes : (k m : Bytes) → All IsByte (c.sign_bytes k m)
  pub verify-sign : (k m : Bytes) → c.verify_bytes (c.verifying_key k) m (c.sign_bytes k m) ≡ true
