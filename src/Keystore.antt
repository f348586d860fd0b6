-- ===== src/Keystore.antt =====
-- The encrypted key files of src/validator.rs and src/user_wallet.rs. Both files encrypt in the same
-- way, with texts of their own for the errors. The crates argon2 and chacha20poly1305 and the form of
-- an envelope in JSON are the parameter `Vault`.
pub mod Sealing
pub mod Toy
use aion_blockchain.Prelude.{
  not, ltb, fail_if, ok_or, ◌>>=◌, ◌>>◌, bytes_of, All, str_eq, ◌&&◌, length, ◌==◌, some, take,
  Bool, ◌≡◌, Bytes, Str, ℕ, String, Option, Result,
}
use aion_blockchain.Crypto.{Crypto, IsByte}

pub record EncryptedKeystore : Type 0 where
  pub version : ℕ
  pub kdf : Str
  pub kdf_memory_kib : ℕ
  pub kdf_iterations : ℕ
  pub kdf_parallelism : ℕ
  pub cipher : Str
  pub salt_hex : Str
  pub nonce_hex : Str
  pub ciphertext_hex : Str

pub record Vault : Type 0 where
  -- `Argon2::hash_password_into` with the parameters below: password, salt
  pub derive : Bytes → Bytes → Option Bytes
  -- `ChaCha20Poly1305::encrypt`: key, nonce, message, associated data
  pub seal : Bytes → Bytes → Bytes → Bytes → Option Bytes
  -- `ChaCha20Poly1305::decrypt`: key, nonce, ciphertext, associated data
  pub unseal : Bytes → Bytes → Bytes → Bytes → Option Bytes
  -- `serde_json::to_vec_pretty`, `serde_json::from_slice`
  pub to_vec_pretty : EncryptedKeystore → Option Bytes
  pub from_slice : Bytes → Option EncryptedKeystore

-- The documented behaviour of the crates: keys of 32 bytes, a ciphertext of bytes, which opens with
-- what sealed it, and JSON that reads as what was written.
pub record IsVault (v : Vault) : Type 0 where
  pub derived_length :
      (password salt : Bytes) {key : Bytes} → v.derive password salt ≡ some key → length key ≡ 32
  pub sealed_bytes :
      (key nonce m aad : Bytes) {sealed : Bytes}
      → v.seal key nonce m aad ≡ some sealed
      → All IsByte sealed
  pub unseal-seal :
      (key nonce m aad : Bytes) {sealed : Bytes}
      → v.seal key nonce m aad ≡ some sealed
      → v.unseal key nonce sealed aad ≡ some m
  pub read_back :
      (e : EncryptedKeystore) {bytes : Bytes}
      → v.to_vec_pretty e ≡ some bytes
      → v.from_slice bytes ≡ some e

abbrev pub argon2_memory_kib : ℕ
argon2_memory_kib = 19_456

abbrev pub argon2_iterations : ℕ
argon2_iterations = 2

abbrev pub argon2_parallelism : ℕ
argon2_parallelism = 1

-- The texts of the errors.
pub record Texts : Type 0 where
  pub short_password : String
  pub no_key : String
  pub bad_key : String
  pub bad_opening_key : String
  pub not_sealed : String
  pub no_json : String
  pub bad_envelope : String
  pub unsupported : String
  pub bad_salt : String
  pub salt_length : String
  pub bad_nonce : String
  pub nonce_length : String
  pub bad_ciphertext : String
  pub not_opened : String

module _ ⦃c : Crypto⦄ ⦃v : Vault⦄ (texts : Texts) where
  unfoldable pub derive_key : Bytes → Bytes → Result Bytes
  derive_key password salt = do
    fail_if (ltb (length password) 12) texts.short_password
    ok_or (v.derive password salt) texts.no_key

  -- The key that is drawn for the salt, and the nonce, are arguments.
  unfoldable pub encrypt : Bytes → Bytes → Bytes → Bytes → Bytes → Result Bytes
  encrypt random_salt_material nonce password plaintext aad = do
    let salt = take 16 random_salt_material
    key ← derive_key password salt
    fail_if (not (length key == 32)) texts.bad_key
    ciphertext ← ok_or (v.seal key nonce plaintext aad) texts.not_sealed
    ok_or
        (v.to_vec_pretty (record {
          version = 1;
          kdf = bytes_of "argon2id";
          kdf_memory_kib = argon2_memory_kib;
          kdf_iterations = argon2_iterations;
          kdf_parallelism = argon2_parallelism;
          cipher = bytes_of "chacha20poly1305";
          salt_hex = c.hex_encode salt;
          nonce_hex = c.hex_encode nonce;
          ciphertext_hex = c.hex_encode ciphertext;
        }))
        texts.no_json

  -- The test of `decrypt` on the format of an envelope.
  unfoldable pub is_supported : EncryptedKeystore → Bool
  is_supported envelope =
      envelope.version == 1
      && str_eq envelope.kdf (bytes_of "argon2id")
      && envelope.kdf_memory_kib == argon2_memory_kib
      && envelope.kdf_iterations == argon2_iterations
      && envelope.kdf_parallelism == argon2_parallelism
      && str_eq envelope.cipher (bytes_of "chacha20poly1305")

  unfoldable pub decrypt : Bytes → Bytes → Bytes → Result Bytes
  decrypt password encrypted aad = do
    envelope ← ok_or (v.from_slice encrypted) texts.bad_envelope
    fail_if (not (is_supported envelope)) texts.unsupported
    salt ← ok_or (c.hex_decode envelope.salt_hex) texts.bad_salt
    fail_if (not (length salt == 16)) texts.salt_length
    nonce ← ok_or (c.hex_decode envelope.nonce_hex) texts.bad_nonce
    fail_if (not (length nonce == 12)) texts.nonce_length
    ciphertext ← ok_or (c.hex_decode envelope.ciphertext_hex) texts.bad_ciphertext
    key ← derive_key password salt
    fail_if (not (length key == 32)) texts.bad_opening_key
    ok_or (v.unseal key nonce ciphertext aad) texts.not_opened
