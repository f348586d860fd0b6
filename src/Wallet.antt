-- ===== src/Wallet.antt =====
-- src/wallet/mod.rs: a key pair with its address, signing, and the verification that every other
-- part calls. Handshake has the signed texts of the handshakes.
pub mod Signing
pub mod Formats
pub mod Handshake
use aion_blockchain.Prelude.{
  not, fail_if, ok_or, ◌>>=◌, ◌>>◌, ◌&&◌, ◌==◌, length, Result, Bool, if◌then◌else◌, Bytes, Option,
  Str, ℕ, refl, [], true, false, inl, inr, none, some, ok, err,
}
use aion_blockchain.Crypto.{Crypto}

pub record Wallet : Type 0 where
  pub signing_key : Bytes
  pub verifying_key : Bytes
  pub address : Str

module _ ⦃c : Crypto⦄ where
  -- `Wallet::address_from_public_key_bytes`
  unfoldable pub address_from_public_key_bytes : Bytes → Str
  address_from_public_key_bytes public_key_bytes = c.hex_encode (c.sha256 public_key_bytes)

  -- `Wallet::from_signing_key`
  unfoldable pub from_signing_key : Bytes → Wallet
  unfolding address_from_public_key_bytes
  from_signing_key signing_key =
      let verifying_key = c.verifying_key signing_key in
      record {
        signing_key = signing_key;
        verifying_key = verifying_key;
        address = address_from_public_key_bytes verifying_key;
      }

  -- `Wallet::from_private_key_hex`
  unfoldable pub from_private_key_hex : Str → Result Wallet
  unfolding from_signing_key
  from_private_key_hex private_key_hex = do
    bytes ← ok_or (c.hex_decode private_key_hex) "Private key hex format is invalid"
    fail_if (not (length bytes == 32)) "Private key must be 32 bytes"
    ok (from_signing_key bytes)

  -- `Wallet::private_key_hex`
  unfoldable pub private_key_hex : Wallet → Str
  private_key_hex w = c.hex_encode w.signing_key

  -- `Wallet::public_key_hex`
  unfoldable pub public_key_hex : Wallet → Str
  public_key_hex w = c.hex_encode w.verifying_key

  -- `Wallet::sign`
  unfoldable pub sign : Wallet → Bytes → Str
  sign w message = c.hex_encode (c.sign_bytes w.signing_key message)

  -- `Wallet::address_from_public_key`
  unfoldable pub address_from_public_key : Str → Option Str
  unfolding address_from_public_key_bytes
  address_from_public_key public_key_hex = elim (c.hex_decode public_key_hex) [
    | none ↦ none
    | some bytes ↦
        if length bytes == 32 && c.is_verifying_key bytes
        then some (address_from_public_key_bytes bytes)
        else none
  ]

  -- `Wallet::verify`, on the decoded key and signature
  abbrev pub verify_decoded : Option Bytes → Bytes → Option Bytes → Bool
  verify_decoded none message signature = false
  verify_decoded (some key) message none = false
  verify_decoded (some key) message (some signature) =
      (length key == 32 && length signature == 64)
      && (c.is_verifying_key key && c.verify_bytes key message signature)

  -- `Wallet::verify`
  unfoldable pub verify : Str → Bytes → Str → Bool
  verify public_key_hex message signature_hex =
      verify_decoded (c.hex_decode public_key_hex) message (c.hex_decode signature_hex)
