-- ===== src/Wallet/Formats.antt =====
-- What the crates make of digests, keys and signatures has the format of the protocol's fields
-- (src/wallet/mod.rs, src/protocol.rs).
use aion_blockchain.Prelude.{◌≡◌, ◌*◌, Bytes, subst, true}
use aion_blockchain.Protocol.{address_hex_length, is_fixed_hex, signature_hex_length}
use aion_blockchain.Crypto.{Crypto, IsLawful}
use aion_blockchain.Wallet
use aion_blockchain.Wallet.{from_signing_key, public_key_hex}

module _ ⦃c : Crypto⦄ (laws : IsLawful c) where
  pub digest_format : (m : Bytes) → is_fixed_hex (c.lower_hex (c.sha256 m)) 64 ≡ true
  digest_format m =
      subst (λ k. is_fixed_hex (c.lower_hex (c.sha256 m)) (2 * k) ≡ true) (laws.digest_length m)
        (laws.lower_hex_format (c.sha256 m) (laws.digest_bytes m))

module _ ⦃c : Crypto⦄ (laws : IsLawful c) (key : Bytes) where
  -- The identity of a wallet has the format that the network asks for.
  pub identity_format :
      (is_fixed_hex (from_signing_key key).address address_hex_length ≡ true)
      × (is_fixed_hex (public_key_hex (from_signing_key key)) address_hex_length ≡ true)
  unfolding from_signing_key public_key_hex
  identity_format =
      let public = c.verifying_key key in
      let digest = c.sha256 public in
      (
        subst (λ k. is_fixed_hex (c.hex_encode digest) (2 * k) ≡ true) (laws.digest_length public)
            (laws.hex_encode_format digest (laws.digest_bytes public)),
        subst (λ k. is_fixed_hex (c.hex_encode public) (2 * k) ≡ true)
            (laws.verifying_key_length key)
            (laws.hex_encode_format public (laws.verifying_key_bytes key)),
      )

  pub signature_format :
      (m : Bytes) → is_fixed_hex (Wallet.sign (from_signing_key key) m) signature_hex_length ≡ true
  unfolding from_signing_key Wallet.sign
  signature_format m =
      let s = c.sign_bytes key m in
      subst (λ k. is_fixed_hex (c.hex_encode s) (2 * k) ≡ true) (laws.signature_length key m)
        (laws.hex_encode_format s (laws.signature_bytes key m))
