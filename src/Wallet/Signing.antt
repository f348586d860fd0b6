-- ===== src/Wallet/Signing.antt =====
-- A wallet's own signatures are accepted under its own key, and its key leads to its address
-- (src/wallet/mod.rs), as far as the crates keep their documented behaviour.
use aion_blockchain.Prelude.{length, arith, All, ◌≡◌, Bytes, true, some, ok}
use aion_blockchain.Crypto.{IsByte, Crypto, IsLawful}
use aion_blockchain.Wallet.{
  from_signing_key, from_private_key_hex, private_key_hex, public_key_hex, sign,
  address_from_public_key, verify,
}

-- With crates that behave as documented, whatever a wallet signs is verified under its public key,
-- and that key is mapped to the wallet's address.
pub verify-sign :
    ⦃c : Crypto⦄ (laws : IsLawful c) (key message : Bytes)
    → let w = from_signing_key key in
      (verify (public_key_hex w) message (sign w message) ≡ true)
      × (address_from_public_key (public_key_hex w) ≡ some w.address)
unfolding verify public_key_hex sign address_from_public_key from_signing_key
verify-sign ⦃c⦄ laws key message =
    let decoded = laws.decode-encode (c.verifying_key key) (laws.verifying_key_bytes key) in
    let signature =
      laws.decode-encode (c.sign_bytes key message) (laws.signature_bytes key message) in
    (
      ground (
        arith,
        decoded,
        signature,
        laws.verifying_key_length key,
        laws.signature_length key message,
        laws.verifying_key_valid key,
        laws.verify-sign key message,
      ),
      ground (arith, decoded, laws.verifying_key_length key, laws.verifying_key_valid key),
    )

-- A wallet is restored from the private key that it prints.
pub from_private_key_hex-private_key_hex :
    ⦃c : Crypto⦄ (laws : IsLawful c) (key : Bytes)
    → All IsByte key
    → length key ≡ 32
    → from_private_key_hex (private_key_hex (from_signing_key key)) ≡ ok (from_signing_key key)
unfolding from_private_key_hex private_key_hex from_signing_key
from_private_key_hex-private_key_hex ⦃c⦄ laws key bytes size =
    ground (arith, laws.decode-encode key bytes)
