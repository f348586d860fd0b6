-- ===== src/Validator.antt =====
-- src/validator.rs: the identity under which a node produces blocks. Keystore has the key files.
pub mod Keystore
use aion_blockchain.Prelude.{◌>>=◌, ◌>>◌, Result, Str, fail_if, not, ok}
use aion_blockchain.Crypto.{Crypto}
use aion_blockchain.Consensus.{Consensus, is_validator_allowed}
use aion_blockchain.Wallet.{Wallet, from_private_key_hex}

pub record ValidatorIdentity : Type 0 where
  pub wallet : Wallet

-- `ValidatorIdentity::address`
abbrev pub address : ValidatorIdentity → Str
address identity = identity.wallet.address

-- `ValidatorIdentity::from_private_key`
unfoldable pub from_private_key : ⦃c : Crypto⦄ → Str → Consensus → Result ValidatorIdentity
from_private_key private_key_hex consensus = do
  wallet ← from_private_key_hex private_key_hex
  fail_if (not (is_validator_allowed consensus wallet.address))
      "Private key is not in the canonical validator set"
  ok (record { wallet = wallet })
