-- ===== src/Tests/Parts.antt =====
-- The validators, the economy, the wallet and the encoding at concrete inputs.
use aion_blockchain.Prelude.{
  List, str_eq_iff, [], none, true, arith, refl, ok, some, ◌≡◌, ◌≢◌, ◌+◌, ◌*◌, ◌/◌, ◌%◌, ◌∷◌,
  bytes_of, replicate,
}
use aion_blockchain.Crypto.Toy.{toy, toy-IsLawful}
use aion_blockchain.Core.Transaction.{Transaction, message}
use aion_blockchain.Core.Injective.{IsMachine, SameContent, message-injective}
use aion_blockchain.Consensus
use aion_blockchain.Consensus.{
  Consensus, Validator, select_validator, add_validator, decrease_stake, is_validator_allowed,
  get_validator,
}
use aion_blockchain.Consensus.Selection.{stakes, Owns, select_validator_total}
use aion_blockchain.Consensus.Registry.{IsDistinct}
use aion_blockchain.Economy.{Economy, Shares, validate_fee, distribute_fee}
use aion_blockchain.Economy.Fees.{distribute_fee_exact}
use aion_blockchain.Wallet.{from_signing_key, public_key_hex, sign, verify, address_from_public_key}
use aion_blockchain.Wallet.Signing.{verify-sign}
use aion_blockchain.Tests.Scenario.{run, alice, bob, economy, validators, payment}

-- A second validator.
abbrev two : Consensus
two = record {
  validators =
      record { address = alice.address; stake = 700 }
      ∷ record { address = bob.address; stake = 300 }
      ∷ [];
}

two_stakes : stakes two.validators ≡ 1_000
unfolding stakes
two_stakes = refl

select_validator_total_example :
    (v : Validator) × (select_validator two 2_800 ≡ some v)
    × Owns 0 (2_800 % stakes two.validators) two.validators v
select_validator_total_example =
    select_validator_total two 2_800 (omega (arith, two_stakes)) (omega (arith, two_stakes))

abbrev before : List Validator
before = record { address = alice.address; stake = 700 } ∷ []

before_stakes : stakes before ≡ 700
unfolding stakes
before_stakes = refl

distinct : IsDistinct validators.validators
unfolding run
distinct = (refl, tt)

abbrev lowered : Consensus
lowered = record {
  validators =
      record { address = alice.address; stake = 600 }
      ∷ record { address = bob.address; stake = 300 }
      ∷ [];
}

lowers : decrease_stake alice.address 100 two ≡ ok lowered
unfolding run decrease_stake Consensus.change_first Consensus.lower_stake
lowers = refl

apart : bob.address ≢ alice.address
unfolding run
apart = ground (arith, str_eq_iff bob.address alice.address)

distribute_fee_example :
    (shares : Shares) × (distribute_fee economy 1_001 ≡ ok shares)
    × (shares.validator + shares.liquidity + shares.treasury + shares.burned ≡ 1_001)
    × (shares.liquidity ≡ 1_001 * economy.liquidity_fee_percent / 100)
    × (shares.treasury ≡ 1_001 * economy.treasury_fee_percent / 100)
    × (shares.burned ≡ 0)
distribute_fee_example = distribute_fee_exact economy 1_001 (omega arith) (omega arith)

abbrev minted : Economy
minted = record economy { total_supply = economy.total_supply + 7 }

fee_valid : validate_fee economy 1_000_000 10 ≡ true
unfolding run
fee_valid = refl

verify-sign_example :
    let w = from_signing_key (replicate 32 5) in
    (verify (public_key_hex w) (bytes_of "text") (sign w (bytes_of "text")) ≡ true)
    × (address_from_public_key (public_key_hex w) ≡ some w.address)
verify-sign_example = verify-sign toy-IsLawful (replicate 32 5) (bytes_of "text")

IsMachine-payment : IsMachine payment
unfolding run
IsMachine-payment = record {
  from_length = omega arith;
  public_key_length = omega arith;
  to_length = omega arith;
  amount_fits = omega arith;
  fee_fits = omega arith;
  nonce_fits = omega arith;
  reward_marker_fits = omega arith;
}

-- The signature is not part of the message.
abbrev stripped : Transaction
stripped = record payment { signature = none }

IsMachine-stripped : IsMachine stripped
IsMachine-stripped = record {
  from_length = IsMachine-payment.from_length;
  public_key_length = IsMachine-payment.public_key_length;
  to_length = IsMachine-payment.to_length;
  amount_fits = IsMachine-payment.amount_fits;
  fee_fits = IsMachine-payment.fee_fits;
  nonce_fits = IsMachine-payment.nonce_fits;
  reward_marker_fits = IsMachine-payment.reward_marker_fits;
}

same_message : message stripped ≡ message payment
unfolding run
same_message = refl

message-injective_example : SameContent stripped payment
message-injective_example =
    message-injective stripped payment IsMachine-stripped IsMachine-payment same_message
