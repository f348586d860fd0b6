-- ===== src/Protocol.antt =====
-- src/protocol.rs: the consensus-critical constants and the format test of hexadecimal fields.
use aion_blockchain.Prelude.{ℕ, ◌+◌, ◌*◌, Bool, ◌&&◌, ◌||◌, leb, ◌==◌, length, all, Str, bytes_of}

abbrev pub max_future_drift_seconds : ℕ
max_future_drift_seconds = 120

abbrev pub max_mempool_transactions : ℕ
max_mempool_transactions = 10_000

abbrev pub max_network_peers : ℕ
max_network_peers = 128

abbrev pub max_network_message_history : ℕ
max_network_message_history = 10_000

abbrev pub max_network_inbox_messages : ℕ
max_network_inbox_messages = 10_000

abbrev pub max_peer_address_length : ℕ
max_peer_address_length = 256

abbrev pub network_id : Str
network_id = bytes_of "kybernetes-mainnet-v2"

abbrev pub network_protocol_version : ℕ
network_protocol_version = 2

abbrev pub max_handshake_age_seconds : ℕ
max_handshake_age_seconds = 120

abbrev pub max_network_message_bytes : ℕ
max_network_message_bytes = 8 * 1024 * 1024

abbrev pub max_sync_blocks_per_message : ℕ
max_sync_blocks_per_message = 256

abbrev pub max_normal_transactions_per_block : ℕ
max_normal_transactions_per_block = 1_000

abbrev pub max_total_transactions_per_block : ℕ
max_total_transactions_per_block = max_normal_transactions_per_block + 1

abbrev pub hash_hex_length : ℕ
hash_hex_length = 64

abbrev pub address_hex_length : ℕ
address_hex_length = 64

abbrev pub public_key_hex_length : ℕ
public_key_hex_length = 64

abbrev pub signature_hex_length : ℕ
signature_hex_length = 128

abbrev pub system_address : Str
system_address = bytes_of "SYSTEM"

abbrev pub system_public_key : Str
system_public_key = bytes_of "SYSTEM"

abbrev pub system_reward_signature : Str
system_reward_signature = bytes_of "SYSTEM_REWARD"

abbrev pub genesis_previous_hash : Str
genesis_previous_hash = bytes_of "0"

abbrev pub genesis_validator : Str
genesis_validator = bytes_of "GENESIS"

abbrev pub genesis_timestamp : ℕ
genesis_timestamp = 1_754_690_000

abbrev pub genesis_supply_micro_kbn : ℕ
genesis_supply_micro_kbn = 1_000_000_000

abbrev pub genesis_validator_a_address : Str
genesis_validator_a_address =
    bytes_of "66e0a6e68b5d5f2f01c42d4f5bcc32ff475917d29a84891a564281d06dac0194"

abbrev pub genesis_validator_a_stake : ℕ
genesis_validator_a_stake = 700

abbrev pub genesis_validator_a_allocation_micro_kbn : ℕ
genesis_validator_a_allocation_micro_kbn = genesis_supply_micro_kbn

abbrev pub genesis_validator_b_address : Str
genesis_validator_b_address =
    bytes_of "fe36b693330e3e48ae0ed1a78f92e38a99eb228bc3d3ab617ac70d75b28f5e78"

abbrev pub genesis_validator_b_stake : ℕ
genesis_validator_b_stake = 300

abbrev pub genesis_validator_b_allocation_micro_kbn : ℕ
genesis_validator_b_allocation_micro_kbn = 0

abbrev pub max_supply_micro_kbn : ℕ
max_supply_micro_kbn = 100_000_000 * 1_000_000

abbrev pub block_reward_micro_kbn : ℕ
block_reward_micro_kbn = 10 * 1_000_000

abbrev pub min_transaction_fee_micro_kbn : ℕ
min_transaction_fee_micro_kbn = 10

abbrev pub transaction_fee_divisor : ℕ
transaction_fee_divisor = 100_000

abbrev pub validator_fee_percent : ℕ
validator_fee_percent = 15

abbrev pub liquidity_reserve_fee_percent : ℕ
liquidity_reserve_fee_percent = 80

abbrev pub treasury_fee_percent : ℕ
treasury_fee_percent = 5

abbrev pub burn_fee_percent : ℕ
burn_fee_percent = 0

-- `u8::is_ascii_hexdigit`
abbrev pub is_ascii_hexdigit : ℕ → Bool
is_ascii_hexdigit b =
    (leb b'0' b && leb b b'9') || ((leb b'A' b && leb b b'F') || (leb b'a' b && leb b b'f'))

unfoldable pub is_fixed_hex : Str → ℕ → Bool
is_fixed_hex value expected_length = length value == expected_length && all is_ascii_hexdigit value
