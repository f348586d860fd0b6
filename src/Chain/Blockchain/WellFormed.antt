-- ===== src/Chain/Blockchain/WellFormed.antt =====
-- What the format checks of src/chain/blockchain.rs demand, field by field.
use aion_blockchain.Prelude.{
  inr, inl, ◌==◌, Option-cases, Bool-cases, bind-eq-ok, str_eq_iff, length, any, not, All, List,
  Option, ◌≡◌, ◌≢◌, ◌≤◌, ◌↔◌, Str, arith, refl, [], ◌∷◌, true, false, none, some, ok,
}
use aion_blockchain.Protocol.{
  system_reward_signature, signature_hex_length, genesis_validator, system_public_key,
  public_key_hex_length, system_address, genesis_previous_hash, max_total_transactions_per_block,
  hash_hex_length, address_hex_length, is_fixed_hex,
}
use aion_blockchain.Core.Transaction.{Transaction}
use aion_blockchain.Core.Block.{Block}
use aion_blockchain.Chain.Blockchain.Format.{
  check_coinbase_format, check_normal_format, validate_transaction_field_sizes,
  validate_all_field_sizes, check_genesis_format, check_block_format, validate_block_field_sizes,
}

-- A present signature of the right length in hexadecimal digits.
abbrev pub IsSignature : Option Str → Type 0
IsSignature signature =
    (s : Str) × (signature ≡ some s) × (is_fixed_hex s signature_hex_length ≡ true)

pub record CoinbaseFormat (tx : Transaction) : Type 0 where
  pub from_system : tx.from ≡ system_address
  pub key_system : tx.public_key ≡ system_public_key
  pub to_hex : is_fixed_hex tx.to address_hex_length ≡ true
  pub reward_signature : tx.signature ≡ some system_reward_signature

pub record NormalFormat (tx : Transaction) : Type 0 where
  pub from_hex : is_fixed_hex tx.from address_hex_length ≡ true
  pub to_hex : is_fixed_hex tx.to address_hex_length ≡ true
  pub key_hex : is_fixed_hex tx.public_key public_key_hex_length ≡ true
  pub signed : IsSignature tx.signature

pub record TransactionFormat (tx : Transaction) : Type 0 where
  pub id_hex : is_fixed_hex tx.id hash_hex_length ≡ true
  pub coinbase : tx.coinbase ≡ true → CoinbaseFormat tx
  pub normal : tx.coinbase ≡ false → NormalFormat tx

pub record GenesisFormat (block : Block) : Type 0 where
  pub no_previous : block.previous_hash ≡ genesis_previous_hash
  pub no_validator : block.validator ≡ genesis_validator
  pub key_hex : is_fixed_hex block.validator_public_key hash_hex_length ≡ true
  pub unsigned : block.validator_signature ≡ none
  pub no_transactions : block.transactions ≡ []

pub record ChainedFormat (block : Block) : Type 0 where
  pub has_normal : any (λ (tx : Transaction). not tx.coinbase) block.transactions ≡ true
  pub previous_hex : is_fixed_hex block.previous_hash hash_hex_length ≡ true
  pub validator_hex : is_fixed_hex block.validator address_hex_length ≡ true
  pub key_hex : is_fixed_hex block.validator_public_key public_key_hex_length ≡ true
  pub signed : IsSignature block.validator_signature
  pub transactions : All TransactionFormat block.transactions

pub record BlockFormat (block : Block) : Type 0 where
  pub within : length block.transactions ≤ max_total_transactions_per_block
  pub hash_hex : is_fixed_hex block.hash hash_hex_length ≡ true
  pub genesis : block.index ≡ 0 → GenesisFormat block
  pub chained : block.index ≢ 0 → ChainedFormat block

coinbase_lem : (tx : Transaction) → (check_coinbase_format tx ≡ ok tt) ↔ CoinbaseFormat tx
unfolding check_coinbase_format
coinbase_lem tx = (
  λ h. elim (Option-cases tx.signature) [
    | inl n ↦ absurd (ground arith)
    | inr (s, e) ↦ record {
      from_system = ground (arith, str_eq_iff tx.from system_address);
      key_system = ground (arith, str_eq_iff tx.public_key system_public_key);
      to_hex = ground arith;
      reward_signature = ground (arith, str_eq_iff s system_reward_signature);
    }
  ],
  λ f. ground (
    arith,
    str_eq_iff tx.from system_address,
    str_eq_iff tx.public_key system_public_key,
    str_eq_iff system_reward_signature system_reward_signature,
    f.from_system,
    f.key_system,
    f.to_hex,
    f.reward_signature,
  ),
)

normal_lem : (tx : Transaction) → (check_normal_format tx ≡ ok tt) ↔ NormalFormat tx
unfolding check_normal_format
normal_lem tx = (
  λ h. elim (Option-cases tx.signature) [
    | inl n ↦ absurd (ground arith)
    | inr (s, e) ↦ record {
      from_hex = ground arith;
      to_hex = ground arith;
      key_hex = ground arith;
      signed = (s, e, ground arith);
    }
  ],
  λ f. ground (arith, f.from_hex, f.to_hex, f.key_hex, f.signed),
)

pub validate_transaction_field_sizes_exact :
    (tx : Transaction) → (validate_transaction_field_sizes tx ≡ ok tt) ↔ TransactionFormat tx
unfolding validate_transaction_field_sizes
validate_transaction_field_sizes_exact tx = (
  λ h. record {
    id_hex = ground arith;
    coinbase = λ c. (coinbase_lem tx).0 (ground arith);
    normal = λ c. (normal_lem tx).0 (ground arith);
  },
  λ f. elim (Bool-cases tx.coinbase) [
    | inl c ↦ ground (arith, f.id_hex, (coinbase_lem tx).1 (f.coinbase c))
    | inr c ↦ ground (arith, f.id_hex, (normal_lem tx).1 (f.normal c))
  ],
)

all_field_sizes_lem :
    (txs : List Transaction) → (validate_all_field_sizes txs ≡ ok tt) ↔ All TransactionFormat txs
unfolding validate_all_field_sizes
all_field_sizes_lem [] = (λ h. tt, λ f. refl)
all_field_sizes_lem (tx ∷ txs) =
    let head = validate_transaction_field_sizes_exact tx in
    let tail = all_field_sizes_lem txs in
    (
      λ h.
          let (_, e, rest) = bind-eq-ok (validate_transaction_field_sizes tx) _ h in
          (head.0 e, tail.0 rest),
      λ f. ground (arith, head.1 f.0, tail.1 f.1),
    )

genesis_lem : (block : Block) → (check_genesis_format block ≡ ok tt) ↔ GenesisFormat block
unfolding check_genesis_format
genesis_lem block = (
  λ h. record {
    no_previous = ground (arith, str_eq_iff block.previous_hash genesis_previous_hash);
    no_validator = ground (arith, str_eq_iff block.validator genesis_validator);
    key_hex = ground arith;
    unsigned = ground arith;
    no_transactions = ground arith;
  },
  λ f. ground (
    arith,
    str_eq_iff block.previous_hash genesis_previous_hash,
    str_eq_iff block.validator genesis_validator,
    f.no_previous,
    f.no_validator,
    f.key_hex,
    f.unsigned,
    f.no_transactions,
  ),
)

chained_lem : (block : Block) → (check_block_format block ≡ ok tt) ↔ ChainedFormat block
unfolding check_block_format
chained_lem block = (
  λ h. elim (Option-cases block.validator_signature) [
    | inl n ↦ absurd (ground arith)
    | inr (s, e) ↦ record {
      has_normal = ground arith;
      previous_hex = ground arith;
      validator_hex = ground arith;
      key_hex = ground arith;
      signed = (s, e, ground arith);
      transactions = (all_field_sizes_lem block.transactions).0 (ground arith);
    }
  ],
  λ f. ground (
    arith,
    f.has_normal,
    f.previous_hex,
    f.validator_hex,
    f.key_hex,
    f.signed,
    (all_field_sizes_lem block.transactions).1 f.transactions,
  ),
)

-- `validate_block_field_sizes` accepts exactly the blocks in which every field has its format: the
-- genesis block is unsigned and empty, and any other has a normal transaction, hexadecimal fields of
-- the right lengths, and well-formed transactions.
pub validate_block_field_sizes_exact :
    (block : Block) → (validate_block_field_sizes block ≡ ok tt) ↔ BlockFormat block
unfolding validate_block_field_sizes
validate_block_field_sizes_exact block = (
  λ h. record {
    within = ground arith;
    hash_hex = ground arith;
    genesis = λ z. (genesis_lem block).0 (ground arith);
    chained = λ z. (chained_lem block).0 (ground arith);
  },
  λ f. elim (Bool-cases (block.index == 0)) [
    | inl z ↦
        let g = (genesis_lem block).1 (f.genesis (ground arith)) in
        ground (arith, f.within, f.hash_hex, g)
    | inr n ↦
        let g = (chained_lem block).1 (f.chained (λ z. ground arith)) in
        ground (arith, f.within, f.hash_hex, g)
  ],
)
