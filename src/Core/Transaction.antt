-- ===== src/Core/Transaction.antt =====
-- src/core/transaction.rs: a transaction, its signed message and its identifier.
use aion_blockchain.Prelude.{
  ℕ, Bool, true, false, Option, none, some, [], ◌∷◌, ◌++◌, Bytes, Str, bytes_of, if◌then◌else◌,
}
use aion_blockchain.Crypto.{Crypto}
use aion_blockchain.Core.Encoding.{append_string, u64_bytes, u128_bytes}

pub record Transaction : Type 0 where
  pub id : Str
  pub from : Str
  pub public_key : Str
  pub to : Str
  pub amount : ℕ
  pub fee : ℕ
  pub nonce : ℕ
  pub signature : Option Str
  pub coinbase : Bool
  pub reward_marker : ℕ

-- `Transaction::message`
unfoldable pub message : Transaction → Bytes
unfolding append_string
message tx =
    let m = append_string (bytes_of "AION_TX_V1") tx.from in
    let m = append_string m tx.public_key in
    let m = append_string m tx.to in
    let m = m ++ u64_bytes tx.amount in
    let m = m ++ u64_bytes tx.fee in
    let m = m ++ u64_bytes tx.nonce in
    let m = m ++ (if tx.coinbase then 1 else 0) ∷ [] in m ++ u128_bytes tx.reward_marker

-- `Transaction::sign`
unfoldable pub sign : Str → Transaction → Transaction
sign signature tx = record tx { signature = some signature }

-- `Transaction::is_signed`
unfoldable pub is_signed : Transaction → Bool
is_signed tx = elim tx.signature [ none ↦ false | some _ ↦ true ]

module _ ⦃c : Crypto⦄ where
  -- `Transaction::calculate_id`
  unfoldable pub calculate_id : Transaction → Str
  calculate_id tx = c.lower_hex (c.sha256 (message tx))

  -- `Transaction::new`
  unfoldable pub new : Str → Str → Str → ℕ → ℕ → ℕ → Transaction
  new from public_key to amount fee nonce =
      let tx : Transaction = record {
        id = [];
        from = from;
        public_key = public_key;
        to = to;
        amount = amount;
        fee = fee;
        nonce = nonce;
        signature = none;
        coinbase = false;
        reward_marker = 0;
      } in
      record tx { id = calculate_id tx }

  -- `Transaction::new_coinbase`
  unfoldable pub new_coinbase : Str → ℕ → ℕ → Transaction
  new_coinbase validator reward block_index =
      let tx : Transaction = record {
        id = [];
        from = bytes_of "SYSTEM";
        public_key = bytes_of "SYSTEM";
        to = validator;
        amount = reward;
        fee = 0;
        nonce = 0;
        signature = some (bytes_of "SYSTEM_REWARD");
        coinbase = true;
        reward_marker = block_index;
      } in
      record tx { id = calculate_id tx }
