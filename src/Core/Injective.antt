-- ===== src/Core/Injective.antt =====
-- What a transaction's identifier and signature cover, and what a block's hash covers: the byte
-- strings determine the fields, so two different contents never share one message.
use aion_blockchain.Prelude.{
  ◌∷◌, ◌∙◌, sym, ◌^◌, ◌++◌, ◌<◌, arith, if◌then◌else◌, append_assoc, bytes_of, ◌≡◌, Bytes, length,
  Bool, ℕ, refl,
}
use aion_blockchain.Core.Encoding.{u64_bytes, u128_bytes, append_string}
use aion_blockchain.Core.Fields.{u64-cancel, u128-cancel, string-cancel, append-cancel}
use aion_blockchain.Core.Transaction.{Transaction, message}

-- The numbers fit their Rust types, and the strings can be addressed.
pub record IsMachine (tx : Transaction) : Type 0 where
  pub from_length : length tx.from < 2 ^ 64
  pub public_key_length : length tx.public_key < 2 ^ 64
  pub to_length : length tx.to < 2 ^ 64
  pub amount_fits : tx.amount < 2 ^ 64
  pub fee_fits : tx.fee < 2 ^ 64
  pub nonce_fits : tx.nonce < 2 ^ 64
  pub reward_marker_fits : tx.reward_marker < 2 ^ 128

-- Two transactions agree on everything but identifier and signature.
pub record SameContent (a b : Transaction) : Type 0 where
  pub from : a.from ≡ b.from
  pub public_key : a.public_key ≡ b.public_key
  pub to : a.to ≡ b.to
  pub amount : a.amount ≡ b.amount
  pub fee : a.fee ≡ b.fee
  pub nonce : a.nonce ≡ b.nonce
  pub coinbase : a.coinbase ≡ b.coinbase
  pub reward_marker : a.reward_marker ≡ b.reward_marker

abbrev flag : Bool → ℕ
flag b = if b then 1 else 0

-- The message, grouped from the right.
abbrev nested : Transaction → Bytes
nested tx =
    bytes_of "AION_TX_V1"
    ++ (u64_bytes (length tx.from)
        ++ (tx.from
            ++ (u64_bytes (length tx.public_key)
                ++ (tx.public_key
                    ++ (u64_bytes (length tx.to)
                        ++ (tx.to
                            ++ (u64_bytes tx.amount
                                ++ (u64_bytes tx.fee
                                    ++ (u64_bytes tx.nonce
                                        ++ (flag tx.coinbase ∷ u128_bytes tx.reward_marker))))))))))

message-nested : (tx : Transaction) → message tx ≡ nested tx
unfolding message append_string
message-nested tx = simp append_assoc

flag-injective : (a b : Bool) → flag a ≡ flag b → a ≡ b
flag-injective a b h = ground arith

-- Between transactions whose fields fit their machine types, the message that is signed and hashed
-- determines every field but the identifier and the signature: the encoding is unambiguous.
pub message-injective :
    (a b : Transaction) → IsMachine a → IsMachine b → message a ≡ message b → SameContent a b
message-injective a b ma mb h =
    let (_, h) =
      append-cancel (bytes_of "AION_TX_V1") (bytes_of "AION_TX_V1") refl
        (sym (message-nested a) ∙ h ∙ message-nested b) in
    let (from, h) = string-cancel a.from b.from ma.from_length mb.from_length h in
    let (public_key, h) =
      string-cancel a.public_key b.public_key ma.public_key_length mb.public_key_length h in
    let (to, h) = string-cancel a.to b.to ma.to_length mb.to_length h in
    let (amount, h) = u64-cancel a.amount b.amount ma.amount_fits mb.amount_fits h in
    let (fee, h) = u64-cancel a.fee b.fee ma.fee_fits mb.fee_fits h in
    let (nonce, h) = u64-cancel a.nonce b.nonce ma.nonce_fits mb.nonce_fits h in
    record {
      from = from;
      public_key = public_key;
      to = to;
      amount = amount;
      fee = fee;
      nonce = nonce;
      coinbase = flag-injective a.coinbase b.coinbase (cc h);
      reward_marker =
          u128-cancel a.reward_marker b.reward_marker ma.reward_marker_fits mb.reward_marker_fits
            (cc h);
    }
