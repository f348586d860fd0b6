-- ===== src/Submission.antt =====
-- src/transaction_submission.rs: how a client prepares a transaction, and what it makes of a node's
-- answers. A request to a node is a function to its answer; the key files and what the storage reads
-- are arguments.
pub mod Acceptance
use aion_blockchain.Prelude.{
  Bytes, ◌==◌, ◌>>=◌, ◌>>◌, ◌||◌, ◌∷◌, List, Option, Result, Str, [], checked_add, drop, err,
  fail_if, false, first, if◌then◌else◌, is_empty, ltb, none, not, ok, ok_or, some, str_eq, text,
  text_about, true, ℕ,
}
use aion_blockchain.Protocol.{address_hex_length, is_fixed_hex}
use aion_blockchain.Crypto.{Crypto}
use aion_blockchain.Core.Transaction
use aion_blockchain.Core.Transaction.{Transaction, calculate_id, message}
use aion_blockchain.Core.Block.{Block, calculate_hash}
use aion_blockchain.Economy.{Economy, calculate_fee}
use aion_blockchain.State.{State, balance_of, nonce_of}
use aion_blockchain.Wallet
use aion_blockchain.Wallet.{Wallet, address_from_public_key, public_key_hex, verify}
use aion_blockchain.Keystore.{Vault}
use aion_blockchain.Validator.Keystore.{Directory, Payloads, load_authorized}
use aion_blockchain.UserWallet
use aion_blockchain.UserWallet.{WalletFile, WalletJson}
use aion_blockchain.Chain.Blockchain.{Clock}
use aion_blockchain.Network.Message.{NetworkMessage, Serde}
use aion_blockchain.Network.Validation.{validate_account_state_response, validate_transaction_ack}
use aion_blockchain.Bootstrap.{canonical_bootstrap}
use aion_blockchain.Node
use aion_blockchain.Runtime.Sync.{apply_blocks}

module _ ⦃c : Crypto⦄ where
  -- The self-check at the end of `prepare_signed_transaction_from_values`.
  unfoldable pub check_prepared : Transaction → Result (Unit {0})
  check_prepared tx = do
    signature ← ok_or tx.signature "Transaction signature could not be created"
    derived ←
        ok_or (address_from_public_key tx.public_key)
          "Transaction public key address could not be derived"
    fail_if
        (not (str_eq derived tx.from)
          || (not (str_eq tx.id (calculate_id tx))
              || not (verify tx.public_key (message tx) signature)))
        "Transaction signature or identity verification failed"

  unfoldable pub prepare_signed_transaction_from_values :
      Wallet → Str → ℕ → ℕ → ℕ → Economy → Result Transaction
  prepare_signed_transaction_from_values signer recipient amount balance nonce economy = do
    fail_if (not (is_fixed_hex recipient address_hex_length))
        "Recipient address must be 64 hex characters"
    fail_if (amount == 0) "Transaction amount cannot be zero"
    let fee = calculate_fee economy amount
    total_cost ← ok_or (checked_add amount fee) "Transaction amount plus fee overflow"
    fail_if (ltb balance total_cost) "Insufficient balance for transaction"
    let unsigned = Transaction.new signer.address (public_key_hex signer) recipient amount fee nonce
    let signed = Transaction.sign (Wallet.sign signer (message unsigned)) unsigned
    check_prepared signed
    ok signed

  unfoldable pub prepare_signed_transaction :
      Wallet → Str → ℕ → State → Economy → Result Transaction
  prepare_signed_transaction signer recipient amount state economy =
      prepare_signed_transaction_from_values signer recipient amount
        (balance_of state signer.address) (nonce_of state signer.address) economy

  -- `load_replayed_state`, on what `Storage::load_blockchain_from` answers.
  unfoldable pub load_replayed_state :
      Clock → Result (Option (List Block)) → Result (State × Economy)
  load_replayed_state clock loaded = do
    stored ← loaded
    chain ← ok_or stored "Blockchain file was not found"
    bootstrap ← canonical_bootstrap
    stored_genesis ← ok_or (first chain) "Stored blockchain is empty"
    canonical_genesis ← ok_or (first bootstrap.blockchain.chain) "Canonical genesis was not found"
    fail_if (not (str_eq stored_genesis.hash (calculate_hash stored_genesis)))
        "Stored genesis hash integrity is invalid"
    fail_if (not (str_eq stored_genesis.hash canonical_genesis.hash))
        "Stored genesis does not match canonical Kybernetes genesis"
    replayed ←
        apply_blocks clock (drop 1 chain)
          (Node.new bootstrap.blockchain bootstrap.state bootstrap.consensus)
    ok (replayed.state, replayed.blockchain.economy)

  -- `prepare_from_active_validator`, on the directory of the key files and what the storage answers.
  unfoldable pub prepare_from_active_validator :
      ⦃v : Vault⦄ ⦃payloads : Payloads⦄
      → Clock
      → Directory
      → Bytes
      → Result (Option (List Block))
      → Str
      → ℕ
      → Result Transaction
  prepare_from_active_validator clock d validator_password stored recipient amount = do
    bootstrap ← canonical_bootstrap
    loaded ← load_authorized validator_password bootstrap.consensus bootstrap.genesis_fingerprint d
    identity ← ok_or loaded "Active validator keystore was not found"
    (state, economy) ← load_replayed_state clock stored
    prepare_signed_transaction identity.wallet recipient amount state economy

  -- The end of `query_account_state_from_node`.
  abbrev pub reported_state : NetworkMessage → Result (Str × ℕ × ℕ × ℕ × Str)
  reported_state (NetworkMessage.account_state_response address balance nonce tip_index tip_hash) =
      ok (address, balance, nonce, tip_index, tip_hash)
  reported_state _ = err (text "Peer returned an unexpected account state response")

  -- The end of both submissions.
  unfoldable pub acknowledged : Transaction → NetworkMessage → Result Transaction
  acknowledged tx (NetworkMessage.transaction_ack _ true none) = ok tx
  acknowledged tx (NetworkMessage.transaction_ack _ false (some reason)) =
      err (text_about "Transaction was rejected by the node: " reason)
  acknowledged tx _ = err (text "Peer returned an invalid TransactionAck")

  module _ ⦃serde : Serde⦄ where
    unfoldable pub query_account_state_from_node :
        Clock → (NetworkMessage → Result NetworkMessage) → Str → Result (Str × ℕ × ℕ × ℕ × Str)
    query_account_state_from_node clock request address = do
      fail_if (not (is_fixed_hex address address_hex_length))
          "Account address must be 64 hex characters"
      response ← request (NetworkMessage.account_state_request address)
      fail_if (not (validate_account_state_response clock address response))
          "Peer returned an invalid AccountStateResponse"
      reported_state response

    -- What both submissions do once the transaction is prepared.
    unfoldable pub submit :
        Clock → (NetworkMessage → Result NetworkMessage) → Transaction → Result Transaction
    submit clock request tx = do
      response ← request (NetworkMessage.transaction tx)
      fail_if (not (validate_transaction_ack clock tx.id response))
          "Peer did not return a valid matching TransactionAck"
      acknowledged tx response

    -- `submit_from_user_wallet`, on the file of the wallet.
    unfoldable pub submit_from_user_wallet :
        ⦃v : Vault⦄ ⦃json : WalletJson⦄
        → Clock
        → (NetworkMessage → Result NetworkMessage)
        → WalletFile
        → Bytes
        → Str
        → ℕ
        → Result Transaction
    submit_from_user_wallet clock request file wallet_password recipient amount = do
      loaded ← UserWallet.load wallet_password file
      wallet ← ok_or loaded "User wallet keystore was not found"
      (_, balance, nonce, _, _) ← query_account_state_from_node clock request wallet.address
      bootstrap ← canonical_bootstrap
      tx ←
          prepare_signed_transaction_from_values wallet recipient amount balance nonce
            bootstrap.blockchain.economy
      submit clock request tx

    unfoldable pub submit_from_active_validator :
        ⦃v : Vault⦄ ⦃payloads : Payloads⦄
        → Clock
        → (NetworkMessage → Result NetworkMessage)
        → Directory
        → Bytes
        → Result (Option (List Block))
        → Str
        → ℕ
        → Result Transaction
    submit_from_active_validator clock request d validator_password stored recipient amount = do
      tx ← prepare_from_active_validator clock d validator_password stored recipient amount
      submit clock request tx
