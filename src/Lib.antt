-- ===== src/Lib.antt =====
-- The Aion (Kybernetes) blockchain node, src/*.rs of the repository: transactions and blocks, the
-- wallet, the economy, the account state, the proof-of-stake consensus, the mempool, the chain, the
-- node, its network, the genesis, the sessions with peers and the clients that submit transactions.
--
-- How the parts interact. A `Transaction` and a `Block` are hashed and signed over byte strings
-- (src/core). The node keeps a `Blockchain` (the blocks and the `Economy`), a `State` (the accounts,
-- the treasury and the burned amount), a `Mempool`, a `Consensus` (the validators) and a `Network` (the
-- peers and the messages). A producer calls `create_block_from_mempool`: the pool's valid transactions
-- are applied to a copy of the state, their fees are split by the economy and paid out, the reward is
-- minted and credited by a coinbase transaction, and the block is signed. A receiver calls
-- `validate_and_apply_block`: it checks the block's format and hash, its link to the chain
-- (`add_received_block`), that its maker is the validator that the consensus selects from the previous
-- hash, and replays the transactions. `canonical_bootstrap` builds the chain, state and validators that
-- every node starts from. Two nodes authenticate each other by signed handshakes; then the runtime
-- dispatches the messages of a session (`process_message`), and a node that is behind asks a peer for
-- chunks of its chain, replays them on a candidate and adopts it (`sync_from_peer`).
--
-- Files and the sources that they model:
--   Prelude                  lists, texts, 64-bit words, results and Boolean tests that all parts share
--   Protocol                 src/protocol.rs
--   Crypto                   the crates sha2, hex and ed25519-dalek, as the parameter `Crypto`;
--                            `IsLawful` states their documented behaviour; Crypto/Toy is an instance
--   Core                     src/core/transaction.rs, src/core/block.rs
--   Wallet                   src/wallet/mod.rs; Wallet/Handshake has the signed texts of handshakes
--   Economy                  src/economy/mod.rs
--   State                    src/state/mod.rs; State/Refinement has the ledger that it refines
--   Consensus                src/consensus/mod.rs
--   Chain/Mempool            src/chain/mempool.rs
--   Chain/Blockchain         src/chain/blockchain.rs; Format and Settlement are parts of it
--   Network                  src/network/mod.rs; Network/Message and Network/Validation are parts of it,
--                            Network/Tcp is src/network/tcp.rs, Network/Toy an instance of `Serde`
--   Node                     src/node/mod.rs: the node and its operations; Node/Validation has the
--                            functions validate_* of `Node`, Node/Messages the dispatch of messages;
--                            Reachable, Chunks and Adoption are about sequences of operations, the buffer
--                            for another chain and the choice between chains
--   Bootstrap                src/bootstrap.rs; Bootstrap/Configuration has the configuration and its
--                            fingerprint, Bootstrap/Lives what a node that starts with it can come to be
--   Keystore                 the encryption of key files, as in src/validator.rs and src/user_wallet.rs, with
--                            the crates argon2 and chacha20poly1305 as the parameter `Vault`
--   Validator                src/validator.rs: the identity of a validator, and its key files
--   UserWallet               src/user_wallet.rs
--   Runtime                  src/runtime.rs; Runtime/Sync has the synchronisation from a peer,
--                            Runtime/Start the start of a node
--   Submission               src/transaction_submission.rs
--   Tests                    a small concrete network, and the theorems at concrete inputs
-- The functions have the names of the Rust functions. A child module that is named for what it proves
-- holds proofs and the notions that they need.
--
-- How the code is modelled:
--   - A `&mut self` method takes the value and returns the new one. A method that returns `Err` after a
--     change returns the changed state too (`State.Outcome`); where the callers drop the changed copy
--     the result is the error alone.
--   - A `String` is the list of its UTF-8 bytes. An error message is its fixed text with the values
--     that `format!` puts in. A panic of `expect` is the error `panic`.
--   - A u64 is a natural number. Checked arithmetic is checked against 2^64; arithmetic that the code
--     does not check wraps around, as in a release build. A usize is not bounded.
--   - `HashMap<String, Account>` is an association list, of which only look-up and insertion are used;
--     `HashSet` is a list of the identifiers seen.
--   - The system clock is an argument: the seconds since the epoch, or nothing before it.
--   - Loops over collections are structural recursion. The outer loop of `take_valid_transactions` runs
--     on fuel, one more than the length of the pool: every pass that goes on takes a transaction. That
--     this is enough is part of the theorem on that function, which describes what is chosen when the
--     loop has ended by itself.
--   - `Storage::save_blockchain_to` (src/storage.rs) asks a parameter, `Disk`, for the file system's
--     answer; an operation reads the clock once.
--   - serde_json is a parameter: `Serde` for messages, a field of `Vault`, `Payloads` and `WalletJson` for
--     key files; `IsFaithful`, `IsVault` and `IsReadBack` say that reading gives back what was written.
--     A TCP stream is a `Connection`: the bytes that are still to be read and those written.
--   - A synchronisation consumes a list of the peer's answers, an answer for each request; when the list
--     is at its end, the connection is closed. The loops recurse on that list. The node is an argument
--     at each moment at which the code takes its lock, as other tasks may have changed it in between.
--   - The challenge of a handshake, a new key, and the salt and nonce of an encryption are arguments.
--   - The file system's answers are arguments (`Validator.Keystore.FileSystem`, `UserWallet.WalletStore`);
--     a link to a file that exists fails.
--
-- Not modelled: the random choice of keys and challenges, serialisation, files, sockets and their time
-- limits, the tasks of the runtime, how private files are written, and the command line.
pub mod Prelude
pub mod Protocol
pub mod Crypto
pub mod Core
pub mod Wallet
pub mod Network
pub mod Bootstrap
pub mod Keystore
pub mod Validator
pub mod UserWallet
pub mod Runtime
pub mod Submission
pub mod Economy
pub mod State
pub mod Consensus
pub mod Chain
pub mod Node
pub mod Tests
