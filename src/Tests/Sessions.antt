-- ===== src/Tests/Sessions.antt =====
-- The start of the network, the sessions of a node with its peers and the clients, at concrete
-- inputs.
use aion_blockchain.Prelude.{
  str_eq_refl, some, arith, ◌≡◌, ◌<◌, ◌↔◌, ◌∷◌, [], length, none, ok, refl, replicate, false, true,
}
use aion_blockchain.Crypto.Toy.{toy, toy-IsLawful}
use aion_blockchain.Chain.Mempool.Admission.{HasRoom}
use aion_blockchain.Node
use aion_blockchain.Node.{persist, save_blockchain_to, Node, insert_transaction_into_mempool}
use aion_blockchain.Node.Messages
use aion_blockchain.Node.Messages.{chunk_at}
use aion_blockchain.Node.Soundness.{IsSound, Keeps}
use aion_blockchain.Node.Reachable.{Operation}
use aion_blockchain.Bootstrap.Lives.{Role, Lives, Lives-IsSound}
use aion_blockchain.Network.Message.{NetworkMessage}
use aion_blockchain.Network.Toy.{short}
use aion_blockchain.Bootstrap.{genesis_block, CanonicalBootstrap, canonical_bootstrap}
use aion_blockchain.Bootstrap.Configuration.{canonical_genesis_configuration}
use aion_blockchain.Bootstrap.Start.{IsStart, build_bootstrap-IsStart}
use aion_blockchain.Bootstrap.Nodes.{canonical_bootstrap_succeeds, first_node}
use aion_blockchain.Runtime.{NodeRuntime, RuntimeAction, chain_chunk_response, process_message}
use aion_blockchain.Runtime.Sync.{Answer, fetch_blocks, request_chunk, sync_from_peer}
use aion_blockchain.Runtime.Start.{initialize_at, initialize_at-IsSound, restore, start_identity}
use aion_blockchain.Keystore.Toy.{toy_vault}
use aion_blockchain.Validator.{ValidatorIdentity, address}
use aion_blockchain.Consensus.{is_validator_allowed}
use aion_blockchain.Validator.Keystore.{Directory, File, path_exists}
use aion_blockchain.Validator.Keystore.Toy.{plain_payloads}
use aion_blockchain.Runtime.Serving.{request_chunk-chain_chunk_response}
use aion_blockchain.Runtime.Requests.{fetch_blocks-bounded}
use aion_blockchain.Runtime.Adopting.{Advances, IsRunning, sync_from_peer-Advances}
use aion_blockchain.Runtime.Sessions.{process_message-Keeps}
use aion_blockchain.Submission.{prepare_signed_transaction}
use aion_blockchain.Submission.Acceptance.{insert-prepare_signed_transaction}
use aion_blockchain.Tests.Nodes.{IsSound-fresh, disk, fresh, waiting}
use aion_blockchain.Tests.Scenario.{
  alice, bob, chain_is_valid, clock, genesis, payment, produced, run,
}

canonical_bootstrap_succeeds_example :
    (b : CanonicalBootstrap) × (canonical_bootstrap ≡ ok b)
    × IsStart canonical_genesis_configuration b
canonical_bootstrap_succeeds_example = canonical_bootstrap_succeeds toy-IsLawful

abbrev start : CanonicalBootstrap
start = (canonical_bootstrap_succeeds toy-IsLawful).0

builds : canonical_bootstrap ≡ ok start
builds = (canonical_bootstrap_succeeds toy-IsLawful).1

build_bootstrap-IsStart_example : IsStart canonical_genesis_configuration start
unfolding canonical_bootstrap
build_bootstrap-IsStart_example =
    build_bootstrap-IsStart toy-IsLawful canonical_genesis_configuration builds

request_chunk-chain_chunk_response_example :
    (request_chunk (record { time = clock; message = chain_chunk_response 0 fresh }) 0
      ≡ ok (record { start_index = 0; total_blocks = 1; blocks = chunk_at 0 (genesis ∷ []) }))
    × ((length (chunk_at 0 (genesis ∷ [])) ≡ 0) ↔ (0 ≡ length fresh.blockchain.chain))
unfolding run
request_chunk-chain_chunk_response_example =
    request_chunk-chain_chunk_response clock 0 fresh (refl, tt) (omega arith) (omega arith)
      (omega arith)

-- A peer that serves the chain with one more block.
abbrev served : Answer
served = record {
  time = clock;
  message = ok (NetworkMessage.chain_chunk_response 0 2 (genesis ∷ produced.block ∷ []));
}

abbrev synchronized : Node
synchronized = record fresh { blockchain = produced.blockchain; state = produced.state }

follows : sync_from_peer clock disk (served ∷ []) fresh fresh fresh ≡ ok synchronized
unfolding run
follows = refl

IsRunning-fresh : IsRunning fresh
IsRunning-fresh = record { sound = IsSound-fresh; valid = chain_is_valid }

sync_from_peer-Advances_example : Advances fresh synchronized
sync_from_peer-Advances_example =
    sync_from_peer-Advances toy-IsLawful clock disk (served ∷ []) fresh fresh fresh IsRunning-fresh
      IsRunning-fresh follows

-- The peer's answer to the request for the block that is missing.
abbrev second : Answer
second = record {
  time = clock;
  message = ok (NetworkMessage.chain_chunk_response 1 2 (produced.block ∷ []));
}

fetch_blocks-bounded_example :
    fetch_blocks 2 (second ∷ served ∷ []) fresh ≡ fetch_blocks 2 (second ∷ []) fresh
fetch_blocks-bounded_example =
    fetch_blocks-bounded 2 (second ∷ []) (served ∷ []) fresh (omega arith)

abbrev observer : NodeRuntime
observer = record {
  node = fresh;
  validator_identity = none;
  validator_keystore_locked = false;
  chain_sync_active = false;
}

abbrev pending : NodeRuntime
pending = record observer { node = waiting }

processes :
    process_message ⦃serde = short⦄ clock disk true (NetworkMessage.transaction payment) observer
    ≡ ok (
      pending,
      RuntimeAction.reply (NetworkMessage.transaction_ack payment.id true none)
          ∷ RuntimeAction.broadcast (NetworkMessage.transaction payment)
          ∷ [],
    )
unfolding run
processes = refl

process_message-Keeps_example : Keeps fresh waiting
process_message-Keeps_example =
    process_message-Keeps ⦃serde = short⦄ clock disk true (NetworkMessage.transaction payment)
      observer IsSound-fresh processes

prepares :
    prepare_signed_transaction alice bob.address 1_000_000 fresh.state fresh.blockchain.economy
    ≡ ok payment
unfolding run
prepares = refl

room : HasRoom payment fresh.mempool
room = record { room = omega arith; new_id = refl; new_slot = refl }

insert-prepare_signed_transaction_example :
    insert_transaction_into_mempool payment fresh ≡ ok waiting
unfolding run
insert-prepare_signed_transaction_example =
    insert-prepare_signed_transaction toy-IsLawful (replicate 32 1) bob.address 1_000_000 fresh
      prepares refl room

abbrev empty_directory : Directory
empty_directory = record { candidate = File.missing; active = File.missing }

abbrev started : NodeRuntime
started = record {
  node = first_node start;
  validator_identity = none;
  validator_keystore_locked = false;
  chain_sync_active = false;
}

first_chain :
    start.blockchain.chain
    ≡ genesis_block canonical_genesis_configuration start.genesis_fingerprint ∷ []
first_chain = build_bootstrap-IsStart_example.chain

-- The node asks for the chain of a peer, and adopts the copy that was made of it before.
abbrev asking : Node
asking = Messages.request_chain ⦃serde = short⦄ clock (first_node start)

adopts :
    Messages.adopt_validated_sync_candidate disk
      (first_node start).blockchain
      (first_node start).state
      asking
    ≡ ok asking
unfolding Messages.adopt_validated_sync_candidate Messages.check_equal_candidate
    Messages.request_chain Messages.network_broadcast Node.new
adopts =
    let g = genesis_block canonical_genesis_configuration start.genesis_fingerprint in
    rw (first_chain, str_eq_refl g.hash) refl

life : Lives ⦃serde = short⦄ start Role.running asking
unfolding Messages.sync_candidate_snapshot Node.new
life =
    Lives.adopted disk (Lives.copied Lives.started)
      (Lives.operated Lives.started (Operation.requested clock)) adopts

Lives-IsSound_example : IsSound asking × (0 < length asking.blockchain.chain)
Lives-IsSound_example = Lives-IsSound ⦃serde = short⦄ toy-IsLawful builds life

starts :
    initialize_at ⦃v = toy_vault⦄ ⦃payloads = plain_payloads⦄ clock
      (λ chain. none)
      (ok none)
      none
      empty_directory
    ≡ ok started
unfolding initialize_at path_exists start_identity restore persist save_blockchain_to Node.new
starts = rw (builds, first_chain) refl

initialize_at-IsSound_example :
    (b : CanonicalBootstrap) × (canonical_bootstrap ≡ ok b)
    × IsSound started.node
    × (0 < length started.node.blockchain.chain)
    × ((identity : ValidatorIdentity)
        → started.validator_identity ≡ some identity
        → is_validator_allowed b.consensus (address identity) ≡ true)
initialize_at-IsSound_example =
    initialize_at-IsSound ⦃v = toy_vault⦄ ⦃payloads = plain_payloads⦄ toy-IsLawful clock
      (λ chain. none) (ok none) none empty_directory starts
