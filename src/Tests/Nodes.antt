-- ===== src/Tests/Nodes.antt =====
-- A node of the small network: it is sent a payment and a block, and it synchronizes with a longer
-- chain in two chunks.
use aion_blockchain.Prelude.{
  false, [], true, arith, refl, ok, some, none, length, ◌≡◌, ◌+◌, ◌<◌, ◌⊎◌, ◌∷◌, List,
}
use aion_blockchain.Crypto.Toy.{toy}
use aion_blockchain.Core.Block.{Block}
use aion_blockchain.Chain.Mempool
use aion_blockchain.Chain.Blockchain.{is_valid}
use aion_blockchain.Chain.Blockchain.Production.{IsSolvent}
use aion_blockchain.Chain.Blockchain.WellFormed.{BlockFormat}
use aion_blockchain.Node.{
  Node, Disk, insert_transaction_into_mempool, accept_chain_chunk, synchronize_chain,
}
use aion_blockchain.Node.Soundness.{IsSound, Keeps}
use aion_blockchain.Node.Reachable.{Operation, Step, Reachable, Reachable-Keeps}
use aion_blockchain.Node.Chunks.{IsBuffered, accept_chain_chunk-IsBuffered, accept_chain_chunk_next}
use aion_blockchain.Node.Adoption.{Adopts, synchronize_chain_lem, synchronize_chain-is_valid}
use aion_blockchain.Network
use aion_blockchain.Network.Message.{NetworkMessage}
use aion_blockchain.Network.Toy.{short}
use aion_blockchain.Node.Messages.{receive_message}
use aion_blockchain.Network.Registry.{new-IsRegistry}
use aion_blockchain.Tests.Scenario.{
  run, chain, ledger, validators, clock, genesis, payment, produced, pool, chain_is_valid,
}

-- Every write succeeds.
abbrev pub disk : Disk
disk _ = none

abbrev pub fresh : Node
fresh = record {
  blockchain = chain;
  state = ledger;
  mempool = Mempool.new;
  consensus = validators;
  network = Network.new;
  genesis_state = ledger;
  genesis_economy = chain.economy;
  sync_buffer = [];
  sync_expected_total = none;
}

abbrev pub waiting : Node
waiting = record fresh { mempool = pool }

IsSolvent-ledger : IsSolvent ledger chain.economy
unfolding run
IsSolvent-ledger = record { balanced = refl; capped = omega arith }

pub IsSound-fresh : IsSound fresh
IsSound-fresh = record {
  solvent = IsSolvent-ledger;
  genesis_solvent = IsSolvent-ledger;
  registry = new-IsRegistry;
  pool = record { within = omega arith; admissible = tt; distinct_ids = tt; distinct_slots = tt };
}

inserts : insert_transaction_into_mempool payment fresh ≡ ok waiting
unfolding run
inserts = refl

abbrev announcement : NetworkMessage
announcement = NetworkMessage.block produced.block

path : Reachable fresh (receive_message clock disk announcement waiting)
path =
    Reachable.next
      (Reachable.next Reachable.here (Step.operated (Operation.inserted payment inserts)))
      (Step.operated (Operation.answered clock disk announcement))

Reachable-Keeps_example : Keeps fresh (receive_message clock disk announcement waiting)
Reachable-Keeps_example = Reachable-Keeps IsSound-fresh path

IsBuffered-fresh : IsBuffered fresh
IsBuffered-fresh = record { indexed = tt; within = refl }

accept_chain_chunk-IsBuffered_example :
    IsBuffered (accept_chain_chunk clock disk 0 2 (genesis ∷ []) fresh).1
accept_chain_chunk-IsBuffered_example =
    accept_chain_chunk-IsBuffered clock disk 0 2 (genesis ∷ []) fresh IsBuffered-fresh

asks : (accept_chain_chunk clock disk 0 2 (genesis ∷ []) fresh).0 ≡ ok (some 1)
unfolding run
asks = refl

accept_chain_chunk_next_example :
    (1 ≡ 0 + length (genesis ∷ []))
    × (0 < 1)
    × (1 < 2)
    × (length (accept_chain_chunk clock disk 0 2 (genesis ∷ []) fresh).1.sync_buffer ≡ 1)
accept_chain_chunk_next_example =
    accept_chain_chunk_next clock disk 0 2 (genesis ∷ []) fresh IsBuffered-fresh asks

abbrev other : List Block
other = genesis ∷ produced.block ∷ []

abbrev adopted : Node
adopted = record fresh { blockchain = produced.blockchain; state = produced.state }

synchronizes : synchronize_chain clock disk other fresh ≡ ok adopted
unfolding run
synchronizes = refl

synchronize_chain_example : (adopted ≡ fresh) ⊎ Adopts other fresh adopted
synchronize_chain_example = synchronize_chain_lem clock disk other fresh synchronizes

BlockFormat-genesis : BlockFormat genesis
unfolding run
BlockFormat-genesis = record {
  within = omega arith;
  hash_hex = refl;
  genesis = λ z. record {
    no_previous = refl;
    no_validator = refl;
    key_hex = refl;
    unsigned = refl;
    no_transactions = refl;
  };
  chained = λ z. absurd (z refl);
}

synchronize_chain-is_valid_example : is_valid adopted.blockchain ≡ true
synchronize_chain-is_valid_example =
    synchronize_chain-is_valid clock disk other fresh genesis chain_is_valid refl
      BlockFormat-genesis synchronizes

-- A signature on the genesis block is not covered by its hash. The node adopts a chain with one, and
-- then has a chain that is not valid.
abbrev forged : Block
forged = record genesis { validator_signature = some [] }

abbrev misled : Node
misled = record adopted {
  blockchain = record produced.blockchain { chain = forged ∷ produced.block ∷ [] };
}

adopts_forged :
    (synchronize_chain clock disk (forged ∷ produced.block ∷ []) fresh ≡ ok misled)
    × (is_valid misled.blockchain ≡ false)
unfolding run
adopts_forged = (refl, refl)
