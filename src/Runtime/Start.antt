-- ===== src/Runtime/Start.antt =====
-- src/runtime.rs: the start of a node from its data directory. What the storage reads is an argument.
use aion_blockchain.Prelude.{
  ◌||◌, str_eq, not, ◌∙◌, ap, fail_if, ok_or, arith, subst, ok-injective, length, bind-eq-ok, ◌<◌,
  true, Bool, ◌≡◌, false, ◌&&◌, bytes_of, ◌>>=◌, ◌>>◌, Bytes, Str, Option, Result, List, some, none,
  ok,
}
use aion_blockchain.Crypto.{Crypto, IsLawful}
use aion_blockchain.Core.Block.{Block}
use aion_blockchain.Chain.Blockchain.{Clock}
use aion_blockchain.Consensus.{Consensus, is_validator_allowed}
use aion_blockchain.Keystore.{Vault, decrypt}
use aion_blockchain.Validator.{ValidatorIdentity, address, from_private_key}
use aion_blockchain.Validator.Keystore.{
  validator_keystore_format, validator_keystore_aad, texts, open_identity, Payloads, Directory,
  path_exists, load_authorized, read_encrypted_file,
}
use aion_blockchain.Validator.Keystore.Provisioning.{from_private_key-allowed}
use aion_blockchain.Node.Rebuilding.{synchronize_chain-Keeps}
use aion_blockchain.Protocol.{network_id}
use aion_blockchain.Bootstrap.{CanonicalBootstrap, canonical_bootstrap}
use aion_blockchain.Bootstrap.Nodes.{canonical-IsStart, canonical-IsSound, first_node}
use aion_blockchain.Node
use aion_blockchain.Node.{persist, Node, Disk, save_blockchain_to, synchronize_chain}
use aion_blockchain.Node.Soundness.{unchanged, Keeps, IsSound}
use aion_blockchain.Runtime.{NodeRuntime}

abbrev is_none : Option Bytes → Bool
is_none none = true
is_none (some _) = false

module _ ⦃c : Crypto⦄ where
  -- `Node::restore_chain_from_storage`
  abbrev pub restore_chain_from_storage : Clock → Disk → List Block → Node → Result Node
  restore_chain_from_storage clock disk chain n = synchronize_chain clock disk chain n

  -- The chain of the storage is replayed; where there is none, the first chain is saved.
  unfoldable pub restore : Clock → Disk → Option (List Block) → Node → Result Node
  restore clock disk (some chain) n = restore_chain_from_storage clock disk chain n
  restore clock disk none n = persist disk n.blockchain.chain "" >> ok n

  restore-Keeps :
      (clock : Clock) (disk : Disk) (stored : Option (List Block)) (n : Node) {n' : Node}
      → IsSound n
      → restore clock disk stored n ≡ ok n'
      → Keeps n n'
  unfolding restore
  restore-Keeps clock disk (some chain) n s h = synchronize_chain-Keeps clock disk chain n s h
  restore-Keeps clock disk none n s h =
      let (_, _, same) = bind-eq-ok (persist disk n.blockchain.chain "") _ h in
      subst (Keeps n) (ok-injective same) (unchanged n s)

  module _ ⦃v : Vault⦄ ⦃payloads : Payloads⦄ where
    -- The identity that a start with this password has.
    unfoldable pub start_identity :
        Option Bytes → CanonicalBootstrap → Directory → Result (Option ValidatorIdentity)
    start_identity none bootstrap d = ok none
    start_identity (some password) bootstrap d =
        load_authorized password bootstrap.consensus bootstrap.genesis_fingerprint d

    -- `NodeRuntime::initialize_at`
    unfoldable pub initialize_at :
        Clock → Disk → Result (Option (List Block)) → Option Bytes → Directory → Result NodeRuntime
    initialize_at clock disk loaded validator_password d = do
      bootstrap ← canonical_bootstrap
      exists ← path_exists d.active (bytes_of "Validator keystore")
      identity ← start_identity validator_password bootstrap d
      let node = Node.new bootstrap.blockchain bootstrap.state bootstrap.consensus
      stored ← loaded
      started ← restore clock disk stored node
      ok (record {
        node = started;
        validator_identity = identity;
        validator_keystore_locked = exists && is_none validator_password;
        chain_sync_active = false;
      })

    open_identity-allowed :
        (password : Bytes) (consensus : Consensus) (fingerprint : Str) (file : Option Bytes)
        {identity : ValidatorIdentity}
        → open_identity password consensus fingerprint file ≡ ok (some identity)
        → is_validator_allowed consensus (address identity) ≡ true
    unfolding open_identity
    open_identity-allowed password consensus fingerprint none h = cc
    open_identity-allowed password consensus fingerprint (some encrypted) {identity} h =
        let (plaintext, _, h1) =
          bind-eq-ok (decrypt texts password encrypted validator_keystore_aad) _ h in
        let (stored, _, h2) =
          bind-eq-ok
            (ok_or (payloads.key_from_slice plaintext) "Validator keystore payload is invalid") _
            h1 in
        let (_, _, h3) =
          bind-eq-ok
            (fail_if
              (not (str_eq stored.format validator_keystore_format)
                || (not (str_eq stored.network_id network_id)
                    || not (str_eq stored.genesis_fingerprint fingerprint)))
              "Validator keystore does not match the network or genesis identity")
            _ h2 in
        let (opened, known, h4) =
          bind-eq-ok (from_private_key stored.private_key_hex consensus) _ h3 in
        let (_, _, h5) =
          bind-eq-ok
            (fail_if (not (str_eq (address opened) stored.validator_address))
              "Validator keystore address does not match the private key")
            _ h4 in
        ground (arith, h5, from_private_key-allowed stored.private_key_hex consensus known)

    start_identity-allowed :
        (validator_password : Option Bytes) (b : CanonicalBootstrap) (d : Directory)
        {identity : ValidatorIdentity}
        → start_identity validator_password b d ≡ ok (some identity)
        → is_validator_allowed b.consensus (address identity) ≡ true
    unfolding start_identity load_authorized
    start_identity-allowed none b d h = cc
    start_identity-allowed (some password) b d h =
        let (file, _, h1) =
          bind-eq-ok (read_encrypted_file d.active (bytes_of "Validator keystore")) _ h in
        open_identity-allowed password b.consensus b.genesis_fingerprint file h1

    -- A node that starts is sound: whatever its storage holds, a start that succeeds leaves a chain that
    -- is not empty, money that is balanced and within the cap, and valid pool and registry; and its
    -- identity, if any, is in the canonical validator set.
    pub initialize_at-IsSound :
        (laws : IsLawful c) (clock : Clock) (disk : Disk) (loaded : Result (Option (List Block)))
        (validator_password : Option Bytes) (d : Directory) {r : NodeRuntime}
        → initialize_at clock disk loaded validator_password d ≡ ok r
        → (b : CanonicalBootstrap) × (canonical_bootstrap ≡ ok b)
          × IsSound r.node
          × (0 < length r.node.blockchain.chain)
          × ((identity : ValidatorIdentity)
              → r.validator_identity ≡ some identity
              → is_validator_allowed b.consensus (address identity) ≡ true)
    unfolding initialize_at Node.new
    initialize_at-IsSound laws clock disk loaded validator_password d {r} h =
        let (b, built, h1) = bind-eq-ok canonical_bootstrap _ h in
        let start = canonical-IsStart laws built in
        let (exists, _, h2) =
          bind-eq-ok (path_exists d.active (bytes_of "Validator keystore")) _ h1 in
        let (identity, known, h3) = bind-eq-ok (start_identity validator_password b d) _ h2 in
        let (stored, _, h4) = bind-eq-ok loaded _ h3 in
        let (started, restored, h5) = bind-eq-ok (restore clock disk stored (first_node b)) _ h4 in
        let kept =
          restore-Keeps clock disk stored (first_node b) (canonical-IsSound laws built) restored in
        let ended = ok-injective h5 in
        (
          b,
          built,
          subst (λ (m : NodeRuntime). IsSound m.node) ended kept.sound,
          subst (λ (m : NodeRuntime). 0 < length m.node.blockchain.chain) ended
              (omega (arith, kept.no_shorter, ap length start.chain)),
          λ member is_member.
              start_identity-allowed validator_password b d
                (known ∙ ap ok (ap (λ (m : NodeRuntime). m.validator_identity) ended ∙ is_member)),
        )
