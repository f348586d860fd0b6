-- ===== src/Submission/Acceptance.antt =====
-- A transaction that src/transaction_submission.rs prepares is one that the node lets into its pool.
use aion_blockchain.Prelude.{
  str_eq_refl, str_eq_iff, ltb, ok_or, ◌==◌, not, fail_if, u64_mod, checked_add, ◌≢◌, arith, ap,
  bind-eq-ok, ok-injective, subst, ◌≡◌, ◌≤◌, ◌<◌, ◌+◌, ◌++◌, ◌∷◌, Bytes, Str, [], ok, true, refl, ℕ,
  length, keep,
}
use aion_blockchain.Protocol.{address_hex_length, is_fixed_hex, system_address}
use aion_blockchain.Crypto.{Crypto, IsLawful}
use aion_blockchain.Core.Transaction
use aion_blockchain.Core.Transaction.{Transaction, calculate_id, message}
use aion_blockchain.Economy.{Economy, calculate_fee, validate_fee}
use aion_blockchain.State.{balance_of, nonce_of}
use aion_blockchain.Wallet
use aion_blockchain.Wallet.{Wallet, from_signing_key, public_key_hex}
use aion_blockchain.Wallet.Signing.{verify-sign}
use aion_blockchain.Wallet.Formats.{digest_format, identity_format, signature_format}
use aion_blockchain.Chain.Mempool.{
  add_costs, advance, sort_by_nonce, pending_for_sender, is_from, Mempool, next_nonce, pending_cost,
}
use aion_blockchain.Chain.Mempool.Admission.{Admissible, HasRoom, add_transaction_exact}
use aion_blockchain.Chain.Blockchain.WellFormed.{validate_transaction_field_sizes_exact}
use aion_blockchain.Node.{Node, insert_transaction_into_mempool}
use aion_blockchain.Node.Validation.{
  validate_transaction_field_sizes, validate_transaction_base, validate_transaction_for_mempool,
}
use aion_blockchain.Submission.{
  check_prepared, prepare_signed_transaction, prepare_signed_transaction_from_values,
}

module _ ⦃c : Crypto⦄ where
  -- The transaction that a wallet signs.
  abbrev pub payment : Bytes → Str → ℕ → ℕ → ℕ → Transaction
  payment key recipient amount fee nonce =
      let w = from_signing_key key in
      let unsigned = Transaction.new w.address (public_key_hex w) recipient amount fee nonce in
      Transaction.sign (Wallet.sign w (message unsigned)) unsigned

  -- What the preparation has checked.
  record Prepared (key : Bytes) (recipient : Str) (amount balance nonce : ℕ) (economy : Economy)
      (tx : Transaction) : Type 0 where
    recipient_hex : is_fixed_hex recipient address_hex_length ≡ true
    positive : 0 < amount
    machine : amount + calculate_fee economy amount < u64_mod
    covered : amount + calculate_fee economy amount ≤ balance
    built : payment key recipient amount (calculate_fee economy amount) nonce ≡ tx

  prepare-Prepared :
      (key : Bytes) (recipient : Str) (amount balance nonce : ℕ) (economy : Economy)
      {tx : Transaction}
      → prepare_signed_transaction_from_values
          (from_signing_key key)
          recipient
          amount
          balance
          nonce
          economy
        ≡ ok tx
      → Prepared key recipient amount balance nonce economy tx
  unfolding prepare_signed_transaction_from_values checked_add
  prepare-Prepared key recipient amount balance nonce economy {tx} h =
      let fee = calculate_fee economy amount in
      let (_, e1, h) =
        bind-eq-ok
          (fail_if (not (is_fixed_hex recipient address_hex_length))
            "Recipient address must be 64 hex characters")
          _ h in
      let (_, e2, h) = bind-eq-ok (fail_if (amount == 0) "Transaction amount cannot be zero") _ h in
      let (cost, e3, h) =
        bind-eq-ok (ok_or (checked_add amount fee) "Transaction amount plus fee overflow") _ h in
      let (_, e4, h) =
        bind-eq-ok (fail_if (ltb balance cost) "Insufficient balance for transaction") _ h in
      let (_, e5, h) = bind-eq-ok (check_prepared (payment key recipient amount fee nonce)) _ h in
      record {
        recipient_hex = ground (arith, e1);
        positive = ground (arith, e2);
        machine = ground (arith, e3);
        covered = ground (arith, e3, e4);
        built = ok-injective h;
      }

  -- An address is not the system's.
  not_system : (s : Str) → is_fixed_hex s address_hex_length ≡ true → s ≢ system_address
  unfolding is_fixed_hex
  not_system s h e = ground (arith, h, ap length e)

  payment-Admissible :
      (laws : IsLawful c) (key : Bytes) (recipient : Str) (amount fee nonce : ℕ)
      → is_fixed_hex recipient address_hex_length ≡ true
      → 0 < amount
      → Admissible (payment key recipient amount fee nonce)
  unfolding Transaction.new Transaction.sign calculate_id message
  payment-Admissible laws key recipient amount fee nonce recipient_hex positive =
      let w = from_signing_key key in
      let tx = payment key recipient amount fee nonce in
      let (address_hex, key_hex) = identity_format laws key in
      let (verified, derived) = verify-sign laws key (message tx) in
      record {
        normal = refl;
        not_system = not_system w.address address_hex;
        positive = positive;
        unmarked = refl;
        id_hex = digest_format laws (message tx);
        format = record {
          from_hex = address_hex;
          to_hex = recipient_hex;
          key_hex = key_hex;
          signed = (Wallet.sign w (message tx), refl, signature_format laws key (message tx));
        };
        identified = refl;
        authentic = record {
          signature = Wallet.sign w (message tx);
          signature_is = refl;
          key_is = derived;
          verified = verified;
        };
      }

  -- What is admissible and pays the right fee passes the node's own checks of a transaction.
  base-ok :
      (tx : Transaction) (economy : Economy)
      → Admissible tx
      → validate_fee economy tx.amount tx.fee ≡ true
      → validate_transaction_base tx economy ≡ ok tt
  unfolding validate_transaction_base validate_transaction_field_sizes Transaction.is_signed
  base-ok tx economy a fee =
      let format = (validate_transaction_field_sizes_exact tx).1 (record {
        id_hex = a.id_hex;
        coinbase = λ e. absurd (cc (e, a.normal));
        normal = λ _. a.format;
      }) in
      ground (
        arith,
        format,
        a.normal,
        a.positive,
        a.unmarked,
        a.authentic.signature_is,
        a.authentic.key_is,
        a.authentic.verified,
        fee,
        str_eq_iff tx.from system_address,
        a.not_system,
        a.identified,
        str_eq_refl (calculate_id tx),
        str_eq_refl tx.from,
      )

  -- A sender with nothing in the pool: the next nonce is the account's, and nothing is reserved.
  nothing_pending :
      (pool : Mempool) (address : Str) (nonce : ℕ)
      → keep (is_from address) pool.transactions ≡ []
      → (next_nonce pool address nonce ≡ ok nonce) × (pending_cost pool address ≡ ok 0)
  unfolding next_nonce pending_for_sender pending_cost sort_by_nonce advance add_costs
  nothing_pending pool address nonce h = (rw h refl, rw h refl)

  -- What the node asks of a transaction beside room in the pool, when its sender has nothing there.
  record Suitable (n : Node) (tx : Transaction) : Type 0 where
    admissible : Admissible tx
    right_fee : validate_fee n.blockchain.economy tx.amount tx.fee ≡ true
    right_nonce : tx.nonce ≡ nonce_of n.state tx.from
    machine : tx.amount + tx.fee < u64_mod
    covered : tx.amount + tx.fee ≤ balance_of n.state tx.from

  prepared-Suitable :
      (laws : IsLawful c) (key : Bytes) (recipient : Str) (amount : ℕ) (n : Node) {tx : Transaction}
      → prepare_signed_transaction
          (from_signing_key key)
          recipient
          amount
          n.state
          n.blockchain.economy
        ≡ ok tx
      → Suitable n tx
  unfolding prepare_signed_transaction validate_fee Transaction.new Transaction.sign
  prepared-Suitable laws key recipient amount n h =
      let w = from_signing_key key in
      let nonce = nonce_of n.state w.address in
      let fee = calculate_fee n.blockchain.economy amount in
      let p =
        prepare-Prepared key recipient amount (balance_of n.state w.address) nonce
          n.blockchain.economy h in
      subst (Suitable n) p.built (record {
        admissible =
            payment-Admissible laws key recipient amount fee nonce p.recipient_hex p.positive;
        right_fee = ground arith;
        right_nonce = refl;
        machine = p.machine;
        covered = p.covered;
      })

  validates :
      (tx : Transaction) (n : Node)
      → Suitable n tx
      → keep (is_from tx.from) n.mempool.transactions ≡ []
      → validate_transaction_for_mempool tx n.state n.blockchain.economy n.mempool ≡ ok tt
  unfolding validate_transaction_for_mempool checked_add
  validates tx n s none_pending =
      let (next, reserved) =
        nothing_pending n.mempool tx.from (nonce_of n.state tx.from) none_pending in
      ground (
        arith,
        base-ok tx n.blockchain.economy s.admissible s.right_fee,
        next,
        reserved,
        s.right_nonce,
        s.machine,
        s.covered,
      )

  -- With crates that behave as documented, a transaction that is prepared from the node's own state
  -- and economy is let into the pool if none of its sender is there yet, the pool has room, and its
  -- identifier and its nonce with its sender are not taken.
  pub insert-prepare_signed_transaction :
      (laws : IsLawful c) (key : Bytes) (recipient : Str) (amount : ℕ) (n : Node) {tx : Transaction}
      → prepare_signed_transaction
          (from_signing_key key)
          recipient
          amount
          n.state
          n.blockchain.economy
        ≡ ok tx
      → keep (is_from tx.from) n.mempool.transactions ≡ []
      → HasRoom tx n.mempool
      → insert_transaction_into_mempool tx n
        ≡ ok (record n { mempool = record { transactions = n.mempool.transactions ++ tx ∷ [] } })
  unfolding insert_transaction_into_mempool
  insert-prepare_signed_transaction laws key recipient amount n {tx} h none_pending room =
      let s = prepared-Suitable laws key recipient amount n h in
      let (admitted, grown) = add_transaction_exact tx n.mempool in
      let added = admitted.1 (s.admissible, room) in
      ground (arith, validates tx n s none_pending, added, grown)
