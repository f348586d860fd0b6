-- ===== src/Chain/Mempool/Admission.antt =====
-- What `add_transaction` of src/chain/mempool.rs lets into the pool, and the pool's invariant.
use aion_blockchain.Prelude.{
  str_eq_comm, str_eq_refl, Option-cases, append-nil, sym, if◌then◌else◌, AllDistinct-snoc,
  AllDistinct-keep, All-append, All-keep, length-keep-le, ◌∷◌, ◌++◌, length-append, Bool-cases, ◌↔◌,
  AllDistinct, str_eq_iff, All, ◌≤◌, arith, ◌<◌, ◌≢◌, ◌≡◌, [], true, false, refl, inl, inr,
}
use aion_blockchain.Protocol.{max_mempool_transactions, system_address}
use aion_blockchain.Crypto.{Crypto}
use aion_blockchain.Wallet.{address_from_public_key, verify}
use aion_blockchain.Chain.Blockchain.WellFormed.{NormalFormat}
use aion_blockchain.Core.Transaction.{Transaction, calculate_id, is_signed}
use aion_blockchain.Chain.Mempool.{
  message, hash_hex_length, is_fixed_hex, some, keep, Bool, Str, any, length, Mempool,
  has_valid_protocol_format, is_authentic, same_id, same_slot, rejects, add_transaction,
}

module _ ⦃c : Crypto⦄ where
  -- The key leads to the sender's address, and the transaction carries a signature by it.
  pub record Authentic (tx : Transaction) : Type 0 where
    pub signature : Str
    pub signature_is : tx.signature ≡ some signature
    pub key_is : address_from_public_key tx.public_key ≡ some tx.from
    pub verified : verify tx.public_key (message tx) signature ≡ true

  -- A transaction that may wait in the pool, as far as it alone decides.
  pub record Admissible (tx : Transaction) : Type 0 where
    pub normal : tx.coinbase ≡ false
    pub not_system : tx.from ≢ system_address
    pub positive : 0 < tx.amount
    pub unmarked : tx.reward_marker ≡ 0
    pub id_hex : is_fixed_hex tx.id hash_hex_length ≡ true
    pub format : NormalFormat tx
    pub identified : tx.id ≡ calculate_id tx
    pub authentic : Authentic tx

  -- The pool is within its limit, all its transactions are admissible, and no two share their
  -- identifier, or sender and nonce.
  pub record IsValid (pool : Mempool) : Type 0 where
    pub within : length pool.transactions ≤ max_mempool_transactions
    pub admissible : All Admissible pool.transactions
    pub distinct_ids : AllDistinct same_id pool.transactions
    pub distinct_slots : AllDistinct same_slot pool.transactions

  -- What the pool itself must allow.
  pub record HasRoom (tx : Transaction) (pool : Mempool) : Type 0 where
    pub room : length pool.transactions < max_mempool_transactions
    pub new_id : any (same_id tx) pool.transactions ≡ false
    pub new_slot : any (same_slot tx) pool.transactions ≡ false

  is_authentic-Authentic : (tx : Transaction) → (is_authentic tx ≡ true) ↔ Authentic tx
  unfolding is_authentic
  is_authentic-Authentic tx = (
    λ h. elim (Option-cases tx.signature) [
      | inl n ↦ absurd (ground arith)
      | inr (s, e) ↦ elim (Option-cases (address_from_public_key tx.public_key)) [
        | inl n ↦ absurd (ground arith)
        | inr (derived, k) ↦ record {
          signature = s;
          signature_is = e;
          key_is = ground (arith, str_eq_iff derived tx.from);
          verified = ground arith;
        }
      ]
    ],
    λ a. ground (arith, a.signature_is, a.key_is, str_eq_refl tx.from, a.verified),
  )

  is_signed-Authentic : (tx : Transaction) → Authentic tx → is_signed tx ≡ true
  unfolding is_signed
  is_signed-Authentic tx a = ground (arith, a.signature_is)

  format_lem :
      (tx : Transaction)
      → (has_valid_protocol_format tx ≡ true)
        ↔ ((is_fixed_hex tx.id hash_hex_length ≡ true) × NormalFormat tx)
  unfolding has_valid_protocol_format
  format_lem tx = (
    λ h. elim (Option-cases tx.signature) [
      | inl n ↦ absurd (ground arith)
      | inr (s, e) ↦ (
        ground arith,
        record {
          from_hex = ground arith;
          to_hex = ground arith;
          key_hex = ground arith;
          signed = (s, e, ground arith);
        },
      )
    ],
    λ (i, f). ground (arith, i, f.from_hex, f.to_hex, f.key_hex, f.signed),
  )

  admits :
      (tx : Transaction) (pool : Mempool)
      → rejects tx pool ≡ false
      → Admissible tx × HasRoom tx pool
  unfolding rejects
  admits tx pool h =
      let format = (format_lem tx).0 (ground arith) in
      (
        record {
          normal = ground arith;
          not_system = ground (arith, str_eq_iff tx.from system_address);
          positive = ground arith;
          unmarked = ground arith;
          id_hex = format.0;
          format = format.1;
          identified = ground (arith, str_eq_iff tx.id (calculate_id tx));
          authentic = (is_authentic-Authentic tx).0 (ground arith);
        },
        ground arith,
      )

  admits_back :
      (tx : Transaction) (pool : Mempool)
      → Admissible tx
      → HasRoom tx pool
      → rejects tx pool ≡ false
  unfolding rejects
  admits_back tx pool a r = ground (
    arith,
    a.normal,
    a.not_system,
    a.positive,
    a.unmarked,
    a.identified,
    str_eq_iff tx.from system_address,
    str_eq_iff tx.id (calculate_id tx),
    (format_lem tx).1 (a.id_hex, a.format),
    is_signed-Authentic tx a.authentic,
    (is_authentic-Authentic tx).1 a.authentic,
  )

  same_id_comm : (a b : Transaction) → same_id a b ≡ same_id b a
  same_id_comm a b = str_eq_comm b.id a.id

  same_slot_comm : (a b : Transaction) → same_slot a b ≡ same_slot b a
  same_slot_comm a b = ground (arith, str_eq_comm b.from a.from)

  -- `add_transaction` returns `true` exactly for an admissible transaction (normal, well formed, under
  -- its own identifier, signed by its sender) for which the pool has room and neither its identifier
  -- nor its sender's nonce; the transaction is appended if so, and the pool is left as it was if not.
  pub add_transaction_exact :
      (tx : Transaction) (pool : Mempool)
      → (((add_transaction tx pool).1 ≡ true) ↔ (Admissible tx × HasRoom tx pool))
        × ((add_transaction tx pool).0.transactions
            ≡ pool.transactions ++ (if (add_transaction tx pool).1 then tx ∷ [] else []))
  unfolding add_transaction
  add_transaction_exact tx pool = elim (Bool-cases (rejects tx pool)) [
    | inl r ↦ rw r (
      (λ h. absurd (ground arith), λ (a, room). absurd (cc (admits_back tx pool a room, r))),
      sym (append-nil pool.transactions),
    )
    | inr r ↦ rw r ((λ h. admits tx pool r, λ _. refl), refl)
  ]

  -- Whatever is offered to it, a valid pool stays valid.
  pub add_transaction-IsValid :
      (tx : Transaction) (pool : Mempool) → IsValid pool → IsValid (add_transaction tx pool).0
  unfolding add_transaction
  add_transaction-IsValid tx pool v = elim (Bool-cases (rejects tx pool)) [
    | inl r ↦ rw r v
    | inr r ↦
        let (a, room) = admits tx pool r in
        rw r (record {
          within = omega (arith, length-append {0} pool.transactions (tx ∷ []), room.room);
          admissible = All-append Admissible pool.transactions (tx ∷ []) v.admissible (a, tt);
          distinct_ids =
              AllDistinct-snoc same_id pool.transactions tx same_id_comm room.new_id v.distinct_ids;
          distinct_slots =
              AllDistinct-snoc same_slot pool.transactions tx same_slot_comm room.new_slot
                v.distinct_slots;
        })
  ]

  -- `retain` keeps a valid pool valid.
  pub keep-IsValid :
      (kept : Transaction → Bool) (pool : Mempool)
      → IsValid pool
      → IsValid (record { transactions = keep kept pool.transactions })
  keep-IsValid kept pool v = record {
    within = omega (arith, length-keep-le {0} kept pool.transactions, v.within);
    admissible = All-keep Admissible kept pool.transactions v.admissible;
    distinct_ids = AllDistinct-keep same_id kept pool.transactions v.distinct_ids;
    distinct_slots = AllDistinct-keep same_slot kept pool.transactions v.distinct_slots;
  }
