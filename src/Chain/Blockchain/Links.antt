-- ===== src/Chain/Blockchain/Links.antt =====
-- The link between neighbouring blocks of a chain and the seal on a block (src/chain/blockchain.rs),
-- as statements.
use aion_blockchain.Prelude.{
  inr, inl, str_eq_refl, Option-cases, refl, str_eq_iff, ◌↔◌, ◌<◌, arith, ◌≡◌, bytes_of, true, none,
  some,
}
use aion_blockchain.Crypto.{Crypto}
use aion_blockchain.Core.Block
use aion_blockchain.Core.Block.{Block}
use aion_blockchain.Wallet.{address_from_public_key, verify}
use aion_blockchain.Chain.Blockchain.{Str, Option, links, is_sealed}

module _ ⦃c : Crypto⦄ where
  -- The key leads to the validator's address, and the block carries a signature by it on its hash.
  pub record IsSealed (block : Block) : Type 0 where
    pub signature : Str
    pub key_is : address_from_public_key block.validator_public_key ≡ some block.validator
    pub signature_is : block.validator_signature ≡ some signature
    pub verified : verify block.validator_public_key block.hash signature ≡ true

  -- What a block owes to the one before it; the first block of a chain names no predecessor.
  abbrev pub Follows : Option Block → Block → Type 0
  Follows none block = block.previous_hash ≡ bytes_of "0"
  Follows (some previous) block =
      (previous.timestamp < block.timestamp)
      × (block.previous_hash ≡ previous.hash)
      × IsSealed block

  unsealed : (block : Block) → is_sealed block ≡ true → IsSealed block
  unfolding is_sealed
  unsealed block h = elim (Option-cases (address_from_public_key block.validator_public_key)) [
    | inl e ↦ absurd (ground arith)
    | inr (derived, e) ↦ elim (Option-cases block.validator_signature) [
      | inl n ↦ absurd (ground arith)
      | inr (signature, f) ↦ record {
        signature = signature;
        key_is = ground (arith, str_eq_iff derived block.validator);
        signature_is = f;
        verified = ground arith;
      }
    ]
  ]

  pub is_sealed-IsSealed : (block : Block) → (is_sealed block ≡ true) ↔ IsSealed block
  unfolding is_sealed
  is_sealed-IsSealed block = (
    unsealed block,
    λ s. ground (arith, s.key_is, s.signature_is, str_eq_refl block.validator, s.verified),
  )

  is_signed-IsSealed : (block : Block) → IsSealed block → Block.is_signed block ≡ true
  unfolding Block.is_signed
  is_signed-IsSealed block s = rw s.signature_is refl

  pub links-Follows :
      (previous : Option Block) (block : Block)
      → (links previous block ≡ true) ↔ Follows previous block
  unfolding links
  links-Follows none block = str_eq_iff block.previous_hash (bytes_of "0")
  links-Follows (some previous) block = (
    λ h. (
      ground arith,
      ground (arith, str_eq_iff block.previous_hash previous.hash),
      (is_sealed-IsSealed block).0 (ground arith),
    ),
    λ f. ground (
      arith,
      f.0,
      str_eq_iff block.previous_hash previous.hash,
      f.1,
      is_signed-IsSealed block f.2,
      (is_sealed-IsSealed block).1 f.2,
    ),
  )
