-- ===== src/Validator/Keystore/Provisioning.antt =====
-- What was provisioned can be loaded with the same password (src/validator.rs).
use aion_blockchain.Prelude.{
  inr, inl, ltb, Bool-cases, ◌||◌, ◌==◌, text_about, not, err, Bool, if◌then◌else◌, subst,
  ok_or-eq-ok, refl, ok_or, str_eq_refl, fail_if, bytes_of, ok-injective, sym, arith, str_eq, true,
  some, ◌≡◌, Bytes, Str, length, ok, bind-eq-ok,
}
use aion_blockchain.Crypto.{Crypto, IsLawful}
use aion_blockchain.Consensus.{Consensus, is_validator_allowed}
use aion_blockchain.Keystore
use aion_blockchain.Keystore.{Vault, IsVault}
use aion_blockchain.Keystore.Sealing.{IsDrawn, decrypt-encrypt}
use aion_blockchain.Validator.{from_private_key_hex, ValidatorIdentity, address, from_private_key}
use aion_blockchain.Validator.Keystore.{
  open_identity, network_id, validator_keystore_format, max_validator_keystore_bytes,
  validator_keystore_aad, path_exists, StoredValidatorCandidate, missing, Directory, texts,
  FileSystem, readable, File, read_encrypted_file, provision, store_without_overwrite,
  StoredValidatorKey, load_authorized, Payloads,
}

-- JSON reads as what was written.
pub record IsFaithful (p : Payloads) : Type 0 where
  pub key_read_back :
      (k : StoredValidatorKey) {bytes : Bytes}
      → p.key_to_vec k ≡ some bytes
      → p.key_from_slice bytes ≡ some k
  pub candidate_read_back :
      (k : StoredValidatorCandidate) {bytes : Bytes}
      → p.candidate_to_vec k ≡ some bytes
      → p.candidate_from_slice bytes ≡ some k

-- The sizes of a key file that is read.
abbrev pub has_size : Bytes → Bool
has_size bytes = not (length bytes == 0 || ltb max_validator_keystore_bytes (length bytes))

pub from_private_key-allowed :
    ⦃c : Crypto⦄ (private_key_hex : Str) (consensus : Consensus) {identity : ValidatorIdentity}
    → from_private_key private_key_hex consensus ≡ ok identity
    → is_validator_allowed consensus (address identity) ≡ true
unfolding from_private_key
from_private_key-allowed private_key_hex consensus h =
    let (wallet, _, h1) = bind-eq-ok (from_private_key_hex private_key_hex) _ h in
    ground (arith, h1)

store-eq-ok :
    (fs : FileSystem) (serialized : Bytes) (file : File) {stored : File}
    → store_without_overwrite fs serialized file ≡ ok stored
    → (file ≡ missing) × (stored ≡ readable serialized)
unfolding store_without_overwrite
store-eq-ok fs serialized File.missing h =
    let (_, _, h1) = bind-eq-ok fs.written _ h in
    let (_, _, h2) = bind-eq-ok fs.linked _ h1 in (refl, sym (ok-injective h2))
store-eq-ok fs serialized (File.readable bytes) h = let (_, _, h1) = bind-eq-ok fs.written _ h in cc
store-eq-ok fs serialized File.unreadable h = let (_, _, h1) = bind-eq-ok fs.written _ h in cc
store-eq-ok fs serialized File.unreachable h = let (_, _, h1) = bind-eq-ok fs.written _ h in cc

open_identity-stored :
    ⦃c : Crypto⦄ ⦃v : Vault⦄ ⦃p : Payloads⦄ (password : Bytes) (private_key_hex : Str)
    (consensus : Consensus) (fingerprint : Str) (serialized plaintext : Bytes)
    (identity : ValidatorIdentity)
    → Keystore.decrypt texts password serialized validator_keystore_aad ≡ ok plaintext
    → p.key_from_slice plaintext
      ≡ some (record {
        format = validator_keystore_format;
        network_id = network_id;
        genesis_fingerprint = fingerprint;
        validator_address = address identity;
        private_key_hex = private_key_hex;
      })
    → from_private_key private_key_hex consensus ≡ ok identity
    → open_identity password consensus fingerprint (some serialized) ≡ ok (some identity)
unfolding open_identity str_eq
open_identity-stored password private_key_hex consensus fingerprint serialized plaintext identity
      opened read known =
    rw (opened, read, str_eq_refl fingerprint, known, str_eq_refl (address identity)) refl

-- What loading makes of a file whose content opens: the identity, if the size is within the limit.
load_authorized-stored :
    ⦃c : Crypto⦄ ⦃v : Vault⦄ ⦃p : Payloads⦄ (password : Bytes) (consensus : Consensus)
    (fingerprint : Str) (candidate : File) (serialized : Bytes) (identity : ValidatorIdentity)
    → open_identity password consensus fingerprint (some serialized) ≡ ok (some identity)
    → load_authorized password consensus fingerprint
        (record { candidate = candidate; active = readable serialized })
      ≡ (if has_size serialized
          then ok (some identity)
          else err (text_about " size is invalid" (bytes_of "Validator keystore")))
unfolding load_authorized read_encrypted_file
load_authorized-stored password consensus fingerprint candidate serialized identity opened =
    elim (Bool-cases
      (length serialized == 0 || ltb max_validator_keystore_bytes (length serialized))) [
        | inl e ↦ rw e refl
        | inr e ↦ rw e opened
      ]

-- Provisioning succeeds only for a member of the validator set where there is no key file; it writes
-- one, which can be read, returns the member's address and leaves the candidate's file as it was. With
-- the same password, validator set and genesis the file then loads as the identity with that address,
-- exactly if it is not empty and has at most 1 MiB; else its size is refused, which provisioning does
-- not look at. The cryptography and JSON behave as documented.
pub load_authorized-provision :
    ⦃c : Crypto⦄ ⦃v : Vault⦄ ⦃p : Payloads⦄ (laws : IsLawful c) (vault : IsVault v)
    (faithful : IsFaithful p) (fs : FileSystem) (material nonce password : Bytes)
    (private_key_hex : Str) (consensus : Consensus) (fingerprint : Str) (d : Directory)
    {added : Str} {after : Directory}
    → IsDrawn material nonce
    → provision fs material nonce password private_key_hex consensus fingerprint d
      ≡ ok (added, after)
    → (identity : ValidatorIdentity) × (file : Bytes) × (after
        ≡ record d { active = readable file })
      × (load_authorized password consensus fingerprint after ≡ (
          if has_size file
          then ok (some identity)
          else err (text_about " size is invalid" (bytes_of "Validator keystore"))))
      × (address identity ≡ added)
      × (is_validator_allowed consensus added ≡ true)
      × (d.active ≡ missing)
unfolding provision
load_authorized-provision ⦃c⦄ ⦃v⦄ ⦃p⦄ laws vault faithful fs material nonce password private_key_hex
      consensus fingerprint d {added} {after} drawn h =
    let (identity, known, h1) = bind-eq-ok (from_private_key private_key_hex consensus) _ h in
    let (exists, _, h2) = bind-eq-ok (path_exists d.active (bytes_of "Validator keystore")) _ h1 in
    let (_, _, h3) = bind-eq-ok (fail_if exists _) _ h2 in
    let (plaintext, written, h4) = bind-eq-ok (ok_or (p.key_to_vec _) _) _ h3 in
    let (serialized, encrypted, h5) =
      bind-eq-ok (Keystore.encrypt texts material nonce password plaintext validator_keystore_aad) _
        h4 in
    let (stored, published, h6) =
      bind-eq-ok (store_without_overwrite fs serialized d.active) _ h5 in
    let read = faithful.key_read_back _ (ok_or-eq-ok _ _ written) in
    let decrypted =
      decrypt-encrypt laws vault texts material nonce password plaintext validator_keystore_aad
        drawn encrypted in
    let opened =
      open_identity-stored password private_key_hex consensus fingerprint serialized plaintext
        identity decrypted read known in
    let (none_before, now) = store-eq-ok fs serialized d.active published in
    let result : File → Str × Directory = λ file. (address identity, record d { active = file }) in
    let returned : result (readable serialized) ≡ (added, after) =
      ok-injective (subst (λ file. ok (result file) ≡ ok (added, after)) now h6) in
    subst
      (λ (result : Str × Directory).
        (identity : ValidatorIdentity) × (file : Bytes) × (result.1
          ≡ record d { active = readable file })
        × (load_authorized password consensus fingerprint result.1 ≡ (
            if has_size file
            then ok (some identity)
            else err (text_about " size is invalid" (bytes_of "Validator keystore"))))
        × (address identity ≡ result.0)
        × (is_validator_allowed consensus result.0 ≡ true)
        × (d.active ≡ missing))
      returned
      (
        identity,
        serialized,
        refl,
        load_authorized-stored password consensus fingerprint d.candidate serialized identity
            opened,
        refl,
        from_private_key-allowed private_key_hex consensus known,
        none_before,
      )
