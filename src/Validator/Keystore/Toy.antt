-- ===== src/Validator/Keystore/Toy.antt =====
-- A concrete form of the payloads for tests and witnesses: texts behind their lengths.
use aion_blockchain.Prelude.{◌≡◌, Str, Option, some, none, List, [], ◌∷◌, subst, ap}
use aion_blockchain.Network.Toy.{texts, read_texts, read_texts-texts, some-injective}
use aion_blockchain.Validator.Keystore.{Payloads, StoredValidatorKey, StoredValidatorCandidate}
use aion_blockchain.Validator.Keystore.Provisioning.{IsFaithful}

abbrev to_key : List Str → Option StoredValidatorKey
to_key (format ∷ network_id ∷ genesis_fingerprint ∷ validator_address ∷ private_key_hex ∷ []) =
    some (record {
      format = format;
      network_id = network_id;
      genesis_fingerprint = genesis_fingerprint;
      validator_address = validator_address;
      private_key_hex = private_key_hex;
    })
to_key _ = none

abbrev to_candidate : List Str → Option StoredValidatorCandidate
to_candidate (format ∷ network_family ∷ validator_address ∷ private_key_hex ∷ []) = some (record {
  format = format;
  network_family = network_family;
  validator_address = validator_address;
  private_key_hex = private_key_hex;
})
to_candidate _ = none

abbrev key_texts : StoredValidatorKey → List Str
key_texts k =
    k.format ∷ k.network_id ∷ k.genesis_fingerprint ∷ k.validator_address ∷ k.private_key_hex ∷ []

abbrev candidate_texts : StoredValidatorCandidate → List Str
candidate_texts k = k.format ∷ k.network_family ∷ k.validator_address ∷ k.private_key_hex ∷ []

instance abbrev pub plain_payloads : Payloads
plain_payloads = record {
  key_to_vec = λ k. some (texts (key_texts k));
  key_from_slice = λ bytes. to_key (read_texts 5 bytes);
  candidate_to_vec = λ k. some (texts (candidate_texts k));
  candidate_from_slice = λ bytes. to_candidate (read_texts 4 bytes);
}

pub plain_payloads-IsFaithful : IsFaithful plain_payloads
plain_payloads-IsFaithful = record {
  key_read_back = λ k h.
      subst (λ bytes. to_key (read_texts 5 bytes) ≡ some k) (some-injective h)
        (ap to_key (read_texts-texts (key_texts k)));
  candidate_read_back = λ k h.
      subst (λ bytes. to_candidate (read_texts 4 bytes) ≡ some k) (some-injective h)
        (ap to_candidate (read_texts-texts (candidate_texts k)));
}
