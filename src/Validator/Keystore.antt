-- ===== src/Validator/Keystore.antt =====
-- src/validator.rs: the key files of a validator and of a candidate, in one data directory. The file
-- system and serde_json are parameters.
pub mod Provisioning
pub mod Toy
use aion_blockchain.Prelude.{
  ltb, ◌||◌, ◌==◌, str_eq, length, not, text_about, if◌then◌else◌, true, text, ok_or, some, err,
  fail_if, false, none, bytes_of, ◌*◌, ok, ◌>>=◌, ◌>>◌, Bytes, Str, ℕ, String, Option, Result, Bool,
}
use aion_blockchain.Protocol.{network_id}
use aion_blockchain.Crypto.{Crypto}
use aion_blockchain.Consensus.{Consensus}
use aion_blockchain.Wallet
use aion_blockchain.Wallet.{Wallet, from_signing_key, from_private_key_hex, private_key_hex}
use aion_blockchain.Keystore
use aion_blockchain.Keystore.{Vault, Texts}
use aion_blockchain.Validator.{ValidatorIdentity, address, from_private_key}

abbrev pub validator_keystore_format : Str
validator_keystore_format = bytes_of "kybernetes-validator-key-v1"

abbrev pub validator_keystore_aad : Bytes
validator_keystore_aad = bytes_of "KYBERNETES_VALIDATOR_KEYSTORE_V1"

abbrev pub validator_candidate_format : Str
validator_candidate_format = bytes_of "kybernetes-validator-candidate-v1"

abbrev pub validator_candidate_aad : Bytes
validator_candidate_aad = bytes_of "KYBERNETES_VALIDATOR_CANDIDATE_V1"

abbrev pub validator_candidate_network_family : Str
validator_candidate_network_family = bytes_of "kybernetes"

abbrev pub max_validator_keystore_bytes : ℕ
max_validator_keystore_bytes = 1024 * 1024

pub record StoredValidatorKey : Type 0 where
  pub format : Str
  pub network_id : Str
  pub genesis_fingerprint : Str
  pub validator_address : Str
  pub private_key_hex : Str

pub record StoredValidatorCandidate : Type 0 where
  pub format : Str
  pub network_family : Str
  pub validator_address : Str
  pub private_key_hex : Str

pub record ValidatorCandidate : Type 0 where
  pub wallet : Wallet

pub record ValidatorActivation : Type 0 where
  pub validator_address : Str
  pub candidate_removed : Bool

-- `serde_json` on the two payloads.
pub record Payloads : Type 0 where
  pub key_to_vec : StoredValidatorKey → Option Bytes
  pub key_from_slice : Bytes → Option StoredValidatorKey
  pub candidate_to_vec : StoredValidatorCandidate → Option Bytes
  pub candidate_from_slice : Bytes → Option StoredValidatorCandidate

-- A path: nothing there, a file that can be read, one that cannot, or no access to its metadata.
pub data File : Type 0 where
  missing : File
  readable : Bytes → File
  unreadable unreachable : File

pub record Directory : Type 0 where
  pub candidate : File
  pub active : File

-- What the file system answers: whether the directory and the temporary file could be written,
-- whether the link could be made where there is no file, and whether the candidate could be removed.
pub record FileSystem : Type 0 where
  pub written : Result (Unit {0})
  pub linked : Result (Unit {0})
  pub removed : Bool

abbrev pub texts : Texts
texts = record {
  short_password = "Validator keystore password must be at least 12 characters";
  no_key = "Validator keystore key could not be derived: ";
  bad_key = "Validator keystore encryption key is invalid";
  bad_opening_key = "Validator keystore decryption key is invalid";
  not_sealed = "Validator private key could not be encrypted";
  no_json = "Validator keystore JSON could not be created: ";
  bad_envelope = "Validator keystore format is invalid";
  unsupported = "Validator keystore encryption format is not supported";
  bad_salt = "Validator keystore salt format is invalid";
  salt_length = "Validator keystore salt length is invalid";
  bad_nonce = "Validator keystore nonce format is invalid";
  nonce_length = "Validator keystore nonce length is invalid";
  bad_ciphertext = "Validator keystore ciphertext format is invalid";
  not_opened = "Validator keystore password is incorrect or the file is corrupted";
}

-- `ValidatorKeystore::path_exists`
unfoldable pub path_exists : File → Str → Result Bool
path_exists missing label = ok false
path_exists (readable _) label = ok true
path_exists unreadable label = ok true
path_exists unreachable label = err (text_about "Could not determine access state: " label)

-- `ValidatorKeystore::read_encrypted_file`
unfoldable pub read_encrypted_file : File → Str → Result (Option Bytes)
read_encrypted_file missing label = ok none
read_encrypted_file (readable bytes) label =
    if length bytes == 0 || ltb max_validator_keystore_bytes (length bytes)
    then err (text_about " size is invalid" label)
    else ok (some bytes)
read_encrypted_file unreadable label = err (text_about " could not be opened: " label)
read_encrypted_file unreachable label = err (text_about " could not be opened: " label)

-- `ValidatorKeystore::store_without_overwrite`: the link fails where there is a file.
unfoldable pub store_without_overwrite : FileSystem → Bytes → File → Result File
store_without_overwrite fs serialized missing = do fs.written; fs.linked; ok (readable serialized)
store_without_overwrite fs serialized _ = do
  fs.written
  err (text "Validator keystore could not be moved to the active location or already exists: ")

module _ ⦃c : Crypto⦄ ⦃v : Vault⦄ ⦃payloads : Payloads⦄ where
  -- `ValidatorCandidateKeystore::generate`; what is drawn at random is an argument.
  unfoldable pub generate :
      FileSystem
      → (key material nonce : Bytes) (password : Bytes) (d : Directory) → Result (Str × Directory)
  generate fs key material nonce password d = do
    exists ← path_exists d.candidate (bytes_of "Validator candidate keystore")
    fail_if exists "Validator candidate already exists; automatic overwrite was rejected"
    let wallet = from_signing_key key
    plaintext ←
        ok_or
          (payloads.candidate_to_vec (record {
            format = validator_candidate_format;
            network_family = validator_candidate_network_family;
            validator_address = wallet.address;
            private_key_hex = Wallet.private_key_hex wallet;
          }))
          "Validator candidate payload could not be created: "
    serialized ← Keystore.encrypt texts material nonce password plaintext validator_candidate_aad
    stored ← store_without_overwrite fs serialized d.candidate
    ok (wallet.address, record d { candidate = stored })

  -- `ValidatorCandidateKeystore::load`
  unfoldable pub load : Bytes → Directory → Result (Option ValidatorCandidate)
  load password d = do
    file ← read_encrypted_file d.candidate (bytes_of "Validator candidate keystore")
    elim file [
      | none ↦ ok none
      | some encrypted ↦ do
        plaintext ← Keystore.decrypt texts password encrypted validator_candidate_aad
        stored ←
            ok_or (payloads.candidate_from_slice plaintext) "Validator candidate payload is invalid"
        fail_if
            (not (str_eq stored.format validator_candidate_format)
              || not (str_eq stored.network_family validator_candidate_network_family))
            "Validator candidate does not match the network family or format"
        wallet ← from_private_key_hex stored.private_key_hex
        fail_if (not (str_eq wallet.address stored.validator_address))
            "Validator candidate address does not match the private key"
        ok (some (record { wallet = wallet }))
    ]

  -- `ValidatorKeystore::provision`
  unfoldable pub provision :
      FileSystem
      → (material nonce : Bytes) (password : Bytes) (private_key_hex : Str) (consensus : Consensus)
        (genesis_fingerprint : Str) (d : Directory)
      → Result (Str × Directory)
  provision fs material nonce password private_key_hex consensus genesis_fingerprint d = do
    identity ← from_private_key private_key_hex consensus
    exists ← path_exists d.active (bytes_of "Validator keystore")
    fail_if exists "Validator keystore already exists; automatic overwrite was rejected"
    plaintext ←
        ok_or
          (payloads.key_to_vec (record {
            format = validator_keystore_format;
            network_id = network_id;
            genesis_fingerprint = genesis_fingerprint;
            validator_address = address identity;
            private_key_hex = private_key_hex;
          }))
          "Validator key payload could not be created: "
    serialized ← Keystore.encrypt texts material nonce password plaintext validator_keystore_aad
    stored ← store_without_overwrite fs serialized d.active
    ok (address identity, record d { active = stored })

  -- The rest of `load_authorized`, once the file was read.
  unfoldable pub open_identity :
      Bytes → Consensus → Str → Option Bytes → Result (Option ValidatorIdentity)
  open_identity password consensus expected_genesis_fingerprint none = ok none
  open_identity password consensus expected_genesis_fingerprint (some encrypted) = do
    plaintext ← Keystore.decrypt texts password encrypted validator_keystore_aad
    stored ← ok_or (payloads.key_from_slice plaintext) "Validator keystore payload is invalid"
    fail_if
        (not (str_eq stored.format validator_keystore_format)
          || (not (str_eq stored.network_id network_id)
              || not (str_eq stored.genesis_fingerprint expected_genesis_fingerprint)))
        "Validator keystore does not match the network or genesis identity"
    identity ← from_private_key stored.private_key_hex consensus
    fail_if (not (str_eq (address identity) stored.validator_address))
        "Validator keystore address does not match the private key"
    ok (some identity)

  -- `ValidatorKeystore::load_authorized`
  unfoldable pub load_authorized :
      Bytes → Consensus → Str → Directory → Result (Option ValidatorIdentity)
  load_authorized password consensus expected_genesis_fingerprint d = do
    file ← read_encrypted_file d.active (bytes_of "Validator keystore")
    open_identity password consensus expected_genesis_fingerprint file

  -- `ValidatorCandidateKeystore::activate`
  unfoldable pub activate :
      FileSystem
      → (material nonce : Bytes) (password : Bytes) (consensus : Consensus)
        (genesis_fingerprint : Str) (d : Directory)
      → Result (ValidatorActivation × Directory)
  activate fs material nonce password consensus genesis_fingerprint d = do
    exists ← path_exists d.active (bytes_of "Validator keystore")
    fail_if exists "Validator keystore already exists; automatic overwrite was rejected"
    loaded ← load password d
    candidate ← ok_or loaded "Validator candidate keystore was not found"
    (_, after) ←
        provision fs material nonce password (Wallet.private_key_hex candidate.wallet) consensus
          genesis_fingerprint d
    ok (
      record { validator_address = candidate.wallet.address; candidate_removed = fs.removed },
      (if fs.removed then record after { candidate = missing } else after),
    )
