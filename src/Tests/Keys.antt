-- ===== src/Tests/Keys.antt =====
-- Key files, and the ledger that the account tables show, at concrete inputs.
use aion_blockchain.Wallet.{Wallet}
use aion_blockchain.Prelude.{
  text_about, if◌then◌else◌, none, Option, false, ap, arith, All-replicate, ◌∷◌, is_err, List, some,
  subst, [], ◌≡◌, true, Bytes, Str, Result, ok, err, refl, replicate, bytes_of,
}
use aion_blockchain.Crypto.Toy.{toy, toy-IsLawful}
use aion_blockchain.Crypto.{IsByte}
use aion_blockchain.Wallet
use aion_blockchain.Keystore
use aion_blockchain.Keystore.{Vault}
use aion_blockchain.Keystore.Sealing.{IsDrawn}
use aion_blockchain.Keystore.Toy.{toy_vault, toy_vault-IsVault}
use aion_blockchain.Network.Toy.{texts, read_texts, read_texts-texts, some-injective}
use aion_blockchain.Validator
use aion_blockchain.Validator.{ValidatorIdentity, address}
use aion_blockchain.Validator.Keystore.{
  FileSystem, Directory, File, provision, load_authorized, open_identity, read_encrypted_file,
  path_exists, store_without_overwrite,
}
use aion_blockchain.Validator.Keystore.Provisioning.{has_size, load_authorized-provision}
use aion_blockchain.Validator.Keystore.Toy.{plain_payloads, plain_payloads-IsFaithful}
use aion_blockchain.UserWallet.{
  WalletFile, WalletStore, WalletJson, StoredUserWallet, create, load, write_new,
}
use aion_blockchain.UserWallet.Loading.{IsReadBack, load-create}
use aion_blockchain.State.{apply_transactions_atomically}
use aion_blockchain.State.Refinement.{
  shown, transfer_all, view, shown-apply_transactions_atomically,
}
use aion_blockchain.Consensus.{is_validator_allowed}
use aion_blockchain.Tests.Scenario.{alice, validators, run, payment, ledger}

abbrev password : Bytes
password = bytes_of "a long password"

abbrev material : Bytes
material = replicate 32 7

abbrev nonce : Bytes
nonce = replicate 12 9

drawn : IsDrawn material nonce
drawn = record {
  material_length = refl;
  material_bytes = All-replicate IsByte 32 7 (omega arith);
  nonce_length = refl;
  nonce_bytes = All-replicate IsByte 12 9 (omega arith);
}

abbrev fs : FileSystem
fs = record { written = ok tt; linked = ok tt; removed = true }

abbrev empty_directory : Directory
empty_directory = record { candidate = File.missing; active = File.missing }

abbrev provisioned : Result (Str × Directory)
provisioned =
    provision fs material nonce password (Wallet.private_key_hex alice) validators
      (bytes_of "fingerprint") empty_directory

abbrev or_empty_directory : Result (Str × Directory) → Str × Directory
or_empty_directory (ok result) = result
or_empty_directory (err _) = ([], empty_directory)

provision_succeeds :
    (r : Result (Str × Directory)) → is_err r ≡ false → r ≡ ok (or_empty_directory r)
provision_succeeds (ok result) h = refl
provision_succeeds (err _) h = cc

provisions : provisioned ≡ ok (or_empty_directory provisioned)
unfolding run provision Wallet.private_key_hex Wallet.from_private_key_hex
    Validator.from_private_key Keystore.encrypt Keystore.derive_key store_without_overwrite
    path_exists
provisions = provision_succeeds _ refl

loads :
    is_err (
      load_authorized password validators
        (bytes_of "fingerprint")
        (or_empty_directory provisioned).1)
    ≡ false
unfolding run provision load_authorized open_identity read_encrypted_file Wallet.private_key_hex
    Wallet.from_private_key_hex Validator.from_private_key Keystore.encrypt Keystore.decrypt
    Keystore.is_supported Keystore.derive_key store_without_overwrite path_exists
loads = refl

load_authorized-provision_example :
    let (added, after) = or_empty_directory provisioned in
    (identity : ValidatorIdentity) × (file : Bytes) × (after
      ≡ record empty_directory { active = File.readable file })
    × (load_authorized password validators (bytes_of "fingerprint") after ≡ (
        if has_size file
        then ok (some identity)
        else err (text_about " size is invalid" (bytes_of "Validator keystore"))))
    × (address identity ≡ added)
    × (is_validator_allowed validators added ≡ true)
    × (empty_directory.active ≡ File.missing)
load_authorized-provision_example =
    load_authorized-provision toy-IsLawful toy_vault-IsVault plain_payloads-IsFaithful fs material
      nonce password (Wallet.private_key_hex alice) validators (bytes_of "fingerprint")
      empty_directory drawn provisions

-- The payload of a wallet's file, as texts behind their lengths.
abbrev to_stored : List Str → Option StoredUserWallet
to_stored (format ∷ address ∷ private_key_hex ∷ []) =
    some (record { format = format; address = address; private_key_hex = private_key_hex })
to_stored _ = none

abbrev stored_texts : StoredUserWallet → List Str
stored_texts stored = stored.format ∷ stored.address ∷ stored.private_key_hex ∷ []

instance abbrev plain_json : WalletJson
plain_json = record {
  to_vec = λ stored. some (texts (stored_texts stored));
  from_slice = λ bytes. to_stored (read_texts 3 bytes);
}

IsReadBack-plain_json : IsReadBack plain_json
IsReadBack-plain_json = record {
  read_back = λ stored h.
      subst (λ bytes. to_stored (read_texts 3 bytes) ≡ some stored) (some-injective h)
        (ap to_stored (read_texts-texts (stored_texts stored)));
}

abbrev store : WalletStore
store = record { created = ok tt; written = ok tt; linked = ok tt }

abbrev created : Result (Wallet × WalletFile)
created = create store (replicate 32 1) material nonce password WalletFile.missing

abbrev or_alice : Result (Wallet × WalletFile) → Wallet × WalletFile
or_alice (ok result) = result
or_alice (err _) = (alice, WalletFile.missing)

create_succeeds : (r : Result (Wallet × WalletFile)) → is_err r ≡ false → r ≡ ok (or_alice r)
create_succeeds (ok result) h = refl
create_succeeds (err _) h = cc

creates : created ≡ ok (or_alice created)
unfolding run create Wallet.private_key_hex Keystore.encrypt Keystore.derive_key write_new
creates = create_succeeds _ refl

load-create_example :
    let (wallet, after) = or_alice created in
    (load password after ≡ ok (some wallet)) × (WalletFile.missing ≡ WalletFile.missing)
load-create_example =
    load-create toy-IsLawful toy_vault-IsVault IsReadBack-plain_json store (replicate 32 1) material
      nonce password WalletFile.missing (All-replicate IsByte 32 1 (omega arith)) refl drawn creates

shown-apply_transactions_atomically_example :
    shown (apply_transactions_atomically (payment ∷ []) ledger)
    ≡ transfer_all (payment ∷ []) (view ledger)
shown-apply_transactions_atomically_example =
    shown-apply_transactions_atomically (payment ∷ []) ledger
