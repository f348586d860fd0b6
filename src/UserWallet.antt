-- ===== src/UserWallet.antt =====
-- src/user_wallet.rs: the key file of a user's wallet, off Windows. The file system and serde_json
-- are parameters.
pub mod Loading
use aion_blockchain.Prelude.{
  some, text, str_eq, none, true, not, err, bytes_of, ok, false, fail_if, ok_or, ◌>>=◌, ◌>>◌, Bytes,
  Str, String, Option, Result, Bool,
}
use aion_blockchain.Crypto.{Crypto}
use aion_blockchain.Wallet.{Wallet, from_signing_key, from_private_key_hex, private_key_hex}
use aion_blockchain.Keystore
use aion_blockchain.Keystore.{Vault, Texts}

abbrev pub user_wallet_format : Str
user_wallet_format = bytes_of "kybernetes-user-wallet-v1"

abbrev pub user_wallet_aad : Bytes
user_wallet_aad = bytes_of "KYBERNETES_USER_WALLET_V1"

pub record StoredUserWallet : Type 0 where
  pub format : Str
  pub address : Str
  pub private_key_hex : Str

-- `serde_json` on the payload.
pub record WalletJson : Type 0 where
  pub to_vec : StoredUserWallet → Option Bytes
  pub from_slice : Bytes → Option StoredUserWallet

-- The path of the file: nothing there, a file that can be read, or one that cannot.
pub data WalletFile : Type 0 where
  missing : WalletFile
  readable : Bytes → WalletFile
  unreadable : WalletFile

-- What the file system answers: for the directory, the temporary file, and the link to it.
pub record WalletStore : Type 0 where
  pub created : Result (Unit {0})
  pub written : Result (Unit {0})
  pub linked : Result (Unit {0})

abbrev pub texts : Texts
texts = record {
  short_password = "User wallet password must be at least 12 characters";
  no_key = "User wallet encryption key could not be derived: ";
  bad_key = "User wallet encryption key is invalid";
  bad_opening_key = "User wallet decryption key is invalid";
  not_sealed = "User wallet private key could not be encrypted";
  no_json = "Encrypted user wallet JSON could not be created: ";
  bad_envelope = "User wallet encrypted file format is invalid";
  unsupported = "User wallet encryption format is not supported";
  bad_salt = "User wallet salt format is invalid";
  salt_length = "User wallet salt length is invalid";
  bad_nonce = "User wallet nonce format is invalid";
  nonce_length = "User wallet nonce length is invalid";
  bad_ciphertext = "User wallet ciphertext format is invalid";
  not_opened = "User wallet password is incorrect or the file is corrupted";
}

-- `UserWalletKeystore::exists`
abbrev pub exists : WalletFile → Bool
exists missing = false
exists (readable _) = true
exists unreadable = true

-- `UserWalletKeystore::write_new`: the link fails where there is a file.
unfoldable pub write_new : WalletStore → Bytes → WalletFile → Result WalletFile
write_new store contents missing = do store.written; store.linked; ok (readable contents)
write_new store contents _ = do
  store.written
  err (text "User wallet could not be moved to the active location or already exists: ")

module _ ⦃c : Crypto⦄ ⦃v : Vault⦄ ⦃json : WalletJson⦄ where
  -- `UserWalletKeystore::encrypt` and `UserWalletKeystore::decrypt`
  abbrev pub encrypt : Bytes → Bytes → Bytes → Bytes → Result Bytes
  encrypt random_salt_material nonce password plaintext =
      Keystore.encrypt texts random_salt_material nonce password plaintext user_wallet_aad

  abbrev pub decrypt : Bytes → Bytes → Result Bytes
  decrypt password encrypted = Keystore.decrypt texts password encrypted user_wallet_aad

  -- `UserWalletKeystore::create`; what is drawn at random is an argument.
  unfoldable pub create :
      WalletStore
      → (key material nonce : Bytes) (password : Bytes) (file : WalletFile)
      → Result (Wallet × WalletFile)
  create store key material nonce password file = do
    fail_if (exists file) "User wallet already exists; automatic overwrite was rejected"
    store.created
    let wallet = from_signing_key key
    plaintext ←
        ok_or
          (json.to_vec (record {
            format = user_wallet_format;
            address = wallet.address;
            private_key_hex = private_key_hex wallet;
          }))
          "User wallet data could not be serialized: "
    encrypted ← encrypt material nonce password plaintext
    written ← write_new store encrypted file
    ok (wallet, written)

  -- The rest of `load`, once the file was read.
  unfoldable pub open_wallet : Bytes → Bytes → Result (Option Wallet)
  open_wallet password encrypted = do
    plaintext ← decrypt password encrypted
    stored ← ok_or (json.from_slice plaintext) "User wallet data format is invalid"
    fail_if (not (str_eq stored.format user_wallet_format)) "User wallet format is not supported"
    wallet ← from_private_key_hex stored.private_key_hex
    fail_if (not (str_eq wallet.address stored.address))
        "User wallet address does not match the private key"
    ok (some wallet)

  -- `UserWalletKeystore::load`
  unfoldable pub load : Bytes → WalletFile → Result (Option Wallet)
  load password missing = ok none
  load password (readable encrypted) = open_wallet password encrypted
  load password unreadable = err (text "User wallet file could not be read: ")
