-- ===== src/UserWallet/Loading.antt =====
-- A wallet that was created loads with its password (src/user_wallet.rs).
use aion_blockchain.Prelude.{
  subst, ok_or-eq-ok, refl, ok_or, str_eq_refl, fail_if, ok-injective, some, sym, All, str_eq, ◌≡◌,
  Bytes, length, ok, bind-eq-ok,
}
use aion_blockchain.Crypto.{Crypto, IsByte, IsLawful}
use aion_blockchain.Wallet.{Wallet, from_signing_key, private_key_hex}
use aion_blockchain.Wallet.Signing.{from_private_key_hex-private_key_hex}
use aion_blockchain.Keystore
use aion_blockchain.Keystore.{Vault, IsVault}
use aion_blockchain.Keystore.Sealing.{IsDrawn, decrypt-encrypt}
use aion_blockchain.UserWallet.{
  StoredUserWallet, WalletJson, WalletFile, WalletStore, texts, write_new, create, open_wallet,
  load, user_wallet_format, user_wallet_aad, exists,
}

-- JSON reads as what was written.
pub record IsReadBack (json : WalletJson) : Type 0 where
  pub read_back :
      (stored : StoredUserWallet) {bytes : Bytes}
      → json.to_vec stored ≡ some bytes
      → json.from_slice bytes ≡ some stored

write_new-eq-ok :
    (store : WalletStore) (contents : Bytes) (file : WalletFile) {written : WalletFile}
    → write_new store contents file ≡ ok written
    → (file ≡ WalletFile.missing) × (written ≡ WalletFile.readable contents)
unfolding write_new
write_new-eq-ok store contents WalletFile.missing h =
    let (_, _, h1) = bind-eq-ok store.written _ h in
    let (_, _, h2) = bind-eq-ok store.linked _ h1 in (refl, sym (ok-injective h2))
write_new-eq-ok store contents (WalletFile.readable bytes) h =
    let (_, _, h1) = bind-eq-ok store.written _ h in cc
write_new-eq-ok store contents WalletFile.unreadable h =
    let (_, _, h1) = bind-eq-ok store.written _ h in cc

open_wallet-stored :
    ⦃c : Crypto⦄ ⦃v : Vault⦄ ⦃json : WalletJson⦄ (laws : IsLawful c) (key password : Bytes)
    (contents plaintext : Bytes)
    → All IsByte key
    → length key ≡ 32
    → Keystore.decrypt texts password contents user_wallet_aad ≡ ok plaintext
    → json.from_slice plaintext
      ≡ some (record {
        format = user_wallet_format;
        address = (from_signing_key key).address;
        private_key_hex = private_key_hex (from_signing_key key);
      })
    → open_wallet password contents ≡ ok (some (from_signing_key key))
unfolding open_wallet str_eq
open_wallet-stored laws key password contents plaintext bytes size opened read =
    rw
      (
        opened,
        read,
        from_private_key_hex-private_key_hex laws key bytes size,
        str_eq_refl (from_signing_key key).address,
      )
      refl

-- A wallet that was created from a key of 32 bytes loads with the password that it was created with:
-- creation succeeds only where there is no file, and loading then gives the same wallet.
pub load-create :
    ⦃c : Crypto⦄ ⦃v : Vault⦄ ⦃json : WalletJson⦄ (laws : IsLawful c) (vault : IsVault v)
    (faithful : IsReadBack json) (store : WalletStore) (key material nonce password : Bytes)
    (file : WalletFile) {wallet : Wallet} {after : WalletFile}
    → All IsByte key
    → length key ≡ 32
    → IsDrawn material nonce
    → create store key material nonce password file ≡ ok (wallet, after)
    → (load password after ≡ ok (some wallet)) × (file ≡ WalletFile.missing)
unfolding create load
load-create ⦃c⦄ ⦃v⦄ ⦃json⦄ laws vault faithful store key material nonce password file {wallet}
      {after} bytes size drawn h =
    let (_, _, h1) = bind-eq-ok (fail_if (exists file) _) _ h in
    let (_, _, h2) = bind-eq-ok store.created _ h1 in
    let (plaintext, stored, h3) = bind-eq-ok (ok_or (json.to_vec _) _) _ h2 in
    let (contents, encrypted, h4) =
      bind-eq-ok (Keystore.encrypt texts material nonce password plaintext user_wallet_aad) _ h3 in
    let (written, published, h5) = bind-eq-ok (write_new store contents file) _ h4 in
    let (none_before, now) = write_new-eq-ok store contents file published in
    let opened =
      decrypt-encrypt laws vault texts material nonce password plaintext user_wallet_aad drawn
        encrypted in
    let loaded =
      open_wallet-stored laws key password contents plaintext bytes size opened
        (faithful.read_back _ (ok_or-eq-ok _ _ stored)) in
    let result : WalletFile → Wallet × WalletFile = λ f. (from_signing_key key, f) in
    let returned : result (WalletFile.readable contents) ≡ (wallet, after) =
      ok-injective (subst (λ f. ok (result f) ≡ ok (wallet, after)) now h5) in
    subst
      (λ (r : Wallet × WalletFile).
        (load password r.1 ≡ ok (some r.0)) × (file ≡ WalletFile.missing))
      returned (loaded, none_before)
