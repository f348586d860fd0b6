-- ===== src/Keystore/Sealing.antt =====
-- A key file that was encrypted opens with its password (src/validator.rs, src/user_wallet.rs).
use aion_blockchain.Prelude.{
  str_eq, refl, fail_if-eq-ok, length-take, arith, true, All-take, ok_or-eq-ok, ok_or, ◌==◌, not,
  fail_if, bind-eq-ok, ◌≡◌, Bytes, length, All, ok,
}
use aion_blockchain.Crypto.{Crypto, IsByte, IsLawful}
use aion_blockchain.Keystore.{
  str_eq, take, Vault, IsVault, Texts, derive_key, encrypt, decrypt, is_supported,
}

-- What is drawn for an encryption: 32 bytes, of which the salt is taken, and a nonce of 12.
pub record IsDrawn (material nonce : Bytes) : Type 0 where
  pub material_length : length material ≡ 32
  pub material_bytes : All IsByte material
  pub nonce_length : length nonce ≡ 12
  pub nonce_bytes : All IsByte nonce

pub decrypt-encrypt :
    ⦃c : Crypto⦄ ⦃v : Vault⦄ (laws : IsLawful c) (vault : IsVault v) (texts : Texts)
    (material nonce password m aad : Bytes) {encrypted : Bytes}
    → IsDrawn material nonce
    → encrypt texts material nonce password m aad ≡ ok encrypted
    → decrypt texts password encrypted aad ≡ ok m
unfolding encrypt decrypt is_supported str_eq
decrypt-encrypt ⦃c⦄ ⦃v⦄ laws vault texts material nonce password m aad drawn h =
    let salt = take 16 material in
    let (key, derived, h1) = bind-eq-ok (derive_key texts password salt) _ h in
    let (_, checked, h2) = bind-eq-ok (fail_if (not (length key == 32)) texts.bad_key) _ h1 in
    let (ciphertext, sealed, written) =
      bind-eq-ok (ok_or (v.seal key nonce m aad) texts.not_sealed) _ h2 in
    let is_sealed = ok_or-eq-ok (v.seal key nonce m aad) texts.not_sealed sealed in
    let read = vault.read_back _ (ok_or-eq-ok (v.to_vec_pretty _) texts.no_json written) in
    let salted = laws.decode-encode salt (All-take IsByte 16 material drawn.material_bytes) in
    let nonced = laws.decode-encode nonce drawn.nonce_bytes in
    let coded = laws.decode-encode ciphertext (vault.sealed_bytes key nonce m aad is_sealed) in
    let opened = vault.unseal-seal key nonce m aad is_sealed in
    let salt_length : (length salt == 16) ≡ true =
      ground (arith, length-take 16 material, drawn.material_length) in
    let long = fail_if-eq-ok (not (length key == 32)) texts.bad_key checked in
    rw (read, salted, salt_length, nonced, drawn.nonce_length, coded, derived, long, opened) refl
