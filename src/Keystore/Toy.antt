-- ===== src/Keystore/Toy.antt =====
-- A concrete instance of `Vault` for tests and witnesses: it has the shape of the real crates and
-- none of their strength.
use aion_blockchain.Prelude.{
  inr, sym, arith, inl, Bool-cases, true, ◌++◌, none, [], ap, subst, if◌then◌else◌, ◌∷◌, List, all,
  ◌≡◌, Bytes, Str, ℕ, Option,
}
use aion_blockchain.Crypto.{IsByte}
use aion_blockchain.Crypto.Toy.{digest, toy-IsLawful}
use aion_blockchain.Keystore.{All, ltb, length, some, EncryptedKeystore, Vault, IsVault}
use aion_blockchain.Network.Toy.{texts, read_texts, read_texts-texts, some-injective}

abbrev seal : Bytes → Option Bytes
seal m = if all (λ b. ltb b 256) m then some m else none

All-IsByte : (m : Bytes) → all (λ b. ltb b 256) m ≡ true → All IsByte m
All-IsByte [] h = tt
All-IsByte (b ∷ m) h = (ground arith, All-IsByte m (ground arith))

seal-eq-some :
    (m : Bytes) {sealed : Bytes} → seal m ≡ some sealed → (sealed ≡ m) × All IsByte sealed
seal-eq-some m h = elim (Bool-cases (all (λ b. ltb b 256) m)) [
  | inl e ↦
      let same = some-injective (rw e at h) in (sym same, subst (All IsByte) same (All-IsByte m e))
  | inr e ↦ absurd (ground (arith, e, h))
]

abbrev write : EncryptedKeystore → Bytes
write e =
    e.version
    ∷ e.kdf_memory_kib
    ∷ e.kdf_iterations
    ∷ e.kdf_parallelism
    ∷ texts (e.kdf ∷ e.cipher ∷ e.salt_hex ∷ e.nonce_hex ∷ e.ciphertext_hex ∷ [])

abbrev to_keystore : ℕ → ℕ → ℕ → ℕ → List Str → Option EncryptedKeystore
to_keystore version memory iterations parallelism
      (kdf ∷ cipher ∷ salt_hex ∷ nonce_hex ∷ ciphertext_hex ∷ []) =
    some (record {
      version = version;
      kdf = kdf;
      kdf_memory_kib = memory;
      kdf_iterations = iterations;
      kdf_parallelism = parallelism;
      cipher = cipher;
      salt_hex = salt_hex;
      nonce_hex = nonce_hex;
      ciphertext_hex = ciphertext_hex;
    })
to_keystore version memory iterations parallelism _ = none

abbrev read : Bytes → Option EncryptedKeystore
read (version ∷ memory ∷ iterations ∷ parallelism ∷ bytes) =
    to_keystore version memory iterations parallelism (read_texts 5 bytes)
read _ = none

read-write : (e : EncryptedKeystore) → read (write e) ≡ some e
read-write e =
    ap (to_keystore e.version e.kdf_memory_kib e.kdf_iterations e.kdf_parallelism)
      (read_texts-texts (e.kdf ∷ e.cipher ∷ e.salt_hex ∷ e.nonce_hex ∷ e.ciphertext_hex ∷ []))

instance abbrev pub toy_vault : Vault
toy_vault = record {
  derive = λ password salt. some (digest (password ++ salt));
  seal = λ key nonce m aad. seal m;
  unseal = λ key nonce sealed aad. some sealed;
  to_vec_pretty = λ e. some (write e);
  from_slice = read;
}

pub toy_vault-IsVault : IsVault toy_vault
toy_vault-IsVault = record {
  derived_length = λ password salt h.
      subst (λ k. length k ≡ 32) (some-injective h) (toy-IsLawful.digest_length (password ++ salt));
  sealed_bytes = λ key nonce m aad h. (seal-eq-some m h).1;
  unseal-seal = λ key nonce m aad h. ap some (seal-eq-some m h).0;
  read_back = λ e h. subst (λ bytes. read bytes ≡ some e) (some-injective h) (read-write e);
}
