-- ===== src/Crypto/Toy.antt =====
-- A concrete instance of the interface for tests and witnesses: it has the shape of the real crates
-- (32-byte digests, hexadecimal text, 64-byte signatures) and none of their strength.
use aion_blockchain.Prelude.{
  length-append, zero, all, arith, suc, ◌≡◌, All-append, ◌<◌, str_eq_refl, ◌^◌, ◌%◌, ◌*◌, ◌/◌, ◌-◌,
  ◌&&◌, ◌+◌, ◌++◌, ◌∷◌, ltb, if◌then◌else◌, str_eq, ℕ, refl, [], true, none, some,
}
use aion_blockchain.Protocol.{is_ascii_hexdigit, is_fixed_hex}
use aion_blockchain.Core.Encoding.{be_bytes}
use aion_blockchain.Core.Fields.{length-be_bytes}
use aion_blockchain.Crypto.{All, length, Str, Bytes, Option, Crypto, IsByte, IsLawful}

checksum : ℕ → Bytes → ℕ
checksum acc [] = acc
checksum acc (b ∷ bs) = checksum ((acc * 257 + b + 1) % 2 ^ 256) bs

unfoldable pub digest : Bytes → Bytes
unfolding checksum be_bytes
digest m = be_bytes 32 (checksum 0 m)

digit : ℕ → ℕ
digit n = if ltb n 10 then b'0' + n else 87 + n

value : ℕ → ℕ
value c = if ltb c b'a' then c - b'0' else c - 87

unfoldable pub encode : Bytes → Str
unfolding digit
encode [] = []
encode (b ∷ bs) = digit (b / 16) ∷ digit (b % 16) ∷ encode bs

abbrev push_byte : ℕ → Option Bytes → Option Bytes
push_byte b none = none
push_byte b (some bs) = some (b ∷ bs)

unfoldable pub decode : Str → Option Bytes
unfolding value
decode [] = some []
decode (h ∷ []) = none
decode (h ∷ l ∷ s) =
    let rest = decode s in
    if is_ascii_hexdigit h && is_ascii_hexdigit l
    then push_byte (value h * 16 + value l) rest
    else none

unfoldable pub signature_of : Bytes → Bytes → Bytes
unfolding digest
signature_of public message = digest (public ++ message) ++ digest (public ++ message)

instance abbrev pub toy : Crypto
toy = record {
  sha256 = digest;
  lower_hex = encode;
  hex_encode = encode;
  hex_decode = decode;
  is_verifying_key = λ k. true;
  verify_bytes = λ k m s. str_eq s (signature_of k m);
  verifying_key = digest;
  sign_bytes = λ k m. signature_of (digest k) m;
}

length-digest : (m : Bytes) → length (digest m) ≡ 32
unfolding digest
length-digest m = length-be_bytes 32 (checksum 0 m)

be_bytes-bytes : (k n : ℕ) → All IsByte (be_bytes k n)
unfolding be_bytes
be_bytes-bytes zero n = tt
be_bytes-bytes (suc k) n =
    All-append IsByte (be_bytes k (n / 256)) ((n % 256) ∷ []) (be_bytes-bytes k (n / 256))
      (omega arith, tt)

digest_bytes : (m : Bytes) → All IsByte (digest m)
unfolding digest
digest_bytes m = be_bytes-bytes 32 (checksum 0 m)

digit_format : (n : ℕ) → n < 16 → is_ascii_hexdigit (digit n) ≡ true
unfolding digit
digit_format n h = ground arith

value-digit : (n : ℕ) → n < 16 → value (digit n) ≡ n
unfolding value digit
value-digit n h = ground arith

encode_digits :
    (m : Bytes)
    → All IsByte m
    → (length (encode m) ≡ 2 * length m) × (all is_ascii_hexdigit (encode m) ≡ true)
unfolding encode
encode_digits [] h = (omega arith, refl)
encode_digits (b ∷ bs) h =
    let rest = encode_digits bs h.1 in
    (
      omega (arith, rest.0),
      rw (digit_format (b / 16) (omega (arith, h.0)), digit_format (b % 16) (omega arith)) rest.1,
    )

encode_format : (m : Bytes) → All IsByte m → is_fixed_hex (encode m) (2 * length m) ≡ true
unfolding is_fixed_hex
encode_format m h = ground (arith, encode_digits m h)

decode-encode : (m : Bytes) → All IsByte m → decode (encode m) ≡ some m
unfolding decode encode
decode-encode [] h = refl
decode-encode (b ∷ bs) h = ground (
  arith,
  h.0,
  digit_format (b / 16),
  digit_format (b % 16),
  value-digit (b / 16),
  value-digit (b % 16),
  decode-encode bs h.1,
)

signature_length : (k m : Bytes) → length (signature_of k m) ≡ 64
unfolding signature_of
signature_length k m =
    let d = digest (k ++ m) in omega (arith, length-append {0} d d, length-digest (k ++ m))

signature_bytes : (k m : Bytes) → All IsByte (signature_of k m)
unfolding signature_of
signature_bytes k m =
    let d = digest (k ++ m) in All-append IsByte d d (digest_bytes (k ++ m)) (digest_bytes (k ++ m))

-- The instance keeps the documented behaviour, so the hypotheses of that name can be met.
pub toy-IsLawful : IsLawful toy
toy-IsLawful = record {
  digest_length = length-digest;
  digest_bytes = digest_bytes;
  lower_hex_format = encode_format;
  hex_encode_format = encode_format;
  decode-encode = decode-encode;
  verifying_key_length = length-digest;
  verifying_key_bytes = digest_bytes;
  verifying_key_valid = λ k. refl;
  signature_length = λ k m. signature_length (digest k) m;
  signature_bytes = λ k m. signature_bytes (digest k) m;
  verify-sign = λ k m. str_eq_refl (signature_of (digest k) m);
}
