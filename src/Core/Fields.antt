-- ===== src/Core/Fields.antt =====
-- Why the encodings of src/core can be read back: an integer from its bytes, and each field from
-- the front of a buffer.
use aion_blockchain.Prelude.{
  zero, ◌+◌, ◌*◌, length-append, ◌%◌, ap, ◌∙◌, ◌∷◌, arith, ◌/◌, sym, ◌++◌, suc, ◌^◌, length, ◌<◌,
  ◌≡◌, List, Str, Bytes, ℕ, refl, [],
}
use aion_blockchain.Core.Encoding.{be_bytes, be_value, u64_bytes, u128_bytes}

be_value-snoc :
    (acc : ℕ) (bs : Bytes) (b : ℕ) → be_value acc (bs ++ b ∷ []) ≡ be_value acc bs * 256 + b
unfolding be_value
be_value-snoc acc [] b = refl
be_value-snoc acc (c ∷ bs) b = be_value-snoc (acc * 256 + c) bs b

-- `n` has at most `k` digits to the base 256.
abbrev pub Fits : ℕ → ℕ → Type 0
Fits zero n = n ≡ 0
Fits (suc k) n = Fits k (n / 256)

-- Reading back the `k` big-endian bytes of a number that has at most `k` yields the number.
pub be_value-be_bytes : (k n : ℕ) → Fits k n → be_value 0 (be_bytes k n) ≡ n
unfolding be_bytes be_value
be_value-be_bytes zero n h = sym h
be_value-be_bytes (suc k) n h =
    be_value-snoc 0 (be_bytes k (n / 256)) (n % 256)
    ∙ omega (arith, be_value-be_bytes k (n / 256) h)

pub length-be_bytes : (k n : ℕ) → length (be_bytes k n) ≡ k
unfolding be_bytes
length-be_bytes zero n = refl
length-be_bytes (suc k) n =
    omega (
      arith,
      length-append {0} (be_bytes k (n / 256)) ((n % 256) ∷ []),
      length-be_bytes k (n / 256),
    )

Fits-u64 : (n : ℕ) → n < 2 ^ 64 → Fits 8 n
Fits-u64 n h = omega arith

Fits-u128 : (n : ℕ) → n < 2 ^ 128 → Fits 16 n
Fits-u128 n h = omega arith

pub append-cancel {ℓ} :
    {A : Type ℓ} (xs xs' : List A) {ys ys' : List A}
    → length xs ≡ length xs'
    → xs ++ ys ≡ xs' ++ ys'
    → (xs ≡ xs') × (ys ≡ ys')
append-cancel [] [] l h = (refl, h)
append-cancel [] (x ∷ xs') l h = absurd (omega arith)
append-cancel (x ∷ xs) [] l h = absurd (omega arith)
append-cancel (x ∷ xs) (x' ∷ xs') {ys} {ys'} l h =
    let rest = append-cancel xs xs' {ys = ys} {ys' = ys'} (omega arith) (cc h) in
    (cc (rest.0, h), rest.1)

-- One step of reading a buffer: a 64-bit number, a 128-bit number, a string behind its length.
pub u64-cancel :
    (m n : ℕ) {ys ys' : Bytes}
    → m < 2 ^ 64
    → n < 2 ^ 64
    → u64_bytes m ++ ys ≡ u64_bytes n ++ ys'
    → (m ≡ n) × (ys ≡ ys')
u64-cancel m n hm hn h =
    let parts =
      append-cancel (u64_bytes m) (u64_bytes n) (length-be_bytes 8 m ∙ sym (length-be_bytes 8 n))
        h in
    (
      sym (be_value-be_bytes 8 m (Fits-u64 m hm))
          ∙ ap (be_value 0) parts.0
          ∙ be_value-be_bytes 8 n (Fits-u64 n hn),
      parts.1,
    )

pub u128-cancel : (m n : ℕ) → m < 2 ^ 128 → n < 2 ^ 128 → u128_bytes m ≡ u128_bytes n → m ≡ n
u128-cancel m n hm hn h =
    sym (be_value-be_bytes 16 m (Fits-u128 m hm))
    ∙ ap (be_value 0) h
    ∙ be_value-be_bytes 16 n (Fits-u128 n hn)

pub string-cancel :
    (s t : Str) {ys ys' : Bytes}
    → length s < 2 ^ 64
    → length t < 2 ^ 64
    → u64_bytes (length s) ++ (s ++ ys) ≡ u64_bytes (length t) ++ (t ++ ys')
    → (s ≡ t) × (ys ≡ ys')
string-cancel s t hs ht h =
    let lengths = u64-cancel (length s) (length t) hs ht h in append-cancel s t lengths.0 lengths.1
