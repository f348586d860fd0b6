-- ===== src/Network/Toy.antt =====
-- Concrete instances of the serialization for tests and witnesses.
use aion_blockchain.Prelude.{
  subst, ◌++◌, ◌∷◌, ◌≡◌, ◌∙◌, ap, Bool, Bytes, List, Option, Str, [], drop, false, length, none,
  refl, some, take, true, ℕ, zero, suc,
}
use aion_blockchain.Network.Message.{NetworkMessage, Serde}
use aion_blockchain.Network.Tcp.Frames.{IsFaithful, drop-append, take-append}

-- Every message is short, and none is read back.
instance abbrev pub short : Serde
short = record { to_vec = λ m. some []; from_slice = λ bytes. none }

-- Texts behind their lengths, and the reading of a number of them.
abbrev pub texts : List Str → Bytes
texts [] = []
texts (s ∷ ss) = length s ∷ (s ++ texts ss)

abbrev pub read_texts : ℕ → Bytes → List Str
read_texts zero bytes = []
read_texts (suc k) [] = []
read_texts (suc k) (n ∷ bytes) = take n bytes ∷ read_texts k (drop n bytes)

pub read_texts-texts : (ss : List Str) → read_texts (length ss) (texts ss) ≡ ss
read_texts-texts [] = refl
read_texts-texts (s ∷ ss) =
    ap (λ t. t ∷ read_texts (length ss) (drop (length s) (s ++ texts ss)))
      (take-append s (texts ss))
    ∙ ap (λ t. s ∷ read_texts (length ss) t) (drop-append s (texts ss))
    ∙ ap (λ t. s ∷ t) (read_texts-texts ss)

abbrev flag : Bool → ℕ
flag true = 1
flag false = 0

abbrev is_one : ℕ → Bool
is_one (suc n) = true
is_one zero = false

-- Handshakes, their answers and the requests of the synchronization have a form in bytes.
abbrev write : NetworkMessage → Option Bytes
write (NetworkMessage.handshake node_id key address id version timestamp challenge signature) =
    some
      (0 ∷ version ∷ timestamp ∷ texts (node_id ∷ key ∷ address ∷ id ∷ challenge ∷ signature ∷ []))
write (NetworkMessage.handshake_ack node_id key id version timestamp challenge accepted signature) =
    some (
      1
      ∷ version
      ∷ timestamp
      ∷ flag accepted
      ∷ texts (node_id ∷ key ∷ id ∷ challenge ∷ signature ∷ []))
write NetworkMessage.sync_request = some (2 ∷ [])
write _ = none

abbrev to_handshake : ℕ → ℕ → List Str → Option NetworkMessage
to_handshake version timestamp (node_id ∷ key ∷ address ∷ id ∷ challenge ∷ signature ∷ []) =
    some (NetworkMessage.handshake node_id key address id version timestamp challenge signature)
to_handshake version timestamp _ = none

abbrev to_ack : ℕ → ℕ → Bool → List Str → Option NetworkMessage
to_ack version timestamp accepted (node_id ∷ key ∷ id ∷ challenge ∷ signature ∷ []) =
    some
      (NetworkMessage.handshake_ack node_id key id version timestamp challenge accepted signature)
to_ack version timestamp accepted _ = none

abbrev read : Bytes → Option NetworkMessage
read (zero ∷ version ∷ timestamp ∷ bytes) = to_handshake version timestamp (read_texts 6 bytes)
read (suc zero ∷ version ∷ timestamp ∷ accepted ∷ bytes) =
    to_ack version timestamp (is_one accepted) (read_texts 5 bytes)
read (suc (suc zero) ∷ []) = some NetworkMessage.sync_request
read _ = none

abbrev pub plain : Serde
plain = record { to_vec = write; from_slice = read }

or_nothing : Option Bytes → Bytes
or_nothing none = []
or_nothing (some bytes) = bytes

pub some-injective : {a b : Bytes} → some a ≡ some b → a ≡ b
unfolding or_nothing
some-injective h = ap or_nothing h

carry : (m : NetworkMessage) {b b' : Bytes} → some b ≡ some b' → read b ≡ some m → read b' ≡ some m
carry m h e = subst (λ b. read b ≡ some m) (some-injective h) e

reads : (m : NetworkMessage) {bytes : Bytes} → write m ≡ some bytes → read bytes ≡ some m
reads (NetworkMessage.handshake node_id key address id version timestamp challenge signature) h =
    carry _ h (
      ap (to_handshake version timestamp)
        (read_texts-texts (node_id ∷ key ∷ address ∷ id ∷ challenge ∷ signature ∷ [])))
reads (NetworkMessage.handshake_ack node_id key id version timestamp challenge true signature) h =
    carry _ h (
      ap (to_ack version timestamp true)
        (read_texts-texts (node_id ∷ key ∷ id ∷ challenge ∷ signature ∷ [])))
reads (NetworkMessage.handshake_ack node_id key id version timestamp challenge false signature) h =
    carry _ h (
      ap (to_ack version timestamp false)
        (read_texts-texts (node_id ∷ key ∷ id ∷ challenge ∷ signature ∷ [])))
reads NetworkMessage.sync_request h = carry _ h refl
reads (NetworkMessage.transaction _) h = cc
reads (NetworkMessage.transaction_ack _ _ _) h = cc
reads (NetworkMessage.block _) h = cc
reads (NetworkMessage.chain_chunk_request _) h = cc
reads (NetworkMessage.chain_chunk_response _ _ _) h = cc
reads (NetworkMessage.account_state_request _) h = cc
reads (NetworkMessage.account_state_response _ _ _ _ _) h = cc

pub plain-IsFaithful : IsFaithful plain
plain-IsFaithful = record { from_slice-to_vec = reads }
