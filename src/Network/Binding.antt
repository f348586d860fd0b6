-- ===== src/Network/Binding.antt =====
-- What a handshake's signature binds (src/wallet/mod.rs, src/network/mod.rs): the signed text is
-- read back field by field, though the listen address may hold any byte.
use aion_blockchain.Prelude.{
  ap₂, str_eq_iff, arith, ap, sym, ◌≡◌, ◌∙◌, ◌<◌, ◌+◌, ◌^◌, ◌++◌, ◌∷◌, append_assoc, Bool, Bytes,
  Str, [], any, bytes_of, decimal, decimal-injective, decimal_before, false, length, length-append,
  true, zero, suc, ◌/◌, ◌%◌, ◌==◌, refl, ℕ,
}
use aion_blockchain.Protocol.{is_fixed_hex, network_id, network_protocol_version}
use aion_blockchain.Crypto.{Crypto}
use aion_blockchain.Core.Fields.{append-cancel}
use aion_blockchain.Wallet.Handshake.{node_handshake_message}
use aion_blockchain.Chain.Blockchain.{Clock}
use aion_blockchain.Network.Validation.{handshake_fields_valid}

unfoldable is_separator : ℕ → Bool
is_separator b = b == b'='

-- A number is printed without the separator.
decimal_before-separator :
    (fuel n : ℕ) (rest : Str)
    → any is_separator (decimal_before fuel n rest) ≡ any is_separator rest
unfolding decimal_before is_separator
decimal_before-separator zero n rest = refl
decimal_before-separator (suc fuel) n rest =
    ground (arith, decimal_before-separator fuel (n / 10) ((b'0' + n % 10) ∷ rest))

decimal-separator : (n : ℕ) → any is_separator (decimal n) ≡ false
unfolding decimal
decimal-separator n = decimal_before-separator 20 n []

separator-in : (xs ds : Str) → any is_separator (xs ++ b'=' ∷ ds) ≡ true
unfolding is_separator
separator-in [] ds = refl
separator-in (x ∷ xs) ds = ground (arith, separator-in xs ds)

-- A suffix without the separator is found from the right.
separator-cancel :
    (xs xs' : Str) {ds ds' : Str}
    → any is_separator ds ≡ false
    → any is_separator ds' ≡ false
    → xs ++ b'=' ∷ ds ≡ xs' ++ b'=' ∷ ds'
    → (xs ≡ xs') × (ds ≡ ds')
unfolding is_separator
separator-cancel [] [] hd hd' h = (refl, cc h)
separator-cancel [] (x ∷ xs') {ds} {ds'} hd hd' h =
    let e : ds ≡ xs' ++ b'=' ∷ ds' = cc h in
    absurd (ground (arith, separator-in xs' ds', ap (any is_separator) e, hd))
separator-cancel (x ∷ xs) [] {ds} {ds'} hd hd' h =
    let e : xs ++ b'=' ∷ ds ≡ ds' = cc h in
    absurd (ground (arith, separator-in xs ds, ap (any is_separator) e, hd'))
separator-cancel (x ∷ xs) (x' ∷ xs') {ds} {ds'} hd hd' h =
    let rest = separator-cancel xs xs' {ds = ds} {ds' = ds'} hd hd' (cc h) in
    (cc (rest.0, h), rest.1)

-- Suffixes of the same length are cut off.
suffix-cancel :
    (xs xs' : Bytes) {ys ys' : Bytes}
    → length ys ≡ length ys'
    → xs ++ ys ≡ xs' ++ ys'
    → (xs ≡ xs') × (ys ≡ ys')
suffix-cancel xs xs' {ys} {ys'} l h =
    append-cancel xs xs'
      (omega (arith, l, length-append {0} xs ys, length-append {0} xs' ys', ap length h)) h

-- The fields of a handshake that a wallet signs.
pub record Signed : Type 0 where
  pub node_id : Str
  pub public_key : Str
  pub listen_address : Str
  pub network : Str
  pub version : ℕ
  pub timestamp : ℕ
  pub challenge : Str

unfoldable pub signed_message : Signed → Bytes
signed_message a =
    node_handshake_message a.node_id a.public_key a.listen_address a.network a.version a.timestamp
      a.challenge

-- The text between the listen address and the timestamp, up to the last separator.
abbrev between : Str
between = bytes_of "\nnetwork_id=kybernetes-mainnet-v2\nprotocol_version=2\ntimestamp"

abbrev ending : Signed → Str
ending a = bytes_of "\nchallenge=" ++ a.challenge

-- What follows the public key, split at the last separator before the timestamp.
abbrev remainder : Signed → Str
remainder a = a.listen_address ++ (between ++ b'=' ∷ (decimal a.timestamp ++ ending a))

split_remainder :
    (a : Signed)
    → remainder a ≡ ((a.listen_address ++ between) ++ b'=' ∷ decimal a.timestamp) ++ ending a
split_remainder a =
    let d = decimal a.timestamp in
    sym (
      append_assoc (a.listen_address ++ between) (b'=' ∷ d) (ending a)
      ∙ append_assoc a.listen_address between (b'=' ∷ (d ++ ending a)))

-- Two handshakes that agree in every field that the signature covers.
pub record SameHandshake (a b : Signed) : Type 0 where
  pub same_node_id : a.node_id ≡ b.node_id
  pub same_public_key : a.public_key ≡ b.public_key
  pub same_listen_address : a.listen_address ≡ b.listen_address
  pub same_network : a.network ≡ b.network
  pub same_version : a.version ≡ b.version
  pub same_timestamp : a.timestamp ≡ b.timestamp
  pub same_challenge : a.challenge ≡ b.challenge

remainder-injective :
    (a b : Signed)
    → length a.challenge ≡ length b.challenge
    → a.timestamp < 10 ^ 20
    → b.timestamp < 10 ^ 20
    → remainder a ≡ remainder b
    → (a.listen_address ≡ b.listen_address)
      × (a.timestamp ≡ b.timestamp)
      × (a.challenge ≡ b.challenge)
remainder-injective a b l ha hb h =
    let (front, endings) =
      suffix-cancel ((a.listen_address ++ between) ++ b'=' ∷ decimal a.timestamp)
        ((b.listen_address ++ between) ++ b'=' ∷ decimal b.timestamp) {ys = ending a}
        {ys' = ending b} (omega (arith, l)) (sym (split_remainder a) ∙ h ∙ split_remainder b) in
    let (addresses, digits) =
      separator-cancel (a.listen_address ++ between) (b.listen_address ++ between)
        (decimal-separator a.timestamp) (decimal-separator b.timestamp) front in
    (
      (suffix-cancel a.listen_address b.listen_address refl addresses).0,
      decimal-injective a.timestamp b.timestamp ha hb digits,
      (append-cancel (bytes_of "\nchallenge=") (bytes_of "\nchallenge=") refl endings).1,
    )

abbrev nested : Signed → Bytes
nested a =
    bytes_of "AION_P2P_HANDSHAKE_V1\nnode_id="
    ++ (a.node_id
        ++ (bytes_of "\npublic_key="
            ++ (a.public_key ++ (bytes_of "\nlisten_address=" ++ remainder a))))

printed_version : decimal network_protocol_version ≡ b'2' ∷ []
unfolding decimal decimal_before
printed_version = refl

signed_constants :
    (a : Signed)
    → node_handshake_message a.node_id a.public_key a.listen_address network_id
        network_protocol_version a.timestamp a.challenge
      ≡ nested a
unfolding node_handshake_message
signed_constants a = simp (append_assoc, printed_version)

signed_message-nested :
    (a : Signed)
    → a.network ≡ network_id
    → a.version ≡ network_protocol_version
    → signed_message a ≡ nested a
unfolding signed_message node_handshake_message
signed_message-nested a network version =
    ap₂
      (λ i v.
        node_handshake_message a.node_id a.public_key a.listen_address i v a.timestamp a.challenge)
      network version
    ∙ signed_constants a

-- What the network accepts as a signed handshake, at some time and with some signature.
abbrev pub IsAccepted : ⦃c : Crypto⦄ → Signed → Type 0
IsAccepted a =
    (clock : Clock) × (signature : Str) × (handshake_fields_valid clock a.node_id a.public_key
        a.listen_address a.network a.version a.timestamp a.challenge signature
      ≡ true)

-- What the tests of the network say of a handshake's lengths and of its constants.
record Format (a : Signed) : Type 0 where
  node_id_length : length a.node_id ≡ 64
  public_key_length : length a.public_key ≡ 64
  challenge_length : length a.challenge ≡ 64
  network_is : a.network ≡ network_id
  version_is : a.version ≡ network_protocol_version

accepted-Format : ⦃c : Crypto⦄ (a : Signed) → IsAccepted a → Format a
unfolding handshake_fields_valid is_fixed_hex
accepted-Format a (clock, signature, h) = record {
  node_id_length = ground (arith, h);
  public_key_length = ground (arith, h);
  challenge_length = ground (arith, h);
  network_is = ground (arith, h, str_eq_iff a.network network_id);
  version_is = ground (arith, h);
}

-- Two handshakes whose timestamps are 64-bit numbers and whose fields the network accepts, at any
-- times and with any signatures, have the same signed text only if every field of them is the same:
-- a signature cannot be moved to other fields.
pub signed_message-injective :
    ⦃c : Crypto⦄ (a b : Signed)
    → a.timestamp < 2 ^ 64
    → b.timestamp < 2 ^ 64
    → IsAccepted a
    → IsAccepted b
    → signed_message a ≡ signed_message b
    → SameHandshake a b
signed_message-injective a b ha hb accepted_a accepted_b h =
    let fa = accepted-Format a accepted_a in
    let fb = accepted-Format b accepted_b in
    let first = bytes_of "AION_P2P_HANDSHAKE_V1\nnode_id=" in
    let second = bytes_of "\npublic_key=" in
    let third = bytes_of "\nlisten_address=" in
    let texts =
      sym (signed_message-nested a fa.network_is fa.version_is)
      ∙ h
      ∙ signed_message-nested b fb.network_is fb.version_is in
    let (nodes, after_node) =
      append-cancel a.node_id b.node_id (fa.node_id_length ∙ sym fb.node_id_length)
        (append-cancel first first refl texts).1 in
    let (keys, after_key) =
      append-cancel a.public_key b.public_key (fa.public_key_length ∙ sym fb.public_key_length)
        (append-cancel second second refl after_node).1 in
    let (addresses, timestamps, challenges) =
      remainder-injective a b (fa.challenge_length ∙ sym fb.challenge_length) (omega (arith, ha))
        (omega (arith, hb)) (append-cancel third third refl after_key).1 in
    record {
      same_node_id = nodes;
      same_public_key = keys;
      same_listen_address = addresses;
      same_network = fa.network_is ∙ sym fb.network_is;
      same_version = fa.version_is ∙ sym fb.version_is;
      same_timestamp = timestamps;
      same_challenge = challenges;
    }
