-- ===== src/Network/Tcp/Frames.antt =====
-- A message that is sent on a connection of src/network/tcp.rs is read at the other end.
use aion_blockchain.Prelude.{
  append_assoc, ◌∙◌, refl, [], length-append, false, arith, bind-eq-ok, ok-injective, ok_or-eq-ok,
  ◌≡◌, ◌≤◌, ◌<◌, ◌++◌, Bytes, length, ok, some, ℕ, subst, sym, ap,
}
use aion_blockchain.Core.Encoding.{be_bytes, be_value}
use aion_blockchain.Core.Fields.{be_value-be_bytes, length-be_bytes}
use aion_blockchain.Network.Message.{NetworkMessage, Serde}
use aion_blockchain.Network.Tcp.{
  length_to_u32, ltb, ◌∷◌, take, fail_if, drop, is_empty, List, ok_or, String,
  max_network_message_bytes, Connection, read_exact, read_frame, read_message, read_message_or_eof,
  send_message,
}

-- The documented behaviour of serde_json on the messages: what is written is read back.
pub record IsFaithful (serde : Serde) : Type 0 where
  pub from_slice-to_vec :
      (m : NetworkMessage) {bytes : Bytes}
      → serde.to_vec m ≡ some bytes
      → serde.from_slice bytes ≡ some m

pub take-append {ℓ} : {A : Type ℓ} (xs ys : List A) → take (length xs) (xs ++ ys) ≡ xs
take-append [] ys = refl
take-append (x ∷ xs) ys = ap (λ l. x ∷ l) (take-append xs ys)

pub drop-append {ℓ} : {A : Type ℓ} (xs ys : List A) → drop (length xs) (xs ++ ys) ≡ ys
drop-append [] ys = refl
drop-append (x ∷ xs) ys = drop-append xs ys

-- Reading as many bytes as a known prefix has yields the prefix.
read_exact-append :
    (xs ys output : Bytes) (count : ℕ) (failure : String)
    → count ≡ length xs
    → read_exact count failure (record { input = xs ++ ys; output = output })
      ≡ ok (xs, record { input = ys; output = output })
unfolding read_exact
read_exact-append xs ys output count failure size =
    rw size (ground (arith, length-append {0} xs ys, take-append xs ys, drop-append xs ys))

module _ ⦃serde : Serde⦄ where
  -- What a successful send has written.
  pub record Sent (m : NetworkMessage) (before after : Connection) : Type 0 where
    pub payload : Bytes
    pub serialized : serde.to_vec m ≡ some payload
    pub some_byte : 0 < length payload
    pub within : length payload ≤ max_network_message_bytes
    pub written : after.output ≡ before.output ++ be_bytes 4 (length payload) ++ payload
    pub unread : after.input ≡ before.input

  nonempty : (s : Bytes) → is_empty s ≡ false → 0 < length s
  nonempty [] h = cc
  nonempty (x ∷ s) h = omega arith

  pub send_message-Sent :
      (m : NetworkMessage) (connection : Connection) {after : Connection}
      → send_message m connection ≡ ok after
      → Sent m connection after
  unfolding send_message
  send_message-Sent m connection h =
      let (payload, e1, h) =
        bind-eq-ok (ok_or (serde.to_vec m) "Network message could not be serialized to JSON: ") _
          h in
      let (_, e2, h) =
        bind-eq-ok (fail_if (is_empty payload) "Empty network message cannot be sent") _ h in
      let (_, e3, h) =
        bind-eq-ok
          (fail_if (ltb max_network_message_bytes (length payload))
            "Network message byte limit exceeded")
          _ h in
      let (size, e4, h) =
        bind-eq-ok
          (ok_or (length_to_u32 (length payload)) "Network message length exceeds the u32 range") _
          h in
      record {
        payload = payload;
        serialized = ok_or-eq-ok _ _ e1;
        some_byte = nonempty payload (ground (arith, e2));
        within = ground (arith, e3);
        written =
            ap (λ (k : Connection). k.output) (sym (ok-injective h))
            ∙ ap (λ k. connection.output ++ be_bytes 4 k ++ payload) (ground (arith, e4));
        unread = ap (λ (k : Connection). k.input) (sym (ok-injective h));
      }

  u32-value : (n : ℕ) → n ≤ max_network_message_bytes → be_value 0 (be_bytes 4 n) ≡ n
  u32-value n h = be_value-be_bytes 4 n (omega (arith, h))

  -- A frame at the front of the input is taken off it.
  read_frame-frame :
      (faithful : IsFaithful serde) (m : NetworkMessage) (payload rest output : Bytes)
      → serde.to_vec m ≡ some payload
      → 0 < length payload
      → length payload ≤ max_network_message_bytes
      → read_frame
          (record { input = be_bytes 4 (length payload) ++ (payload ++ rest); output = output })
        ≡ ok (m, record { input = rest; output = output })
  unfolding read_frame
  read_frame-frame faithful m payload rest output serialized some_byte within =
      let header =
        read_exact-append (be_bytes 4 (length payload)) (payload ++ rest) output 4
          "Network message header could not be read: " (sym (length-be_bytes 4 (length payload))) in
      let size = u32-value (length payload) within in
      let body =
        read_exact-append payload rest output (be_value 0 (be_bytes 4 (length payload)))
          "Network message could not be read: " size in
      ground (arith, header, body, size, some_byte, within, faithful.from_slice-to_vec m serialized)

  starts : (n : ℕ) (rest : Bytes) → is_empty (be_bytes 4 n ++ rest) ≡ false
  unfolding be_bytes
  starts n rest = refl

  -- Whatever is sent on a connection on which nothing was written is read at the other end, before
  -- anything that follows it, and what follows is left to be read, if serde_json reads back what it
  -- has written.
  pub read_message-send_message :
      (faithful : IsFaithful serde) (m : NetworkMessage) (input output rest : Bytes)
      {sent : Connection}
      → send_message m (record { input = input; output = [] }) ≡ ok sent
      → read_message (record { input = sent.output ++ rest; output = output })
        ≡ ok (m, record { input = rest; output = output })
  unfolding read_message read_message_or_eof
  read_message-send_message faithful m input output rest {sent} h =
      let s = send_message-Sent m (record { input = input; output = [] }) h in
      let header = be_bytes 4 (length s.payload) in
      let arrives : sent.output ++ rest ≡ header ++ (s.payload ++ rest) =
        ap (λ l. l ++ rest) s.written ∙ append_assoc header s.payload rest in
      let frame =
        read_frame-frame faithful m s.payload rest output s.serialized s.some_byte s.within in
      subst
        (λ i.
          read_message (record { input = i; output = output })
          ≡ ok (m, record { input = rest; output = output }))
        (sym arrives) (ground (arith, frame, starts (length s.payload) (s.payload ++ rest)))
