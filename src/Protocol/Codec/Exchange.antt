-- ===== src/Protocol/Codec/Exchange.antt =====
-- pkg/protocol/codec.go: SendMessage on one side and RecvMessage on the other.
use qtrp.Common.{ℕ, ◌≡◌, refl, ap, ◌∙◌, ◌++◌, ◌∷◌, [], none, Result, ok, err, arith}
use qtrp.Go.Io.{Bytes, IoError, Wire}
use qtrp.Protocol.Codec.{encode, send_made, send_message, recv_message}
use qtrp.Protocol.Codec.Delivery.{Fits, Received-sent}
use qtrp.Protocol.Message.{Message, Msgpack, new_message, decode_payload, decode-new_message}

module _ ⦃m : Msgpack Message⦄ where
  send_made-eq-none :
      (r : Result ℕ Message) (w w' : Wire)
      → send_made r w ≡ (none, w')
      → (msg : Message) × (r ≡ ok msg) × (encode msg w ≡ (none, w'))
  unfolding send_made
  send_made-eq-none (err x) w w' h = absurd (ground (arith, ap (λ t. t.0) h))
  send_made-eq-none (ok msg) w w' h = (msg, refl, h)

module _ ⦃m : Msgpack Message⦄ {A : Type 0} ⦃p : Msgpack A⦄ where
  -- What a message of this type is as bytes, and what the other side makes of them.
  pub record Transmitted (typ : ℕ) (a : A) (w w' : Wire) : Type 0 where
    pub bytes : Bytes
    pub message : Message
    pub went_out : w'.sent ≡ w.sent ++ bytes
    pub typed : message.msg_type ≡ typ
    pub decoded : decode_payload {A = A} message ≡ ok a
    pub arrives :
        (rest : Bytes) (e : IoError)
        → recv_message (record { pending = bytes ++ rest; ending = e })
          ≡ (ok message, record { pending = rest; ending = e })

  -- The message, however it is packed, is within the receiver's limit.
  abbrev pub IsShort : ℕ → A → Type 0
  IsShort typ a = (msg : Message) → new_message typ a ≡ ok msg → Fits msg

  pub send_message-Transmitted :
      (typ : ℕ) (a : A) (w w' : Wire)
      → send_message typ a w ≡ (none, w')
      → IsShort typ a
      → Transmitted typ a w w'
  unfolding recv_message send_message
  send_message-Transmitted typ a w w' h short =
      let (msg, made, out) = send_made-eq-none (new_message typ a) w w' h in
      let (typed, decoded) = decode-new_message typ a msg made in
      let (q, sent, back) = Received-sent (msg ∷ []) w w' (w', out, refl) (short msg made, tt) in
      record {
        bytes = q;
        message = msg;
        went_out = sent;
        typed = typed;
        decoded = decoded;
        arrives =
            λ rest e. let (s1, first, last) = back rest e in first ∙ ap (λ s. (ok msg, s)) last;
      }
