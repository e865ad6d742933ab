-- ===== src/Protocol/Codec/Delivery.antt =====
-- Several messages over one connection, in order.
use qtrp.Common.{
  ℕ, ◌≤◌, ◌≡◌, refl, sym, ap, ◌∙◌, List, [], ◌∷◌, ◌++◌, append_assoc, append-nil, none, Result, ok,
  err, arith, length, All, ◌-◌, leb, Bool-cases, inl, inr,
}
use qtrp.Go.Io.{Bytes, IoError, Stream, Wire, write, joined}
use qtrp.Protocol.Message.{Message, Msgpack}
use qtrp.Protocol.Codec.{
  max_msg_size, header_of, encode_writes, send_all, write_packed, encode, decode,
}
use qtrp.Protocol.Codec.Frames.{frame, joined-encode_writes, decode_frame}

send_all_sent :
    (bs : List Bytes) (w w' : Wire) → send_all bs w ≡ (none, w') → w'.sent ≡ w.sent ++ joined bs
unfolding send_all write joined
send_all_sent [] w w' e = ground (arith, append-nil w.sent)
send_all_sent (b ∷ bs) w w' e = elim (Bool-cases (leb (length b) w.room)) [
  | inl fits ↦
      send_all_sent bs (record { sent = w.sent ++ b; room = w.room - length b }) w'
        (ground (arith, fits, e))
      ∙ append_assoc w.sent b (joined bs)
  | inr full ↦ absurd (ground (arith, full, e))
]

write_packed_sent :
    (r : Result ℕ Bytes) (w w' : Wire)
    → write_packed r w ≡ (none, w')
    → (b : Bytes) × (r ≡ ok b) × (w'.sent ≡ w.sent ++ frame b)
unfolding write_packed
write_packed_sent (err e) w w' h = absurd (ground arith)
write_packed_sent (ok b) w w' h = (
  b,
  refl,
  send_all_sent (encode_writes b) w w' h ∙ ap (λ z. w.sent ++ z) (joined-encode_writes b),
)

module _ ⦃m : Msgpack Message⦄ where
  -- The messages are encoded one behind the other, without an error.
  abbrev pub Sent : List Message → Wire → Wire → Type 0
  Sent [] w w' = w ≡ w'
  Sent (msg ∷ msgs) w w' = (w1 : Wire) × (encode msg w ≡ (none, w1)) × Sent msgs w1 w'

  -- The messages are decoded one behind the other.
  abbrev pub Received : List Message → Stream → Stream → Type 0
  Received [] s s' = s ≡ s'
  Received (msg ∷ msgs) s s' = (s1 : Stream) × (decode s ≡ (ok msg, s1)) × Received msgs s1 s'

  -- The packed message fits into the limit of the receiver.
  abbrev pub Fits : Message → Type 0
  Fits msg = (b : Bytes) → m.marshal msg ≡ ok b → length b ≤ max_msg_size

  pub encode_sent :
      (msg : Message) (w w' : Wire)
      → encode msg w ≡ (none, w')
      → (b : Bytes) × (m.marshal msg ≡ ok b) × (w'.sent ≡ w.sent ++ frame b)
  unfolding encode
  encode_sent msg w w' h = write_packed_sent (m.marshal msg) w w' h

  -- What went out is received: if the messages were encoded one behind the other with no error, and
  -- none is longer than the limit of the receiver, then the bytes that were sent are decoded to the
  -- same messages in the same order, whatever follows them on the stream, and nothing of what follows
  -- is consumed.
  pub Received-sent :
      (msgs : List Message) (w w' : Wire)
      → Sent msgs w w'
      → All Fits msgs
      → (q : Bytes) × (w'.sent ≡ w.sent ++ q)
        × ((rest : Bytes) (e : IoError)
            → Received msgs
                (record { pending = q ++ rest; ending = e })
                (record { pending = rest; ending = e }))
  Received-sent [] w w' h fit =
      ([], ap (λ (x : Wire). x.sent) (sym h) ∙ sym (append-nil w.sent), λ rest e. refl)
  Received-sent (msg ∷ msgs) w w' h fit =
      let (w1, first, others) = h in
      let (b, packed, out) = encode_sent msg w w1 first in
      let (q, out', back) = Received-sent msgs w1 w' others fit.1 in
      (
        frame b ++ q,
        rw (out', out) (append_assoc w.sent (frame b) q),
        λ rest e. (
          record { pending = q ++ rest; ending = e },
          rw (append_assoc (frame b) q rest, append_assoc (header_of b) b (q ++ rest))
              (decode_frame b (q ++ rest) e msg (fit.0 b packed)
                (m.unmarshal-marshal msg b packed)),
          back rest e,
        ),
      )
