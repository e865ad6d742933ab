-- ===== src/Protocol/Tests.antt =====
-- A stand-in for MessagePack, runs of the codec, and the theorems at concrete inputs.
use qtrp.Common.{
  ℕ, ◌+◌, ◌-◌, ◌≤◌, ◌≡◌, refl, [], ◌∷◌, ◌++◌, Result, ok, err, arith, ltb, if◌then◌else◌, length,
  take, List, Bool, true, false, ◌⊎◌,
}
use qtrp.Go.Binary.{put_uint32, uint32}
use qtrp.Go.Int64.{pos, negsuc}
use qtrp.Go.Io.{Bytes, IoError, eof, Wire, read_full, write, cut_off}
use qtrp.Protocol.Message.{Message, Msgpack, Ping, new_message, msg_type_ping}
use qtrp.Protocol.Codec.{
  io, max_msg_size, encode_writes, encode, decode, send_message, recv_message,
}
use qtrp.Protocol.Codec.Broken.{IsBody, IsApart, Mangles, decode_cut, mixed_senders}
use qtrp.Protocol.Codec.Merge.{merge, apart}
use qtrp.Protocol.Codec.Delivery.{Sent, Received, Received-sent}
use qtrp.Protocol.Codec.Frames.{frame}

-- A message as a tag, its type and its payload.
abbrev unpack_message : Bytes → Result ℕ Message
unpack_message (c ∷ t ∷ p) = ok (record { msg_type = t; payload = p })
unpack_message _ = err 1

abbrev pack_message : Message → Result ℕ Bytes
pack_message msg = ok (0x82 ∷ msg.msg_type ∷ msg.payload)

unpack-pack : (a : Message) (b : Bytes) → pack_message a ≡ ok b → unpack_message b ≡ ok a
unpack-pack a b h = ground arith

instance abbrev message_pack : Msgpack Message
message_pack = record {
  marshal = pack_message;
  unmarshal = unpack_message;
  unmarshal-marshal = unpack-pack;
}

abbrev greeting : Message
greeting = record { msg_type = 7; payload = 1 ∷ 2 ∷ [] }

abbrev packed : Bytes
packed = 0x82 ∷ 7 ∷ 1 ∷ 2 ∷ []

abbrev open_wire : Wire
open_wire = record { sent = []; room = 100 }

decodes_frame :
    decode (record { pending = 0 ∷ 0 ∷ 0 ∷ 4 ∷ packed; ending = eof })
    ≡ (ok greeting, record { pending = []; ending = eof })
unfolding decode read_full uint32
decodes_frame = refl

both_sent :
    Sent
      (greeting ∷ greeting ∷ [])
      open_wire
      (record { sent = frame packed ++ frame packed; room = 84 })
unfolding encode write put_uint32
both_sent = (
  record { sent = frame packed; room = 92 },
  refl,
  (record { sent = frame packed ++ frame packed; room = 84 }, refl, refl),
)

fits : (b : Bytes) → pack_message greeting ≡ ok b → length b ≤ max_msg_size
fits b h = ground arith

Received-sent_example :
    (q : Bytes) × (frame packed ++ frame packed ≡ [] ++ q)
    × ((rest : Bytes) (e : IoError)
        → Received
            (greeting ∷ greeting ∷ [])
            (record { pending = q ++ rest; ending = e })
            (record { pending = rest; ending = e }))
Received-sent_example =
    Received-sent (greeting ∷ greeting ∷ []) open_wire
      (record { sent = frame packed ++ frame packed; room = 84 }) both_sent (fits, (fits, tt))

decode_cut_example :
    decode (record { pending = take 6 (frame packed); ending = eof })
    ≡ (err (io (cut_off eof (if ltb 6 4 then 6 else 6 - 4))), record { pending = []; ending = eof })
decode_cut_example = decode_cut packed 6 eof (omega arith) (omega arith)

-- The first sender's header, both writes of the second, and the first sender's body.
abbrev between : List Bool
between = true ∷ false ∷ false ∷ []

abbrev packed_body : IsBody packed
packed_body = record {
  front = 0x82;
  others = 7 ∷ 1 ∷ 2 ∷ [];
  parts = refl;
  nonzero = omega arith;
  small = omega arith;
}

abbrev longer : Bytes
longer = 0x82 ∷ 9 ∷ 4 ∷ 4 ∷ 4 ∷ []

abbrev longer_body : IsBody longer
longer_body = record {
  front = 0x82;
  others = 9 ∷ 4 ∷ 4 ∷ 4 ∷ [];
  parts = refl;
  nonzero = omega arith;
  small = omega arith;
}

mixed_senders_example :
    ((apart between ≡ true)
      × IsApart packed longer (merge between (encode_writes packed) (encode_writes longer)))
    ⊎ ((apart between ≡ false)
        × Mangles packed longer
            (merge between (encode_writes packed) (encode_writes longer))
            open_wire
            eof)
mixed_senders_example =
    mixed_senders between packed longer open_wire eof refl room packed_body longer_body
  where
    room : length (frame packed) + length (frame longer) ≤ 100
    room = unfold put_uint32 in omega arith

-- A ping packs to its timestamp.
abbrev pack_ping : Ping → Result ℕ Bytes
pack_ping record_ping = elim record_ping.timestamp [ pos n ↦ ok (n ∷ []) | negsuc n ↦ err 0 ]

abbrev unpack_ping : Bytes → Result ℕ Ping
unpack_ping (n ∷ []) = ok (record { timestamp = pos n })
unpack_ping _ = err 1

unpack-pack_ping : (a : Ping) (b : Bytes) → pack_ping a ≡ ok b → unpack_ping b ≡ ok a
unpack-pack_ping a b h = ground arith

instance abbrev ping_pack : Msgpack Ping
ping_pack = record {
  marshal = pack_ping;
  unmarshal = unpack_ping;
  unmarshal-marshal = unpack-pack_ping;
}

abbrev ping_message : Message
ping_message = record { msg_type = 7; payload = 33 ∷ [] }

-- A ping that is sent over a fresh connection and received as a message.
pings :
    recv_message (record {
      pending =
          (send_message {A = Ping} msg_type_ping (record { timestamp = pos 33 }) open_wire).1.sent;
      ending = eof;
    })
    ≡ (ok ping_message, record { pending = []; ending = eof })
unfolding recv_message send_message new_message encode decode write put_uint32 read_full uint32
pings = refl
