-- ===== src/Protocol/Codec/Frames.antt =====
-- Frames on a connection: what one side encodes the other decodes, and what happens to a frame that is
-- too long, or cut off.
use qtrp.Common.{
  ◌+◌, ◌-◌, ◌%◌, ◌^◌, ◌≤◌, ◌<◌, ◌≡◌, refl, ap, ◌∙◌, ◌++◌, append_assoc, append-nil, List, [], ◌∷◌,
  none, ok, err, arith, length, length-append,
}
use qtrp.Go.Binary.{uint32, uint32-put_uint32, length-put_uint32}
use qtrp.Go.Io.{Bytes, IoError, short_buffer, Wire, joined, read_full, write_fits, read_full_exact}
use qtrp.Protocol.Message.{Message, Msgpack}
use qtrp.Protocol.Codec.{
  io, max_msg_size, header_of, encode_writes, send_all, write_packed, encode, decode, read_body,
  unpack,
}

abbrev pub frame : Bytes → Bytes
frame packed = header_of packed ++ packed

pub length-header_of : (b : Bytes) → length (header_of b) ≡ 4
length-header_of b = length-put_uint32 (length b % 2 ^ 32)

pub length-frame : (b : Bytes) → length (frame b) ≡ 4 + length b
length-frame b = omega (arith, length-append (header_of b) b, length-header_of b)

-- What is left of a connection after `b` has gone out.
abbrev pub after : Wire → Bytes → Wire
after w b = record { sent = w.sent ++ b; room = w.room - length b }

pub send_all_fits :
    (bs : List Bytes) (w : Wire)
    → length (joined bs) ≤ w.room
    → send_all bs w ≡ (none, after w (joined bs))
unfolding send_all joined
send_all_fits [] w fits = ground (arith, append-nil w.sent)
send_all_fits (b ∷ bs) w fits = ground (
  arith,
  length-append b (joined bs),
  write_fits b w (omega (arith, length-append b (joined bs))),
  send_all_fits bs (after w b) (omega (arith, length-append b (joined bs))),
  append_assoc w.sent b (joined bs),
)

pub joined-encode_writes : (b : Bytes) → joined (encode_writes b) ≡ frame b
unfolding joined
joined-encode_writes b = ap (λ z. header_of b ++ z) (append-nil b)

-- The header is read back as the length.
pub uint32-header_of : (b : Bytes) → length b < 2 ^ 32 → uint32 (header_of b) ≡ length b
uint32-header_of b h =
    let e : length b % 2 ^ 32 ≡ length b = omega arith in rw e (uint32-put_uint32 (length b) h)

module _ ⦃m : Msgpack Message⦄ where
  pub encode_fits :
      (msg : Message) (b : Bytes) (w : Wire)
      → m.marshal msg ≡ ok b
      → 4 + length b ≤ w.room
      → encode msg w ≡ (none, after w (frame b))
  unfolding encode write_packed
  encode_fits msg b w e fits = rw e (
      send_all_fits (encode_writes b) w
        (omega (arith, ap length (joined-encode_writes b), length-frame b))
      ∙ ap (λ z. (none, after w z)) (joined-encode_writes b))

  -- After the header of a frame the body is read as far as the length in it.
  pub decode_header :
      (b rest : Bytes) (e : IoError)
      → length b ≤ max_msg_size
      → decode (record { pending = header_of b ++ rest; ending = e })
        ≡ unpack (read_full (length b) (record { pending = rest; ending = e }))
  decode_header b rest e h =
      let n = uint32-header_of b (omega arith) in
      unfold decode in
      ap read_body (read_full_exact 4 (header_of b) rest e (length-header_of b))
      ∙ rw n (ground arith)

  pub decode_frame :
      (b rest : Bytes) (e : IoError) (msg : Message)
      → length b ≤ max_msg_size
      → m.unmarshal b ≡ ok msg
      → decode (record { pending = header_of b ++ (b ++ rest); ending = e })
        ≡ (ok msg, record { pending = rest; ending = e })
  decode_frame b rest e msg h u =
      decode_header b (b ++ rest) e h
      ∙ ap unpack (read_full_exact (length b) b rest e refl)
      ∙ unfold unpack in rw u

  -- A frame that says more than a megabyte is refused behind its header; the body stays unread.
  pub decode_too_long :
      (b rest : Bytes) (e : IoError)
      → max_msg_size < length b
      → length b < 2 ^ 32
      → decode (record { pending = header_of b ++ (b ++ rest); ending = e })
        ≡ (err (io short_buffer), record { pending = b ++ rest; ending = e })
  decode_too_long b rest e h h' =
      let n = uint32-header_of b h' in
      unfold decode in
      ap read_body (read_full_exact 4 (header_of b) (b ++ rest) e (length-header_of b))
      ∙ unfold read_body in rw n (ground arith)
