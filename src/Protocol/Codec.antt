-- ===== src/Protocol/Codec.antt =====
-- pkg/protocol/codec.go: a frame is four bytes of length and the packed message.
pub mod Frames
pub mod Merge
pub mod Broken
pub mod Delivery
pub mod Consumed
pub mod Exchange
use mathlib.Core.Option
use qtrp.Common.{
  ℕ, ◌*◌, ◌%◌, ◌^◌, ◌≡◌, refl, Option, none, some, Result, ok, err, wrap_error, ltb, if◌then◌else◌,
  length, List, [], ◌∷◌,
}
use qtrp.Go.Binary.{put_uint32, uint32}
use qtrp.Go.Io.{Bytes, IoError, short_buffer, Stream, Wire, read_full, write}
use qtrp.Protocol.Message.{Message, Msgpack, new_message}

abbrev pub length_size : ℕ
length_size = 4

abbrev pub max_msg_size : ℕ
max_msg_size = 1024 * 1024

pub data CodecError : Type 0 where
  io : IoError → CodecError
  packing : ℕ → CodecError

-- Calls of Write one after the other, up to the first that fails.
pub send_all : List Bytes → Wire → Option CodecError × Wire
send_all [] w = (none, w)
send_all (b ∷ bs) w =
    let (e, w1) = write b w in elim e [ some x ↦ (some (io x), w1) | none ↦ send_all bs w1 ]

abbrev pub header_of : Bytes → Bytes
header_of packed = put_uint32 (length packed % 2 ^ 32)

-- What Encode writes, call by call.
abbrev pub encode_writes : Bytes → List Bytes
encode_writes packed = header_of packed ∷ packed ∷ []

-- Encode behind the packing.
pub write_packed : Result ℕ Bytes → Wire → Option CodecError × Wire
unfolding send_all
write_packed (err e) w = (some (packing e), w)
write_packed (ok packed) w = send_all (encode_writes packed) w

-- Encoder.Encode; `none` is success.
unfoldable pub encode : ⦃m : Msgpack Message⦄ → Message → Wire → Option CodecError × Wire
unfolding write_packed
encode ⦃m⦄ msg w = write_packed (m.marshal msg) w

-- The end of Decode, behind the second read.
pub unpack :
    ⦃m : Msgpack Message⦄ → Result IoError Bytes × Stream → Result CodecError Message × Stream
unpack (err e, s) = (err (io e), s)
unpack ⦃m⦄ (ok packed, s) = (wrap_error packing (m.unmarshal packed), s)

-- Decode behind the first read.
read_body :
    ⦃m : Msgpack Message⦄ → Result IoError Bytes × Stream → Result CodecError Message × Stream
unfolding unpack
read_body (err e, s) = (err (io e), s)
read_body (ok len_buf, s) =
    let n = uint32 len_buf in
    let body = unpack (read_full n s) in
    if ltb max_msg_size n then (err (io short_buffer), s) else body

-- Decoder.Decode
unfoldable pub decode : ⦃m : Msgpack Message⦄ → Stream → Result CodecError Message × Stream
unfolding read_body
decode s = read_body (read_full length_size s)

-- SendMessage behind NewMessage.
unfoldable pub send_made :
    ⦃m : Msgpack Message⦄ → Result ℕ Message → Wire → Option CodecError × Wire
send_made (err e) w = (some (packing e), w)
send_made (ok msg) w = encode msg w

unfoldable pub send_message :
    {A : Type 0} ⦃p : Msgpack A⦄ ⦃m : Msgpack Message⦄ → ℕ → A → Wire → Option CodecError × Wire
unfolding send_made
send_message typ payload w = send_made (new_message typ payload) w

unfoldable pub recv_message : ⦃m : Msgpack Message⦄ → Stream → Result CodecError Message × Stream
recv_message s = decode s
