-- ===== src/Crypto/Chacha20.antt =====
-- pkg/crypto/chacha_crypto.go: the frames of an encrypted connection. ChaCha20-Poly1305 is a
-- third-party library, and so an instance argument; the random source is a supply of nonces, and an
-- empty supply is its failure.
pub mod Frame
pub mod Written
pub mod Delivered
mod Tests
use qtrp.Common.{
  ℕ, zero, suc, ◌+◌, ◌-◌, ◌*◌, ◌%◌, ◌^◌, ◌≡◌, Bool, true, false, Option, none, some, List, [], ◌∷◌,
  ◌++◌, Result, ok, err, ltb, if◌then◌else◌, length, take, drop,
}
use qtrp.Go.Binary.{put_uint16, uint16}
use qtrp.Go.Io.{Bytes, IoError, other, Stream, Wire, read_full, write}

abbrev pub length_size : ℕ
length_size = 2

abbrev pub nonce_size : ℕ
nonce_size = 12

abbrev pub tag_size : ℕ
tag_size = 16

abbrev pub max_payload : ℕ
max_payload = 65536 - nonce_size - tag_size - length_size

-- cipher.AEAD under one key, with no additional data: what was sealed opens under the same nonce, and
-- is longer by the tag.
pub record Aead : Type 0 where
  pub seal : Bytes → Bytes → Bytes
  pub open_sealed : Bytes → Bytes → Option Bytes
  pub open-seal : (nonce plain : Bytes) → open_sealed nonce (seal nonce plain) ≡ some plain
  pub length-seal : (nonce plain : Bytes) → length (seal nonce plain) ≡ length plain + tag_size

pub data CryptError : Type 0 where
  io : IoError → CryptError
  no_random invalid_frame_length not_authentic : CryptError

-- What a frame holds behind its length.
abbrev pub box : ⦃a : Aead⦄ → Bytes → Bytes → Bytes
box ⦃a⦄ nonce payload = nonce ++ a.seal nonce payload

abbrev pub frame : ⦃a : Aead⦄ → Bytes → Bytes → Bytes
frame nonce payload = put_uint16 (length (box nonce payload) % 2 ^ 16) ++ box nonce payload

-- The writing side: the nonces to come, and the connection below.
pub record Writer : Type 0 where
  pub nonces : List Bytes
  pub wire : Wire

write_result : Option IoError × Wire → List Bytes → Option CryptError × Writer
write_result (none, w) ns = (none, record { nonces = ns; wire = w })
write_result (some e, w) ns = (some (io e), record { nonces = ns; wire = w })

-- writeFrame, for a payload that fits into the pooled buffer.
pub write_frame : ⦃a : Aead⦄ → Bytes → List Bytes → Wire → Option CryptError × Writer
unfolding write_result
write_frame payload [] w = (some no_random, record { nonces = []; wire = w })
write_frame payload (n ∷ ns) w = write_result (write (frame n payload) w) ns

-- The loop of Write: how many bytes have gone out, and the error that stopped it. The fuel is the
-- number of bytes left.
pub write_loop : ⦃a : Aead⦄ → ℕ → Bytes → ℕ → Writer → (ℕ × Option CryptError) × Writer
write_loop zero b total w = ((total, none), w)
write_loop (suc fuel) [] total w = ((total, none), w)
write_loop (suc fuel) (y ∷ b) total w =
    let chunk = take max_payload (y ∷ b) in
    let rest = drop max_payload (y ∷ b) in
    let (e, w') = write_frame chunk w.nonces w.wire in
    elim e [
      | some x ↦ ((total, some x), w')
      | none ↦ write_loop fuel rest (total + length chunk) w'
    ]

-- ChaCha20Conn.Write
unfoldable pub write_conn : ⦃a : Aead⦄ → Bytes → Writer → (ℕ × Option CryptError) × Writer
unfolding write_loop write_frame
write_conn b w = write_loop (length b) b 0 w

-- The reading side: the connection below, and what is left of the last frame.
pub record Reader : Type 0 where
  pub stream : Stream
  pub read_buf : Bytes

or_not_authentic : Option Bytes → Result CryptError Bytes
or_not_authentic none = err not_authentic
or_not_authentic (some p) = ok p

-- readFrame behind its second read.
pub open_frame : ⦃a : Aead⦄ → Result IoError Bytes × Stream → Result CryptError Bytes × Stream
unfolding or_not_authentic
open_frame (err e, s) = (err (io e), s)
open_frame ⦃a⦄ (ok frame, s) =
    (or_not_authentic (a.open_sealed (take nonce_size frame) (drop nonce_size frame)), s)

-- readFrame behind its first read.
pub read_box : ⦃a : Aead⦄ → Result IoError Bytes × Stream → Result CryptError Bytes × Stream
read_box (err e, s) = (err (io e), s)
read_box (ok len_buf, s) =
    let n = uint16 len_buf in
    if ltb n (nonce_size + tag_size)
    then (err invalid_frame_length, s)
    else open_frame (read_full n s)

unfoldable pub read_frame : ⦃a : Aead⦄ → Stream → Result CryptError Bytes × Stream
unfolding read_box open_frame
read_frame s = read_box (read_full length_size s)

-- Read behind readFrame, into a buffer of `n` bytes.
pub deliver : ℕ → Result CryptError Bytes × Stream → Result CryptError Bytes × Reader
deliver n (err e, s) = (err e, record { stream = s; read_buf = [] })
deliver n (ok plain, s) = (ok (take n plain), record { stream = s; read_buf = drop n plain })

-- ChaCha20Conn.Read into a buffer of `n` bytes.
read_from : ⦃a : Aead⦄ → ℕ → Bytes → Stream → Result CryptError Bytes × Reader
unfolding deliver
read_from n [] s = deliver n (read_frame s)
read_from n (x ∷ buf) s =
    (ok (take n (x ∷ buf)), record { stream = s; read_buf = drop n (x ∷ buf) })

unfoldable pub read_conn : ⦃a : Aead⦄ → ℕ → Reader → Result CryptError Bytes × Reader
unfolding read_from read_frame
read_conn n r = read_from n r.read_buf r.stream
