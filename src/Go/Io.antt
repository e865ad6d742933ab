-- ===== src/Go/Io.antt =====
-- io: byte streams that are read to the end or to a failure, and connections that take so many bytes
-- and then fail.
use qtrp.Common.{
  ℕ, ◌-◌, ◌≤◌, ◌<◌, ◌≡◌, List, [], ◌∷◌, ◌++◌, Option, none, some, Result, ok, err, arith, leb,
  if◌then◌else◌, length, take, drop, length-append, take-append_at, drop-append_at,
}

abbrev pub Bytes : Type 0
Bytes = List ℕ

unfoldable pub joined : List Bytes → Bytes
joined [] = []
joined (b ∷ bs) = b ++ joined bs

-- `other` stands for the errors of the operating system, by a number.
pub data IoError : Type 0 where
  eof unexpected_eof short_write short_buffer : IoError
  other : ℕ → IoError

-- What the peer sent and nobody has read, and how the stream ends behind it.
pub record Stream : Type 0 where
  pub pending : Bytes
  pub ending : IoError

-- What io.ReadFull answers when the stream ends behind `got` bytes.
abbrev pub cut_off : IoError → ℕ → IoError
cut_off eof got = if leb got 0 then eof else unexpected_eof
cut_off e _ = e

-- io.ReadFull into a buffer of `n` bytes. (With a buffer of no bytes it reads nothing.)
unfoldable pub read_full : ℕ → Stream → Result IoError Bytes × Stream
read_full n s =
    if leb n (length s.pending)
    then (ok (take n s.pending), record s { pending = drop n s.pending })
    else (err (cut_off s.ending (length s.pending)), record s { pending = [] })

-- A connection that takes `room` bytes more, and what it has taken.
pub record Wire : Type 0 where
  pub sent : Bytes
  pub room : ℕ

-- `none` is success; what fits of a failing write has gone out.
unfoldable pub write : Bytes → Wire → Option IoError × Wire
write b w =
    if leb (length b) w.room
    then (none, record { sent = w.sent ++ b; room = w.room - length b })
    else (some (other 0), record { sent = w.sent ++ take w.room b; room = 0 })

pub read_full_exact :
    (n : ℕ) (front rest : Bytes) (e : IoError)
    → length front ≡ n
    → read_full n (record { pending = front ++ rest; ending = e })
      ≡ (ok front, record { pending = rest; ending = e })
unfolding read_full
read_full_exact n front rest e h =
    rw (take-append_at n front rest h, drop-append_at n front rest h)
      (ground (arith, length-append front rest))

pub read_full_short :
    (n : ℕ) (s : Stream)
    → length s.pending < n
    → read_full n s ≡ (err (cut_off s.ending (length s.pending)), record s { pending = [] })
unfolding read_full
read_full_short n s h = ground arith

pub write_fits :
    (b : Bytes) (w : Wire)
    → length b ≤ w.room
    → write b w ≡ (none, record { sent = w.sent ++ b; room = w.room - length b })
unfolding write
write_fits b w h = ground arith
