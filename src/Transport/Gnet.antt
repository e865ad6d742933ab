-- ===== src/Transport/Gnet.antt =====
-- pkg/transport/gnet_transport.go: the listener and the connection over gnet's callbacks. A `select`
-- with several cases ready takes any of them: its choice is an argument.
pub mod Kept
pub mod Complete
use qtrp.Common.{
  ℕ, suc, ◌+◌, Bool, true, false, not, ◌&&◌, ◌||◌, Option, none, some, List, [], ◌∷◌, ◌++◌, ltb,
  if◌then◌else◌, length, take, drop,
}
use qtrp.Go.Io.{Bytes}

-- The capacity of readCh.
abbrev pub read_capacity : ℕ
read_capacity = 256

-- The capacity of acceptCh.
abbrev pub accept_capacity : ℕ
accept_capacity = 1024

-- GnetConn: readCh, the oldest chunk first, readBuf, and whether closeCh is closed.
pub record GnetConn : Type 0 where
  pub read_ch : List Bytes
  pub read_buf : Bytes
  pub closed : Bool

-- gnet.Action
pub data Action : Type 0 where
  stays closes : Action

-- What OnTraffic does with a chunk: into the channel, refused with the connection closing, or dropped.
pub data Fate : Type 0 where
  kept refused dropped : Fate

-- The select of OnTraffic, with a chunk. `prefer` is the choice when both cases are ready.
unfoldable pub fate : Bool → GnetConn → Fate
fate prefer c =
    if ltb (length c.read_ch) read_capacity && (prefer || not c.closed)
    then kept
    else (if c.closed then refused else dropped)

abbrev put : Fate → Bytes → GnetConn → Action × GnetConn
put kept b c = (stays, record c { read_ch = c.read_ch ++ (b ∷ []) })
put refused b c = (closes, c)
put dropped b c = (stays, c)

-- OnTraffic, with all the bytes that have come.
unfoldable pub on_traffic : Bool → Bytes → GnetConn → Action × GnetConn
unfolding fate
on_traffic prefer [] c = (stays, c)
on_traffic prefer (x ∷ b) c = put (fate prefer c) (x ∷ b) c

-- What Read gives: bytes, io.EOF, or nothing yet.
pub data Reading : Type 0 where
  got : Bytes → Reading
  at_end waits : Reading

-- The select of Read into a buffer of `n` bytes.
unfoldable pub receive : Bool → ℕ → List Bytes → GnetConn → Reading × GnetConn
receive prefer n [] c = ((if c.closed then at_end else waits), c)
receive prefer n (b ∷ bs) c =
    if prefer || not c.closed
    then (got (take n b), record c { read_ch = bs; read_buf = drop n b })
    else (at_end, c)

unfoldable pub read_buffered : Bool → ℕ → Bytes → GnetConn → Reading × GnetConn
unfolding receive
read_buffered prefer n [] c = receive prefer n c.read_ch c
read_buffered prefer n (x ∷ buf) c =
    (got (take n (x ∷ buf)), record c { read_buf = drop n (x ∷ buf) })

-- GnetConn.Read
unfoldable pub read : Bool → ℕ → GnetConn → Reading × GnetConn
unfolding read_buffered
read prefer n c = read_buffered prefer n c.read_buf c

-- GnetConn.Close and OnClose: closeOnce.
unfoldable pub close : GnetConn → GnetConn
close c = record c { closed = true }

-- GnetConn.Write: whether the bytes are handed to gnet.
unfoldable pub writes : GnetConn → Bool
writes c = not c.closed

-- GnetListener: acceptCh and whether closeCh is closed.
pub record GnetListener : Type 0 where
  pub accept_ch : List ℕ
  pub closed : Bool

-- Whether OnOpen, with a new connection, stays, closes it, or waits for room.
pub data Opening : Type 0 where
  opened refused_open waits_open : Opening

unfoldable pub on_open : Bool → ℕ → GnetListener → Opening × GnetListener
on_open prefer c l =
    if ltb (length l.accept_ch) accept_capacity && (prefer || not l.closed)
    then (opened, record l { accept_ch = l.accept_ch ++ (c ∷ []) })
    else (if l.closed then (refused_open, l) else (waits_open, l))

-- Accept: a connection, "listener closed", or nothing yet.
pub data Accepted : Type 0 where
  connection : ℕ → Accepted
  listener_closed waits_accept : Accepted

unfoldable pub take_accepted : Bool → List ℕ → GnetListener → Accepted × GnetListener
take_accepted prefer [] l = ((if l.closed then listener_closed else waits_accept), l)
take_accepted prefer (c ∷ cs) l =
    if prefer || not l.closed
    then (connection c, record l { accept_ch = cs })
    else (listener_closed, l)

unfoldable pub accept : Bool → GnetListener → Accepted × GnetListener
unfolding take_accepted
accept prefer l = take_accepted prefer l.accept_ch l

-- GnetListener.Close: whether the engine is stopped, if it runs.
unfoldable pub close_listener : Bool → GnetListener → Bool × GnetListener
close_listener running l = if l.closed then (false, l) else (running, record l { closed = true })
