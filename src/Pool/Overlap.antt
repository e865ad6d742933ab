-- ===== src/Pool/Overlap.antt =====
-- pkg/pool/conn.go: the pool under calls that overlap. Get and Put look at the flag under the mutex, and
-- use the channel behind it; Close holds the mutex to its end.
pub mod Kept
pub mod Behind
pub mod Alone
use qtrp.Common.{
  ℕ, zero, suc, ◌+◌, Bool, true, false, Option, none, some, List, [], ◌∷◌, ◌++◌, ltb, if◌then◌else◌,
  length,
}
use qtrp.Pool.Buffer.{pick}

-- `getting` and `putting`: the calls that have seen an open pool and have not used the channel yet, the
-- latter by their connections. `draining`: Close holds the mutex. What Put was given is `entered`; it is
-- in the channel, in a Put, `given` to a caller of Get, `dropped` by Close of the connection, or `lost`
-- in a Put that panicked. `panics` counts the calls that did.
pub record Shared : Type 0 where
  pub conns : List ℕ
  pub max_size : ℕ
  pub closed : Bool
  pub chan_closed : Bool
  pub draining : Bool
  pub getting : ℕ
  pub putting : List ℕ
  pub entered : List ℕ
  pub given : List ℕ
  pub dropped : List ℕ
  pub lost : List ℕ
  pub panics : ℕ

unfoldable pub new_shared : ℕ → Shared
new_shared max_size = record {
  conns = [];
  max_size = max_size;
  closed = false;
  chan_closed = false;
  draining = false;
  getting = 0;
  putting = [];
  entered = [];
  given = [];
  dropped = [];
  lost = [];
  panics = 0;
}

-- A goroutine goes on: a call of Get, of Put or of Close looks at the flag; a Get uses the channel, with
-- the answer of isAlive; the Put at a place uses it; Close closes the channel or takes from it.
pub data Event : Type 0 where
  gets closes drains : Event
  puts sends : ℕ → Event
  takes : Bool → Event

-- The select of a Get, by how many are at it and what is in the channel. A closed channel that is empty
-- gives a nil connection, and isAlive of that panics.
unfoldable pub receive : ℕ → List ℕ → Bool → Shared → Option Shared
receive zero cs alive s = none
receive (suc g) (c ∷ cs) true s = some (record s { getting = g; conns = cs; given = c ∷ s.given })
receive (suc g) (c ∷ cs) false s =
    some (record s { getting = g; conns = cs; dropped = c ∷ s.dropped })
receive (suc g) [] alive s =
    if s.chan_closed
    then some (record s { getting = g; panics = suc s.panics })
    else some (record s { getting = g })

-- The select of a Put of `c`, with the other Puts. To send on a closed channel panics.
unfoldable pub send_conn : Option (ℕ × List ℕ) → Shared → Option Shared
send_conn none s = none
send_conn (some (c, others)) s =
    if s.chan_closed
    then some (record s { putting = others; lost = c ∷ s.lost; panics = suc s.panics })
    else (if ltb (length s.conns) s.max_size
        then some (record s { putting = others; conns = s.conns ++ (c ∷ []) })
        else some (record s { putting = others; dropped = c ∷ s.dropped }))

-- Close, with the channel closed: the loop over what is in it.
unfoldable pub drain : List ℕ → Shared → Option Shared
drain [] s = some (record s { draining = false })
drain (c ∷ cs) s = some (record s { conns = cs; dropped = c ∷ s.dropped })

-- `none`: the goroutine waits for the mutex, or there is none that could do this.
unfoldable pub step : Event → Shared → Option Shared
unfolding receive send_conn drain
step gets s =
    if s.draining
    then none
    else (if s.closed then some s else some (record s { getting = suc s.getting }))
step (puts c) s =
    if s.draining
    then none
    else (if s.closed
        then some (record s { entered = c ∷ s.entered; dropped = c ∷ s.dropped })
        else some (record s { entered = c ∷ s.entered; putting = c ∷ s.putting }))
step closes s =
    if s.draining
    then none
    else (if s.closed then some s else some (record s { closed = true; draining = true }))
step drains s =
    if s.draining
    then (if s.chan_closed then drain s.conns s else some (record s { chan_closed = true }))
    else none
step (takes alive) s = receive s.getting s.conns alive s
step (sends i) s = send_conn (pick i s.putting) s
