-- ===== src/Transport/Gnet/Complete.antt =====
-- pkg/transport/gnet_transport.go: when a connection keeps all that comes, and when it does not.
use qtrp.Common.{ℕ, ◌<◌, ◌≡◌, refl, ap, ◌∙◌, Bool, false, List, [], ◌∷◌, ◌++◌, arith, length}
use qtrp.Go.Io.{Bytes}
use qtrp.Transport.Gnet.{
  stays, GnetConn, kept, dropped, fate, put, on_traffic, receive, read_buffered, read,
  read_capacity,
}
use qtrp.Transport.Gnet.Kept.{
  Op, arrives, reads, closes, after, taken, enters, leaves, queue, after_all, entered, left,
  queue_refines,
}

-- All that has come.
abbrev pub arrival : Op → Bytes
arrival (arrives prefer b) = b
arrival _ = []

unfoldable pub arrived : List Op → Bytes
arrived [] = []
arrived (op ∷ ops) = arrival op ++ arrived ops

-- The connection is not closed on the way, and whenever a chunk comes, its channel has room.
abbrev pub FindsRoom : Op → GnetConn → Type 0
FindsRoom (arrives prefer b) c = length c.read_ch < read_capacity
FindsRoom (reads prefer n) c = Unit {0}
FindsRoom closes c = ⊥

abbrev pub AlwaysRoom : List Op → GnetConn → Type 0
AlwaysRoom [] c = Unit {0}
AlwaysRoom (op ∷ ops) c = FindsRoom op c × AlwaysRoom ops (after op c)

fate_kept :
    (prefer : Bool) (c : GnetConn)
    → c.closed ≡ false
    → length c.read_ch < read_capacity
    → fate prefer c ≡ kept
unfolding fate
fate_kept prefer c o room = ground arith

receive-closed :
    (prefer : Bool) (n : ℕ) (bs : List Bytes) (c : GnetConn)
    → (receive prefer n bs c).1.closed ≡ c.closed
unfolding receive
receive-closed prefer n bs c = ground arith

read_buffered-closed :
    (prefer : Bool) (n : ℕ) (buf : Bytes) (c : GnetConn)
    → (read_buffered prefer n buf c).1.closed ≡ c.closed
unfolding read_buffered
read_buffered-closed prefer n [] c = receive-closed prefer n c.read_ch c
read_buffered-closed prefer n (x ∷ buf) c = refl

on_traffic-closed :
    (prefer : Bool) (b : Bytes) (c : GnetConn) → (on_traffic prefer b c).1.closed ≡ c.closed
unfolding on_traffic
on_traffic-closed prefer b c = ground arith

entered_all :
    (ops : List Op) (c : GnetConn)
    → c.closed ≡ false
    → AlwaysRoom ops c
    → entered ops c ≡ arrived ops
unfolding entered arrived enters after
entered_all [] c o room = refl
entered_all (arrives prefer b ∷ ops) c o room =
    ap (λ f. taken f b ++ entered ops (on_traffic prefer b c).1) (fate_kept prefer c o room.0)
    ∙ ap (λ x. b ++ x)
        (entered_all ops (on_traffic prefer b c).1 (on_traffic-closed prefer b c ∙ o) room.1)
entered_all (reads prefer n ∷ ops) c o room =
    entered_all ops (read prefer n c).1
      (unfold read in (read_buffered-closed prefer n c.read_buf c ∙ o)) room.1
entered_all (closes ∷ ops) c o room = absurd room.0

-- A connection that is not closed, and whose channel has room whenever a chunk comes: what Read has
-- given and what is still in it are, in order, what was in it and all that has come.
pub queue_complete :
    (ops : List Op) (c : GnetConn)
    → c.closed ≡ false
    → AlwaysRoom ops c
    → left ops c ++ queue (after_all ops c) ≡ queue c ++ arrived ops
queue_complete ops c o room =
    queue_refines ops c ∙ ap (λ x. queue c ++ x) (entered_all ops c o room)

-- With 256 chunks waiting on an open connection, OnTraffic drops what has come and lets the connection
-- go on: what Read gives from then on is the same as if it had not come.
pub dropped_when_full :
    (prefer : Bool) (b : Bytes) (c : GnetConn) (ops : List Op)
    → c.closed ≡ false
    → length c.read_ch ≡ read_capacity
    → ((on_traffic prefer b c) ≡ (stays, c)) × (left (arrives prefer b ∷ ops) c ≡ left ops c)
unfolding on_traffic left after leaves
dropped_when_full prefer [] c ops o full = (refl, refl)
dropped_when_full prefer (x ∷ b) c ops o full =
    let lost : fate prefer c ≡ dropped = unfold fate in ground (arith, o, full) in
    (ap (λ f. put f (x ∷ b) c) lost, ap (λ f. left ops (put f (x ∷ b) c).1) lost)
