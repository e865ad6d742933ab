-- ===== src/Client/Keepalive.antt =====
-- internal/client/client.go: keepalive and triggerReconnect, as the steps of one goroutine and of what
-- it waits for. pongCh holds one pong.
pub mod Lost
use qtrp.Common.{
  ℕ, ◌+◌, Bool, true, false, Option, none, some, List, [], ◌∷◌, ltb, leb, if◌then◌else◌,
}

abbrev pub max_pong_miss : ℕ
max_pong_miss = 3

-- Where keepalive is: at its outer select, at the inner one, or behind its return, with or without
-- triggerReconnect.
pub data Phase : Type 0 where
  resting waiting lost stopped : Phase

-- `pong_ready`: pongCh holds a pong.
pub record Keepalive : Type 0 where
  pub phase : Phase
  pub missed : ℕ
  pub pong_ready : Bool

-- What connect sets up: a new pongCh, and missedPongs at 0.
abbrev pub new_keepalive : Keepalive
new_keepalive = record { phase = resting; missed = 0; pong_ready = false }

-- What can happen: the ticker fires and the ping is sent or not; the inner select takes a pong, or its
-- timer fires; the connection's or the client's channel is closed; the control stream's loop meets a
-- pong.
pub data Event : Type 0 where
  ping_sent ping_failed takes_pong times_out closing pong_arrives : Event

-- The case of the timer.
abbrev miss : Keepalive → Keepalive
miss k =
    if leb max_pong_miss (k.missed + 1)
    then record k { phase = lost; missed = k.missed + 1 }
    else record k { phase = resting; missed = k.missed + 1 }

-- A step of the goroutine in its phase; `none`: it does not happen in this state. A pong that comes with
-- the timer may be taken or not.
unfoldable pub move : Phase → Event → Keepalive → Option Keepalive
move resting ping_sent k = some (record k { phase = waiting })
move resting ping_failed k = some (record k { phase = lost })
move resting closing k = some (record k { phase = stopped })
move waiting takes_pong k =
    if k.pong_ready then some (record { phase = resting; missed = 0; pong_ready = false }) else none
move waiting times_out k = some (miss k)
move waiting closing k = some (record k { phase = stopped })
move _ _ k = none

-- A step of it or of the control stream's loop, which drops a pong if pongCh is full.
unfoldable pub step : Event → Keepalive → Option Keepalive
unfolding move
step pong_arrives k = some (record k { pong_ready = true })
step e k = move k.phase e k
