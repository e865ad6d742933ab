-- ===== src/Client/Life.antt =====
-- internal/client/client.go: Run with connect, Stop and keepalive's triggerReconnect, as the steps of
-- goroutines that share the client.
mod Tests
pub mod Tidy
pub mod Stopped
pub mod Returning
use qtrp.Common.{
  ℕ, zero, suc, ◌==◌, ◌-◌, Bool, true, false, not, ◌||◌, Option, none, some, List, [], ◌∷◌, ltb,
  if◌then◌else◌,
}
use qtrp.Client.Connect
use qtrp.Client.Connect.{Part, Setup, broken, nil_session, ready}
use qtrp.Client.Stop
use qtrp.Client.Stop.{Flags, new_flags, trigger_reconnect}

-- Where Run is: in connect, before it has a session, with one before the control stream's loop, or in
-- that loop; in Sleep; behind its return; or behind a panic, which ends the program.
pub data Phase : Type 0 where
  dialing opening serving sleeping returned crashed : Phase

-- `made`: how many sessions connect has made. c.session is the last one, and nil before the first.
-- `opened`: those that the client has not closed. `keepers`: the keepalives that run.
pub record Life : Type 0 where
  pub phase : Phase
  pub flags : Flags
  pub made : ℕ
  pub opened : List ℕ
  pub keepers : ℕ

abbrev pub new_life : Life
new_life = record { phase = dialing; flags = new_flags; made = 0; opened = []; keepers = 0 }

-- The session is set up or not; the control stream is opened and the client admitted, or not; the loop
-- of the control stream ends; Sleep ends; a keepalive returns, with or without triggerReconnect
-- (Client.Keepalive has when); Stop is called.
pub data Event : Type 0 where
  dials : Setup → Event
  opens keeper_ends : Bool → Event
  ends wakes stops : Event

unfoldable pub without : ℕ → List ℕ → List ℕ
without x [] = []
without x (y ∷ ys) = let rest = without x ys in if y == x then rest else y ∷ rest

-- Close of c.session, if the parts that are closed have it.
unfoldable pub close_parts : List Part → Life → Life
unfolding without
close_parts [] s = s
close_parts (Connect.session ∷ parts) s =
    close_parts parts (record s { opened = without s.made s.opened })
close_parts (_ ∷ parts) s = close_parts parts s

-- The loop of Run, behind connect.
unfoldable pub behind_connect : Life → Life
behind_connect s =
    if s.flags.closed || not s.flags.reconnect
    then record s { phase = returned }
    else record s { phase = sleeping }

-- The goroutine of Run. That connect has made the session and that it has assigned c.session are one
-- event, though with mtmux a tenth of a second lies between the two.
unfoldable pub go_on : Phase → Event → Life → Option Life
unfolding close_parts behind_connect
go_on dialing (dials (broken parts)) s = some (behind_connect s)
go_on dialing (dials nil_session) s = some (record s { phase = crashed })
go_on dialing (dials ready) s =
    some (record s { phase = opening; made = suc s.made; opened = suc s.made ∷ s.opened })
go_on opening (opens true) s = some (record s { phase = serving; keepers = suc s.keepers })
go_on opening (opens false) s = some (behind_connect (close_parts (Connect.session ∷ []) s))
go_on serving ends s = some (behind_connect (close_parts (Connect.session ∷ []) s))
go_on sleeping wakes s = some (record s { phase = dialing })
go_on _ e s = none

pub has_session : Life → Bool
has_session s = ltb 0 s.made

-- keepalive: a trigger closes what c.session is now, whichever session this keepalive was started for.
unfoldable pub end_keeper : Bool → ℕ → Life → Option Life
unfolding close_parts trigger_reconnect has_session
end_keeper triggers zero s = none
end_keeper true (suc n) s =
    some
      (close_parts (trigger_reconnect (has_session s) (has_session s)) (record s { keepers = n }))
end_keeper false (suc n) s = some (record s { keepers = n })

-- Stop, up to its wait.
unfoldable pub after_stop : Option (Flags × List Part) → Life → Option Life
unfolding close_parts
after_stop none s = none
after_stop (some (flags, parts)) s = some (close_parts parts (record s { flags = flags }))

unfoldable pub act : Event → Life → Option Life
unfolding go_on end_keeper after_stop Stop.stop has_session
act (keeper_ends triggers) s = end_keeper triggers s.keepers s
act stops s = after_stop (Stop.stop (has_session s) s.flags) s
act e s = go_on s.phase e s

-- Behind a panic nothing runs.
unfoldable pub unless_crashed : Phase → Option Life → Option Life
unless_crashed crashed o = none
unless_crashed _ o = o

-- `none`: this does not happen in this state.
unfoldable pub step : Event → Life → Option Life
unfolding act unless_crashed
step e s = unless_crashed s.phase (act e s)
