-- ===== src/Client/Stop.antt =====
-- internal/client/client.go: Stop and triggerReconnect, and Run behind a Stop.
use qtrp.Common.{
  ◌≡◌, arith, Bool, true, false, Option, none, some, List, [], ◌∷◌, ◌++◌, if◌then◌else◌,
}
use qtrp.Client.Backoff.{Backoff, Round, run}
use qtrp.Client.Connect.{Part, session, control_stream}

-- reconnect, and whether closeCh is closed.
pub record Flags : Type 0 where
  pub reconnect : Bool
  pub closed : Bool

-- What New sets.
abbrev pub new_flags : Flags
new_flags = record { reconnect = true; closed = false }

abbrev pub part_if : Bool → Part → List Part
part_if true part = part ∷ []
part_if false part = []

-- Stop, up to its wait for the goroutines: the flags and what is closed. `none`: the channel was closed
-- before, and closing it again panics.
unfoldable pub stop : Bool → Flags → Option (Flags × List Part)
stop has_session f =
    if f.closed
    then none
    else some (record { reconnect = false; closed = true }, part_if has_session session)

-- triggerReconnect: what is closed.
unfoldable pub trigger_reconnect : Bool → Bool → List Part
trigger_reconnect has_session has_stream =
    part_if has_session session ++ part_if has_stream control_stream

-- A round of Run that finds these flags.
abbrev pub round_with : Bool → Flags → Round
round_with connected f = record {
  connected = connected;
  closed = f.closed;
  reconnect = f.reconnect;
}

-- Behind a Stop, Run returns as soon as its connect does, without another sleep, whether that connect
-- failed or not; and another Stop panics.
pub run_stopped :
    (has_session again connected : Bool) (f f' : Flags) (parts : List Part) (rounds : List Round)
    (b : Backoff)
    → stop has_session f ≡ some (f', parts)
    → ((run (round_with connected f' ∷ rounds) b).returned ≡ true)
      × ((run (round_with connected f' ∷ rounds) b).slept ≡ [])
      × (stop again f' ≡ none)
unfolding stop run
run_stopped has_session again connected f f' parts rounds b h =
    (ground (arith, h), ground (arith, h), ground (arith, h))
