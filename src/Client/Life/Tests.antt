-- ===== src/Client/Life/Tests.antt =====
-- The theorems on the client's sessions at concrete inputs.
use qtrp.Common.{suc, ◌+◌, ◌≤◌, ◌<◌, ◌≡◌, ◌⊎◌, refl, true, false, some, List, [], ◌∷◌, history}
use qtrp.Client.Connect.{ready}
use qtrp.Client.Stop.{new_flags}
use qtrp.Client.Life.{
  serving, sleeping, returned, Life, new_life, Event, dials, opens, keeper_ends, ends, wakes, stops,
  step,
}
use qtrp.Client.Life.Tidy.{has_connection, sessions_closed}
use qtrp.Client.Life.Stopped.{steps_left, taken, is_idle}
use qtrp.Client.Life.Returning.{CanGo, stop_lem, late_stop}

-- A connection that has ended, with its keepalive still running.
abbrev first_connection : List Event
first_connection = dials ready ∷ opens true ∷ ends ∷ []

abbrev asleep : Life
asleep = record { phase = sleeping; flags = new_flags; made = 1; opened = []; keepers = 1 }

asleep_reached : history step first_connection new_life ≡ some asleep
unfolding history step
asleep_reached = refl

-- The next one.
abbrev two_connections : List Event
two_connections = dials ready ∷ opens true ∷ ends ∷ wakes ∷ dials ready ∷ opens true ∷ []

abbrev in_second : Life
in_second = record { phase = serving; flags = new_flags; made = 2; opened = 2 ∷ []; keepers = 2 }

second_reached : history step two_connections new_life ≡ some in_second
unfolding history step
second_reached = refl

sessions_closed_example :
    ((in_second.opened ≡ []) ⊎ (in_second.opened ≡ in_second.made ∷ []))
    × (has_connection in_second.phase ≡ false → in_second.opened ≡ [])
    × ((t : Life)
        → (step stops in_second ≡ some t) ⊎ (step (keeper_ends true) in_second ≡ some t)
        → t.opened ≡ [])
sessions_closed_example = sessions_closed two_connections in_second second_reached

-- The old keepalive closes the new session.
overtaken : step (keeper_ends true) in_second ≡ some (record in_second { opened = []; keepers = 1 })
unfolding step
overtaken = refl

abbrev told : Life
told = record in_second { flags = record { reconnect = false; closed = true }; opened = [] }

told_reached : step stops in_second ≡ some told
unfolding step
told_reached = refl

abbrev at_end : Life
at_end = record told { phase = returned; keepers = 1 }

end_reached : history step (keeper_ends false ∷ ends ∷ []) told ≡ some at_end
unfolding history step
end_reached = refl

stop_lem_example :
    (steps_left at_end.phase + taken (keeper_ends false ∷ ends ∷ []) ≤ steps_left in_second.phase)
    × (0 < steps_left at_end.phase → CanGo at_end)
    × (at_end.made ≤ suc in_second.made)
    × (is_idle in_second.phase ≡ false
        → (at_end.made ≡ in_second.made) × (at_end.opened ≡ []) × (is_idle at_end.phase ≡ false))
stop_lem_example =
    stop_lem two_connections (keeper_ends false ∷ ends ∷ []) in_second told at_end second_reached
      told_reached end_reached

abbrev asleep_told : Life
asleep_told = record asleep { flags = record { reconnect = false; closed = true } }

asleep_told_reached : step stops asleep ≡ some asleep_told
unfolding step
asleep_told_reached = refl

late_stop_example :
    (u : Life) × (history step (wakes ∷ dials ready ∷ opens true ∷ []) asleep_told ≡ some u)
    × (u.flags.closed ≡ true)
    × (u.phase ≡ serving)
    × (u.opened ≡ 2 ∷ [])
late_stop_example =
    late_stop first_connection asleep asleep_told asleep_reached refl asleep_told_reached
