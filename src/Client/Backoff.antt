-- ===== src/Client/Backoff.antt =====
-- internal/client/client.go: Run and its reconnection delay, in nanoseconds. The float64 product of the
-- delay and 2.0 is exact here, since the delay stays below 2 ^ 53.
pub mod Delay
use qtrp.Common.{ℕ, zero, suc, ◌+◌, ◌*◌, Bool, true, false, not, List, [], ◌∷◌, ltb, if◌then◌else◌}
use qtrp.Auth.{second}

abbrev pub min_delay : ℕ
min_delay = 1 * second

abbrev pub max_delay : ℕ
max_delay = 60 * second

-- currentDelay and successiveFailures.
pub record Backoff : Type 0 where
  pub delay : ℕ
  pub failures : ℕ

abbrev pub fresh : Backoff
fresh = record { delay = min_delay; failures = 0 }

abbrev pub doubled : ℕ → ℕ
doubled delay = if ltb max_delay (delay * 2) then max_delay else delay * 2

-- What a round of Run makes of the outcome of connect.
unfoldable pub after_connect : Bool → Backoff → Backoff
after_connect true b = fresh
after_connect false b = record {
  delay = if ltb 1 (b.failures + 1) then doubled b.delay else b.delay;
  failures = b.failures + 1;
}

-- A round: whether connect succeeded, and, behind it, whether closeCh is closed and reconnect is set.
pub record Round : Type 0 where
  pub connected : Bool
  pub closed : Bool
  pub reconnect : Bool

-- Run, as far as the rounds go: the delays it has slept, whether it has returned, and its variables.
pub record Progress : Type 0 where
  pub slept : List ℕ
  pub returned : Bool
  pub backoff : Backoff

abbrev slept_first : ℕ → Progress → Progress
slept_first d p = record p { slept = d ∷ p.slept }

unfoldable pub run : List Round → Backoff → Progress
unfolding after_connect
run [] b = record { slept = []; returned = false; backoff = b }
run (r ∷ rounds) b =
    let b' = after_connect r.connected b in
    let rest = slept_first b'.delay (run rounds b') in
    if r.closed
    then record { slept = []; returned = true; backoff = b' }
    else (if r.reconnect then rest else record { slept = []; returned = true; backoff = b' })
