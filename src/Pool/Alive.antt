-- ===== src/Pool/Alive.antt =====
-- pkg/pool/conn.go: isAlive, and a Get that calls it.
use qtrp.Common.{
  ℕ, ◌==◌, ◌≡◌, Bool, true, false, not, ◌&&◌, List, [], ◌∷◌, Result, ok, if◌then◌else◌, arith, drop,
}
use qtrp.Go.Io.{Bytes}
use qtrp.Go.Strings.{is_empty}
use qtrp.Pool
use qtrp.Pool.{ConnPool, PoolError, Outcome}

-- An idle connection: what has come and was not read, and whether a Read that finds nothing fails, other
-- than by its deadline.
pub record Idle : Type 0 where
  pub pending : Bytes
  pub broken : Bool

-- isAlive: a Read of one byte, within a millisecond.
unfoldable pub is_alive : Bytes → Bool → Bool × Bytes
is_alive (b ∷ pending) broken = (true, pending)
is_alive [] broken = (not broken, [])

-- isAlive of the connection that is first in the channel, among the streams of all.
unfoldable pub probe_first : List ℕ → (ℕ → Idle) → Bool × (ℕ → Idle)
unfolding is_alive
probe_first [] streams = (false, streams)
probe_first (c ∷ cs) streams =
    let probed = is_alive (streams c).pending (streams c).broken in
    (probed.0, λ d. if d == c then record (streams d) { pending = probed.1 } else streams d)

-- Get, with the streams behind it.
unfoldable pub get_checked :
    (ℕ → Idle) → Result PoolError ℕ → ConnPool → Outcome (Result PoolError ℕ) × (ℕ → Idle)
unfolding probe_first
get_checked streams made p =
    let probed = probe_first p.conns streams in
    (Pool.get probed.0 made p, if p.closed then streams else probed.1)

-- Whether nothing has come and the connection fails.
abbrev pub is_gone : Idle → Bool
is_gone c = is_empty c.pending && c.broken

-- A Get of an open pool that has a connection gives it out unless it is gone, but without the first
-- byte that had come on it: isAlive has read that one.
pub get_checked_lem :
    (streams : ℕ → Idle) (made : Result PoolError ℕ) (c n : ℕ) (cs : List ℕ)
    → let got =
        get_checked streams made (record { conns = c ∷ cs; max_size = n; closed = false }) in
      (got.0.value ≡ (if is_gone (streams c) then made else ok c))
      × ((got.1 c).pending ≡ drop 1 (streams c).pending)
unfolding get_checked Pool.get
get_checked_lem streams made c n cs = (ground arith, ground arith)
