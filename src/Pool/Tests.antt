-- ===== src/Pool/Tests.antt =====
-- The theorems on the pools at concrete inputs.
use qtrp.Common.{
  ℕ, suc, ◌+◌, ◌≤◌, ◌↔◌, false, history, List, ◌≡◌, length, refl, true, some, [], ◌∷◌, ok,
}
use qtrp.Pool.Overlap.{Shared, Event, gets, closes, drains, puts, sends, new_shared, step}
use qtrp.Pool.Overlap.Kept.{count, conns_kept}
use qtrp.Pool.Overlap.Behind.{UsesChannel, panics_iff}
use qtrp.Pool.{get}
use qtrp.Pool.Alive.{Idle, get_checked}
use qtrp.Pool.Buffer
use qtrp.Pool.Buffer.{new_buffer_pool, buffers, pick}

-- Connection 7 is put; a Put of 8 and a Get have seen the pool open when Close runs to its end.
abbrev overlapping : List Event
overlapping = puts 7 ∷ sends 0 ∷ puts 8 ∷ gets ∷ closes ∷ drains ∷ drains ∷ drains ∷ []

abbrev overtaken : Shared
overtaken = record {
  conns = [];
  max_size = 1;
  closed = true;
  chan_closed = true;
  draining = false;
  getting = 1;
  putting = 8 ∷ [];
  entered = 8 ∷ 7 ∷ [];
  given = [];
  dropped = 7 ∷ [];
  lost = [];
  panics = 0;
}

overtaken_reached : history step overlapping (new_shared 1) ≡ some overtaken
unfolding history step new_shared pick
overtaken_reached = refl

conns_kept_example :
    ((x : ℕ)
      → count x overtaken.entered
        ≡ count x overtaken.conns
          + count x overtaken.putting
          + count x overtaken.given
          + count x overtaken.dropped
          + count x overtaken.lost)
    × (length overtaken.conns ≤ 1)
    × (overtaken.closed ≡ true → overtaken.draining ≡ false → overtaken.conns ≡ [])
conns_kept_example = conns_kept 1 overlapping overtaken overtaken_reached

abbrev panicked : Shared
panicked = record overtaken { putting = []; lost = 8 ∷ []; panics = 1 }

sends_on : step (sends 0) overtaken ≡ some panicked
unfolding step pick
sends_on = refl

panics_iff_example : (panicked.panics ≡ suc overtaken.panics) ↔ UsesChannel (sends 0)
panics_iff_example =
    panics_iff 1 overlapping overtaken panicked (sends 0) overtaken_reached refl refl sends_on

-- A short buffer is put back, and then a fitting one, which the last Get returns.
abbrev buffer_ops : List Buffer.Op
buffer_ops =
    Buffer.gets 0
    ∷ Buffer.puts (some (7 ∷ []))
    ∷ Buffer.puts (some (7 ∷ 8 ∷ []))
    ∷ Buffer.gets 0
    ∷ []

two_buffers : buffers buffer_ops (new_buffer_pool 2) ≡ (0 ∷ 0 ∷ []) ∷ (7 ∷ 8 ∷ []) ∷ []
unfolding buffers Buffer.get_buffer Buffer.after Buffer.put_buffer
two_buffers = refl

-- Connection 7 has bytes waiting: Get gives it out without the first of them.
abbrev waiting : ℕ → Idle
waiting c = record { pending = 1 ∷ 2 ∷ []; broken = false }

first_byte_lost :
    let got =
      get_checked waiting (ok 9) (record { conns = 7 ∷ []; max_size = 1; closed = false }) in
    (got.0.value ≡ ok 7) × ((got.1 7).pending ≡ 2 ∷ [])
unfolding get_checked get
first_byte_lost = (refl, refl)
