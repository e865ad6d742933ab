-- ===== src/Relay.antt =====
-- internal/server/handler.go and internal/client/handler.go: copyBuffer, which the two directions of
-- Join run. The connections are other processes' work: the source is what its Reads return, the last
-- one with an error, and the target's Write is a parameter. The buffer from the pool and the log are
-- left out.
pub mod Forwarded
pub mod Uncounted
pub mod Join
pub mod Tunnel
mod Tests
use qtrp.Common.{ℕ, Option, none, some, List, [], ◌∷◌, ltb, ◌==◌, if◌then◌else◌, length}
use qtrp.Go.Int64.{ℤ, pos, add64}
use qtrp.Go.Io.{Bytes, IoError, eof, short_write}
use qtrp.Stats.{Stats, add_bytes_in, add_bytes_out}

-- The Reads of a source: so many without an error, then one with an error, and perhaps with bytes.
pub record Source : Type 0 where
  pub chunks : List Bytes
  pub last : Bytes
  pub ending : IoError

-- Where copyBuffer is: the error it returns, if it does, its total, the target and the counters.
pub record Progress (W : Type 0) : Type 0 where
  pub failed : Option IoError
  pub total : ℤ
  pub target : W
  pub stats : Stats

-- What copyBuffer returns for the error of a Read.
abbrev pub read_error : IoError → Option IoError
read_error eof = none
read_error e = some e

module _ {W : Type 0} (send : Bytes → W → (ℕ × Option IoError) × W) where
  -- Behind the Write of `n` bytes.
  unfoldable pub after_write : ℕ → ℕ → Option IoError → Progress W → Progress W
  after_write n wn werr k =
      let counted =
        if ltb 0 wn
        then record k { total = add64 k.total (pos wn); stats = add_bytes_out (pos wn) k.stats }
        else k in
      elim werr [
        | some e ↦ record counted { failed = some e }
        | none ↦ if wn == n then counted else record counted { failed = some short_write }
      ]

  -- What is done with the bytes of a Read: none, or a Write of them.
  unfoldable pub forward : Bytes → Progress W → Progress W
  unfolding after_write
  forward [] k = k
  forward (x ∷ b) k =
      let ((wn, werr), target) = send (x ∷ b) k.target in
      after_write (length (x ∷ b)) wn werr
        (record k { target = target; stats = add_bytes_in (pos (length (x ∷ b))) k.stats })

  -- The last round, by whether its Write failed.
  unfoldable pub finish : IoError → Option IoError → Progress W → Progress W
  finish ending (some e) k = k
  finish ending none k = record k { failed = read_error ending }

  -- The rounds of the loop, the first one by whether the Write before it failed.
  unfoldable pub copy_loop : List Bytes → Bytes → IoError → Option IoError → Progress W → Progress W
  unfolding forward finish
  copy_loop chunks last ending (some e) k = k
  copy_loop [] last ending none k = let k' = forward last k in finish ending k'.failed k'
  copy_loop (b ∷ chunks) last ending none k =
      let k' = forward b k in copy_loop chunks last ending k'.failed k'

  -- copyBuffer of the server. The client's is the same without the counters.
  unfoldable pub copy_buffer : Source → W → Stats → Progress W
  unfolding copy_loop
  copy_buffer src target stats =
      copy_loop src.chunks src.last src.ending none
        (record { failed = none; total = pos 0; target = target; stats = stats })
