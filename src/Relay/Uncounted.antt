-- ===== src/Relay/Uncounted.antt =====
-- internal/client/handler.go: copyBuffer of the client, which counts nothing.
pub mod Same
use qtrp.Common.{ℕ, Option, none, some, List, [], ◌∷◌, ltb, ◌==◌, if◌then◌else◌, length}
use qtrp.Go.Int64.{ℤ, pos, add64}
use qtrp.Go.Io.{Bytes, IoError, eof, short_write}
use qtrp.Relay.{Source, read_error}

-- Where copyBuffer is: the error it returns, if it does, its total and the target.
pub record Copied (W : Type 0) : Type 0 where
  pub failed : Option IoError
  pub total : ℤ
  pub target : W

module _ {W : Type 0} (send : Bytes → W → (ℕ × Option IoError) × W) where
  -- Behind the Write of `n` bytes.
  unfoldable pub after_write : ℕ → ℕ → Option IoError → Copied W → Copied W
  after_write n wn werr k =
      let more = if ltb 0 wn then record k { total = add64 k.total (pos wn) } else k in
      elim werr [
        | some e ↦ record more { failed = some e }
        | none ↦ if wn == n then more else record more { failed = some short_write }
      ]

  -- What is done with the bytes of a Read: none, or a Write of them.
  unfoldable pub forward : Bytes → Copied W → Copied W
  unfolding after_write
  forward [] k = k
  forward (x ∷ b) k =
      let ((wn, werr), target) = send (x ∷ b) k.target in
      after_write (length (x ∷ b)) wn werr (record k { target = target })

  -- The last round, by whether its Write failed.
  unfoldable pub finish : IoError → Option IoError → Copied W → Copied W
  finish ending (some e) k = k
  finish ending none k = record k { failed = read_error ending }

  -- The rounds of the loop, the first one by whether the Write before it failed.
  unfoldable pub copy_loop : List Bytes → Bytes → IoError → Option IoError → Copied W → Copied W
  unfolding forward finish
  copy_loop chunks last ending (some e) k = k
  copy_loop [] last ending none k = let k' = forward last k in finish ending k'.failed k'
  copy_loop (b ∷ chunks) last ending none k =
      let k' = forward b k in copy_loop chunks last ending k'.failed k'

  -- copyBuffer
  unfoldable pub copy_buffer : Source → W → Copied W
  unfolding copy_loop
  copy_buffer src target =
      copy_loop src.chunks src.last src.ending none
        (record { failed = none; total = pos 0; target = target })
