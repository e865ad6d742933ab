-- ===== src/Relay/Uncounted/Same.antt =====
-- internal/client/handler.go against internal/server/handler.go: the two versions of copyBuffer.
use qtrp.Common.{
  ℕ, ◌≡◌, ◌≤◌, ◌++◌, take, refl, ap, ◌∙◌, Option, none, some, List, [], ◌∷◌, arith, length,
}
use qtrp.Go.Io.{Bytes, IoError}
use qtrp.Relay
use qtrp.Relay.{Source, Progress}
use qtrp.Relay.Uncounted.{Copied, after_write, forward, finish, copy_loop, copy_buffer}
use qtrp.Relay.Forwarded.{flow, IsForwarded, copy_buffer-IsForwarded}
use qtrp.Stats.{Stats, add_bytes_in}
use qtrp.Go.Int64.{pos}

-- The server's state without its counters.
abbrev pub uncounted : {W : Type 0} → Progress W → Copied W
uncounted k = record { failed = k.failed; total = k.total; target = k.target }

module _ {W : Type 0} (send : Bytes → W → (ℕ × Option IoError) × W) where
  uncounted-after_write :
      (n wn : ℕ) (werr : Option IoError) (k : Progress W)
      → uncounted (Relay.after_write send n wn werr k) ≡ after_write send n wn werr (uncounted k)
  unfolding Relay.after_write after_write
  uncounted-after_write n wn none k = ground arith
  uncounted-after_write n wn (some e) k = ground arith

  uncounted-forward :
      (b : Bytes) (k : Progress W)
      → uncounted (Relay.forward send b k) ≡ forward send b (uncounted k)
  unfolding Relay.forward forward
  uncounted-forward [] k = refl
  uncounted-forward (x ∷ b) k =
      uncounted-after_write (length (x ∷ b)) (send (x ∷ b) k.target).0.0 (send (x ∷ b) k.target).0.1
        (record k {
          target = (send (x ∷ b) k.target).1;
          stats = add_bytes_in (pos (length (x ∷ b))) k.stats;
        })

  uncounted-finish :
      (ending : IoError) (f : Option IoError) (k : Progress W)
      → uncounted (Relay.finish send ending f k) ≡ finish send ending f (uncounted k)
  unfolding Relay.finish finish
  uncounted-finish ending none k = refl
  uncounted-finish ending (some e) k = refl

  uncounted-copy_loop :
      (chunks : List Bytes) (last : Bytes) (ending : IoError) (f : Option IoError) (k : Progress W)
      → uncounted (Relay.copy_loop send chunks last ending f k)
        ≡ copy_loop send chunks last ending f (uncounted k)
  unfolding Relay.copy_loop copy_loop
  uncounted-copy_loop chunks last ending (some e) k = refl
  uncounted-copy_loop [] last ending none k =
      let k' = Relay.forward send last k in
      uncounted-finish ending k'.failed k'
      ∙ ap (λ (j : Copied W). finish send ending j.failed j) (uncounted-forward last k)
  uncounted-copy_loop (b ∷ chunks) last ending none k =
      let k' = Relay.forward send b k in
      uncounted-copy_loop chunks last ending k'.failed k'
      ∙ ap (λ (j : Copied W). copy_loop send chunks last ending j.failed j) (uncounted-forward b k)

  -- The client's copyBuffer does what the server's does, whatever the source and the target: it returns
  -- the same error and total, and leaves the target as the server's would.
  pub copy_buffers_agree :
      (src : Source) (target : W) (stats : Stats)
      → uncounted (Relay.copy_buffer send src target stats) ≡ copy_buffer send src target
  unfolding Relay.copy_buffer copy_buffer
  copy_buffers_agree src target stats =
      uncounted-copy_loop src.chunks src.last src.ending none
        (record { failed = none; total = pos 0; target = target; stats = stats })

  -- Of the target of Write, `taken` is what it has accepted: of the bytes it is given, the first ones, as
  -- many as it answers. Then what copyBuffer of the server forwards when it returns is the front of what
  -- the source gave, and all of it if no error is returned; and the client's copyBuffer returns the same
  -- error and total and leaves the target the same.
  pub copy_buffers-IsForwarded :
      (taken : W → Bytes)
      (sends : (b : Bytes) (w : W)
        → ((send b w).0.0 ≤ length b) × (taken (send b w).1 ≡ taken w ++ take (send b w).0.0 b))
      (src : Source) (target : W) (stats : Stats)
      → IsForwarded
          (taken target)
          (flow src.chunks src.last)
          (taken (Relay.copy_buffer send src target stats).target)
          (Relay.copy_buffer send src target stats).failed
        × (uncounted (Relay.copy_buffer send src target stats) ≡ copy_buffer send src target)
  copy_buffers-IsForwarded taken sends src target stats = (
    copy_buffer-IsForwarded send taken sends src target stats,
    copy_buffers_agree src target stats,
  )
