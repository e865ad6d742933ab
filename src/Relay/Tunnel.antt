-- ===== src/Relay/Tunnel.antt =====
-- internal/server/handler.go with internal/client/handler.go: the two copyBuffers that a user's bytes go
-- through, and the two that the answers go through.
use qtrp.Common.{
  ℕ, ◌≤◌, ◌≡◌, sym, subst, ap, ◌∙◌, Option, none, [], ◌++◌, length, take, append_assoc,
}
use qtrp.Go.Io.{Bytes, IoError}
use qtrp.Relay
use qtrp.Relay.{Source}
use qtrp.Relay.Forwarded.{flow, IsForwarded, copy_buffer-IsForwarded}
use qtrp.Relay.Uncounted
use qtrp.Relay.Uncounted.Same.{copy_buffers_agree}
use qtrp.Stats.{Stats}

-- Of `whole`, a front has been added to `before`; and all of it, if `Complete`.
abbrev pub Carries : Bytes → Bytes → Bytes → Type 0 → Type 0
Carries before whole behind Complete =
    (p : Bytes) × (q : Bytes) × (behind ≡ before ++ p) × (p ++ q ≡ whole) × (Complete → q ≡ [])

-- A front of what was forwarded over a new stream is forwarded once more.
IsForwarded-chain :
    (whole crossed arrived lost before behind : Bytes) (e f : Option IoError)
    → IsForwarded [] whole crossed e
    → arrived ++ lost ≡ crossed
    → IsForwarded before arrived behind f
    → Carries before whole behind ((e ≡ none) × (f ≡ none) × (lost ≡ []))
IsForwarded-chain whole crossed arrived lost before behind e f (p, q, x, y, z) cut
      (p', q', x', y', z') =
    (
      p',
      q' ++ (lost ++ q),
      x',
      sym (append_assoc p' q' (lost ++ q))
          ∙ ap (λ b. b ++ (lost ++ q)) y'
          ∙ sym (append_assoc arrived lost q)
          ∙ ap (λ b. b ++ q) (cut ∙ x)
          ∙ y,
      λ c. ap (λ b. b ++ (lost ++ q)) (z' c.1) ∙ ap (λ b. b ++ q) c.2 ∙ z c.0,
    )

-- The stream between the two sides, `S`, and the connection at the far end, `T`: of the bytes that their
-- Write is given they accept the first ones, as many as they answer.
module _ {S T : Type 0} (send : Bytes → S → (ℕ × Option IoError) × S) (crossed : S → Bytes)
    (sends : (b : Bytes) (s : S)
      → ((send b s).0.0 ≤ length b) × (crossed (send b s).1 ≡ crossed s ++ take (send b s).0.0 b))
    (write : Bytes → T → (ℕ × Option IoError) × T) (taken : T → Bytes)
    (writes : (b : Bytes) (t : T)
      → ((write b t).0.0 ≤ length b)
        × (taken (write b t).1 ≡ taken t ++ take (write b t).0.0 b)) where
  client-IsForwarded :
      (src : Source) (target : T) (stats : Stats)
      → IsForwarded
          (taken target)
          (flow src.chunks src.last)
          (taken (Uncounted.copy_buffer write src target).target)
          (Uncounted.copy_buffer write src target).failed
  client-IsForwarded src target stats =
      subst
        (λ (c : Uncounted.Copied T).
          IsForwarded (taken target) (flow src.chunks src.last) (taken c.target) c.failed)
        (copy_buffers_agree write src target stats)
        (copy_buffer-IsForwarded write taken writes src target stats)

  -- A user's bytes: the server copies them to a new stream, whose other end gives the client a front of
  -- what was written to it, and the client copies that to the local service. Whatever fails, what the
  -- service gets is a front of what the user sent; and it is all of it if neither copyBuffer returns an
  -- error and the stream lost nothing.
  pub upload-Carries :
      (user : Source) (stream : S) (stats : Stats) (arrived : Source) (service : T) (lost : Bytes)
      → crossed stream ≡ []
      → flow arrived.chunks arrived.last ++ lost
        ≡ crossed (Relay.copy_buffer send user stream stats).target
      → Carries
          (taken service)
          (flow user.chunks user.last)
          (taken (Uncounted.copy_buffer write arrived service).target)
          (((Relay.copy_buffer send user stream stats).failed ≡ none)
            × ((Uncounted.copy_buffer write arrived service).failed ≡ none)
            × (lost ≡ []))
  upload-Carries user stream stats arrived service lost new cut =
      IsForwarded-chain (flow user.chunks user.last) _ (flow arrived.chunks arrived.last) lost
        (taken service) _ _ _
        (subst
          (λ b.
            IsForwarded b (flow user.chunks user.last)
              (crossed (Relay.copy_buffer send user stream stats).target)
              (Relay.copy_buffer send user stream stats).failed)
          new (copy_buffer-IsForwarded send crossed sends user stream stats))
        cut (client-IsForwarded arrived service stats)

  -- The answers of the service, in the same way: the client copies them to the stream, and the server
  -- copies what its end gives to the user.
  pub download-Carries :
      (service : Source) (stream : S) (stats : Stats) (arrived : Source) (user : T) (lost : Bytes)
      → crossed stream ≡ []
      → flow arrived.chunks arrived.last ++ lost
        ≡ crossed (Uncounted.copy_buffer send service stream).target
      → Carries
          (taken user)
          (flow service.chunks service.last)
          (taken (Relay.copy_buffer write arrived user stats).target)
          (((Uncounted.copy_buffer send service stream).failed ≡ none)
            × ((Relay.copy_buffer write arrived user stats).failed ≡ none)
            × (lost ≡ []))
  download-Carries service stream stats arrived user lost new cut =
      let whole = flow service.chunks service.last in
      IsForwarded-chain whole _ (flow arrived.chunks arrived.last) lost (taken user) _ _ _
        (subst (λ (c : Uncounted.Copied S). IsForwarded [] whole (crossed c.target) c.failed)
          (copy_buffers_agree send service stream stats)
          (subst
            (λ b.
              IsForwarded b whole (crossed (Relay.copy_buffer send service stream stats).target)
                (Relay.copy_buffer send service stream stats).failed)
            new (copy_buffer-IsForwarded send crossed sends service stream stats)))
        cut (copy_buffer-IsForwarded write taken writes arrived user stats)
