-- ===== src/Relay/Forwarded.antt =====
-- internal/server/handler.go: what copyBuffer forwards.
use qtrp.Common.{
  ℕ, ◌≤◌, ◌≡◌, refl, sym, ◌∙◌, ap, Option, none, some, List, [], ◌∷◌, ◌++◌, arith, subst, length,
  take, drop, take-append-drop, drop_all, append-nil, append_assoc,
}
use qtrp.Go.Io.{Bytes, IoError}
use qtrp.Relay.{Source, Progress, after_write, forward, finish, copy_loop, copy_buffer}
use qtrp.Stats.{Stats}

-- All the bytes of a source.
unfoldable pub flow : List Bytes → Bytes → Bytes
flow [] last = last
flow (b ∷ chunks) last = b ++ flow chunks last

-- The bytes `b` went out up to `q`, and all of them if nothing failed.
abbrev pub IsForwarded : Bytes → Bytes → Bytes → Option IoError → Type 0
IsForwarded before b behind failed =
    (p : Bytes) × (q : Bytes) × (behind ≡ before ++ p) × (p ++ q ≡ b) × (failed ≡ none → q ≡ [])

-- A part that went out whole, and then another part.
IsForwarded-append :
    (before middle behind b c : Bytes) (failed : Option IoError)
    → IsForwarded before b middle none
    → IsForwarded middle c behind failed
    → IsForwarded before (b ++ c) behind failed
IsForwarded-append before middle behind b c failed (p, q, e, f, g) (p', q', e', f', g') =
    let whole : p ≡ b = sym (append-nil p) ∙ ap (λ r. p ++ r) (sym (g refl)) ∙ f in
    (
      p ++ p',
      q',
      e' ∙ ap (λ m. m ++ p') e ∙ append_assoc before p p',
      append_assoc p p' q' ∙ ap (λ r. p ++ r) f' ∙ ap (λ r. r ++ c) whole,
      g',
    )

-- A part that did not, and nothing behind it.
IsForwarded-cut :
    (before behind b c : Bytes) (x : IoError)
    → IsForwarded before b behind (some x)
    → IsForwarded before (b ++ c) behind (some x)
IsForwarded-cut before behind b c x (p, q, e, f, g) =
    (p, q ++ c, e, sym (append_assoc p q c) ∙ ap (λ r. r ++ c) f, λ h. cc)

-- The target of Write: `taken` is what it has accepted. Of the bytes it is given, it accepts the
-- first ones, as many as it answers.
module _ {W : Type 0} (send : Bytes → W → (ℕ × Option IoError) × W) (taken : W → Bytes)
    (sends : (b : Bytes) (w : W)
      → ((send b w).0.0 ≤ length b) × (taken (send b w).1 ≡ taken w ++ take (send b w).0.0 b)) where
  after_write_target :
      (n wn : ℕ) (werr : Option IoError) (k : Progress W)
      → (after_write send n wn werr k).target ≡ k.target
  unfolding after_write
  after_write_target n wn none k = ground arith
  after_write_target n wn (some e) k = ground arith

  after_write_complete :
      (n wn : ℕ) (werr : Option IoError) (k : Progress W)
      → (after_write send n wn werr k).failed ≡ none
      → wn ≡ n
  unfolding after_write
  after_write_complete n wn none k e = ground arith
  after_write_complete n wn (some x) k e = ground arith

  forward-IsForwarded :
      (b : Bytes) (k : Progress W)
      → IsForwarded (taken k.target) b (taken (forward send b k).target) (forward send b k).failed
  unfolding forward
  forward-IsForwarded [] k = ([], [], sym (append-nil (taken k.target)), refl, λ e. refl)
  forward-IsForwarded (x ∷ b) k =
      let wn = (send (x ∷ b) k.target).0.0 in
      let t = after_write_target (length (x ∷ b)) wn (send (x ∷ b) k.target).0.1 _ in
      (
        take wn (x ∷ b),
        drop wn (x ∷ b),
        ap taken t ∙ (sends (x ∷ b) k.target).1,
        take-append-drop wn (x ∷ b),
        λ e. drop_all wn (x ∷ b) (
            omega
              (arith, after_write_complete (length (x ∷ b)) wn (send (x ∷ b) k.target).0.1 _ e)),
      )

  finish_target :
      (ending : IoError) (o : Option IoError) (k : Progress W)
      → ((finish send ending o k).target ≡ k.target)
  unfolding finish
  finish_target ending none k = refl
  finish_target ending (some e) k = refl

  finish_complete :
      (ending : IoError) (k : Progress W)
      → (finish send ending k.failed k).failed ≡ none
      → k.failed ≡ none
  unfolding finish
  finish_complete ending k e = finished k.failed refl e
    where
      finished :
          (o : Option IoError)
          → k.failed ≡ o
          → (finish send ending o k).failed ≡ none
          → k.failed ≡ none
      finished none h f = h
      finished (some x) h f = f

  copy_loop-IsForwarded :
      (chunks : List Bytes) (last : Bytes) (ending : IoError) (k : Progress W)
      → IsForwarded
          (taken k.target)
          (flow chunks last)
          (taken (copy_loop send chunks last ending none k).target)
          (copy_loop send chunks last ending none k).failed
  unfolding copy_loop flow
  copy_loop-IsForwarded [] last ending k =
      let k' = forward send last k in
      let (p, q, e, f, g) = forward-IsForwarded last k in
      (
        p,
        q,
        ap taken (finish_target ending k'.failed k') ∙ e,
        f,
        λ h. g (finish_complete ending k' h),
      )
  copy_loop-IsForwarded (b ∷ chunks) last ending k =
      go (forward send b k).failed refl (forward-IsForwarded b k)
        (copy_loop-IsForwarded chunks last ending (forward send b k))
    where
      k' : Progress W
      k' = forward send b k

      go :
          (o : Option IoError)
          → k'.failed ≡ o
          → IsForwarded (taken k.target) b (taken k'.target) o
          → IsForwarded
              (taken k'.target)
              (flow chunks last)
              (taken (copy_loop send chunks last ending none k').target)
              (copy_loop send chunks last ending none k').failed
          → IsForwarded
              (taken k.target)
              (b ++ flow chunks last)
              (taken (copy_loop send chunks last ending o k').target)
              (copy_loop send chunks last ending o k').failed
      go none h i rest = IsForwarded-append _ _ _ b (flow chunks last) _ i rest
      go (some x) h i rest =
          subst (λ o. IsForwarded (taken k.target) (b ++ flow chunks last) (taken k'.target) o)
            (sym h) (IsForwarded-cut _ _ b (flow chunks last) x i)

  -- What copyBuffer has forwarded when it returns is the front of what the source gave; if it returns
  -- no error, it is all of it.
  pub copy_buffer-IsForwarded :
      (src : Source) (target : W) (stats : Stats)
      → IsForwarded
          (taken target)
          (flow src.chunks src.last)
          (taken (copy_buffer send src target stats).target)
          (copy_buffer send src target stats).failed
  unfolding copy_buffer
  copy_buffer-IsForwarded src target stats = copy_loop-IsForwarded src.chunks src.last src.ending _
