-- ===== src/Client/Life/Returning.antt =====
-- internal/client/client.go: that Run returns behind a Stop, and what a Stop that comes while Run sleeps
-- leaves to be done.
use qtrp.Common.{
  ℕ, zero, suc, ◌+◌, ◌≤◌, ◌<◌, ◌≡◌, refl, sym, ap, ◌∙◌, subst, Bool, true, false, some, List, [],
  ◌∷◌, arith, history, then_steps, then_steps-eq-some, inl,
}
use qtrp.Client.Connect
use qtrp.Client.Connect.{Part, Setup, broken, nil_session, ready}
use qtrp.Client.Stop.{trigger_reconnect}
use qtrp.Client.Life.{
  Phase, dialing, opening, serving, sleeping, returned, crashed, Life, new_life, Event, dials,
  opens, keeper_ends, ends, wakes, stops, close_parts, behind_connect, go_on, end_keeper,
  has_session, act, unless_crashed, step,
}
use qtrp.Client.Life.Tidy.{step_acts, sessions_closed}
use qtrp.Client.Life.Stopped.{
  steps_left, of_run, taken, close_parts_same, once, stops_sets, is_idle, sessions_behind,
}

go_on_left :
    (p : Phase) (e : Event) (s t : Life)
    → s.flags.closed ≡ true
    → go_on p e s ≡ some t
    → (steps_left t.phase + of_run e ≤ steps_left p) × (t.flags.closed ≡ true)
unfolding go_on behind_connect close_parts
go_on_left p e s t c h = (ground (arith, c, h), ground (arith, c, h))

end_keeper_left :
    (triggers : Bool) (n : ℕ) (s t : Life)
    → end_keeper triggers n s ≡ some t
    → (t.phase ≡ s.phase) × (t.flags ≡ s.flags)
unfolding end_keeper
end_keeper_left triggers zero s t h = cc
end_keeper_left true (suc n) s t h =
    let parts = trigger_reconnect (has_session s) (has_session s) in
    let (p, f, made, o) = close_parts_same parts (record s { keepers = n }) in
    let same : close_parts parts (record s { keepers = n }) ≡ t = cc in
    subst (λ u. (u.phase ≡ s.phase) × (u.flags ≡ s.flags)) same (p, f)
end_keeper_left false (suc n) s t h = (ground (arith, h), ground (arith, h))

act_left :
    (e : Event) (s t : Life)
    → s.flags.closed ≡ true
    → act e s ≡ some t
    → (steps_left t.phase + of_run e ≤ steps_left s.phase) × (t.flags.closed ≡ true)
unfolding act
act_left (keeper_ends triggers) s t c h =
    let (p, f) = end_keeper_left triggers s.keepers s t h in
    (ground (arith, ap steps_left p), ground (arith, c, f))
act_left stops s t c h = let never = once (has_session s) s c in cc
act_left e s t c h = go_on_left s.phase e s t c h

history_left :
    (es : List Event) (s t : Life)
    → s.flags.closed ≡ true
    → history step es s ≡ some t
    → (steps_left t.phase + taken es ≤ steps_left s.phase) × (t.flags.closed ≡ true)
unfolding history
history_left [] s t c h = (ground (arith, h), ground (arith, c, h))
history_left (e ∷ es) s t c h =
    let (u, one, rest) = then_steps-eq-some (history step es) (step e s) t h in
    let (left, c') = act_left e s u c (step_acts e s u one) in
    let (left', c'') = history_left es u t c' rest in (omega (arith, left, left'), c'')

-- Whether Run can go on.
abbrev pub CanGo : Life → Type 0
CanGo s = (e : Event) × (of_run e ≡ 1) × (t : Life) × (step e s ≡ some t)

act-of_run : (e : Event) (s : Life) → of_run e ≡ 1 → act e s ≡ go_on s.phase e s
unfolding act
act-of_run (keeper_ends triggers) s one = absurd (omega (arith, one))
act-of_run stops s one = absurd (omega (arith, one))
act-of_run e s one = refl

can_take :
    (e : Event) (p : Phase) (s t : Life)
    → s.phase ≡ p
    → of_run e ≡ 1
    → unless_crashed p (go_on p e s) ≡ some t
    → CanGo s
unfolding step
can_take e p s t at one h = (
  e,
  one,
  t,
  ap (unless_crashed s.phase) (act-of_run e s one)
      ∙ subst (λ q. unless_crashed q (go_on q e s) ≡ some t) (sym at) h,
)

goes_on : (p : Phase) (s : Life) → s.phase ≡ p → 0 < steps_left p → CanGo s
unfolding unless_crashed go_on
goes_on dialing s at h = can_take (dials (broken [])) dialing s (behind_connect s) at refl refl
goes_on opening s at h =
    can_take (opens false) opening s (behind_connect (close_parts (Connect.session ∷ []) s)) at refl
      refl
goes_on serving s at h =
    can_take ends serving s (behind_connect (close_parts (Connect.session ∷ []) s)) at refl refl
goes_on sleeping s at h = can_take wakes sleeping s (record s { phase = dialing }) at refl refl
goes_on returned s at h = absurd (omega (arith, h))
goes_on crashed s at h = absurd (omega (arith, h))

-- Behind a Stop of a client that was running: Run takes at most four steps, whatever keepalives do in
-- between, and while it has some left, it can take one. At most one more session is made. If Run was in
-- a connection or had returned, none is; no session is open ever after, and Run does not dial or sleep
-- again.
pub stop_lem :
    (es fs : List Event) (s t u : Life)
    → history step es new_life ≡ some s
    → step stops s ≡ some t
    → history step fs t ≡ some u
    → (steps_left u.phase + taken fs ≤ steps_left s.phase)
      × (0 < steps_left u.phase → CanGo u)
      × (u.made ≤ suc s.made)
      × (is_idle s.phase ≡ false → (u.made ≡ s.made) × (u.opened ≡ []) × (is_idle u.phase ≡ false))
stop_lem es fs s t u r h g =
    let (told, same, made) = stops_sets s t h in
    let (left, c) = history_left fs t u told g in
    let (few, quiet) = sessions_behind es fs s t u r h g in
    (omega (arith, left, ap steps_left same), λ z. goes_on u.phase u refl z, few, quiet)

-- Behind a Stop that comes while Run sleeps: Run can wake up, dial and serve a new session, which is then
-- open.
pub late_stop :
    (es : List Event) (s t : Life)
    → history step es new_life ≡ some s
    → s.phase ≡ sleeping
    → step stops s ≡ some t
    → (u : Life) × (history step (wakes ∷ dials ready ∷ opens true ∷ []) t ≡ some u)
      × (u.flags.closed ≡ true)
      × (u.phase ≡ serving)
      × (u.opened ≡ suc s.made ∷ [])
unfolding history step act unless_crashed go_on
late_stop es s t r at h =
    let (told, same, made) = stops_sets s t h in
    let none_open : t.opened ≡ [] = (sessions_closed es s r).2 t (inl h) in
    let next : Life = record t {
      phase = serving;
      made = suc t.made;
      opened = suc t.made ∷ t.opened;
      keepers = suc t.keepers;
    } in
    (
      next,
      subst
          (λ q.
            then_steps (history step (dials ready ∷ opens true ∷ []))
              (unless_crashed q (go_on q wakes t))
            ≡ some next)
          (sym (same ∙ at)) refl,
      told,
      refl,
      ground (arith, made, none_open),
    )
