-- ===== src/Client/Life/Stopped.antt =====
-- internal/client/client.go: what Run does behind a Stop.
use qtrp.Common.{
  ℕ, zero, suc, ◌+◌, ◌≤◌, ◌≡◌, refl, ap, ◌∙◌, subst, Bool, true, false, ◌⊎◌, inl, none, some, List,
  [], ◌∷◌, arith, history, history_keeps,
}
use qtrp.Client.Connect
use qtrp.Client.Connect.{Part, Setup, broken, nil_session, ready}
use qtrp.Client.Stop
use qtrp.Client.Stop.{Flags, new_flags, trigger_reconnect, part_if}
use qtrp.Client.Life.{
  Phase, dialing, opening, serving, sleeping, returned, crashed, Life, new_life, Event, dials,
  opens, keeper_ends, ends, stops, without, close_parts, behind_connect, go_on, end_keeper,
  after_stop, has_session, act, step,
}
use qtrp.Client.Life.Tidy.{step_acts, sessions_closed}

-- How many steps Run has left behind a Stop, at most.
abbrev pub steps_left : Phase → ℕ
steps_left sleeping = 4
steps_left dialing = 3
steps_left opening = 2
steps_left serving = 1
steps_left returned = 0
steps_left crashed = 0

-- Whether a step is one of Run's.
abbrev pub of_run : Event → ℕ
of_run (keeper_ends triggers) = 0
of_run stops = 0
of_run _ = 1

abbrev pub taken : List Event → ℕ
taken [] = 0
taken (e ∷ es) = of_run e + taken es

-- Whether Run sleeps or dials.
abbrev pub is_idle : Phase → Bool
is_idle sleeping = true
is_idle dialing = true
is_idle _ = false

-- Behind a Stop: `idle` is whether Run slept or dialed then, `m` how many sessions there were.
record IsBehind (idle : Bool) (m : ℕ) (s : Life) : Type 0 where
  told : s.flags.closed ≡ true
  few : (s.made ≡ m) ⊎ ((s.made ≡ suc m) × (is_idle s.phase ≡ false) × (idle ≡ true))
  none_left : idle ≡ false → (s.opened ≡ []) × (is_idle s.phase ≡ false)

pub close_parts_same :
    (parts : List Part) (s : Life)
    → ((close_parts parts s).phase ≡ s.phase)
      × ((close_parts parts s).flags ≡ s.flags)
      × ((close_parts parts s).made ≡ s.made)
      × (s.opened ≡ [] → (close_parts parts s).opened ≡ [])
unfolding close_parts
close_parts_same [] s = (refl, refl, refl, λ h. h)
close_parts_same (Connect.session ∷ parts) s =
    let (p, f, m, o) = close_parts_same parts (record s { opened = without s.made s.opened }) in
    (p, f, m, λ h. o (unfold without in ground (arith, h)))
close_parts_same (part ∷ parts) s = close_parts_same parts s

behind_connect-IsBehind :
    (idle : Bool) (m : ℕ) (s : Life)
    → s.flags.closed ≡ true
    → (s.made ≡ m) ⊎ ((s.made ≡ suc m) × (idle ≡ true))
    → (idle ≡ false → s.opened ≡ [])
    → IsBehind idle m (behind_connect s)
unfolding behind_connect
behind_connect-IsBehind idle m s c few o = record {
  told = ground (arith, c);
  few = ground (arith, c, few);
  none_left = λ h. ground (arith, c, o, h);
}

shut-IsBehind :
    (idle : Bool) (m : ℕ) (s : Life)
    → IsBehind idle m s
    → IsBehind idle m (behind_connect (close_parts (Connect.session ∷ []) s))
shut-IsBehind idle m s i =
    let shut = close_parts (Connect.session ∷ []) s in
    let (p, f, made, o) = close_parts_same (Connect.session ∷ []) s in
    behind_connect-IsBehind idle m shut (ground (arith, f, i.told)) (ground (arith, made, i.few))
      (λ z. o (i.none_left z).0)

go_on-IsBehind :
    (idle : Bool) (m : ℕ) (p : Phase) (e : Event) (s t : Life)
    → s.phase ≡ p
    → go_on p e s ≡ some t
    → IsBehind idle m s
    → IsBehind idle m t
unfolding go_on
go_on-IsBehind idle m dialing (dials (broken parts)) s t at h i =
    let same : behind_connect s ≡ t = cc in
    subst (IsBehind idle m) same
      (behind_connect-IsBehind idle m s i.told (ground (arith, i.few)) (λ z. (i.none_left z).0))
go_on-IsBehind idle m opening (opens false) s t at h i =
    let same : behind_connect (close_parts (Connect.session ∷ []) s) ≡ t = cc in
    subst (IsBehind idle m) same (shut-IsBehind idle m s i)
go_on-IsBehind idle m serving ends s t at h i =
    let same : behind_connect (close_parts (Connect.session ∷ []) s) ≡ t = cc in
    subst (IsBehind idle m) same (shut-IsBehind idle m s i)
go_on-IsBehind idle m p e s t at h i = record {
  told = ground (arith, h, i.told);
  few = ground (arith, h, i.few);
  none_left = λ z. ground (arith, h, z, i.none_left);
}

end_keeper-IsBehind :
    (idle : Bool) (m : ℕ) (triggers : Bool) (n : ℕ) (s t : Life)
    → end_keeper triggers n s ≡ some t
    → IsBehind idle m s
    → IsBehind idle m t
unfolding end_keeper
end_keeper-IsBehind idle m triggers zero s t h i = cc
end_keeper-IsBehind idle m true (suc n) s t h i =
    let parts = trigger_reconnect (has_session s) (has_session s) in
    let (p, f, made, o) = close_parts_same parts (record s { keepers = n }) in
    let same : close_parts parts (record s { keepers = n }) ≡ t = cc in
    subst (IsBehind idle m) same (record {
      told = ground (arith, f, i.told);
      few = ground (arith, p, made, i.few);
      none_left = λ z. (o (i.none_left z).0, ap is_idle p ∙ (i.none_left z).1);
    })
end_keeper-IsBehind idle m false (suc n) s t h i =
    let same : record s { keepers = n } ≡ t = cc in
    subst (IsBehind idle m) same (record { told = i.told; few = i.few; none_left = i.none_left })

-- Another Stop panics.
pub once :
    (has : Bool) (s : Life) → s.flags.closed ≡ true → after_stop (Stop.stop has s.flags) s ≡ none
unfolding after_stop Stop.stop
once has s h = ground (arith, h)

act-IsBehind :
    (idle : Bool) (m : ℕ) (e : Event) (s t : Life)
    → act e s ≡ some t
    → IsBehind idle m s
    → IsBehind idle m t
unfolding act
act-IsBehind idle m (keeper_ends triggers) s t h i =
    end_keeper-IsBehind idle m triggers s.keepers s t h i
act-IsBehind idle m stops s t h i = let never = once (has_session s) s i.told in cc
act-IsBehind idle m e s t h i = go_on-IsBehind idle m s.phase e s t refl h i

step-IsBehind :
    (idle : Bool) (m : ℕ) (e : Event) (s t : Life)
    → step e s ≡ some t
    → IsBehind idle m s
    → IsBehind idle m t
step-IsBehind idle m e s t h i = act-IsBehind idle m e s t (step_acts e s t h) i

stop_sets :
    (has : Bool) (s t : Life)
    → after_stop (Stop.stop has s.flags) s ≡ some t
    → (t.flags.closed ≡ true) × (t.phase ≡ s.phase) × (t.made ≡ s.made)
unfolding after_stop Stop.stop close_parts
stop_sets true s t h = (ground (arith, h), ground (arith, h), ground (arith, h))
stop_sets false s t h = (ground (arith, h), ground (arith, h), ground (arith, h))

pub stops_sets :
    (s t : Life)
    → step stops s ≡ some t
    → (t.flags.closed ≡ true) × (t.phase ≡ s.phase) × (t.made ≡ s.made)
unfolding act
stops_sets s t h = stop_sets (has_session s) s t (step_acts stops s t h)

stopped-IsBehind :
    (es : List Event) (s t : Life)
    → history step es new_life ≡ some s
    → step stops s ≡ some t
    → IsBehind (is_idle s.phase) s.made t
stopped-IsBehind es s t r h =
    let (told, same, made) = stops_sets s t h in
    record {
      told = told;
      few = inl made;
      none_left = λ z. ((sessions_closed es s r).2 t (inl h), ap is_idle same ∙ z);
    }

pub sessions_behind :
    (es fs : List Event) (s t u : Life)
    → history step es new_life ≡ some s
    → step stops s ≡ some t
    → history step fs t ≡ some u
    → (u.made ≤ suc s.made)
      × (is_idle s.phase ≡ false → (u.made ≡ s.made) × (u.opened ≡ []) × (is_idle u.phase ≡ false))
sessions_behind es fs s t u r h g =
    let i =
      history_keeps step (IsBehind (is_idle s.phase) s.made)
        (step-IsBehind (is_idle s.phase) s.made) fs t u g (stopped-IsBehind es s t r h) in
    (ground (arith, i.few), λ z. (ground (arith, z, i.few), (i.none_left z).0, (i.none_left z).1))
