-- ===== src/Client/Life/Tidy.antt =====
-- internal/client/client.go: which sessions the client has open.
use qtrp.Common.{
  ℕ, zero, suc, ◌≡◌, refl, sym, ap, subst, Bool, true, false, ◌⊎◌, inl, inr, Option, none, some,
  List, [], ◌∷◌, arith, history, history_keeps,
}
use qtrp.Client.Connect
use qtrp.Client.Connect.{Part, Setup, broken, nil_session, ready}
use qtrp.Client.Stop
use qtrp.Client.Stop.{Flags, new_flags, trigger_reconnect, part_if}
use qtrp.Client.Life.{
  Phase, dialing, opening, serving, sleeping, Life, new_life, Event, dials, opens, keeper_ends,
  ends, wakes, stops, without, close_parts, behind_connect, go_on, end_keeper, after_stop,
  has_session, act, unless_crashed, step,
}

-- Whether connect has a session.
unfoldable pub has_connection : Phase → Bool
has_connection opening = true
has_connection serving = true
has_connection _ = false

-- Of the sessions made, all but the last are closed; and all of them when Run has none.
pub record IsTidy (s : Life) : Type 0 where
  pub last_only : (s.opened ≡ []) ⊎ (s.opened ≡ s.made ∷ [])
  pub none_made : s.made ≡ 0 → s.opened ≡ []
  pub closed_between : has_connection s.phase ≡ false → s.opened ≡ []

without_last : (x : ℕ) (ys : List ℕ) → (ys ≡ []) ⊎ (ys ≡ x ∷ []) → without x ys ≡ []
unfolding without
without_last x ys (inl e) = ground (arith, e)
without_last x ys (inr e) = ground (arith, e)

behind_connect-IsTidy : (s : Life) → s.opened ≡ [] → IsTidy (behind_connect s)
unfolding behind_connect has_connection
behind_connect-IsTidy s e = record {
  last_only = inl (ground (arith, e));
  none_made = λ z. ground (arith, e);
  closed_between = λ h. ground (arith, e);
}

-- The parts are closed, and the rest is as it was.
close_parts-IsTidy : (parts : List Part) (s : Life) → IsTidy s → IsTidy (close_parts parts s)
unfolding close_parts
close_parts-IsTidy [] s i = i
close_parts-IsTidy (Connect.session ∷ parts) s i =
    close_parts-IsTidy parts (record s { opened = without s.made s.opened })
      (record {
        last_only = inl (without_last s.made s.opened i.last_only);
        none_made = λ z. without_last s.made s.opened i.last_only;
        closed_between = λ h. without_last s.made s.opened i.last_only;
      })
close_parts-IsTidy (part ∷ parts) s i = close_parts-IsTidy parts s i

close_session-opened : (s : Life) → IsTidy s → (close_parts (Connect.session ∷ []) s).opened ≡ []
unfolding close_parts
close_session-opened s i = without_last s.made s.opened i.last_only

go_on-IsTidy :
    (p : Phase) (e : Event) (s t : Life) → s.phase ≡ p → go_on p e s ≡ some t → IsTidy s → IsTidy t
unfolding go_on has_connection
go_on-IsTidy dialing (dials (broken parts)) s t at h i =
    let none_open : s.opened ≡ [] = i.closed_between (ap has_connection at) in
    let same : behind_connect s ≡ t = cc in subst IsTidy same (behind_connect-IsTidy s none_open)
go_on-IsTidy dialing (dials nil_session) s t at h i =
    let none_open : s.opened ≡ [] = i.closed_between (ap has_connection at) in
    record {
      last_only = inl (ground (arith, h, none_open));
      none_made = λ z. ground (arith, h, none_open);
      closed_between = λ c. ground (arith, h, none_open);
    }
go_on-IsTidy dialing (dials ready) s t at h i =
    let none_open : s.opened ≡ [] = i.closed_between (ap has_connection at) in
    record {
      last_only = inr (ground (arith, h, none_open));
      none_made = λ z. ground (arith, h, z);
      closed_between = λ c. ground (arith, h, c);
    }
go_on-IsTidy opening (opens true) s t at h i = record {
  last_only = ground (arith, h, i.last_only);
  none_made = λ z. ground (arith, h, z, i.none_made);
  closed_between = λ c. ground (arith, h, c);
}
go_on-IsTidy opening (opens false) s t at h i =
    let same : behind_connect (close_parts (Connect.session ∷ []) s) ≡ t = cc in
    subst IsTidy same
      (behind_connect-IsTidy (close_parts (Connect.session ∷ []) s) (close_session-opened s i))
go_on-IsTidy serving ends s t at h i =
    let same : behind_connect (close_parts (Connect.session ∷ []) s) ≡ t = cc in
    subst IsTidy same
      (behind_connect-IsTidy (close_parts (Connect.session ∷ []) s) (close_session-opened s i))
go_on-IsTidy sleeping wakes s t at h i =
    let none_open : s.opened ≡ [] = i.closed_between (ap has_connection at) in
    record {
      last_only = inl (ground (arith, h, none_open));
      none_made = λ z. ground (arith, h, none_open);
      closed_between = λ c. ground (arith, h, none_open);
    }
go_on-IsTidy p e s t at h i = cc

end_keeper-IsTidy :
    (triggers : Bool) (n : ℕ) (s t : Life) → end_keeper triggers n s ≡ some t → IsTidy s → IsTidy t
unfolding end_keeper
end_keeper-IsTidy triggers zero s t h i = cc
end_keeper-IsTidy true (suc n) s t h i =
    let left : Life = record s { keepers = n } in
    let has = has_session s in
    let same : close_parts (trigger_reconnect has has) left ≡ t = cc in
    subst IsTidy same (
      close_parts-IsTidy (trigger_reconnect has has) left (record {
        last_only = i.last_only;
        none_made = i.none_made;
        closed_between = i.closed_between;
      }))
end_keeper-IsTidy false (suc n) s t h i =
    let same : record s { keepers = n } ≡ t = cc in
    subst IsTidy same (record {
      last_only = i.last_only;
      none_made = i.none_made;
      closed_between = i.closed_between;
    })

after_stop-IsTidy :
    (o : Option (Flags × List Part)) (s t : Life) → after_stop o s ≡ some t → IsTidy s → IsTidy t
unfolding after_stop
after_stop-IsTidy none s t h i = cc
after_stop-IsTidy (some (flags, parts)) s t h i =
    let told : Life = record s { flags = flags } in
    let same : close_parts parts told ≡ t = cc in
    subst IsTidy same (
      close_parts-IsTidy parts told (record {
        last_only = i.last_only;
        none_made = i.none_made;
        closed_between = i.closed_between;
      }))

act-IsTidy : (e : Event) (s t : Life) → act e s ≡ some t → IsTidy s → IsTidy t
unfolding act
act-IsTidy (keeper_ends triggers) s t h i = end_keeper-IsTidy triggers s.keepers s t h i
act-IsTidy stops s t h i = after_stop-IsTidy (Stop.stop (has_session s) s.flags) s t h i
act-IsTidy e s t h i = go_on-IsTidy s.phase e s t refl h i

unless_crashed_lem :
    (p : Phase) (o : Option Life) (t : Life) → unless_crashed p o ≡ some t → o ≡ some t
unfolding unless_crashed
unless_crashed_lem p o t h = ground arith

pub step_acts : (e : Event) (s t : Life) → step e s ≡ some t → act e s ≡ some t
unfolding step
step_acts e s t h = unless_crashed_lem s.phase (act e s) t h

step-IsTidy : (e : Event) (s t : Life) → step e s ≡ some t → IsTidy s → IsTidy t
step-IsTidy e s t h i = act-IsTidy e s t (step_acts e s t h) i

pub reached-IsTidy : (es : List Event) (s : Life) → history step es new_life ≡ some s → IsTidy s
reached-IsTidy es s h =
    history_keeps step IsTidy step-IsTidy es new_life s h
      (record { last_only = inl refl; none_made = λ z. refl; closed_between = λ c. refl })

none_or_last : (s : Life) → IsTidy s → has_session s ≡ false → s.opened ≡ []
unfolding has_session
none_or_last s i h = ground (arith, h, i.none_made)

stop_closes :
    (has : Bool) (s t : Life)
    → has ≡ has_session s
    → IsTidy s
    → after_stop (Stop.stop has s.flags) s ≡ some t
    → t.opened ≡ []
unfolding after_stop Stop.stop close_parts
stop_closes true s t e i h = ground (arith, h, without_last s.made s.opened i.last_only)
stop_closes false s t e i h = ground (arith, h, none_or_last s i (sym e))

trigger_closes :
    (has : Bool) (n : ℕ) (s t : Life)
    → has ≡ has_session s
    → IsTidy s
    → end_keeper true n s ≡ some t
    → t.opened ≡ []
unfolding end_keeper trigger_reconnect close_parts
trigger_closes has zero s t e i h = cc
trigger_closes true (suc n) s t e i h =
    ground (arith, h, e, without_last s.made s.opened i.last_only)
trigger_closes false (suc n) s t e i h = ground (arith, h, none_or_last s i (sym e))

-- In every state that the client reaches, however its goroutines interleave, each session but the last
-- one made is closed; and so is that one when Run has no connection, and behind a Close by Stop or by
-- a keepalive.
pub sessions_closed :
    (es : List Event) (s : Life)
    → history step es new_life ≡ some s
    → ((s.opened ≡ []) ⊎ (s.opened ≡ s.made ∷ []))
      × (has_connection s.phase ≡ false → s.opened ≡ [])
      × ((t : Life)
          → (step stops s ≡ some t) ⊎ (step (keeper_ends true) s ≡ some t)
          → t.opened ≡ [])
unfolding act
sessions_closed es s h =
    let i = reached-IsTidy es s h in
    (
      i.last_only,
      i.closed_between,
      λ t c. elim c [
        | inl stopped ↦ stop_closes (has_session s) s t refl i (step_acts stops s t stopped)
        | inr lost ↦
            trigger_closes (has_session s) s.keepers s t refl i
              (step_acts (keeper_ends true) s t lost)
      ],
    )
