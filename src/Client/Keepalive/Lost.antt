-- ===== src/Client/Keepalive/Lost.antt =====
-- internal/client/client.go: when keepalive gives the connection up.
use qtrp.Common.{
  history, then_steps-eq-some, ℕ, suc, ◌<◌, ◌≡◌, ◌≢◌, ◌↔◌, ◌⊎◌, inl, inr, refl, Bool, true, false,
  ◌||◌, some, List, [], ◌∷◌, arith, subst,
}
use qtrp.Client.Keepalive.{
  Keepalive, Phase, resting, waiting, lost, stopped, Event, ping_sent, ping_failed, takes_pong,
  times_out, closing, pong_arrives, move, step, new_keepalive, max_pong_miss,
}

-- The pongs missed in a row, behind one more event.
abbrev pub next_miss : Event → ℕ → ℕ
next_miss takes_pong n = 0
next_miss times_out n = suc n
next_miss _ n = n

-- The same behind a history.
unfoldable pub misses_after : List Event → ℕ → ℕ
misses_after [] n = n
misses_after (e ∷ es) n = misses_after es (next_miss e n)

abbrev pub fails : Event → Bool
fails ping_failed = true
fails _ = false

-- Whether a ping of the history could not be sent.
unfoldable pub some_failed : List Event → Bool → Bool
some_failed [] f = f
some_failed (e ∷ es) f = some_failed es (fails e || f)

record Follows (k : Keepalive) (n : ℕ) (f : Bool) : Type 0 where
  counted : k.missed ≡ n
  given_up : k.phase ≡ lost → (f ≡ true) ⊎ (n ≡ max_pong_miss)
  not_yet : k.phase ≢ lost → (f ≡ false) × (n < max_pong_miss)

move-Follows :
    (phase : Phase) (e : Event) (k k' : Keepalive) (n : ℕ) (f : Bool)
    → k.phase ≡ phase
    → move phase e k ≡ some k'
    → Follows k n f
    → Follows k' (next_miss e n) (fails e || f)
unfolding move
move-Follows phase e k k' n f p h i = record {
  counted = ground (arith, i.counted);
  given_up = λ l. ground (arith, i.counted, i.given_up, i.not_yet);
  not_yet = λ l. ground (arith, i.counted, i.not_yet);
}

step-Follows :
    (e : Event) (k k' : Keepalive) (n : ℕ) (f : Bool)
    → step e k ≡ some k'
    → Follows k n f
    → Follows k' (next_miss e n) (fails e || f)
unfolding step
step-Follows pong_arrives k k' n f h i = record {
  counted = ground (arith, i.counted);
  given_up = λ l. ground (arith, i.given_up);
  not_yet = λ l. ground (arith, i.not_yet);
}
step-Follows ping_sent k k' n f h i = move-Follows k.phase ping_sent k k' n f refl h i
step-Follows ping_failed k k' n f h i = move-Follows k.phase ping_failed k k' n f refl h i
step-Follows takes_pong k k' n f h i = move-Follows k.phase takes_pong k k' n f refl h i
step-Follows times_out k k' n f h i = move-Follows k.phase times_out k k' n f refl h i
step-Follows closing k k' n f h i = move-Follows k.phase closing k k' n f refl h i

history-Follows :
    (es : List Event) (k k' : Keepalive) (n : ℕ) (f : Bool)
    → history step es k ≡ some k'
    → Follows k n f
    → Follows k' (misses_after es n) (some_failed es f)
unfolding history misses_after some_failed
history-Follows [] k k' n f h i = let same : k ≡ k' = cc in subst (λ j. Follows j n f) same i
history-Follows (e ∷ es) k k' n f h i =
    let (j, s, rest) = then_steps-eq-some (history step es) (step e k) k' h in
    history-Follows es j k' (next_miss e n) (fails e || f) rest (step-Follows e k j n f s i)

lost_or_not : (p : Phase) → (p ≡ lost) ⊎ (p ≢ lost)
lost_or_not lost = inl refl
lost_or_not resting = inr (λ e. cc)
lost_or_not waiting = inr (λ e. cc)
lost_or_not stopped = inr (λ e. cc)

-- From a new connection: keepalive gives up exactly when a ping could not be sent, or when three pongs
-- have been missed in a row.
pub lost_iff :
    (es : List Event) (k : Keepalive)
    → history step es new_keepalive ≡ some k
    → (k.phase ≡ lost) ↔ ((some_failed es false ≡ true) ⊎ (misses_after es 0 ≡ max_pong_miss))
lost_iff es k h =
    let i = history-Follows es new_keepalive k 0 false h start in
    (
      i.given_up,
      λ c. elim (lost_or_not k.phase) [
        | inl l ↦ l
        | inr other ↦ absurd (ground (arith, i.not_yet other))
      ],
    )
  where
    start : Follows new_keepalive 0 false
    start = record { counted = refl; given_up = λ l. cc; not_yet = λ l. (refl, omega arith) }
