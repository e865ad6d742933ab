-- ===== src/Pool/Overlap/Kept.antt =====
-- pkg/pool/conn.go: that no connection is lost or given out twice, however the calls overlap.
use qtrp.Common.{
  ℕ, zero, suc, ◌+◌, ◌≤◌, ◌≡◌, refl, subst, Bool, true, false, Option, none, some, List, [], ◌∷◌,
  ◌++◌, arith, ◌==◌, if◌then◌else◌, history, history_keeps, length, length-append,
}
use qtrp.Pool.Buffer.{pick, put_back}
use qtrp.Pool.Overlap.{Shared, Event, sends, takes, new_shared, receive, send_conn, step}

-- How often a connection is in a list.
abbrev pub count : ℕ → List ℕ → ℕ
count x [] = 0
count x (y ∷ ys) = (if y == x then 1 else 0) + count x ys

count-append : (x : ℕ) (xs ys : List ℕ) → count x (xs ++ ys) ≡ count x xs + count x ys
count-append x [] ys = omega arith
count-append x (y ∷ xs) ys = omega (arith, count-append x xs ys)

count-put_back :
    (x y : ℕ) (o : Option (ℕ × List ℕ)) (ys : List ℕ) (c : ℕ) (others : List ℕ)
    → ((d : ℕ) (r : List ℕ) → o ≡ some (d, r) → count x ys ≡ count x (d ∷ r))
    → put_back y o ≡ some (c, others)
    → count x (y ∷ ys) ≡ count x (c ∷ others)
count-put_back x y none ys c others ih e = cc
count-put_back x y (some (d, r)) ys c others ih e =
    let here : d ≡ c = cc in
    let rest : y ∷ r ≡ others = cc in
    let kept = ih d r refl in
    subst (λ o. count x (y ∷ ys) ≡ count x (c ∷ o)) rest
      (subst (λ k. count x (y ∷ ys) ≡ count x (k ∷ (y ∷ r))) here (omega (arith, kept)))

count-pick :
    (x i : ℕ) (xs : List ℕ) (c : ℕ) (others : List ℕ)
    → pick i xs ≡ some (c, others)
    → count x xs ≡ count x (c ∷ others)
unfolding pick
count-pick x i [] c others h = cc
count-pick x zero (y ∷ ys) c others h = ground (arith, h)
count-pick x (suc i) (y ∷ ys) c others h =
    count-put_back x y (pick i ys) ys c others (count-pick x i ys) h

pub record IsKept (x n : ℕ) (s : Shared) : Type 0 where
  same_size : s.max_size ≡ n
  bounded : length s.conns ≤ n
  counted :
      count x s.entered
      ≡ count x s.conns + count x s.putting + count x s.given + count x s.dropped + count x s.lost
  holding : s.draining ≡ true → s.closed ≡ true
  marked : s.chan_closed ≡ true → s.closed ≡ true
  pub emptied : s.closed ≡ true → s.draining ≡ false → (s.conns ≡ []) × (s.chan_closed ≡ true)

receive-IsKept :
    (x n g : ℕ) (cs : List ℕ) (alive : Bool) (s t : Shared)
    → s.conns ≡ cs
    → receive g cs alive s ≡ some t
    → IsKept x n s
    → IsKept x n t
unfolding receive
receive-IsKept x n g cs alive s t e h i = record {
  same_size = ground (arith, i.same_size);
  bounded = ground (arith, i.bounded);
  counted = ground (arith, i.counted);
  holding = λ d. ground (arith, i.holding);
  marked = λ m. ground (arith, i.marked);
  emptied = λ c d. ground (arith, i.emptied);
}

send_conn-IsKept :
    (x n : ℕ) (o : Option (ℕ × List ℕ)) (s t : Shared)
    → ((c : ℕ) (others : List ℕ) → o ≡ some (c, others) → count x s.putting ≡ count x (c ∷ others))
    → send_conn o s ≡ some t
    → IsKept x n s
    → IsKept x n t
unfolding send_conn
send_conn-IsKept x n none s t p h i = cc
send_conn-IsKept x n (some (c, others)) s t p h i =
    let split = p c others refl in
    record {
      same_size = ground (arith, i.same_size);
      bounded = ground (arith, i.same_size, i.bounded, length-append s.conns (c ∷ []));
      counted = ground (arith, i.counted, split, count-append x s.conns (c ∷ []));
      holding = λ d. ground (arith, i.holding);
      marked = λ m. ground (arith, i.marked);
      emptied = λ c d. ground (arith, i.emptied);
    }

step-IsKept : (x n : ℕ) (e : Event) (s t : Shared) → step e s ≡ some t → IsKept x n s → IsKept x n t
unfolding step
step-IsKept x n (takes alive) s t h i = receive-IsKept x n s.getting s.conns alive s t refl h i
step-IsKept x n (sends j) s t h i =
    send_conn-IsKept x n (pick j s.putting) s t (count-pick x j s.putting) h i
step-IsKept x n e s t h i = record {
  same_size = ground (arith, i.same_size);
  bounded = ground (arith, i.bounded);
  counted = ground (arith, i.counted);
  holding = λ d. ground (arith, i.holding);
  marked = λ m. ground (arith, i.holding, i.marked);
  emptied = λ c d. ground (arith, i.emptied);
}

pub IsKept-new : (x n : ℕ) → IsKept x n (new_shared n)
unfolding new_shared
IsKept-new x n = record {
  same_size = refl;
  bounded = omega arith;
  counted = refl;
  holding = λ d. cc;
  marked = λ m. cc;
  emptied = λ c d. cc;
}

pub reached-IsKept :
    (x n : ℕ) (es : List Event) (s : Shared)
    → history step es (new_shared n) ≡ some s
    → IsKept x n s
reached-IsKept x n es s h =
    history_keeps step (IsKept x n) (step-IsKept x n) es (new_shared n) s h (IsKept-new x n)

-- In every state that calls of a new pool reach, however they overlap: each connection that was put is
-- as often in the channel, in a Put, given out, closed or lost in a panic as it was put; the channel has
-- at most its size; and behind a Close it is empty.
pub conns_kept :
    (n : ℕ) (es : List Event) (s : Shared)
    → history step es (new_shared n) ≡ some s
    → ((x : ℕ)
        → count x s.entered
          ≡ count x s.conns
            + count x s.putting
            + count x s.given
            + count x s.dropped
            + count x s.lost)
      × (length s.conns ≤ n)
      × (s.closed ≡ true → s.draining ≡ false → s.conns ≡ [])
conns_kept n es s h =
    let i = reached-IsKept 0 n es s h in
    (λ x. (reached-IsKept x n es s h).counted, i.bounded, λ c d. (i.emptied c d).0)
