-- ===== src/Client/Backoff/Delay.antt =====
-- internal/client/client.go: the delay of Run against its closed form.
use qtrp.Common.{
  ℕ, zero, suc, ◌*◌, ◌^◌, ◌≡◌, refl, ap, ◌∙◌, Bool, true, false, not, ◌||◌, List, [], ◌∷◌, arith,
  min, if◌then◌else◌,
}
use native.Mathlib.Nat.{pow-suc}
use qtrp.Auth.{second}
use qtrp.Client.Backoff.{Backoff, Round, fresh, after_connect, run, doubled}

-- The delay behind so many failures in a row: one second, doubled from the second failure on, and at
-- most a minute.
abbrev pub delay_of : ℕ → ℕ
delay_of zero = second
delay_of (suc k) = second * min (2 ^ k) 60

-- The outcomes of the rounds before the one in which Run returns, if there is one.
unfoldable pub going : List Round → List Bool
going [] = []
going (r ∷ rounds) =
    let rest = going rounds in if r.closed || not r.reconnect then [] else r.connected ∷ rest

-- Whether Run returns in one of the rounds.
unfoldable pub stops : List Round → Bool
stops [] = false
stops (r ∷ rounds) = (r.closed || not r.reconnect) || stops rounds

-- The failures in a row behind one more outcome.
abbrev pub next : Bool → ℕ → ℕ
next true n = 0
next false n = suc n

-- The delays behind the outcomes, with so many failures in a row before them.
unfoldable pub delays : List Bool → ℕ → List ℕ
delays [] n = []
delays (c ∷ outcomes) n = delay_of (next c n) ∷ delays outcomes (next c n)

doubled_lem : (p q : ℕ) → q ≡ p * 2 → doubled (second * min p 60) ≡ second * min q 60
doubled_lem p q e = ground arith

doubled-delay_of : (k : ℕ) → doubled (delay_of (suc k)) ≡ delay_of (suc (suc k))
doubled-delay_of k = doubled_lem (2 ^ k) (2 ^ suc k) (pow-suc 2 k)

after_connect_lem :
    (c : Bool) (n : ℕ) (b : Backoff)
    → b.failures ≡ n
    → b.delay ≡ delay_of n
    → ((after_connect c b).failures ≡ next c n) × ((after_connect c b).delay ≡ delay_of (next c n))
unfolding after_connect
after_connect_lem true n b f d = (refl, refl)
after_connect_lem false zero b f d = (omega (arith, f), ground (arith, f, d))
after_connect_lem false (suc n) b f d = (omega (arith, f), ground (arith, f, d, doubled-delay_of n))

delays_if :
    (stop c : Bool) (outcomes : List Bool) (n : ℕ)
    → (if stop then [] else delay_of (next c n) ∷ delays outcomes (next c n))
      ≡ delays (if stop then [] else c ∷ outcomes) n
unfolding delays
delays_if true c outcomes n = refl
delays_if false c outcomes n = refl

run_step :
    (r : Round) (rounds : List Round) (b : Backoff) (rest : List ℕ) (more : Bool)
    → (run rounds (after_connect r.connected b)).slept ≡ rest
    → (run rounds (after_connect r.connected b)).returned ≡ more
    → ((run (r ∷ rounds) b).slept
        ≡ (if r.closed || not r.reconnect then [] else (after_connect r.connected b).delay ∷ rest))
      × ((run (r ∷ rounds) b).returned ≡ (r.closed || not r.reconnect) || more)
unfolding run
run_step r rounds b rest more e f = (ground (arith, e), ground (arith, f))

run_from :
    (rounds : List Round) (n : ℕ) (b : Backoff)
    → b.failures ≡ n
    → b.delay ≡ delay_of n
    → ((run rounds b).slept ≡ delays (going rounds) n) × ((run rounds b).returned ≡ stops rounds)
unfolding going stops
run_from [] n b f d = unfold run delays in (refl, refl)
run_from (r ∷ rounds) n b f d =
    let (f', d') = after_connect_lem r.connected n b f d in
    let (rest, more) = run_from rounds (next r.connected n) (after_connect r.connected b) f' d' in
    let (x, y) = run_step r rounds b _ _ rest more in
    (
      x
          ∙ ap
              (λ d.
                if r.closed || not r.reconnect
                then []
                else d ∷ delays (going rounds) (next r.connected n))
              d'
          ∙ delays_if (r.closed || not r.reconnect) r.connected (going rounds) n,
      y,
    )

-- Run sleeps once in each round before the one in which it returns: for a second behind a success, and
-- behind the k-th failure in a row for 2 ^ (k - 1) seconds, but a minute at most. It returns in the
-- first round that finds closeCh closed or reconnect unset.
pub run_lem :
    (rounds : List Round)
    → ((run rounds fresh).slept ≡ delays (going rounds) 0)
      × ((run rounds fresh).returned ≡ stops rounds)
run_lem rounds = run_from rounds 0 fresh refl refl
