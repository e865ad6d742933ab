-- ===== src/Auth/Window.antt =====
-- The time window: int64 arithmetic against the true distance.
use qtrp.Common.{ℕ, ◌+◌, ◌^◌, ◌≤◌, ◌<◌, ◌≡◌, ◌↔◌, ◌⊎◌, true, not, arith}
use qtrp.Go.Int64.{ℤ, pos, negsuc, pos_part, neg_part, IsInt64, ◌-ℤ◌, ltb_ℤ, neg64, sub64, wrap64}
use qtrp.Auth.{in_window, abs, unix, max_time_diff}

-- The clock (in seconds) and the timestamp are at most 300 seconds apart.
abbrev pub Near : ℕ → ℤ → Type 0
Near n ts =
    (pos_part ts ≤ n + neg_part ts + max_time_diff)
    × (n + neg_part ts ≤ pos_part ts + max_time_diff)

-- They are 2 ^ 63 seconds apart: the difference is the one int64 that has no negation.
abbrev pub Overflows : ℕ → ℤ → Type 0
Overflows n ts = n + neg_part ts ≡ pos_part ts + 2 ^ 63

window_sound :
    (n : ℕ) (ts : ℤ)
    → n < 2 ^ 62
    → IsInt64 ts
    → not (ltb_ℤ (pos max_time_diff) (abs (sub64 (pos n) ts))) ≡ true
    → Near n ts ⊎ Overflows n ts
unfolding abs neg64 sub64 wrap64 ◌-ℤ◌
window_sound n (pos t) hn ht h = ground arith
window_sound n (negsuc t) hn ht h = ground arith

window_complete :
    (n : ℕ) (ts : ℤ)
    → n < 2 ^ 62
    → IsInt64 ts
    → Near n ts ⊎ Overflows n ts
    → not (ltb_ℤ (pos max_time_diff) (abs (sub64 (pos n) ts))) ≡ true
unfolding abs neg64 sub64 wrap64 ◌-ℤ◌
window_complete n (pos t) hn ht h = ground arith
window_complete n (negsuc t) hn ht h = ground arith

-- The test of the timestamp passes exactly when the clock's second and the timestamp are at most 300
-- seconds apart, or are 2 ^ 63 seconds apart: there `now - ts` and its negation wrap around to
-- the least int64. The clock is taken to be below 2 ^ 62 seconds.
pub in_window_iff :
    (now : ℕ) (ts : ℤ)
    → unix now < 2 ^ 62
    → IsInt64 ts
    → (in_window now ts ≡ true) ↔ (Near (unix now) ts ⊎ Overflows (unix now) ts)
unfolding in_window
in_window_iff now ts hn ht = (window_sound (unix now) ts hn ht, window_complete (unix now) ts hn ht)
