-- ===== src/Auth/Cache.antt =====
-- The nonce cache as a map from a nonce to the time of its entry.
use qtrp.Common.{ℕ, ◌+◌, ◌≤◌, ◌<◌, ◌≡◌, refl, none, some, [], ◌∷◌, arith, if◌then◌else◌}
use qtrp.Go.Strings.{Text, text_eq, text_eq_iff}
use qtrp.Auth.{NonceCache, nonce_expiry, seen_at, add, cleanup}

pub seen_at-add :
    (n m : Text) (t : ℕ) (cache : NonceCache)
    → seen_at m (add n t cache) ≡ (if text_eq n m then some t else seen_at m cache)
unfolding seen_at add
seen_at-add n m t [] = refl
seen_at-add n m t ((k, u) ∷ cache) =
    ground (arith, text_eq_iff k n, text_eq_iff k m, text_eq_iff n m, seen_at-add n m t cache)

-- An entry that has not expired stays.
pub seen_at-cleanup :
    (n : Text) (t now : ℕ) (cache : NonceCache)
    → seen_at n cache ≡ some t
    → now ≤ t + nonce_expiry
    → seen_at n (cleanup now cache) ≡ some t
unfolding seen_at cleanup
seen_at-cleanup n t now [] e h = e
seen_at-cleanup n t now ((k, u) ∷ cache) e h = ground (arith, seen_at-cleanup n t now cache)

cleanup_unseen :
    (n : Text) (now : ℕ) (cache : NonceCache)
    → seen_at n cache ≡ none
    → seen_at n (cleanup now cache) ≡ none
unfolding seen_at cleanup
cleanup_unseen n now [] e = e
cleanup_unseen n now ((k, u) ∷ cache) e = ground (arith, cleanup_unseen n now cache)

-- The one entry of a nonce goes when it has expired.
pub cleanup-add :
    (n : Text) (t now : ℕ) (cache : NonceCache)
    → seen_at n cache ≡ none
    → t + nonce_expiry < now
    → seen_at n (cleanup now (add n t cache)) ≡ none
unfolding seen_at cleanup add
cleanup-add n t now [] e h = ground arith
cleanup-add n t now ((k, u) ∷ cache) e h =
    ground (arith, cleanup-add n t now cache, cleanup_unseen n now cache)
