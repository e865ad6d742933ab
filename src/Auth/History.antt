-- ===== src/Auth/History.antt =====
-- pkg/auth/auth.go: histories of calls of Verify and of cleanup rounds, and what they leave in the cache.
use qtrp.Common.{ℕ, ◌+◌, ◌≤◌, ◌<◌, ◌≡◌, ◌⊎◌, inl, inr, some, arith, leb, Bool-cases}
use qtrp.Go.Io.{Bytes}
use qtrp.Go.Strings.{Text, text_eq}
use qtrp.Auth.{Authenticator, nonce_expiry, seen_at, add, cleanup, passes, verify}
use qtrp.Auth.Cache.{seen_at-add, seen_at-cleanup}
use qtrp.Auth.Accept.{verify_after}

-- The authenticator, at a time before which nothing more happens.
pub record Moment : Type 0 where
  pub clock : ℕ
  pub auth : Authenticator

module _ (hmac_sha256 : Bytes → Bytes → Bytes) where
  -- A call of Verify by anybody, with any arguments, or a round of the cleanup. Time does not run
  -- backwards.
  pub data Step (s : Moment) : Moment → Type 0 where
    call :
        (now entered : ℕ) (token timestamp nonce signature : Text)
        → s.clock ≤ now
        → now ≤ entered
        → Step s (record {
          clock = entered;
          auth = (verify hmac_sha256 s.auth now entered token timestamp nonce signature).1;
        })
    clean :
        (now : ℕ)
        → s.clock ≤ now
        → Step s (record {
          clock = now;
          auth = record { tokens = s.auth.tokens; nonce_cache = cleanup now s.auth.nonce_cache };
        })

  pub data Reach (s : Moment) : Moment → Type 0 where
    here : Reach s s
    next : {t u : Moment} → Reach s t → Step t u → Reach s u

-- The nonce that was entered at `t0` is still in the cache, or its entry has expired.
pub record Remembers (nonce : Text) (t0 : ℕ) (s : Moment) : Type 0 where
  pub later : t0 ≤ s.clock
  pub kept :
      ((t : ℕ) × (seen_at nonce s.auth.nonce_cache ≡ some t) × (t0 ≤ t))
      ⊎ (t0 + nonce_expiry < s.clock)

kept_by_cleanup :
    (nonce : Text) (t0 now : ℕ) (s : Moment)
    → s.clock ≤ now
    → Remembers nonce t0 s
    → ((t : ℕ) × (seen_at nonce (cleanup now s.auth.nonce_cache) ≡ some t) × (t0 ≤ t))
      ⊎ (t0 + nonce_expiry < now)
kept_by_cleanup nonce t0 now s h r = elim r.kept [
  | inr over ↦ inr (omega arith)
  | inl (t, e, le) ↦ elim (Bool-cases (leb now (t0 + nonce_expiry))) [
    | inl young ↦ inl (t, seen_at-cleanup nonce t now _ e (ground arith), le)
    | inr old ↦ inr (ground arith)
  ]
]

kept_by_add :
    (nonce other : Text) (t0 entered : ℕ) (s : Moment)
    → s.clock ≤ entered
    → Remembers nonce t0 s
    → ((t : ℕ) × (seen_at nonce (add other entered s.auth.nonce_cache) ≡ some t) × (t0 ≤ t))
      ⊎ (t0 + nonce_expiry < entered)
kept_by_add nonce other t0 entered s h r = elim (Bool-cases (text_eq other nonce)) [
  | inl same ↦ inl (entered, rw seen_at-add (rw same), omega (arith, r.later))
  | inr distinct ↦ elim r.kept [
    | inr over ↦ inr (omega arith)
    | inl (t, e, le) ↦ inl (t, rw seen_at-add (rw distinct e), le)
  ]
]

module _ (hmac_sha256 : Bytes → Bytes → Bytes) where
  Step-Remembers :
      (nonce : Text) (t0 : ℕ) {s u : Moment}
      → Remembers nonce t0 s
      → Step hmac_sha256 s u
      → Remembers nonce t0 u
  Step-Remembers nonce t0 {s} r (clean now h) = record {
    later = omega (arith, r.later);
    kept = kept_by_cleanup nonce t0 now s h r;
  }
  Step-Remembers nonce t0 {s} r (call now entered token timestamp n signature h h') = record {
    later = omega (arith, r.later);
    kept =
        rw (verify_after hmac_sha256 s.auth now entered token timestamp n signature)
          (elim (Bool-cases (passes s.auth now token timestamp n)) [
            | inl p ↦ rw p (kept_by_add nonce n t0 entered s (omega arith) r)
            | inr p ↦ rw p (elim r.kept [ inl k ↦ inl k | inr over ↦ inr (omega arith) ])
          ]);
  }

  pub Reach-Remembers :
      (nonce : Text) (t0 : ℕ) {s u : Moment}
      → Remembers nonce t0 s
      → Reach hmac_sha256 s u
      → Remembers nonce t0 u
  Reach-Remembers nonce t0 r here = r
  Reach-Remembers nonce t0 r (next steps last) =
      Step-Remembers nonce t0 (Reach-Remembers nonce t0 r steps) last
