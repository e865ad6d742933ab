-- ===== src/Auth/Replay.antt =====
-- pkg/auth/auth.go: which requests are refused when they come again, and which are not.
use qtrp.Common.{ℕ, ◌+◌, ◌≤◌, ◌<◌, ◌^◌, ◌≡◌, ◌⊎◌, inl, inr, true, false, some, arith, Bool-cases}
use qtrp.Go.Int64.{ℤ, pos, pos_part, neg_part, IsInt64}
use qtrp.Go.Io.{Bytes}
use qtrp.Go.Strconv.{parse_int, parse_int-IsInt64}
use qtrp.Go.Strings.{Text, text_eq_refl}
use qtrp.Auth.{Authenticator, nonce_expiry, seen_at, cleanup, in_window, passes, verify, unix}
use qtrp.Auth.Window.{Near, Overflows, in_window_iff}
use qtrp.Auth.Cache.{seen_at-add, cleanup-add}
use qtrp.Auth.Accept.{Admissible, Admissible→passes, verify_iff, verify_after}
use qtrp.Auth.History.{Moment, Reach, Remembers, Reach-Remembers}

-- Two readings of one timestamp, the second more than 300 seconds behind the first.
too_late :
    (n1 n2 : ℕ) (ts : ℤ)
    → n1 + 300 ≤ n2
    → n2 < 2 ^ 62
    → pos_part ts < n1 + neg_part ts
    → Near n1 ts ⊎ Overflows n1 ts
    → Near n2 ts ⊎ Overflows n2 ts
    → ⊥
too_late n1 n2 ts h hn past first again = omega arith

unix_later : (now later : ℕ) → now + nonce_expiry < later → unix now + 300 ≤ unix later
unix_later now later h = omega arith

Admissible-window :
    (a : Authenticator) (now : ℕ) (token timestamp nonce : Text) (ts : ℤ)
    → Admissible a now token timestamp nonce
    → parse_int timestamp ≡ some ts
    → unix now < 2 ^ 62
    → Near (unix now) ts ⊎ Overflows (unix now) ts
Admissible-window a now token timestamp nonce ts adm parsed small =
    let same : adm.ts ≡ ts = cc (adm.parsed, parsed) in
    (in_window_iff now ts small (parse_int-IsInt64 timestamp ts parsed)).0 (rw same at adm.in_time)

-- Where a nonce is remembered, no request with it and with a timestamp of the past is admissible.
not-Admissible :
    (nonce timestamp token : Text) (now t0 now' : ℕ) (ts : ℤ) (s : Moment)
    → Remembers nonce t0 s
    → now ≤ t0
    → parse_int timestamp ≡ some ts
    → pos_part ts < unix now + neg_part ts
    → Near (unix now) ts ⊎ Overflows (unix now) ts
    → s.clock ≤ now'
    → unix now' < 2 ^ 62
    → ¬ Admissible s.auth now' token timestamp nonce
not-Admissible nonce timestamp token now t0 now' ts s r le parsed past first le' small adm =
    elim r.kept [
      | inl (t, e, _) ↦ cc (e, adm.unseen)
      | inr over ↦
          let again = Admissible-window s.auth now' token timestamp nonce ts adm parsed small in
          too_late (unix now) (unix now') ts (unix_later now now' (omega arith)) small past first
            again
    ]

-- A timestamp ahead of the clock outlives the entry of its nonce.
still_in_time :
    (now t : ℕ)
    → IsInt64 (pos t)
    → unix now < t
    → unix now < 2 ^ 61
    → Near (unix now) (pos t) ⊎ Overflows (unix now) (pos t)
    → in_window (now + nonce_expiry + 1) (pos t) ≡ true
still_in_time now t ht ahead small near =
    (in_window_iff (now + nonce_expiry + 1) (pos t) (omega arith) ht).1 (inl (omega arith))

module _ (hmac_sha256 : Bytes → Bytes → Bytes) where
  entered_seen :
      (a : Authenticator) (now entered : ℕ) (token timestamp nonce signature : Text)
      → passes a now token timestamp nonce ≡ true
      → seen_at nonce
          (verify hmac_sha256 a now entered token timestamp nonce signature).1.nonce_cache
        ≡ some entered
  entered_seen a now entered token timestamp nonce signature p =
      rw (verify_after hmac_sha256 a now entered token timestamp nonce signature)
        (rw p (rw seen_at-add (rw (text_eq_refl nonce))))

  -- A request that was accepted while its timestamp lay before the second of the server's clock is not
  -- accepted again: after any history of calls and cleanup rounds, a call with the same timestamp and
  -- the same nonce is refused, whatever its token and signature. The clock does not run backwards and
  -- is below 2 ^ 62 seconds.
  pub no_replay :
      (a : Authenticator) (now entered : ℕ) (token timestamp nonce signature : Text) (ts : ℤ)
      → (verify hmac_sha256 a now entered token timestamp nonce signature).0 ≡ true
      → now ≤ entered
      → parse_int timestamp ≡ some ts
      → pos_part ts < unix now + neg_part ts
      → (s : Moment)
      → Reach hmac_sha256
          (record {
            clock = entered;
            auth = (verify hmac_sha256 a now entered token timestamp nonce signature).1;
          })
          s
      → (now' entered' : ℕ) (token' signature' : Text) → s.clock ≤ now'
      → unix now' < 2 ^ 62
      → (verify hmac_sha256 s.auth now' entered' token' timestamp nonce signature').0 ≡ false
  no_replay a now entered token timestamp nonce signature ts h le parsed past s steps now' entered'
        token' signature' le' small =
      elim (Bool-cases
        (verify hmac_sha256 s.auth now' entered' token' timestamp nonce signature').0) [
          | inr refused ↦ refused
          | inl accepted ↦ absurd (
              not-Admissible nonce timestamp token' now entered now' ts s
                (Reach-Remembers hmac_sha256 nonce entered start steps) le parsed past window le'
                small
                ((verify_iff hmac_sha256 s.auth now' entered' token' timestamp nonce signature').0
                  accepted).0)
        ]
    where
      first : Admissible a now token timestamp nonce
      first = ((verify_iff hmac_sha256 a now entered token timestamp nonce signature).0 h).0

      start : Remembers nonce entered (record {
        clock = entered;
        auth = (verify hmac_sha256 a now entered token timestamp nonce signature).1;
      })
      start = record {
        later = omega arith;
        kept = inl (
          entered,
          entered_seen a now entered token timestamp nonce signature
              (Admissible→passes a now token timestamp nonce first),
          omega arith,
        );
      }

      window : Near (unix now) ts ⊎ Overflows (unix now) ts
      window =
          Admissible-window a now token timestamp nonce ts first parsed
            (omega (arith, le', (Reach-Remembers hmac_sha256 nonce entered start steps).later))

  -- The cache forgets too soon for a clock that is ahead: whenever a request is accepted whose
  -- timestamp lies after the second of the server's clock, one round of the cleanup a nanosecond after
  -- the 300 seconds of the entry lets the very same request pass again.
  pub replayed :
      (a : Authenticator) (now t : ℕ) (token timestamp nonce signature : Text)
      → (verify hmac_sha256 a now now token timestamp nonce signature).0 ≡ true
      → parse_int timestamp ≡ some (pos t)
      → unix now < t
      → unix now < 2 ^ 61
      → let later = now + nonce_expiry + 1 in
        let b = (verify hmac_sha256 a now now token timestamp nonce signature).1 in
        let c = record b { nonce_cache = cleanup later b.nonce_cache } in
        (verify hmac_sha256 c later later token timestamp nonce signature).0 ≡ true
  replayed a now t token timestamp nonce signature h parsed ahead small =
      let (adm, signed) = (verify_iff hmac_sha256 a now now token timestamp nonce signature).0 h in
      let p = Admissible→passes a now token timestamp nonce adm in
      let later = now + nonce_expiry + 1 in
      let after = verify_after hmac_sha256 a now now token timestamp nonce signature in
      (verify_iff hmac_sha256 _ later later token timestamp nonce signature).1 (
        record {
          known = rw after (rw p adm.known);
          ts = pos t;
          parsed = parsed;
          in_time =
              still_in_time now t (parse_int-IsInt64 timestamp (pos t) parsed) ahead small
                (Admissible-window a now token timestamp nonce (pos t) adm parsed (omega arith));
          unseen =
              rw after (rw p (cleanup-add nonce now later a.nonce_cache adm.unseen (omega arith)));
        },
        signed,
      )
