-- ===== src/Auth/Accept.antt =====
-- What Verify accepts.
use qtrp.Common.{
  ℕ, ◌<◌, ◌^◌, ◌≡◌, ◌↔◌, inl, inr, refl, true, not, ◌&&◌, Option, none, some, arith, if◌then◌else◌,
  Bool-cases,
}
use qtrp.Go.Int64.{ℤ, IsInt64}
use qtrp.Go.Io.{Bytes}
use qtrp.Go.Strconv.{parse_int, format_int, parse_int-format_int}
use qtrp.Go.Strings.{Text, text_eq_iff}
use qtrp.Auth.{
  Authenticator, NonceCache, seen_at, exists, add, has_token, in_window, timely, passes, sign,
  enter, verify, unix,
}
use qtrp.Auth.Window.{Near, in_window_iff}

-- The three conditions that Verify tests before the signature.
pub record Admissible (a : Authenticator) (now : ℕ) (token timestamp nonce : Text) : Type 0 where
  pub known : has_token token a.tokens ≡ true
  pub ts : ℤ
  pub parsed : parse_int timestamp ≡ some ts
  pub in_time : in_window now ts ≡ true
  pub unseen : seen_at nonce a.nonce_cache ≡ none

exists_none : (n : Text) (c : NonceCache) → not (exists n c) ≡ true → seen_at n c ≡ none
unfolding exists
exists_none n c h = ground arith

passes_cases :
    (a : Authenticator) (now : ℕ) (token nonce : Text) (timestamp : Text) (o : Option ℤ)
    → parse_int timestamp ≡ o
    → has_token token a.tokens && timely now o && not (exists nonce a.nonce_cache) ≡ true
    → Admissible a now token timestamp nonce
passes_cases a now token nonce timestamp none e h = absurd (ground arith)
passes_cases a now token nonce timestamp (some t) e h = record {
  known = ground arith;
  ts = t;
  parsed = e;
  in_time = ground arith;
  unseen = exists_none nonce a.nonce_cache (ground arith);
}

pub passes→Admissible :
    (a : Authenticator) (now : ℕ) (token timestamp nonce : Text)
    → passes a now token timestamp nonce ≡ true
    → Admissible a now token timestamp nonce
unfolding passes
passes→Admissible a now token timestamp nonce h =
    passes_cases a now token nonce timestamp (parse_int timestamp) refl h

pub Admissible→passes :
    (a : Authenticator) (now : ℕ) (token timestamp nonce : Text)
    → Admissible a now token timestamp nonce
    → passes a now token timestamp nonce ≡ true
unfolding passes exists
Admissible→passes a now token timestamp nonce h = rw (h.known, h.parsed, h.in_time, h.unseen)

module _ (hmac_sha256 : Bytes → Bytes → Bytes) where
  -- Verify accepts exactly the requests whose token is on the list, whose timestamp parses and is in
  -- the window, whose nonce is not in the cache, and whose signature is the one that Sign gives.
  pub verify_iff :
      (a : Authenticator) (now entered : ℕ) (token timestamp nonce signature : Text)
      → ((verify hmac_sha256 a now entered token timestamp nonce signature).0 ≡ true) ↔ (
          Admissible a now token timestamp nonce
          × (signature ≡ sign hmac_sha256 token timestamp nonce))
  verify_iff a now entered token timestamp nonce signature = (sound, complete)
    where
      sound :
          (verify hmac_sha256 a now entered token timestamp nonce signature).0 ≡ true
          → Admissible a now token timestamp nonce
            × (signature ≡ sign hmac_sha256 token timestamp nonce)
      sound h = elim (Bool-cases (passes a now token timestamp nonce)) [
        | inl p ↦ (
          passes→Admissible a now token timestamp nonce p,
          unfold verify enter in
              ground (arith, text_eq_iff signature (sign hmac_sha256 token timestamp nonce)),
        )
        | inr p ↦ unfold verify in absurd (ground arith)
      ]

      complete :
          Admissible a now token timestamp nonce
            × (signature ≡ sign hmac_sha256 token timestamp nonce)
          → (verify hmac_sha256 a now entered token timestamp nonce signature).0 ≡ true
      complete (p, e) =
          unfold verify enter in
          ground (
            arith,
            Admissible→passes a now token timestamp nonce p,
            text_eq_iff signature (sign hmac_sha256 token timestamp nonce),
          )

  -- The nonce cache after a call: an admissible request leaves its nonce there, also when its
  -- signature is wrong; any other changes nothing.
  pub verify_after :
      (a : Authenticator) (now entered : ℕ) (token timestamp nonce signature : Text)
      → (verify hmac_sha256 a now entered token timestamp nonce signature).1 ≡ (
          if passes a now token timestamp nonce
          then record a { nonce_cache = add nonce entered a.nonce_cache }
          else a)
  unfolding verify enter
  verify_after a now entered token timestamp nonce signature = ground arith

  -- A request that was signed with a token on the list is accepted, if its timestamp is within 300
  -- seconds of the server's clock and its nonce is new. The timestamp travels as a number, and the
  -- server prints it again.
  pub signed_accepted :
      (a : Authenticator) (now entered : ℕ) (token nonce : Text) (ts : ℤ)
      → IsInt64 ts
      → unix now < 2 ^ 62
      → has_token token a.tokens ≡ true
      → Near (unix now) ts
      → seen_at nonce a.nonce_cache ≡ none
      → (verify hmac_sha256 a now entered token
          (format_int ts)
          nonce
          (sign hmac_sha256 token (format_int ts) nonce)).0
        ≡ true
  signed_accepted a now entered token nonce ts ht hn known near unseen =
      (verify_iff a now entered token (format_int ts) nonce _).1 (
        record {
          known = known;
          ts = ts;
          parsed = parse_int-format_int ts ht;
          in_time = (in_window_iff now ts hn ht).1 (inl near);
          unseen = unseen;
        },
        refl,
      )
