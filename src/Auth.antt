-- ===== src/Auth.antt =====
-- pkg/auth/auth.go: the token list, the time window, the nonce cache and the signature. Texts are
-- lists of bytes; HMAC-SHA256 is a parameter. A clock is a number of nanoseconds since 1970, and each
-- reading of it is an argument. The locks: each operation of the cache is one step; Verify holds only
-- a read lock, so its two halves are functions of their own.
pub mod Window
pub mod Cache
pub mod Accept
pub mod History
pub mod Replay
mod Tests
pub mod Race
pub mod Nonce
use qtrp.Common.{
  ℕ, suc, ◌+◌, ◌-◌, ◌*◌, ◌/◌, ◌%◌, Bool, true, false, not, ◌&&◌, ◌||◌, Option, none, some, List, [],
  ◌∷◌, ◌++◌, map, ltb, if◌then◌else◌,
}
use qtrp.Go.Int64.{ℤ, pos, ltb_ℤ, neg64, sub64}
use qtrp.Go.Io.{Bytes}
use qtrp.Go.Strconv.{parse_int}
use qtrp.Go.Strings.{Text, text_eq}

abbrev pub second : ℕ
second = 1_000_000_000

-- NonceExpiry, in nanoseconds.
abbrev pub nonce_expiry : ℕ
nonce_expiry = 300 * second

-- MaxTimeDiff, in seconds.
abbrev pub max_time_diff : ℕ
max_time_diff = 300

-- time.Now().Unix()
abbrev pub unix : ℕ → ℕ
unix now = now / second

-- NonceCache: a nonce with the time of its entry.
abbrev pub NonceCache : Type 0
NonceCache = List (Text × ℕ)

unfoldable pub seen_at : Text → NonceCache → Option ℕ
seen_at nonce [] = none
seen_at nonce ((n, t) ∷ cache) = if text_eq n nonce then some t else seen_at nonce cache

-- NonceCache.Exists
abbrev pub is_some : Option ℕ → Bool
is_some none = false
is_some (some t) = true

unfoldable pub exists : Text → NonceCache → Bool
unfolding seen_at
exists nonce cache = is_some (seen_at nonce cache)

-- NonceCache.Add: the entry is replaced if there is one.
unfoldable pub add : Text → ℕ → NonceCache → NonceCache
add nonce now [] = (nonce, now) ∷ []
add nonce now ((n, t) ∷ cache) =
    if text_eq n nonce then (nonce, now) ∷ cache else (n, t) ∷ add nonce now cache

-- One round of NonceCache.cleanup.
unfoldable pub cleanup : ℕ → NonceCache → NonceCache
cleanup now [] = []
cleanup now ((n, t) ∷ cache) =
    let rest = cleanup now cache in if ltb nonce_expiry (now - t) then rest else (n, t) ∷ rest

pub record Authenticator : Type 0 where
  pub tokens : List Text
  pub nonce_cache : NonceCache

unfoldable pub new_authenticator : List Text → Authenticator
new_authenticator tokens = record { tokens = tokens; nonce_cache = [] }

unfoldable pub has_token : Text → List Text → Bool
has_token token [] = false
has_token token (t ∷ tokens) = text_eq t token || has_token token tokens

unfoldable pub abs : ℤ → ℤ
abs x = if ltb_ℤ x (pos 0) then neg64 x else x

-- The timestamp is near enough to the clock.
unfoldable pub in_window : ℕ → ℤ → Bool
unfolding abs
in_window now ts = not (ltb_ℤ (pos max_time_diff) (abs (sub64 (pos (unix now)) ts)))

-- The timestamp parses, and is near enough to the clock.
abbrev pub timely : ℕ → Option ℤ → Bool
timely now none = false
timely now (some ts) = in_window now ts

-- Steps 1 to 3 of Verify, up to the answer of Exists.
unfoldable pub passes : Authenticator → ℕ → Text → Text → Text → Bool
passes a now token timestamp nonce =
    has_token token a.tokens && timely now (parse_int timestamp) && not (exists nonce a.nonce_cache)

hex_digit : ℕ → ℕ
hex_digit d = if ltb d 10 then b'0' + d else b'a' + (d - 10)

-- hex.EncodeToString
unfoldable pub hex_encode : Bytes → Text
unfolding hex_digit
hex_encode [] = []
hex_encode (b ∷ bs) = hex_digit (b / 16) ∷ hex_digit (b % 16) ∷ hex_encode bs

-- The key, the data, the 32 bytes of the code.
module _ (hmac_sha256 : Bytes → Bytes → Bytes) where
  unfoldable pub sign : Text → Text → Text → Text
  sign token timestamp nonce = hex_encode (hmac_sha256 token (token ++ (timestamp ++ nonce)))

  -- The rest of Verify: the nonce is entered, and the signature decides.
  unfoldable pub enter : Authenticator → ℕ → Text → Text → Text → Text → Bool × Authenticator
  enter a now token timestamp nonce signature = (
    text_eq signature (sign token timestamp nonce),
    record a { nonce_cache = add nonce now a.nonce_cache },
  )

  -- Authenticator.Verify, with the clock as it is read for the window and for the entry.
  unfoldable pub verify : Authenticator → ℕ → ℕ → Text → Text → Text → Text → Bool × Authenticator
  verify a now entered token timestamp nonce signature =
      if passes a now token timestamp nonce
      then enter a entered token timestamp nonce signature
      else (false, a)
