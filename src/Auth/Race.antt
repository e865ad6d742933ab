-- ===== src/Auth/Race.antt =====
-- Calls of Verify at once. The read lock lets them all run, and Exists and Add lock the cache one
-- after the other.
use qtrp.Common.{ℕ, zero, suc, ◌+◌, ◌≡◌, refl, subst, true, arith}
use qtrp.Go.Io.{Bytes}
use qtrp.Go.Strings.{Text, text_eq_iff}
use qtrp.Auth.{Authenticator, passes, sign, enter}
use qtrp.Auth.Accept.{Admissible, Admissible→passes}

-- How many calls with one request have had their answer from Exists and not yet called Add, and how
-- many have been accepted.
pub record Calls : Type 0 where
  pub auth : Authenticator
  pub asked : ℕ
  pub accepted : ℕ

module _ (hmac_sha256 : Bytes → Bytes → Bytes) (now : ℕ)
    (token timestamp nonce signature : Text) where
  pub data Step (c : Calls) : Calls → Type 0 where
    ask :
        passes c.auth now token timestamp nonce ≡ true
        → Step c (record { auth = c.auth; asked = suc c.asked; accepted = c.accepted })
    answer :
        (n : ℕ)
        → c.asked ≡ suc n
        → (enter hmac_sha256 c.auth now token timestamp nonce signature).0 ≡ true
        → Step c (record {
          auth = (enter hmac_sha256 c.auth now token timestamp nonce signature).1;
          asked = n;
          accepted = suc c.accepted;
        })

  pub data Reach (c : Calls) : Calls → Type 0 where
    here : Reach c c
    next : {d e : Calls} → Reach c d → Step d e → Reach c e

  asks :
      (a : Authenticator) (n : ℕ)
      → passes a now token timestamp nonce ≡ true
      → Reach
          (record { auth = a; asked = 0; accepted = 0 })
          (record { auth = a; asked = n; accepted = 0 })
  asks a zero p = here
  asks a (suc n) p = next (asks a n p) (ask p)

  answers :
      (c : Calls) (b : Authenticator) (n m : ℕ)
      → signature ≡ sign hmac_sha256 token timestamp nonce
      → Reach c (record { auth = b; asked = n; accepted = m })
      → (d : Authenticator) × (k : ℕ) × (k ≡ n + m)
        × Reach c (record { auth = d; asked = 0; accepted = k })
  answers c b zero m signed r = (b, m, omega arith, r)
  answers c b (suc n) m signed r =
      let (d, k, e, r') =
        answers c (enter hmac_sha256 b now token timestamp nonce signature).1 n (suc m) signed (
          next r (
            answer n refl (
              unfold enter in
              (text_eq_iff signature (sign hmac_sha256 token timestamp nonce)).1 signed))) in
      (d, k, omega (arith, e), r')

  -- One signed request that is admissible once can be accepted any number of times, if that many calls
  -- are in flight together: each asks Exists before any calls Add.
  pub accepted_often :
      (a : Authenticator) (n : ℕ)
      → Admissible a now token timestamp nonce
      → signature ≡ sign hmac_sha256 token timestamp nonce
      → (d : Authenticator) × Reach
          (record { auth = a; asked = 0; accepted = 0 })
          (record { auth = d; asked = 0; accepted = n })
  accepted_often a n adm signed =
      let start : Calls = record { auth = a; asked = 0; accepted = 0 } in
      let p = Admissible→passes a now token timestamp nonce adm in
      let (d, k, e, r) = answers start a n 0 signed (asks a n p) in
      let all : k ≡ n = omega (arith, e) in
      (d, subst (λ j. Reach start (record { auth = d; asked = 0; accepted = j })) all r)
