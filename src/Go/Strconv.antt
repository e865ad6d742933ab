-- ===== src/Go/Strconv.antt =====
-- strconv: ParseInt and Atoi in base 10, FormatInt and Itoa. A text is a list of characters; the
-- error (syntax or range) is `none`.
use qtrp.Common.{
  ℕ, zero, suc, ◌+◌, ◌-◌, ◌*◌, ◌/◌, ◌%◌, ◌^◌, ◌≤◌, ◌<◌, ◌≡◌, ◌≢◌, refl, ◌∙◌, inl, inr, Bool, true,
  false, ◌&&◌, Option, none, some, List, [], ◌∷◌, arith, ltb, leb, ◌==◌, if◌then◌else◌, All,
  Bool-cases,
}
use qtrp.Go.Int64.{ℤ, pos, negsuc, IsInt64}

abbrev is_digit : ℕ → Bool
is_digit c = leb b'0' c && leb c b'9'

scan : List ℕ → ℕ → Option ℕ
scan [] n = some n
scan (c ∷ s) n = if is_digit c then scan s (n * 10 + (c - b'0')) else none

parse_digits : List ℕ → Option ℕ
unfolding scan
parse_digits [] = none
parse_digits (c ∷ s) = scan (c ∷ s) 0

-- The sign, and the bounds of an int64.
with_sign : Bool → Option ℕ → Option ℤ
with_sign negative none = none
with_sign true (some zero) = some (pos 0)
with_sign true (some (suc n)) = if ltb n (2 ^ 63) then some (negsuc n) else none
with_sign false (some n) = if ltb n (2 ^ 63) then some (pos n) else none

unfoldable pub parse_int : List ℕ → Option ℤ
unfolding parse_digits with_sign
parse_int [] = none
parse_int (c ∷ s) =
    if c == b'-'
    then with_sign true (parse_digits s)
    else if c == b'+'
    then with_sign false (parse_digits s)
    else with_sign false (parse_digits (c ∷ s))

-- The fuel is above the number, which falls at each round.
digits : ℕ → ℕ → List ℕ → List ℕ
digits zero n out = out
digits (suc f) n out =
    let rest = digits f (n / 10) ((b'0' + n % 10) ∷ out) in
    if ltb n 10 then (b'0' + n) ∷ out else rest

unfoldable pub format_nat : ℕ → List ℕ
unfolding digits
format_nat n = digits (suc n) n []

unfoldable pub format_int : ℤ → List ℕ
unfolding format_nat
format_int (pos n) = format_nat n
format_int (negsuc n) = b'-' ∷ format_nat (suc n)

-- Reading the printed digits leaves the scan where the number was.
scan-digits : (f n : ℕ) (out : List ℕ) → n < f → scan (digits f n out) 0 ≡ scan out n
unfolding scan digits
scan-digits zero n out h = absurd (omega arith)
scan-digits (suc f) n out h = ground (arith, scan-digits f (n / 10) ((b'0' + n % 10) ∷ out))

-- A character of a number's print.
abbrev pub IsDigit : ℕ → Type 0
IsDigit c = (b'0' ≤ c) × (c ≤ b'9')

-- The print is not empty, and holds nothing but digits.
abbrev pub IsNumeral : List ℕ → Type 0
IsNumeral [] = ⊥
IsNumeral (c ∷ s) = IsDigit c × All IsDigit s

cons-IsNumeral : (c : ℕ) (s : List ℕ) → IsDigit c → All IsDigit s → IsNumeral (c ∷ s)
cons-IsNumeral c s h hs = (h, hs)

pub IsNumeral-ne-nil : (s : List ℕ) → IsNumeral s → s ≢ []
IsNumeral-ne-nil [] h e = h
IsNumeral-ne-nil (c ∷ s) h e = cc

pub IsNumeral-All : (s : List ℕ) → IsNumeral s → All IsDigit s
IsNumeral-All [] h = tt
IsNumeral-All (c ∷ s) h = h

digits-IsNumeral : (f n : ℕ) (out : List ℕ) → n < f → All IsDigit out → IsNumeral (digits f n out)
unfolding digits
digits-IsNumeral zero n out h hs = absurd (omega arith)
digits-IsNumeral (suc f) n out h hs = elim (Bool-cases (ltb n 10)) [
  | inl e ↦ rw e (ground arith, hs)
  | inr e ↦ rw e (digits-IsNumeral f (n / 10) _ (ground arith) (omega arith, hs))
]

pub format_nat-IsNumeral : (n : ℕ) → IsNumeral (format_nat n)
unfolding format_nat
format_nat-IsNumeral n = digits-IsNumeral (suc n) n [] (omega arith) tt

parse_digits-numeral : (s : List ℕ) → IsNumeral s → parse_digits s ≡ scan s 0
unfolding parse_digits
parse_digits-numeral [] h = absurd h
parse_digits-numeral (c ∷ s) h = refl

parse_digits-format_nat : (n : ℕ) → parse_digits (format_nat n) ≡ some n
parse_digits-format_nat n =
    parse_digits-numeral (format_nat n) (format_nat-IsNumeral n) ∙ scan-format n
  where
    scan-format : (n : ℕ) → scan (format_nat n) 0 ≡ some n
    scan-format n = unfold format_nat scan in scan-digits (suc n) n [] (omega arith)

parse_int-numeral : (s : List ℕ) → IsNumeral s → parse_int s ≡ with_sign false (parse_digits s)
unfolding parse_int
parse_int-numeral [] h = absurd h
parse_int-numeral (c ∷ s) h = ground arith

parse_int_minus : (s : List ℕ) → parse_int (b'-' ∷ s) ≡ with_sign true (parse_digits s)
unfolding parse_int
parse_int_minus s = refl

-- Every int64 is read back from its print.
pub parse_int-format_int : (a : ℤ) → IsInt64 a → parse_int (format_int a) ≡ some a
parse_int-format_int (pos n) h =
    unfold format_int in
    rw (parse_int-numeral _ (format_nat-IsNumeral n), parse_digits-format_nat n)
      (unfold with_sign in ground arith)
parse_int-format_int (negsuc n) h =
    unfold format_int in
    parse_int_minus (format_nat (suc n))
    ∙ rw (parse_digits-format_nat (suc n)) (unfold with_sign in ground arith)

pub parse_int-format_nat : (n : ℕ) → n < 2 ^ 63 → parse_int (format_nat n) ≡ some (pos n)
parse_int-format_nat n h = unfold format_int in parse_int-format_int (pos n) (omega arith)

-- Two numbers with one print are equal.
pub format_nat-injective : (m n : ℕ) → format_nat m ≡ format_nat n → m ≡ n
format_nat-injective m n h = cc (parse_digits-format_nat m, parse_digits-format_nat n)

with_sign-IsInt64 : (b : Bool) (o : Option ℕ) (a : ℤ) → with_sign b o ≡ some a → IsInt64 a
unfolding with_sign
with_sign-IsInt64 b none a h = absurd (ground arith)
with_sign-IsInt64 true (some zero) a h = ground arith
with_sign-IsInt64 true (some (suc n)) a h = ground arith
with_sign-IsInt64 false (some n) a h = ground arith

pub parse_int-IsInt64 : (s : List ℕ) (a : ℤ) → parse_int s ≡ some a → IsInt64 a
unfolding parse_int
parse_int-IsInt64 [] a h = absurd (ground arith)
parse_int-IsInt64 (c ∷ s) a h = ground (
  arith,
  with_sign-IsInt64 true (parse_digits s) a,
  with_sign-IsInt64 false (parse_digits s) a,
  with_sign-IsInt64 false (parse_digits (c ∷ s)) a,
)
