-- ===== src/Config/Port/Accepted.antt =====
-- Which texts ParsePortRange accepts, and what it makes of them.
use qtrp.Common.{
  ℕ, ◌^◌, ◌<◌, ◌≡◌, ◌≢◌, refl, false, ◌&&◌, List, [], ◌∷◌, ◌++◌, ok, err, arith, leb, if◌then◌else◌,
  All, All-append, All-mono,
}
use qtrp.Go.Int64.{pos, ◌≤ℤ◌}
use qtrp.Go.Strconv.{
  format_nat, format_nat-IsNumeral, parse_int-format_nat, IsDigit, IsNumeral-All, IsNumeral-ne-nil,
}
use qtrp.Go.Strings.{
  Text, is_empty, split, split_lacks, split-append, trim_space, trim_space-Solid, Spaces, Solid,
  is_space,
}
use qtrp.Config.Port.{
  PortRange, port_out_of_range, range_out_of_range, start_above_end, parse_port_range, one_part,
  two_parts, by_parts,
}

-- A range of TCP ports.
pub record IsRange (r : PortRange) : Type 0 where
  pub above_zero : pos 1 ≤ℤ r.start
  pub ordered : r.start ≤ℤ r.end
  pub below_limit : r.end ≤ℤ pos 65535

one_part-IsRange : (s p : Text) (r : PortRange) → one_part s p ≡ ok r → IsRange r
unfolding one_part
one_part-IsRange s p r h = ground arith

two_parts-IsRange : (s p q : Text) (r : PortRange) → two_parts s p q ≡ ok r → IsRange r
unfolding two_parts
two_parts-IsRange s p q r h = ground arith

by_parts-IsRange : (s : Text) (ps : List Text) (r : PortRange) → by_parts s ps ≡ ok r → IsRange r
unfolding by_parts
by_parts-IsRange s (p ∷ []) r h = one_part-IsRange s p r h
by_parts-IsRange s (p ∷ q ∷ []) r h = two_parts-IsRange s p q r h
by_parts-IsRange s _ r h = cc

-- Whatever text is accepted, the range runs from a port to one that is not below it, both in
-- 1..65535.
pub parse_port_range-IsRange : (s : Text) (r : PortRange) → parse_port_range s ≡ ok r → IsRange r
unfolding parse_port_range
parse_port_range-IsRange s r h =
    ground (arith, by_parts-IsRange (trim_space s) (split b'-' (trim_space s)) r)

digit_solid : (c : ℕ) → IsDigit c → is_space c ≡ false
unfolding is_space
digit_solid c h = ground arith

format_nat-Solid : (n : ℕ) → Solid (format_nat n)
format_nat-Solid n =
    All-mono _ _ (format_nat n) digit_solid (IsNumeral-All _ (format_nat-IsNumeral n))

format_nat-lacks : (n : ℕ) → All (λ c. c ≢ b'-') (format_nat n)
format_nat-lacks n =
    All-mono _ _ (format_nat n) (λ c h. omega arith) (IsNumeral-All _ (format_nat-IsNumeral n))

is_empty_ne : (s : Text) → s ≢ [] → is_empty s ≡ false
is_empty_ne [] h = absurd (h refl)
is_empty_ne (c ∷ s) h = refl

append-ne-nil : (s t : Text) → s ≢ [] → s ++ t ≢ []
append-ne-nil [] t h e = h refl
append-ne-nil (c ∷ s) t h e = cc

-- What the parser sees of a text with white space at its ends.
parse_trimmed :
    (b s e : Text)
    → s ≢ []
    → Spaces b
    → Solid s
    → Spaces e
    → parse_port_range (b ++ (s ++ e)) ≡ by_parts s (split b'-' s)
unfolding parse_port_range
parse_trimmed b s e n hb hs he = rw (trim_space-Solid b s e n hb hs he, is_empty_ne s n)

-- A printed number, with white space at both ends or none, is a range of one port if it is in
-- 1..65535, and is refused with that number if it is not.
pub parse_single :
    (b e : Text) (n : ℕ)
    → Spaces b
    → Spaces e
    → n < 2 ^ 63
    → parse_port_range (b ++ (format_nat n ++ e)) ≡ (
        if leb 1 n && leb n 65535
        then ok (record { start = pos n; end = pos n })
        else err (port_out_of_range (pos n)))
parse_single b e n hb he h =
    rw
      (
        parse_trimmed b (format_nat n) e (IsNumeral-ne-nil _ (format_nat-IsNumeral n)) hb
            (format_nat-Solid n) he,
        split_lacks b'-' (format_nat n) (format_nat-lacks n),
      )
      (unfold by_parts one_part in rw (parse_int-format_nat n h) (ground arith))

-- The text `m-n`.
abbrev pub show_range : ℕ → ℕ → Text
show_range m n = format_nat m ++ b'-' ∷ format_nat n

split_range : (m n : ℕ) → split b'-' (show_range m n) ≡ format_nat m ∷ format_nat n ∷ []
split_range m n = rw (
  split-append b'-' (format_nat m) (format_nat n) (format_nat-lacks m),
  split_lacks b'-' (format_nat n) (format_nat-lacks n),
)

show_range-Solid : (m n : ℕ) → Solid (show_range m n)
show_range-Solid m n =
    All-append _ (format_nat m) (b'-' ∷ format_nat n) (format_nat-Solid m)
      (dash_solid, format_nat-Solid n)
  where
    dash_solid : is_space b'-' ≡ false
    dash_solid = unfold is_space in refl

-- Two printed numbers with a dash between, with white space at both ends or none: the range from the
-- first to the second, if both are in 1..65535 and in order; otherwise the error that says which of
-- the two tests failed, the bounds first.
pub parse_pair :
    (b e : Text) (m n : ℕ)
    → Spaces b
    → Spaces e
    → m < 2 ^ 63
    → n < 2 ^ 63
    → parse_port_range (b ++ (show_range m n ++ e)) ≡ (
        if leb 1 m && leb m 65535 && leb 1 n && leb n 65535
        then (if leb m n
            then ok (record { start = pos m; end = pos n })
            else err (start_above_end (show_range m n)))
        else err (range_out_of_range (show_range m n)))
parse_pair b e m n hb he hm hn =
    rw
      (
        parse_trimmed b (show_range m n) e
            (append-ne-nil (format_nat m) _ (IsNumeral-ne-nil _ (format_nat-IsNumeral m))) hb
            (show_range-Solid m n) he,
        split_range m n,
      )
      (unfold by_parts two_parts in
        rw (parse_int-format_nat m hm, parse_int-format_nat n hn) (ground arith))
