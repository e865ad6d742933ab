-- ===== src/Config/Port.antt =====
-- pkg/config/config.go: PortRange, ParsePortRange, Count and Ports.
pub mod Accepted
pub mod Listed
use qtrp.Common.{
  ℕ, zero, suc, Bool, true, false, ◌||◌, List, [], ◌∷◌, Option, none, some, Result, ok, err, ◌>>=◌,
  ◌>>◌, refuse_if, or_fail, if◌then◌else◌,
}
use qtrp.Go.Int64.{ℤ, pos, pos_part, add64, sub64, ltb_ℤ, leb_ℤ}
use qtrp.Go.Strconv.{parse_int}
use qtrp.Go.Strings.{Text, is_empty, split, trim_space}

pub record PortRange : Type 0 where
  pub start : ℤ
  pub end : ℤ

-- The errors, with what each message prints.
pub data PortError : Type 0 where
  empty_port : PortError
  invalid_port invalid_start invalid_end range_out_of_range start_above_end invalid_format :
      Text → PortError
  port_out_of_range : ℤ → PortError

abbrev outside : ℤ → Bool
outside port = ltb_ℤ port (pos 1) || ltb_ℤ (pos 65535) port

one_part : Text → Text → Result PortError PortRange
one_part s p = do
  port ← or_fail (parse_int p) (invalid_port s)
  refuse_if (outside port) (port_out_of_range port)
  ok (record { start = port; end = port })

two_parts : Text → Text → Text → Result PortError PortRange
two_parts s p q = do
  start ← or_fail (parse_int p) (invalid_start p)
  end ← or_fail (parse_int q) (invalid_end q)
  refuse_if (outside start || outside end) (range_out_of_range s)
  refuse_if (ltb_ℤ end start) (start_above_end s)
  ok (record { start = start; end = end })

by_parts : Text → List Text → Result PortError PortRange
by_parts s (p ∷ []) = one_part s p
by_parts s (p ∷ q ∷ []) = two_parts s p q
by_parts s _ = err (invalid_format s)

unfoldable pub parse_port_range : Text → Result PortError PortRange
unfolding one_part two_parts by_parts
parse_port_range s0 =
    let s = trim_space s0 in if is_empty s then err empty_port else by_parts s (split b'-' s)

unfoldable pub count : PortRange → ℤ
count r = add64 (sub64 r.end r.start) (pos 1)

-- The rounds of the loop; `none` when the fuel is used up.
ports_loop : ℕ → ℤ → ℤ → Option (List ℤ)
ports_loop zero p end = none
ports_loop (suc f) p end = elim (leb_ℤ p end) [
  | true ↦ elim (ports_loop f (add64 p (pos 1)) end) [ none ↦ none | some ps ↦ some (p ∷ ps) ]
  | false ↦ some []
]

-- `none` stands for the panic of `make` on a negative capacity.
unfoldable pub ports : PortRange → Option (List ℤ)
unfolding ports_loop count
ports r =
    if ltb_ℤ (count r) (pos 0) then none else ports_loop (suc (pos_part (count r))) r.start r.end
