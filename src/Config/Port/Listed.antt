-- ===== src/Config/Port/Listed.antt =====
-- What Count and Ports give for a range of ports.
use qtrp.Common.{
  ℕ, zero, suc, ◌+◌, ◌-◌, ◌^◌, ◌≤◌, ◌<◌, ◌≡◌, refl, List, [], ◌∷◌, some, arith, length, get_elem?,
}
use qtrp.Go.Int64.{ℤ, pos, negsuc, add64, sub64}
use qtrp.Config.Port.{PortRange, count, ports, ports_loop}
use qtrp.Config.Port.Accepted.{IsRange}

abbrev span : ℕ → ℕ → List ℤ
span zero a = []
span (suc k) a = pos a ∷ span k (a + 1)

length-span : (k a : ℕ) → length (span k a) ≡ k
length-span zero a = refl
length-span (suc k) a = omega (arith, length-span k (a + 1))

get_elem?-span : (k a i : ℕ) → i < k → get_elem? (span k a) i ≡ some (pos (a + i))
get_elem?-span zero a i h = absurd (omega arith)
get_elem?-span (suc k) a zero h = ground arith
get_elem?-span (suc k) a (suc i) h = ground (arith, get_elem?-span k (a + 1) i (omega arith))

next_port : (a : ℕ) → a < 2 ^ 32 → add64 (pos a) (pos 1) ≡ pos (a + 1)
unfolding add64
next_port a h = ground arith

-- The loop makes one round for each port and one that ends it.
ports_loop-span :
    (k a b : ℕ) → a + k ≡ b + 1 → b < 2 ^ 32 → ports_loop (suc k) (pos a) (pos b) ≡ some (span k a)
unfolding ports_loop
ports_loop-span zero a b e h = ground arith
ports_loop-span (suc k) a b e h =
    ground (arith, next_port a (omega arith), ports_loop-span k (a + 1) b (omega arith) h)

count_pos :
    (a b : ℕ) → a ≤ b → b < 2 ^ 32 → count (record { start = pos a; end = pos b }) ≡ pos (b - a + 1)
unfolding count add64 sub64
count_pos a b h hb = ground arith

-- A range of ports, as numbers.
pub record Bounds (r : PortRange) : Type 0 where
  pub first : ℕ
  pub last : ℕ
  pub is_range : r ≡ record { start = pos first; end = pos last }
  pub above_zero : 1 ≤ first
  pub ordered : first ≤ last
  pub below_limit : last ≤ 65535

Bounds-of :
    (a b : ℤ) → IsRange (record { start = a; end = b }) → Bounds (record { start = a; end = b })
Bounds-of (pos a) (pos b) h = record {
  first = a;
  last = b;
  is_range = refl;
  above_zero = ground (arith, h.above_zero);
  ordered = ground (arith, h.ordered);
  below_limit = ground (arith, h.below_limit);
}
Bounds-of (pos a) (negsuc b) h = absurd (omega (arith, h.above_zero, h.ordered))
Bounds-of (negsuc a) b h = absurd (omega (arith, h.above_zero))

pub IsRange-Bounds : (r : PortRange) → IsRange r → Bounds r
IsRange-Bounds r h = Bounds-of r.start r.end h

ports-span :
    (a b : ℕ)
    → a ≤ b
    → b ≤ 65535
    → ports (record { start = pos a; end = pos b }) ≡ some (span (b - a + 1) a)
unfolding ports
ports-span a b h hb =
    rw (count_pos a b h (omega arith))
      (ground (arith, ports_loop-span (b - a + 1) a b (omega arith) (omega arith)))

-- What Ports gives for the range: the ports from the first to the last, in order, each once.
pub record Lists (b : ℕ × ℕ) (ps : List ℤ) : Type 0 where
  pub as_many : length ps ≡ b.1 - b.0 + 1
  pub in_order : (i : ℕ) → i < length ps → get_elem? ps i ≡ some (pos (b.0 + i))

span-Lists : (a b : ℕ) → Lists (a, b) (span (b - a + 1) a)
span-Lists a b = record {
  as_many = length-span (b - a + 1) a;
  in_order = λ i h. get_elem?-span (b - a + 1) a i (omega (arith, length-span (b - a + 1) a));
}

-- For a range of ports the loop of Ports ends and `make` does not panic; the list holds as many
-- ports as Count says, which are those from the first to the last, in order.
pub ports_lem :
    (r : PortRange)
    → IsRange r
    → (a b : ℕ) × (ps : List ℤ) × (r ≡ record { start = pos a; end = pos b })
      × (ports r ≡ some ps)
      × (count r ≡ pos (length ps))
      × Lists (a, b) ps
ports_lem r h =
    let v = IsRange-Bounds r h in
    let n = v.last - v.first + 1 in
    (
      v.first,
      v.last,
      span n v.first,
      v.is_range,
      rw v.is_range (ports-span v.first v.last v.ordered v.below_limit),
      rw v.is_range (
          rw (length-span n v.first)
            (count_pos v.first v.last v.ordered (omega (arith, v.below_limit)))),
      span-Lists v.first v.last,
    )
