-- ===== src/Protocol/Codec/Merge.antt =====
-- The calls of Write of two senders on one connection, in any order.
use qtrp.Common.{
  ◌+◌, ◌≡◌, refl, ap, Bool, true, false, not, List, [], ◌∷◌, ◌++◌, append-nil, arith, length,
  length-append,
}
use qtrp.Go.Io.{Bytes, joined}

-- The writes of two senders on one connection, by whose turn it is: `true` is the first's. When the
-- turns are over, or one has nothing left, the rest goes out in order.
unfoldable pub merge : List Bool → List Bytes → List Bytes → List Bytes
merge [] xs ys = xs ++ ys
merge (true ∷ turns) [] ys = ys
merge (true ∷ turns) (x ∷ xs) ys = x ∷ merge turns xs ys
merge (false ∷ turns) xs [] = xs
merge (false ∷ turns) xs (y ∷ ys) = y ∷ merge turns xs ys

-- Whether the two calls of one sender come before those of the other.
unfoldable pub apart : List Bool → Bool
apart [] = true
apart (t ∷ []) = t
apart (true ∷ u ∷ turns) = u
apart (false ∷ u ∷ turns) = not u

length-joined_append :
    (xs ys : List Bytes) → length (joined (xs ++ ys)) ≡ length (joined xs) + length (joined ys)
unfolding joined
length-joined_append [] ys = omega arith
length-joined_append (x ∷ xs) ys = omega (
  arith,
  length-append x (joined (xs ++ ys)),
  length-append x (joined xs),
  length-joined_append xs ys,
)

length-merge :
    (turns : List Bool) (xs ys : List Bytes)
    → length (joined (merge turns xs ys)) ≡ length (joined xs) + length (joined ys)
unfolding merge joined
length-merge [] xs ys = length-joined_append xs ys
length-merge (true ∷ turns) [] ys = omega arith
length-merge (true ∷ turns) (x ∷ xs) ys = omega (
  arith,
  length-append x (joined (merge turns xs ys)),
  length-append x (joined xs),
  length-merge turns xs ys,
)
length-merge (false ∷ turns) xs [] = omega arith
length-merge (false ∷ turns) xs (y ∷ ys) = omega (
  arith,
  length-append y (joined (merge turns xs ys)),
  length-append y (joined ys),
  length-merge turns xs ys,
)

-- Who is left alone.
pub merge-nil_left : (turns : List Bool) (ys : List Bytes) → merge turns [] ys ≡ ys
unfolding merge
merge-nil_left [] ys = refl
merge-nil_left (true ∷ turns) ys = refl
merge-nil_left (false ∷ turns) [] = refl
merge-nil_left (false ∷ turns) (y ∷ ys) = ap (λ z. y ∷ z) (merge-nil_left turns ys)

pub merge-nil_right : (turns : List Bool) (xs : List Bytes) → merge turns xs [] ≡ xs
unfolding merge
merge-nil_right [] xs = append-nil xs
merge-nil_right (true ∷ turns) [] = refl
merge-nil_right (true ∷ turns) (x ∷ xs) = ap (λ z. x ∷ z) (merge-nil_right turns xs)
merge-nil_right (false ∷ turns) xs = refl

length-joined_one : (b : Bytes) → length (joined (b ∷ [])) ≡ length b
unfolding joined
length-joined_one b = ap length (append-nil b)

pub length-merge_one :
    (turns : List Bool) (b c : Bytes)
    → length (joined (merge turns (b ∷ []) (c ∷ []))) ≡ length b + length c
length-merge_one turns b c =
    omega (arith, length-merge turns (b ∷ []) (c ∷ []), length-joined_one b, length-joined_one c)
