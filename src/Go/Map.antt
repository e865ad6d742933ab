-- ===== src/Go/Map.antt =====
-- Go's maps (and sync.Map) as association lists, over keys that can be compared.
use qtrp.Common.{
  ◌≡◌, ◌↔◌, refl, Bool, true, Option, none, some, List, [], ◌∷◌, arith, if◌then◌else◌,
}
use qtrp.Go.Int64.{ℤ, eqb_ℤ}
use qtrp.Go.Strings.{Text, text_eq, text_eq_iff}

pub record Key (K : Type 0) : Type 0 where
  pub beq : K → K → Bool
  pub beq_iff : (a b : K) → (beq a b ≡ true) ↔ (a ≡ b)

pub eqb_ℤ_iff : (a b : ℤ) → (eqb_ℤ a b ≡ true) ↔ (a ≡ b)
eqb_ℤ_iff a b = ground arith

instance abbrev pub int_key : Key ℤ
int_key = record { beq = eqb_ℤ; beq_iff = eqb_ℤ_iff }

instance abbrev pub text_key : Key Text
text_key = record { beq = text_eq; beq_iff = text_eq_iff }

module _ {K V : Type 0} ⦃k : Key K⦄ where
  unfoldable pub load : K → List (K × V) → Option V
  load a [] = none
  load a ((b, v) ∷ m) = if k.beq b a then some v else load a m

  unfoldable pub store : K → V → List (K × V) → List (K × V)
  store a v [] = (a, v) ∷ []
  store a v ((b, w) ∷ m) = if k.beq b a then (a, v) ∷ m else (b, w) ∷ store a v m

  unfoldable pub delete : K → List (K × V) → List (K × V)
  delete a [] = []
  delete a ((b, w) ∷ m) = let rest = delete a m in if k.beq b a then rest else (b, w) ∷ rest

  pub load-store :
      (a b : K) (v : V) (m : List (K × V))
      → load b (store a v m) ≡ (if k.beq a b then some v else load b m)
  unfolding load store
  load-store a b v [] = refl
  load-store a b v ((c, w) ∷ m) =
      ground (arith, k.beq_iff a b, k.beq_iff c a, k.beq_iff c b, load-store a b v m)

  pub load-delete :
      (a b : K) (m : List (K × V)) → load b (delete a m) ≡ (if k.beq a b then none else load b m)
  unfolding load delete
  load-delete a b [] = ground arith
  load-delete a b ((c, w) ∷ m) =
      ground (arith, k.beq_iff a b, k.beq_iff c a, k.beq_iff c b, load-delete a b m)
