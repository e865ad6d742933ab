-- ===== src/Common/Runs.antt =====
-- Sequences of steps, each of which may be impossible in the state it meets.
use mathlib.Core.Path.{◌≡◌, refl, subst}
use mathlib.Core.List.{List, [], ◌∷◌}
use mathlib.Core.Option.{Option, none, some}

abbrev pub then_steps : {S : Type 0} → (S → Option S) → Option S → Option S
then_steps f none = none
then_steps f (some s) = f s

module _ {E S : Type 0} (step : E → S → Option S) where
  -- `none`: a step is not possible.
  unfoldable pub history : List E → S → Option S
  history [] s = some s
  history (e ∷ es) s = then_steps (history es) (step e s)

pub then_steps-eq-some :
    {S : Type 0} (f : S → Option S) (o : Option S) (t : S)
    → then_steps f o ≡ some t
    → (s : S) × (o ≡ some s) × (f s ≡ some t)
then_steps-eq-some f none t h = cc
then_steps-eq-some f (some s) t h = (s, refl, h)

module _ {E S : Type 0} (step : E → S → Option S) (P : S → Type 0)
    (keeps : (e : E) (s t : S) → step e s ≡ some t → P s → P t) where
  -- What each step keeps, a sequence keeps.
  pub history_keeps : (es : List E) (s t : S) → history step es s ≡ some t → P s → P t
  unfolding history
  history_keeps [] s t h i = let same : s ≡ t = cc in subst P same i
  history_keeps (e ∷ es) s t h i =
      let (u, one, rest) = then_steps-eq-some (history step es) (step e s) t h in
      history_keeps es u t rest (keeps e s u one i)
