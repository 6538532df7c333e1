-- ===== src/Base/Effects.antt =====
-- Code that reads and writes a state `W` and may throw. What was written before a throw stays
-- written, so the state comes back beside the exception too.
use mathlib.Core.Path.{◌≡◌, refl, sym, ap, ◌∙◌}
use mathlib.Core.Logic.{◌⊎◌, inl, inr}
use mathlib.Core.Option.{Option, none, some}

pub data Outcome {ℓ} (A : Type ℓ) : Type ℓ where
  ok : A → Outcome A
  throw : Outcome A

abbrev pub Exec : Type 0 → Type 0 → Type 0
Exec W A = W → Outcome A × W

module _ {W A : Type 0} where
  abbrev pub pure : A → Exec W A
  pure a w = (ok a, w)

  abbrev pub lift : Outcome A → Exec W A
  lift r w = (r, w)

module _ {W A B : Type 0} where
  abbrev pub continue : Outcome A → (A → Exec W B) → Exec W B
  continue (ok a) f w = f a w
  continue throw f w = (throw, w)

  infixl 5 ◌>>=◌ ◌>>◌
  abbrev pub ◌>>=◌ : Exec W A → (A → Exec W B) → Exec W B
  ◌>>=◌ m f w = let (r, w') = m w in continue r f w'

  abbrev pub ◌>>◌ : Exec W A → Exec W B → Exec W B
  m >> n = m >>= λ _. n

-- What a look-up comes back with, and the state that it leaves.
module _ {W A : Type 0} where
  pub Found-cases :
      (r : Outcome (Option A) × W)
      → ((a : A) × (w : W) × (r ≡ (ok (some a), w)))
        ⊎ ((w : W) × (r ≡ (ok none, w)))
        ⊎ ((w : W) × (r ≡ (throw, w)))
  Found-cases (ok (some a), w) = inl (a, w, refl)
  Found-cases (ok none, w) = inr (inl (w, refl))
  Found-cases (throw, w) = inr (inr (w, refl))

  pub Outcome-cases :
      (r : Outcome A × W) → ((a : A) × (w : W) × (r ≡ (ok a, w))) ⊎ ((w : W) × (r ≡ (throw, w)))
  Outcome-cases (ok a, w) = inl (a, w, refl)
  Outcome-cases (throw, w) = inr (w, refl)

-- A sequence that comes back has come back from both parts.
pub >>=-ok :
    {W A B : Type 0} (m : Exec W A) (f : A → Exec W B) (w w' : W) (b : B)
    → (m >>= f) w ≡ (ok b, w')
    → (a : A) × (v : W) × (m w ≡ (ok a, v)) × (f a v ≡ (ok b, w'))
>>=-ok m f w w' b h = elim (Outcome-cases (m w)) [
  | inl (a, v, e) ↦ (a, v, e, ap (λ r. continue r.0 f r.1) (sym e) ∙ h)
  | inr (v, e) ↦
      let g : continue throw f v ≡ (ok b, w') = ap (λ r. continue r.0 f r.1) (sym e) ∙ h in cc
]
