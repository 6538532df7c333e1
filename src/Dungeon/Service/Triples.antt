-- ===== src/Dungeon/Service/Triples.antt =====
-- Rules for what holds after a run that returns: `Triple P m Q` says that a run of `m` from a
-- state with `P` that returns `a` ends in a state with `Q a`. A run that throws is not restricted.
use project_moon.Base.{
  ◌≡◌, inl, inr, refl, Bool, true, false, if◌then◌else◌, Option, none, some, ok, Exec, pure, ◌>>=◌,
  arith, Outcome-cases,
}

pub record Triple {W A : Type 0} (P : W → Type 0) (m : Exec W A) (Q : A → W → Type 0) : Type 0 where
  pub run : (w w' : W) (a : A) → P w → m w ≡ (ok a, w') → Q a w'

module _ {W A : Type 0} where
  pure-ok : (a b : A) (w w' : W) → pure a w ≡ (ok b, w') → (a ≡ b) × (w ≡ w')
  pure-ok a b w w' e = (ground (arith, e), ground (arith, e))

module _ {W A : Type 0} {P : W → Type 0} {Q : A → W → Type 0} where
  pub Triple-pure : (a : A) → ((w : W) → P w → Q a w) → Triple P (pure a) Q
  Triple-pure a h = record {
    run = λ w w' b p e. let (f, g) = pure-ok a b w w' e in rw (← f, ← g) (h w p);
  }

  pub Triple-if :
      (b : Bool) (m n : Exec W A)
      → (b ≡ true → Triple P m Q)
      → (b ≡ false → Triple P n Q)
      → Triple P (if b then m else n) Q
  Triple-if true m n h k = h refl
  Triple-if false m n h k = k refl

module _ {W A B : Type 0} {P : W → Type 0} {Q : A → W → Type 0} {R : B → W → Type 0} where
  pub Triple-bind :
      (m : Exec W A) (f : A → Exec W B)
      → Triple P m Q
      → ((a : A) → Triple (Q a) (f a) R)
      → Triple P (m >>= f) R
  Triple-bind m f h k = record {
    run = λ w w' b p e. elim (Outcome-cases (m w)) [
      | inl (a, w₁, d) ↦ (k a).run w₁ w' b (h.run w w₁ a p d) (ground (arith, d))
      | inr (w₁, d) ↦ absurd (ground (arith, d))
    ];
  }

-- An operation that leaves `P` alone, whatever it returns.
abbrev pub Keeps : {W A : Type 0} → (W → Type 0) → Exec W A → Type 0
Keeps P m = Triple P m (λ _. P)

module _ {W A B : Type 0} {P : W → Type 0} {Q : B → W → Type 0} where
  -- Both cases of what a look-up found.
  pub Triple-elim :
      (found : Option A) (m : Exec W B) (f : A → Exec W B)
      → Triple P m Q
      → ((a : A) → found ≡ some a → Triple P (f a) Q)
      → Triple P (elim found [ none ↦ m | some a ↦ f a ]) Q
  Triple-elim none m f h k = h
  Triple-elim (some a) m f h k = k a refl

module _ {W : Type 0} {P : W → Type 0} where
  -- The part of the condition that is not about the state.
  pub Triple-given :
      {B F : Type 0} {Q : B → W → Type 0} (m : Exec W B)
      → (F → Triple P m Q)
      → Triple (λ w. F × P w) m Q
  Triple-given m h = record { run = λ w w' b both e. (h both.0).run w w' b both.1 e }

  -- What the condition tells beside the state.
  pub Triple-fact :
      {B F : Type 0} {Q : B → W → Type 0} (m : Exec W B)
      → ((w : W) → P w → F)
      → (F → Triple P m Q)
      → Triple P m Q
  Triple-fact m f h = record { run = λ w w' b p e. (h (f w p)).run w w' b p e }
