-- ===== src/Base/Calls.antt =====
-- Operations that come back with `bool` or a value, and write `*error_message` where they fail, on a
-- state that they change.
use mathlib.Core.Path.{◌≡◌, refl, sym, ap, ◌∙◌}
use mathlib.Core.Logic.{◌⊎◌, inl, inr}
use mathlib.Core.Bool.{Bool, true, false}
use project_moon.Base.Equality.{Bytes}

-- What an operation comes back with: its result, or what is written to `*error_message`.
pub data Result (A : Type 0) : Type 0 where
  done : A → Result A
  failed : Bytes → Result A

abbrev pub is_done : {A : Type 0} → Result A → Bool
is_done (done a) = true
is_done (failed m) = false

abbrev pub result_or : {A : Type 0} → A → Result A → A
result_or a (done b) = b
result_or a (failed m) = a

abbrev pub Call : Type 0 → Type 0 → Type 0
Call S A = S → Result A × S

module _ {S A : Type 0} where
  abbrev pub returns : A → Call S A
  returns a s = (done a, s)

  abbrev pub fails : Bytes → Call S A
  fails m s = (failed m, s)

module _ {S A B : Type 0} where
  abbrev pub go_on : Result A → (A → Call S B) → Call S B
  go_on (done a) f s = f a s
  go_on (failed m) f s = (failed m, s)

  infixl 5 ◌>>=◌ ◌>>◌
  abbrev pub ◌>>=◌ : Call S A → (A → Call S B) → Call S B
  ◌>>=◌ m f s = let (r, s') = m s in go_on r f s'

  abbrev pub ◌>>◌ : Call S A → Call S B → Call S B
  m >> n = m >>= λ _. n

pub Result-cases :
    {A S : Type 0} (r : Result A × S)
    → ((a : A) × (s : S) × (r ≡ (done a, s))) ⊎ ((m : Bytes) × (s : S) × (r ≡ (failed m, s)))
Result-cases (done a, s) = inl (a, s, refl)
Result-cases (failed m, s) = inr (m, s, refl)

-- A sequence that goes well has gone well in both parts.
pub >>=-done :
    {S A B : Type 0} (m : Call S A) (f : A → Call S B) (s s' : S) (b : B)
    → (m >>= f) s ≡ (done b, s')
    → (a : A) × (t : S) × (m s ≡ (done a, t)) × (f a t ≡ (done b, s'))
>>=-done {S = S} m f s s' b h = elim (Result-cases (m s)) [
  | inl (a, t, e) ↦ (a, t, e, ap (λ r. go_on r.0 f r.1) (sym e) ∙ h)
  | inr (message, t, e) ↦
      let g : go_on (failed message) f t ≡ (done b, s') = ap (λ r. go_on r.0 f r.1) (sym e) ∙ h in
      cc
]
