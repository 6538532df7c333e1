-- ===== src/Config/Environment/Laws.antt =====
-- The loop of ExpandEnvironmentVariables ends, and what it leaves.
use project_moon.Base.{
  append_assoc, ℕ, zero, suc, ◌≤◌, ◌≡◌, ◌≢◌, refl, sym, ap, ◌∙◌, subst, Option, none, some, List,
  [], ◌∷◌, ◌++◌, arith, Bytes, length, All, inl, inr, ◌⊎◌,
}
use project_moon.Base.Text.{
  split_at, split_at_pair, split_at-append, length-split_at, length-split_at_pair,
  split_at_pair_skip, split_at_pair-Lacks, Lacks,
}
use project_moon.Config.Environment.{
  resolve_environment_reference, expand_from, expand_environment_variables,
}

-- A search has found something or not.
Split-cases : (r : Option (Bytes × Bytes)) → ((a b : Bytes) × (r ≡ some (a, b))) ⊎ (r ≡ none)
Split-cases none = inr refl
Split-cases (some (a, b)) = inl (a, b, refl)

module _ (getenv : Bytes → Option Bytes) where
  -- What the text becomes, without a bound on the rounds: the first `${` that a `}` follows is
  -- replaced by its value, what stands before it is kept, and only the text behind it is read on.
  pub data Expands : Bytes → Bytes → Type 0 where
    plain : {text out : Bytes} → split_at_pair b'$' b'{' text ≡ none → out ≡ text → Expands text out
    unclosed :
        {text out : Bytes} (before behind : Bytes)
        → split_at_pair b'$' b'{' text ≡ some (before, behind)
        → split_at b'}' behind ≡ none
        → out ≡ text
        → Expands text out
    replaced :
        {text out : Bytes} (before behind expression tail more : Bytes)
        → split_at_pair b'$' b'{' text ≡ some (before, behind)
        → split_at b'}' behind ≡ some (expression, tail)
        → Expands tail more
        → out ≡ before ++ (resolve_environment_reference getenv expression ++ more)
        → Expands text out

  -- A step of the loop is a step of the relation.
  abbrev Done : ℕ → Bytes → Type 0
  Done fuel text =
      (out : Bytes) × Expands text out
      × ((front : Bytes) → expand_from getenv fuel front text ≡ front ++ out)

  one_round :
      (fuel : ℕ) (text before behind expression tail : Bytes)
      → split_at_pair b'$' b'{' text ≡ some (before, behind)
      → split_at b'}' behind ≡ some (expression, tail)
      → Done fuel tail
      → Done (suc fuel) text
  unfolding expand_from
  one_round fuel text before behind expression tail opened ended (more, is, runs) =
      let value = resolve_environment_reference getenv expression in
      (
        before ++ (value ++ more),
        replaced before behind expression tail more opened ended is refl,
        λ front.
            rw (opened, expand_from)
              (rw ended (
                runs (front ++ before ++ value)
                ∙ append_assoc (front ++ before) value more
                ∙ append_assoc front before (value ++ more))),
      )

  expand_from-Done : (fuel : ℕ) (text : Bytes) → length text ≤ fuel → Done fuel text
  unfolding expand_from
  expand_from-Done zero [] enough = ([], plain (split_at_pair-Lacks _ _ [] tt) refl, λ front. refl)
  expand_from-Done zero (c ∷ text) enough = absurd (omega (arith, enough))
  expand_from-Done (suc fuel) text enough = elim (Split-cases (split_at_pair b'$' b'{' text)) [
    | inr missing ↦ (text, plain missing refl, λ front. rw (missing, expand_from) refl)
    | inl (before, behind, opened) ↦ elim (Split-cases (split_at b'}' behind)) [
      | inr open_end ↦ (
        text,
        unclosed before behind opened open_end refl,
        λ front. rw (opened, expand_from) (rw open_end refl),
      )
      | inl (expression, tail, ended) ↦
          one_round fuel text before behind expression tail opened ended (
            expand_from-Done fuel tail (
              omega (
                arith,
                enough,
                length-split_at_pair b'$' b'{' text before behind opened,
                length-split_at b'}' behind expression tail ended,
              )))
    ]
  ]

  -- The loop of ExpandEnvironmentVariables comes to an end on every text, and its result is the one
  -- that the rules of Expands give, which bound no number of rounds.
  pub expand_environment_variables-Expands :
      (text : Bytes) → Expands text (expand_environment_variables getenv text)
  unfolding expand_environment_variables
  expand_environment_variables-Expands text =
      let (out, is, runs) = expand_from-Done (length text) text (omega arith) in
      subst (Expands text) (sym (runs [])) is

  Expands-cons :
      (c : ℕ) (text out : Bytes) → c ≢ b'$' → Expands text out → Expands (c ∷ text) (c ∷ out)
  Expands-cons c text out other (plain h e) =
      plain (split_at_pair_skip b'$' b'{' c text other ∙ rw h) (ap (λ s. c ∷ s) e)
  Expands-cons c text out other (unclosed before behind o n e) =
      unclosed (c ∷ before) behind (split_at_pair_skip b'$' b'{' c text other ∙ rw o) n
        (ap (λ s. c ∷ s) e)
  Expands-cons c text out other (replaced before behind x t m o n is e) =
      replaced (c ∷ before) behind x t m (split_at_pair_skip b'$' b'{' c text other ∙ rw o) n is
        (ap (λ s. c ∷ s) e)

  -- A text without a dollar sign in front is kept.
  Expands-literal :
      (s text out : Bytes) → Lacks b'$' s → Expands text out → Expands (s ++ text) (s ++ out)
  Expands-literal [] text out lacks e = e
  Expands-literal (c ∷ s) text out lacks e =
      Expands-cons c (s ++ text) (s ++ out) lacks.0 (Expands-literal s text out lacks.1 e)

  Expands-reference :
      (expression text out : Bytes)
      → Lacks b'}' expression
      → Expands text out
      → Expands
          (b'$' ∷ b'{' ∷ (expression ++ b'}' ∷ text))
          (resolve_environment_reference getenv expression ++ out)
  unfolding split_at_pair
  Expands-reference expression text out lacks e =
      replaced [] _ expression text out refl (split_at-append b'}' expression text lacks) e refl

  -- The rules give one result.
  pub Expands-unique : {text a b : Bytes} → Expands text a → Expands text b → a ≡ b
  Expands-unique (plain h e) (plain h' e') = cc
  Expands-unique (plain h e) (unclosed before behind o c e') = cc
  Expands-unique (plain h e) (replaced before behind x t m o c is e') = cc
  Expands-unique (unclosed before behind o c e) (plain h' e') = cc
  Expands-unique (unclosed before behind o c e) (unclosed before' behind' o' c' e') = cc
  Expands-unique (unclosed before behind o c e) (replaced before' behind' x t m o' c' is e') =
      let same : behind ≡ behind' = ground (arith, o, o') in absurd (ground (arith, c, c', same))
  Expands-unique (replaced before behind x t m o c is e) (plain h' e') = cc
  Expands-unique (replaced before behind x t m o c is e) (unclosed before' behind' o' c' e') =
      let same : behind ≡ behind' = ground (arith, o, o') in absurd (ground (arith, c, c', same))
  Expands-unique (replaced before behind x t m o c is e)
        (replaced before' behind' x' t' m' o' c' is' e') =
      let same : behind ≡ behind' = ground (arith, o, o') in
      let front : before ≡ before' = ground (arith, o, o') in
      let inside : x ≡ x' = ground (arith, c, c', same) in
      let after : t' ≡ t = ground (arith, c, c', same) in
      let rest = Expands-unique is (subst (λ s. Expands s m') after is') in cc

-- A text that was put together of literals and references.
pub data Piece : Type 0 where
  literal : Bytes → Piece
  reference : Bytes → Piece

abbrev pub written : List Piece → Bytes
written [] = []
written (literal s ∷ pieces) = s ++ written pieces
written (reference s ∷ pieces) = b'$' ∷ b'{' ∷ (s ++ b'}' ∷ written pieces)

abbrev pub IsPlain : Piece → Type 0
IsPlain (literal s) = Lacks b'$' s
IsPlain (reference s) = Lacks b'}' s

module _ (getenv : Bytes → Option Bytes) where
  abbrev pub meant : List Piece → Bytes
  meant [] = []
  meant (literal s ∷ pieces) = s ++ meant pieces
  meant (reference s ∷ pieces) = resolve_environment_reference getenv s ++ meant pieces

  Expands-written :
      (pieces : List Piece) → All IsPlain pieces → Expands getenv (written pieces) (meant pieces)
  Expands-written [] h = plain (split_at_pair-Lacks _ _ [] tt) refl
  Expands-written (literal s ∷ pieces) h =
      Expands-literal getenv s _ _ h.0 (Expands-written pieces h.1)
  Expands-written (reference s ∷ pieces) h =
      Expands-reference getenv s _ _ h.0 (Expands-written pieces h.1)

  -- In a text put together of literals without a dollar sign and of references `${…}` whose
  -- inside has no closing brace, every reference is replaced by its value and nothing else is
  -- changed; in particular what a value brings in is not expanded again.
  pub expand_environment_variables-written :
      (pieces : List Piece)
      → All IsPlain pieces
      → expand_environment_variables getenv (written pieces) ≡ meant pieces
  expand_environment_variables-written pieces h =
      Expands-unique getenv (expand_environment_variables-Expands getenv (written pieces))
        (Expands-written pieces h)
