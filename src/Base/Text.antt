-- ===== src/Base/Text.antt =====
-- Texts as lists of bytes: literals, concatenation, searching and cutting, as std::string has them.
use Prim.Native.Char.{code}
use project_moon.Base.{
  ℕ, ◌+◌, ◌≡◌, ◌≢◌, refl, sym, ap, ◌∙◌, Bool, true, false, ◌&&◌, ◌||◌, Option, none, some, [], ◌∷◌,
  ◌++◌, String, arith, leb, if◌then◌else◌, ◌==◌, nat_eq, Bytes, All, All-append, length,
}

-- The bytes of an ASCII literal.
abbrev pub codes : String → Bytes
codes String.[] = []
codes (String.◌∷◌ letter rest) = code letter ∷ codes rest

unfoldable pub is_empty : Bytes → Bool
is_empty [] = true
is_empty (c ∷ s) = false

-- std::isspace in the C locale
unfoldable pub is_space : ℕ → Bool
is_space c = c == b' ' || (leb 9 c && leb c 13)

unfoldable pub is_digit : ℕ → Bool
is_digit c = leb b'0' c && leb c b'9'

-- `s.find(c)`: the text before the first `c` and the text behind it; `none` is npos.
unfoldable pub split_at : ℕ → Bytes → Option (Bytes × Bytes)
split_at c [] = none
split_at c (x ∷ s) =
    if x == c
    then some ([], s)
    else elim (split_at c s) [ none ↦ none | some (a, b) ↦ some (x ∷ a, b) ]

-- `s.find` of the text of the two bytes `c` and `d`: what stands before its first occurrence and
-- what stands behind it.
unfoldable pub split_at_pair : ℕ → ℕ → Bytes → Option (Bytes × Bytes)
split_at_pair c d [] = none
split_at_pair c d (x ∷ []) = none
split_at_pair c d (x ∷ y ∷ s) =
    if x == c && y == d
    then some ([], s)
    else elim (split_at_pair c d (y ∷ s)) [ none ↦ none | some (a, b) ↦ some (x ∷ a, b) ]

-- The text from its first byte that is no space
unfoldable pub skip_spaces : Bytes → Bytes
skip_spaces [] = []
skip_spaces (c ∷ s) = let rest = skip_spaces s in if is_space c then rest else c ∷ s

-- The text up to its last byte that is no space
unfoldable pub drop_spaces_end : Bytes → Bytes
drop_spaces_end [] = []
drop_spaces_end (c ∷ s) =
    let rest = drop_spaces_end s in if is_space c && is_empty rest then [] else c ∷ rest

-- No byte of the text is `c`.
abbrev pub Lacks : ℕ → Bytes → Type 0
Lacks c = All (λ x. x ≢ c)

pub Lacks-append : (c : ℕ) (a b : Bytes) → Lacks c a → Lacks c b → Lacks c (a ++ b)
Lacks-append c = All-append (λ x. x ≢ c)

pub split_at-append : (c : ℕ) (a b : Bytes) → Lacks c a → split_at c (a ++ c ∷ b) ≡ some (a, b)
unfolding split_at
split_at-append c [] b h = ground arith
split_at-append c (x ∷ a) b h = ground (arith, split_at-append c a b h.1, h.0)

pub split_at_parts :
    (c : ℕ) (s a b : Bytes) → split_at c s ≡ some (a, b) → (s ≡ a ++ c ∷ b) × Lacks c a
unfolding split_at
split_at_parts c [] a b h = cc
split_at_parts c (x ∷ s) [] b h = ground arith
split_at_parts c (x ∷ s) (y ∷ a) b h = ground (arith, split_at_parts c s a b)

pub split_at-Lacks : (c : ℕ) (s : Bytes) → Lacks c s → split_at c s ≡ none
unfolding split_at
split_at-Lacks c [] h = refl
split_at-Lacks c (x ∷ s) h = ground (arith, split_at-Lacks c s h.1, h.0)

-- A separator that neither front nor back has splits a text in one way.
pub append_sep_injective :
    (c : ℕ) (a a' b b' : Bytes)
    → Lacks c a
    → Lacks c a'
    → a ++ c ∷ b ≡ a' ++ c ∷ b'
    → (a ≡ a') × (b ≡ b')
append_sep_injective c a a' b b' h h' e =
    let p = sym (split_at-append c a b h) ∙ ap (split_at c) e ∙ split_at-append c a' b' h' in
    ground arith

-- What a search leaves out is what it looked for.
pub length-split_at :
    (c : ℕ) (s a b : Bytes) → split_at c s ≡ some (a, b) → length s ≡ length a + length b + 1
unfolding split_at
length-split_at c [] a b h = absurd (ground (arith, h))
length-split_at c (x ∷ s) [] b h = ground (arith, h)
length-split_at c (x ∷ s) (y ∷ a) b h = ground (arith, h, length-split_at c s a b)

pub length-split_at_pair :
    (c d : ℕ) (s a b : Bytes)
    → split_at_pair c d s ≡ some (a, b)
    → length s ≡ length a + length b + 2
unfolding split_at_pair
length-split_at_pair c d [] a b h = absurd (ground (arith, h))
length-split_at_pair c d (x ∷ []) a b h = absurd (ground (arith, h))
length-split_at_pair c d (x ∷ y ∷ s) [] b h = ground (arith, h)
length-split_at_pair c d (x ∷ y ∷ s) (z ∷ a) b h =
    ground (arith, h, length-split_at_pair c d (y ∷ s) a b)

-- The search goes past a text in which the first byte does not stand.
pub split_at_pair-Lacks : (c d : ℕ) (s : Bytes) → Lacks c s → split_at_pair c d s ≡ none
unfolding split_at_pair
split_at_pair-Lacks c d [] h = refl
split_at_pair-Lacks c d (x ∷ []) h = refl
split_at_pair-Lacks c d (x ∷ y ∷ s) h = ground (arith, split_at_pair-Lacks c d (y ∷ s) h.1, h.0)

pub split_at_pair_skip :
    (c d x : ℕ) (s : Bytes)
    → x ≢ c
    → split_at_pair c d (x ∷ s)
      ≡ elim (split_at_pair c d s) [ none ↦ none | some (a, b) ↦ some (x ∷ a, b) ]
unfolding split_at_pair
split_at_pair_skip c d x [] h = refl
split_at_pair_skip c d x (y ∷ s) h = ground (arith, h)
