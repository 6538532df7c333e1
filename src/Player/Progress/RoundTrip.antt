-- ===== src/Player/Progress/RoundTrip.antt =====
-- A dungeon progress that is written into the cache is read back as it was.
use project_moon.Base.{
  append_nil, append_assoc, ℕ, ◌≡◌, ◌≢◌, refl, ap, ◌∙◌, Bool, true, false, some, List, [], ◌∷◌,
  ◌++◌, Bytes, bytes_eq, nat_eq, ◌==◌, ℤ, pos, negsuc, fits, if◌then◌else◌, ok, arith, All,
  All-append, beq_self, bytes_beq_iff, Bool-cases, inl, inr, nat_beq_iff,
}
use project_moon.Base.Text.{codes, is_empty, is_digit, Lacks}
use project_moon.Base.Decimal.{to_string, stoi-to_string, to_string-Lacks, nat_to_string_ne_nil}
use project_moon.Model.{PlayerDungeonProgress}
use project_moon.Player.Progress.{
  split_from, split, serialize_one, serialize_progress, parse_one, parse_tokens, parse_progress,
}

middle_ne_nil : (a b : Bytes) (x : ℕ) → (a ++ x ∷ []) ++ b ≢ []
middle_ne_nil [] b x e = cc
middle_ne_nil (y ∷ a) b x e = cc

append_ne_nil : (a b : Bytes) → a ≢ [] → a ++ b ≢ []
append_ne_nil [] b h e = h refl
append_ne_nil (x ∷ a) b h e = cc

ne_nil-is_empty : (a : Bytes) → a ≢ [] → is_empty a ≡ false
unfolding is_empty
ne_nil-is_empty [] h = absurd (h refl)
ne_nil-is_empty (x ∷ a) h = refl

-- What is read up to a separator is one item.
split_from-sep :
    (c : ℕ) (item a s : Bytes)
    → Lacks c a
    → item ++ a ≢ []
    → split_from c item (a ++ c ∷ s) ≡ (item ++ a) ∷ split_from c [] s
unfolding split_from
split_from-sep c item [] s h g =
    rw (beq_self c, append_nil item, ne_nil-is_empty item (λ e. g (append_nil item ∙ e)))
split_from-sep c item (x ∷ a) s h g =
    let differs : (x == c) ≡ false = ground (arith, h.0, nat_beq_iff x c) in
    rw (
      differs,
      split_from-sep c (item ++ x ∷ []) a s h.1 (middle_ne_nil item a x),
      append_assoc item (x ∷ []) a,
    )

split_from-end :
    (c : ℕ) (item a : Bytes) → Lacks c a → item ++ a ≢ [] → split_from c item a ≡ (item ++ a) ∷ []
unfolding split_from
split_from-end c item [] h g =
    rw (append_nil item, ne_nil-is_empty item (λ e. g (append_nil item ∙ e)))
split_from-end c item (x ∷ a) h g =
    let differs : (x == c) ≡ false = ground (arith, h.0, nat_beq_iff x c) in
    rw (
      differs,
      split_from-end c (item ++ x ∷ []) a h.1 (middle_ne_nil item a x),
      append_assoc item (x ∷ []) a,
    )

to_string_ne_nil : (z : ℤ) → to_string z ≢ []
unfolding to_string
to_string_ne_nil (pos n) e = nat_to_string_ne_nil n e
to_string_ne_nil (negsuc n) e = cc

-- A number in front of a separator is an item of its own.
split-number :
    (c : ℕ) (z : ℤ) (s : Bytes)
    → is_digit c ≡ false
    → c ≢ b'-'
    → split_from c [] (to_string z ++ c ∷ s) ≡ to_string z ∷ split_from c [] s
split-number c z s h g =
    split_from-sep c [] (to_string z) s (to_string-Lacks c z h g) (to_string_ne_nil z)

-- Both numbers are values of an int.
abbrev pub Fits : PlayerDungeonProgress → Type 0
Fits p = (fits 31 p.dungeon_id ≡ true) × (fits 31 p.best_star ≡ true)

flag_alone :
    (b : Bool)
    → split_from b':' [] (if b then codes "1" else codes "0")
      ≡ (if b then codes "1" else codes "0") ∷ []
unfolding split_from is_empty
flag_alone true = refl
flag_alone false = refl

flag_read : (b : Bool) → ((if b then codes "1" else codes "0") == codes "1") ≡ b
flag_read true = beq_self (codes "1")
flag_read false = elim (Bool-cases (codes "0" == codes "1")) [
  | inl e ↦ absurd (ground (arith, (bytes_beq_iff (codes "0") (codes "1")).0 e))
  | inr e ↦ e
]

flag-Lacks : (b : Bool) → Lacks b';' (if b then codes "1" else codes "0")
flag-Lacks true = ground arith
flag-Lacks false = ground arith

split-serialize_one :
    (p : PlayerDungeonProgress)
    → split b':' (serialize_one p)
      ≡ to_string p.dungeon_id
        ∷ to_string p.best_star
        ∷ (if p.is_first_clear then codes "1" else codes "0")
        ∷ []
unfolding split serialize_one
split-serialize_one p =
    rw
      (
        split-number b':' p.dungeon_id
            (to_string p.best_star ++ (b':' ∷ (if p.is_first_clear then codes "1" else codes "0")))
            (unfold is_digit in refl) (omega arith),
        split-number b':' p.best_star (if p.is_first_clear then codes "1" else codes "0")
            (unfold is_digit in refl) (omega arith),
      )
      (ap (λ rest. to_string p.dungeon_id ∷ to_string p.best_star ∷ rest)
        (flag_alone p.is_first_clear))

parse_one-serialize_one :
    (p : PlayerDungeonProgress) → Fits p → parse_one (serialize_one p) ≡ ok (some p)
unfolding parse_one
parse_one-serialize_one p h =
    rw
      (
        parse_one,
        split-serialize_one p,
        stoi-to_string p.dungeon_id h.0,
        stoi-to_string p.best_star h.1,
      )
      (ap (λ b. ok (some (record p { is_first_clear = b }))) (flag_read p.is_first_clear))

serialize_one-Lacks : (p : PlayerDungeonProgress) → Lacks b';' (serialize_one p)
unfolding serialize_one
serialize_one-Lacks p =
    All-append _ (to_string p.dungeon_id) _
      (to_string-Lacks b';' p.dungeon_id (unfold is_digit in refl) (omega arith))
      (
        omega arith,
        All-append _ (to_string p.best_star) _
            (to_string-Lacks b';' p.best_star (unfold is_digit in refl) (omega arith))
            (omega arith, flag-Lacks p.is_first_clear),
      )

serialize_one_ne_nil : (p : PlayerDungeonProgress) → serialize_one p ≢ []
unfolding serialize_one
serialize_one_ne_nil p = append_ne_nil (to_string p.dungeon_id) _ (to_string_ne_nil p.dungeon_id)

-- What is written for a progress whose numbers fit into an int is read back unchanged.
pub parse_progress-serialize_progress :
    (progress : List PlayerDungeonProgress)
    → All Fits progress
    → parse_progress (serialize_progress progress) ≡ ok progress
unfolding parse_progress serialize_progress split
parse_progress-serialize_progress [] h = unfold split_from is_empty parse_tokens in refl
parse_progress-serialize_progress (p ∷ []) h = rw (
  split_from-end b';' [] (serialize_one p) (serialize_one-Lacks p) (serialize_one_ne_nil p),
  parse_tokens,
  parse_one-serialize_one p h.0,
)
parse_progress-serialize_progress (p ∷ q ∷ rest) h =
    let parsed_rest : parse_tokens (split_from b';' [] (serialize_progress (q ∷ rest)))
        ≡ ok (q ∷ rest) =
      parse_progress-serialize_progress (q ∷ rest) h.1 in
    rw (
      split_from-sep b';' [] (serialize_one p) (serialize_progress (q ∷ rest))
          (serialize_one-Lacks p) (serialize_one_ne_nil p),
      parse_tokens,
      parse_one-serialize_one p h.0,
      parsed_rest,
    )
