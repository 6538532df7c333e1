-- ===== src/Base/Dict.antt =====
-- std::unordered_map as an association list: `insert` is `m[k] = v`, `emplace` keeps an entry that
-- is there. The program iterates over none of its own maps, so the order is not modelled.
use project_moon.Base.{
  ◌≡◌, ◌≢◌, ◌⊎◌, refl, Option, none, some, List, [], ◌∷◌, arith, if◌then◌else◌, Eq, ◌==◌, beq_self,
}

abbrev pub Dict : Type 0 → Type 0 → Type 0
Dict K V = List (K × V)

module _ {K V : Type 0} ⦃e : Eq K⦄ where
  unfoldable pub erase : K → Dict K V → Dict K V
  erase key [] = []
  erase key ((at, value) ∷ entries) =
      let rest = erase key entries in if at == key then rest else (at, value) ∷ rest

  unfoldable pub insert : K → V → Dict K V → Dict K V
  insert key value [] = (key, value) ∷ []
  insert key value ((at, old) ∷ entries) =
      if at == key then (key, value) ∷ entries else (at, old) ∷ insert key value entries

  unfoldable pub lookup : K → Dict K V → Option V
  lookup key [] = none
  lookup key ((at, value) ∷ entries) = if at == key then some value else lookup key entries

  unfoldable pub emplace : K → V → Dict K V → Dict K V
  unfolding lookup insert
  emplace k v m = elim (lookup k m) [ none ↦ insert k v m | some _ ↦ m ]

  pub lookup-insert :
      (put asked : K) (value : V) (entries : Dict K V)
      → lookup asked (insert put value entries)
        ≡ (if put == asked then some value else lookup asked entries)
  unfolding lookup insert
  lookup-insert put asked value [] = refl
  lookup-insert put asked value ((at, old) ∷ entries) = ground (
    arith,
    lookup-insert put asked value entries,
    e.beq_iff put asked,
    e.beq_iff at put,
    e.beq_iff at asked,
  )

  pub lookup-erase :
      (k j : K) (m : Dict K V) → lookup j (erase k m) ≡ (if k == j then none else lookup j m)
  unfolding lookup erase
  lookup-erase k j [] = ground arith
  lookup-erase k j ((i, v) ∷ m) =
      ground (arith, lookup-erase k j m, e.beq_iff i k, e.beq_iff i j, e.beq_iff k j)

  -- `emplace` keeps the entry that is there.
  pub lookup-emplace :
      (k j : K) (v : V) (m : Dict K V)
      → lookup j (emplace k v m)
        ≡ elim (lookup j m) [ none ↦ if k == j then some v else none | some x ↦ some x ]
  unfolding emplace
  lookup-emplace k j v m = ground (arith, lookup-insert k j v m, e.beq_iff k j)

  -- An entry behind an `emplace` was there or is the new one.
  pub emplace-cases :
      (k j : K) (v x : V) (m : Dict K V)
      → lookup j (emplace k v m) ≡ some x
      → (lookup j m ≡ some x) ⊎ ((k ≡ j) × (x ≡ v))
  emplace-cases k j v x m h = ground (arith, h, lookup-emplace k j v m, e.beq_iff k j)

  -- An entry behind an `erase` was there, under another key.
  pub erase-cases :
      (k j : K) (x : V) (m : Dict K V)
      → lookup j (erase k m) ≡ some x
      → (lookup j m ≡ some x) × (k ≢ j)
  erase-cases k j x m h = ground (arith, h, lookup-erase k j m, e.beq_iff k j)

  pub lookup-insert_self : (k : K) (v : V) (m : Dict K V) → lookup k (insert k v m) ≡ some v
  lookup-insert_self k v m = simp (lookup-insert, beq_self)

  pub lookup-erase_self : (k : K) (m : Dict K V) → lookup k (erase k m) ≡ none
  lookup-erase_self k m = simp (lookup-erase, beq_self)

  -- An entry of `insert k v m` is the new one or an old one.
  pub insert-cases :
      (k j : K) (v x : V) (m : Dict K V)
      → lookup j (insert k v m) ≡ some x
      → ((k ≡ j) × (x ≡ v)) ⊎ ((k ≢ j) × (lookup j m ≡ some x))
  insert-cases k j v x m h = ground (arith, h, lookup-insert k j v m, e.beq_iff k j)

  -- The value of the last entry with that key, or what was found before
  abbrev pub last_value : K → Dict K V → Option V → Option V
  last_value asked [] found = found
  last_value asked ((key, value) ∷ entries) found =
      last_value asked entries (if key == asked then some value else found)

  -- No key stands twice.
  abbrev pub IsMap : Dict K V → Type 0
  IsMap [] = Unit {0}
  IsMap ((key, value) ∷ entries) = (lookup key entries ≡ none) × IsMap entries

  last_value_missing :
      (asked : K) (entries : Dict K V) (found : Option V)
      → lookup asked entries ≡ none
      → last_value asked entries found ≡ found
  unfolding lookup
  last_value_missing asked [] found h = refl
  last_value_missing asked ((key, value) ∷ entries) found h =
      ground (arith, h, last_value_missing asked entries found)

  pub last_value-lookup :
      (asked : K) (entries : Dict K V) (value : V) (found : Option V)
      → IsMap entries
      → lookup asked entries ≡ some value
      → last_value asked entries found ≡ some value
  unfolding lookup
  last_value-lookup asked [] v found m h = absurd (ground (arith, h))
  last_value-lookup asked ((key, value) ∷ entries) v found m h = ground (
    arith,
    h,
    e.beq_iff key asked,
    last_value_missing key entries (some v) m.0,
    last_value-lookup asked entries v found m.1,
  )

pub ruleset dict_laws = (lookup-insert, lookup-erase, beq_self)
