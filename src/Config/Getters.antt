-- ===== src/Config/Getters.antt =====
-- GetInt gives a value of its type.
use project_moon.Base.{
  ◌≡◌, ◌⊎◌, inl, inr, refl, true, Option-cases, Bytes, bytes_eq, ℤ, fits, Outcome, ok, throw, arith,
}
use project_moon.Base.Decimal.{to_string, stoi, stoi-fits, stoi-to_string}
use project_moon.Base.Dict.{Dict, lookup, insert, lookup-insert_self}
use project_moon.Config.{get_int}

Read-cases : (r : Outcome ℤ) → ((z : ℤ) × (r ≡ ok z)) ⊎ (r ≡ throw)
Read-cases (ok z) = inl (z, refl)
Read-cases throw = inr refl

-- Where the default is a value of a 32-bit int, GetInt gives one whatever text stands under the
-- key, or no text; and a number of that type that stands there as std::to_string writes it is the
-- number that GetInt gives.
pub get_int-fits :
    (key : Bytes) (default_value : ℤ) (values : Dict Bytes Bytes)
    → fits 31 default_value ≡ true
    → (fits 31 (get_int key default_value values) ≡ true)
      × ((number : ℤ)
          → fits 31 number ≡ true
          → get_int key default_value (insert key (to_string number) values) ≡ number)
unfolding get_int
get_int-fits key d values h = (
  elim (Option-cases (lookup key values)) [
    | inl missing ↦ ground (arith, missing, h)
    | inr (text, found) ↦ elim (Read-cases (stoi text)) [
      | inl (z, reads) ↦ ground (arith, found, reads, stoi-fits text z reads)
      | inr no_number ↦ ground (arith, found, no_number, h)
    ]
  ],
  λ number fit.
      ground (arith, lookup-insert_self key (to_string number) values, stoi-to_string number fit),
)
