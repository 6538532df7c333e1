-- ===== src/MySql/Client/Rows.antt =====
-- A row of Query against its columns.
use project_moon.Base.{
  ℕ, zero, suc, ◌≡◌, ◌≢◌, refl, ap, ◌∙◌, Option, none, some, List, [], ◌∷◌, Bytes, bytes_eq,
  bytes_beq_iff, get_elem?, take, All, arith,
}
use project_moon.Base.Dict.{lookup, emplace, lookup-emplace}
use project_moon.Dungeon.MySql.{Row}
use project_moon.MySql.Client.{row_of}

abbrev pub text_of : Option Bytes → Bytes
text_of none = []
text_of (some text) = text

-- What is in the row stays there.
lookup-row_of_old :
    (name text : Bytes) (fields values : List (Option Bytes)) (row : Row)
    → lookup name row ≡ some text
    → lookup name (row_of fields values row) ≡ some text
unfolding row_of
lookup-row_of_old name text [] values row h = h
lookup-row_of_old name text (f ∷ fields) [] row h = h
lookup-row_of_old name text (f ∷ fields) (v ∷ values) row h =
    lookup-row_of_old name text fields values (emplace (text_of f) (text_of v) row)
      (ground (arith, h, lookup-emplace (text_of f) name (text_of v) row))

lookup-row_of_new :
    (name : Bytes) (i : ℕ) (field value : Option Bytes) (fields values : List (Option Bytes))
    (row : Row)
    → lookup name row ≡ none
    → get_elem? fields i ≡ some field
    → get_elem? values i ≡ some value
    → text_of field ≡ name
    → All (λ f. text_of f ≢ name) (take i fields)
    → lookup name (row_of fields values row) ≡ some (text_of value)
unfolding row_of
lookup-row_of_new name i field value [] values row h a b c d = cc
lookup-row_of_new name i field value (f ∷ fields) [] row h a b c d = cc
lookup-row_of_new name zero field value (f ∷ fields) (v ∷ values) row h a b c d =
    lookup-row_of_old name (text_of value) fields values (emplace (text_of f) (text_of v) row) (
      let here : f ≡ field = cc in
      let there : v ≡ value = cc in
      ground (
        arith,
        h,
        lookup-emplace (text_of f) name (text_of v) row,
        bytes_beq_iff (text_of f) name,
        ap text_of here ∙ c,
        ap text_of there,
      ))
lookup-row_of_new name (suc i) field value (f ∷ fields) (v ∷ values) row h a b c d =
    lookup-row_of_new name i field value fields values (emplace (text_of f) (text_of v) row)
      (ground (
        arith,
        h,
        lookup-emplace (text_of f) name (text_of v) row,
        bytes_beq_iff (text_of f) name,
        d.0,
      ))
      a b c d.1

lookup_nil : (name : Bytes) → lookup {V = Bytes} name [] ≡ none
unfolding lookup
lookup_nil name = refl

-- In a row that Query makes of a result's row, a column's name has the text of the first column of
-- that name, and the empty text where that is NULL.
pub lookup-row_of :
    (name : Bytes) (i : ℕ) (field value : Option Bytes) (fields values : List (Option Bytes))
    → get_elem? fields i ≡ some field
    → get_elem? values i ≡ some value
    → text_of field ≡ name
    → All (λ f. text_of f ≢ name) (take i fields)
    → lookup name (row_of fields values []) ≡ some (text_of value)
lookup-row_of name i field value fields values a b c d =
    lookup-row_of_new name i field value fields values [] (lookup_nil name) a b c d
