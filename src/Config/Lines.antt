-- ===== src/Config/Lines.antt =====
-- LoadFromFile reads back what was written as lines of `key=value`.
use project_moon.Base.{
  append_nil, ℕ, true, false, ◌≡◌, ◌≢◌, refl, sym, ap, ◌∙◌, Option, none, some, List, [], ◌∷◌, ◌++◌,
  arith, Bytes, bytes_eq, nat_eq, All,
}
use project_moon.Base.Text.{
  is_empty, is_space, split_at-append, skip_spaces, drop_spaces_end, Lacks, Lacks-append,
}
use project_moon.Base.Dict.{Dict, insert, lookup, lookup-insert, last_value}
use project_moon.Config.Environment.{trim, expand_environment_variables}
use project_moon.Config.Environment.Laws.{literal, expand_environment_variables-written}
use project_moon.Config.{get_lines, load_line, load_lines, load_from_file, get_string}

-- The text does not begin with a space, and does not end with one.
abbrev pub Begins : Bytes → Type 0
Begins [] = Unit
Begins (c ∷ s) = is_space c ≡ false

abbrev pub Ends : Bytes → Type 0
Ends [] = Unit
Ends (c ∷ []) = is_space c ≡ false
Ends (c ∷ d ∷ s) = Ends (d ∷ s)

abbrev pub IsUncommented : Bytes → Type 0
IsUncommented [] = Unit
IsUncommented (c ∷ s) = c ≢ b'#'

drop_spaces_end-Ends : (s : Bytes) → Ends s → drop_spaces_end s ≡ s
unfolding drop_spaces_end is_empty
drop_spaces_end-Ends [] h = refl
drop_spaces_end-Ends (c ∷ []) h = ground (arith, h)
drop_spaces_end-Ends (c ∷ d ∷ s) h = ground (arith, drop_spaces_end-Ends (d ∷ s) h)

trim_lem : (s : Bytes) → Begins s → Ends s → trim s ≡ s
unfolding trim skip_spaces
trim_lem [] b e = drop_spaces_end-Ends [] tt
trim_lem (c ∷ s) b e = rw b (drop_spaces_end-Ends (c ∷ s) e)

Ends-append : (c : ℕ) (a b : Bytes) → is_space c ≡ false → Ends b → Ends (a ++ c ∷ b)
Ends-append c [] [] h e = h
Ends-append c [] (d ∷ b) h e = e
Ends-append c (x ∷ []) b h e = Ends-append c [] b h e
Ends-append c (x ∷ y ∷ a) b h e = Ends-append c (y ∷ a) b h e

get_lines-append :
    (line input : Bytes)
    → Lacks b'\n' line
    → get_lines (line ++ b'\n' ∷ input) ≡ line ∷ get_lines input
unfolding get_lines
get_lines-append [] input h = refl
get_lines-append (c ∷ line) input h = ground (arith, h.0, get_lines-append line input h.1)

-- The lines of a file, and what may stand in them.
abbrev pub file_of : List (Bytes × Bytes) → Bytes
file_of [] = []
file_of ((key, value) ∷ entries) = (key ++ b'=' ∷ value) ++ b'\n' ∷ file_of entries

pub record IsEntry (entry : Bytes × Bytes) : Type 0 where
  pub filled : is_empty entry.0 ≡ false
  pub no_comment : IsUncommented entry.0
  pub key_begins : Begins entry.0
  pub key_ends : Ends entry.0
  pub key_sign : Lacks b'=' entry.0
  pub key_line : Lacks b'\n' entry.0
  pub value_begins : Begins entry.1
  pub value_ends : Ends entry.1
  pub value_line : Lacks b'\n' entry.1
  pub value_plain : Lacks b'$' entry.1

sign_solid : is_space b'=' ≡ false
unfolding is_space
sign_solid = refl

get_lines_nil : get_lines [] ≡ []
unfolding get_lines
get_lines_nil = refl

lookup_nil : (asked : Bytes) → lookup {V = Bytes} asked [] ≡ none
unfolding lookup
lookup_nil asked = refl

insert_all : List (Bytes × Bytes) → Dict Bytes Bytes → Dict Bytes Bytes
insert_all [] values = values
insert_all ((key, value) ∷ entries) values = insert_all entries (insert key value values)

lookup-insert_all :
    (asked : Bytes) (entries : List (Bytes × Bytes)) (values : Dict Bytes Bytes)
    → lookup asked (insert_all entries values) ≡ last_value asked entries (lookup asked values)
unfolding insert_all
lookup-insert_all asked [] values = refl
lookup-insert_all asked ((key, value) ∷ entries) values =
    lookup-insert_all asked entries (insert key value values)
    ∙ ap (last_value asked entries) (lookup-insert key asked value values)

module _ (getenv : Bytes → Option Bytes) where
  expand_plain :
      (value : Bytes) → Lacks b'$' value → expand_environment_variables getenv value ≡ value
  expand_plain value h =
      ap (expand_environment_variables getenv) (sym (append_nil value))
      ∙ expand_environment_variables-written getenv (literal value ∷ []) (h, tt)
      ∙ append_nil value

  load_line-entry :
      (key value : Bytes) (values : Dict Bytes Bytes)
      → IsEntry (key, value)
      → load_line getenv (key ++ b'=' ∷ value) values ≡ insert key value values
  unfolding load_line is_empty
  load_line-entry [] value values h = absurd (cc h.filled)
  load_line-entry (c ∷ key) value values h =
      rw
        (
          trim_lem ((c ∷ key) ++ b'=' ∷ value) h.key_begins
              (Ends-append b'=' (c ∷ key) value sign_solid h.value_ends),
          load_line,
        )
        (ground (
          arith,
          h.no_comment,
          split_at-append b'=' (c ∷ key) value h.key_sign,
          trim_lem (c ∷ key) h.key_begins h.key_ends,
          trim_lem value h.value_begins h.value_ends,
          expand_plain value h.value_plain,
        ))

  load_lines-file_of :
      (entries : List (Bytes × Bytes)) (values : Dict Bytes Bytes)
      → All IsEntry entries
      → load_lines getenv (get_lines (file_of entries)) values ≡ insert_all entries values
  unfolding load_lines insert_all
  load_lines-file_of [] values h = rw get_lines_nil refl
  load_lines-file_of ((key, value) ∷ entries) values h =
      rw
        (
          get_lines-append (key ++ b'=' ∷ value) (file_of entries) (
              Lacks-append b'\n' key (b'=' ∷ value) h.0.key_line
                ((λ e. ground arith), h.0.value_line)),
          load_lines,
          load_line-entry key value values h.0,
        )
        (load_lines-file_of entries (insert key value values) h.1)

  -- A file whose lines are `key=value`, with keys that are not empty, have no `=` and do not begin with `#`, values without a dollar sign, and neither with a line's end inside or a space at an end, is loaded so that GetString gives under every key the value of the last line with it, and the default where no line has it; what was loaded before is forgotten.
  pub get_string-load_from_file :
      (entries : List (Bytes × Bytes)) (old : Dict Bytes Bytes) (asked default_value : Bytes)
      → All IsEntry entries
      → (load_from_file getenv (some (file_of entries)) old).0 ≡ true
        × get_string asked default_value (load_from_file getenv (some (file_of entries)) old).1
          ≡ elim (last_value asked entries none) [ none ↦ default_value | some value ↦ value ]
  unfolding load_from_file get_string
  get_string-load_from_file entries old asked default_value h = (
    refl,
    ap (λ r. elim r [ none ↦ default_value | some value ↦ value ])
        (ap (lookup asked) (load_lines-file_of entries [] h)
          ∙ lookup-insert_all asked entries []
          ∙ ap (last_value asked entries) (lookup_nil asked)),
  )
