-- ===== src/Config.antt =====
-- common/src/config/simple_config.cpp: class SimpleConfig. The state is `values_`; a file is its
-- bytes, `none` where it cannot be opened.
pub mod Environment
pub mod Lines
pub mod Getters
use project_moon.Base.{
  ℕ, ◌+◌, Bool, true, false, not, ◌&&◌, ◌||◌, Option, none, some, List, [], ◌∷◌, ◌++◌, map, leb,
  if◌then◌else◌, Bytes, nat_eq, bytes_eq, ◌==◌, ℤ, ok, throw,
}
use project_moon.Base.Text.{codes, is_empty, split_at}
use project_moon.Base.Decimal.{stoi}
use project_moon.Base.Dict.{Dict, insert, lookup}
use project_moon.Config.Environment.{trim, expand_environment_variables}

-- The lines that std::getline reads: a last line without its end counts, an empty one does not.
unfoldable pub get_lines : Bytes → List Bytes
get_lines [] = []
get_lines (c ∷ input) =
    let rest = get_lines input in
    if c == b'\n'
    then [] ∷ rest
    else elim rest [ [] ↦ (c ∷ []) ∷ [] | line ∷ lines ↦ (c ∷ line) ∷ lines ]

-- `line.front() == '#'`, on a line that is not empty
starts_comment : Bytes → Bool
starts_comment [] = false
starts_comment (c ∷ line) = c == b'#'

module _ (getenv : Bytes → Option Bytes) where
  -- The body of the loop of LoadFromFile
  unfoldable pub load_line : Bytes → Dict Bytes Bytes → Dict Bytes Bytes
  unfolding starts_comment
  load_line raw values =
      let line = trim raw in
      if is_empty line || starts_comment line then values else elim (split_at b'=' line) [
        | none ↦ values
        | some (front, behind) ↦
            let key = trim front in
            let value = expand_environment_variables getenv (trim behind) in
            if not (is_empty key) then insert key value values else values
      ]

  unfoldable pub load_lines : List Bytes → Dict Bytes Bytes → Dict Bytes Bytes
  load_lines [] values = values
  load_lines (line ∷ lines) values = load_lines lines (load_line line values)

  unfoldable pub load_from_file : Option Bytes → Dict Bytes Bytes → Bool × Dict Bytes Bytes
  load_from_file none values = (false, values)
  load_from_file (some input) values = (true, load_lines (get_lines input) [])

unfoldable pub contains : Bytes → Dict Bytes Bytes → Bool
contains key values = elim (lookup key values) [ none ↦ false | some _ ↦ true ]

unfoldable pub get_string : Bytes → Bytes → Dict Bytes Bytes → Bytes
get_string key default_value values = elim (lookup key values) [
  | none ↦ default_value
  | some value ↦ value
]

unfoldable pub get_int : Bytes → ℤ → Dict Bytes Bytes → ℤ
get_int key default_value values = elim (lookup key values) [
  | none ↦ default_value
  | some value ↦ elim (stoi value) [ throw ↦ default_value | ok number ↦ number ]
]

-- std::tolower in the C locale
to_lower : ℕ → ℕ
to_lower c = if leb b'A' c && leb c b'Z' then c + 32 else c

says_yes : Bytes → Bool
says_yes lowered =
    lowered == codes "1"
    || lowered == codes "true"
    || lowered == codes "yes"
    || lowered == codes "on"

says_no : Bytes → Bool
says_no lowered =
    lowered == codes "0"
    || lowered == codes "false"
    || lowered == codes "no"
    || lowered == codes "off"

unfoldable pub get_bool : Bytes → Bool → Dict Bytes Bytes → Bool
unfolding to_lower says_yes says_no get_string
get_bool key default_value values =
    let value = get_string key [] values in
    let lowered = map to_lower value in
    if is_empty value
    then default_value
    else if says_yes lowered
    then true
    else if says_no lowered
    then false
    else default_value
