-- ===== src/Tests/Config.antt =====
-- Configuration files with references to the environment.
use project_moon.Base.{
  ◌≡◌, refl, true, false, Option, none, some, List, [], ◌∷◌, Bytes, bytes_eq, arith, ◌==◌,
  bytes_beq, if◌then◌else◌, ℤ, pos, negsuc, fits, All,
}
use project_moon.Base.Text.{
  codes, is_empty, is_space, split_at, split_at_pair, skip_spaces, drop_spaces_end,
}
use project_moon.Base.Decimal.{stoi, to_string}
use project_moon.Base.Dict.{lookup, insert}
use project_moon.Config.Environment.{
  trim, expand_environment_variables, expand_from, resolve_environment_reference,
}
use project_moon.Config.Environment.Laws.{
  Expands, expand_environment_variables-Expands, Piece, literal, reference, written, meant, IsPlain,
  expand_environment_variables-written,
}
use project_moon.Config.Lines.{file_of, IsEntry, get_string-load_from_file}
use project_moon.Config.Getters.{get_int-fits}
use project_moon.Config.{
  load_from_file, load_lines, load_line, get_lines, contains, get_string, get_int, get_bool,
}

-- HOME is set, EMPTY is set to nothing.
abbrev home : Bytes → Option Bytes
home name =
    if name == codes "HOME"
    then some (codes "/root")
    else if name == codes "EMPTY"
    then some []
    else none

abbrev file : Bytes
file =
    codes
      " # a comment\n\nport = 7001\r\nhost=${ HOST :- local }\npath=${HOME}/x${EMPTY}\nnothing\n=3\ndebug=On"

loaded : load_from_file home (some file) [] ≡ (
  true,
  (codes "port", codes "7001")
      ∷ (codes "host", codes "local")
      ∷ (codes "path", codes "/root/x")
      ∷ (codes "debug", codes "On")
      ∷ [],
)
unfolding load_from_file load_lines get_lines load_line is_empty trim drop_spaces_end skip_spaces
    is_space split_at split_at_pair insert bytes_beq expand_environment_variables expand_from
    resolve_environment_reference
loaded = refl

missing_file :
    load_from_file home none ((codes "a", codes "b") ∷ []) ≡ (false, (codes "a", codes "b") ∷ [])
unfolding load_from_file
missing_file = refl

reads_int : get_int (codes "port") (pos 1) ((codes "port", codes "-7x") ∷ []) ≡ negsuc 6
unfolding get_int lookup bytes_beq stoi
reads_int = refl

falls_back : get_int (codes "port") (pos 1) ((codes "port", codes "x7") ∷ []) ≡ pos 1
unfolding get_int lookup bytes_beq stoi
falls_back = refl

reads_bool : get_bool (codes "debug") false ((codes "debug", codes "YeS") ∷ []) ≡ true
unfolding get_bool is_empty lookup bytes_beq
reads_bool = refl

unknown_bool : get_bool (codes "debug") true ((codes "debug", codes "maybe") ∷ []) ≡ true
unfolding get_bool is_empty lookup bytes_beq
unknown_bool = refl

is_there : contains (codes "a") ((codes "a", []) ∷ []) ≡ true
unfolding contains lookup bytes_beq
is_there = refl

expand_environment_variables-Expands_example :
    Expands home (codes "a${HOME}b${") (expand_environment_variables home (codes "a${HOME}b${"))
expand_environment_variables-Expands_example =
    expand_environment_variables-Expands home (codes "a${HOME}b${")

abbrev pieces : List Piece
pieces = literal (codes "a") ∷ reference (codes "HOME") ∷ literal (codes "}b") ∷ []

pieces-IsPlain : All IsPlain pieces
pieces-IsPlain = omega arith

expand_environment_variables-written_example :
    expand_environment_variables home (written pieces) ≡ meant home pieces
expand_environment_variables-written_example =
    expand_environment_variables-written home pieces pieces-IsPlain

abbrev entries : List (Bytes × Bytes)
entries = (codes "k", codes "old") ∷ (codes "k", codes "a b") ∷ []

old-IsEntry : IsEntry (codes "k", codes "old")
unfolding is_space is_empty
old-IsEntry = record {
  filled = refl;
  no_comment = omega arith;
  key_begins = refl;
  key_ends = refl;
  key_sign = omega arith;
  key_line = omega arith;
  value_begins = refl;
  value_ends = refl;
  value_line = omega arith;
  value_plain = omega arith;
}

new-IsEntry : IsEntry (codes "k", codes "a b")
unfolding is_space is_empty
new-IsEntry = record {
  filled = refl;
  no_comment = omega arith;
  key_begins = refl;
  key_ends = refl;
  key_sign = omega arith;
  key_line = omega arith;
  value_begins = refl;
  value_ends = refl;
  value_line = omega arith;
  value_plain = omega arith;
}

entries-IsEntry : All IsEntry entries
entries-IsEntry = (old-IsEntry, (new-IsEntry, tt))

get_string-load_from_file_example :
    ((load_from_file home (some (file_of entries)) []).0 ≡ true)
    × (get_string (codes "k") [] (load_from_file home (some (file_of entries)) []).1 ≡ codes "a b")
unfolding bytes_beq
get_string-load_from_file_example =
    get_string-load_from_file home entries [] (codes "k") [] entries-IsEntry

get_int-fits_example :
    (fits 31 (get_int (codes "port") (pos 1) []) ≡ true)
    × ((number : ℤ)
        → fits 31 number ≡ true
        → get_int (codes "port") (pos 1) (insert (codes "port") (to_string number) []) ≡ number)
get_int-fits_example = get_int-fits (codes "port") (pos 1) [] refl
