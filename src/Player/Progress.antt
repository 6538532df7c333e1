-- ===== src/Player/Progress.antt =====
-- game_server/player/redis_player_cache_repository.cpp: a player's dungeon progress as a text,
-- "id:star:clear" for each dungeon, with ';' between them.
pub mod RoundTrip
use project_moon.Base.{
  ℕ, Option, none, some, List, [], ◌∷◌, ◌++◌, Bytes, bytes_eq, nat_eq, ◌==◌, if◌then◌else◌, Outcome,
  ok, throw,
}
use project_moon.Base.Text.{codes, is_empty}
use project_moon.Base.Decimal.{to_string, stoi}
use project_moon.Model.{PlayerDungeonProgress}

-- Split: the stretches between separators, without the empty ones. The item that is being read
-- is `item`.
unfoldable pub split_from : ℕ → Bytes → Bytes → List Bytes
split_from separator item [] = if is_empty item then [] else item ∷ []
split_from separator item (c ∷ s) =
    let next = split_from separator [] s in
    let more = split_from separator (item ++ c ∷ []) s in
    if c == separator then (if is_empty item then next else item ∷ next) else more

unfoldable pub split : ℕ → Bytes → List Bytes
unfolding split_from
split separator input = split_from separator [] input

unfoldable pub serialize_one : PlayerDungeonProgress → Bytes
serialize_one p =
    to_string p.dungeon_id
    ++ (b':' ∷ to_string p.best_star
        ++ (b':' ∷ (if p.is_first_clear then codes "1" else codes "0")))

-- SerializeProgress
unfoldable pub serialize_progress : List PlayerDungeonProgress → Bytes
serialize_progress [] = []
serialize_progress (p ∷ []) = serialize_one p
serialize_progress (p ∷ q ∷ rest) = serialize_one p ++ b';' ∷ serialize_progress (q ∷ rest)

-- One token: `ok none` where it is passed over.
unfoldable pub parse_one : Bytes → Outcome (Option PlayerDungeonProgress)
parse_one token = elim (split b':' token) [
  | [] ↦ ok none
  | id ∷ behind_id ↦ elim behind_id [
    | [] ↦ ok none
    | star ∷ behind_star ↦ elim behind_star [
      | [] ↦ ok none
      | clear ∷ more ↦ elim more [
        | _ ∷ _ ↦ ok none
        | [] ↦ elim (stoi id) [
          | throw ↦ throw
          | ok dungeon_id ↦ elim (stoi star) [
            | throw ↦ throw
            | ok best_star ↦ ok (
                some (record {
                  dungeon_id = dungeon_id;
                  best_star = best_star;
                  is_first_clear = clear == codes "1";
                }))
          ]
        ]
      ]
    ]
  ]
]

unfoldable pub parse_tokens : List Bytes → Outcome (List PlayerDungeonProgress)
parse_tokens [] = ok []
parse_tokens (token ∷ tokens) = elim (parse_one token) [
  | throw ↦ throw
  | ok found ↦ elim (parse_tokens tokens) [
    | throw ↦ throw
    | ok rest ↦ ok (elim found [ none ↦ rest | some p ↦ p ∷ rest ])
  ]
]

-- ParseProgress
unfoldable pub parse_progress : Bytes → Outcome (List PlayerDungeonProgress)
unfolding parse_tokens split
parse_progress raw_value = parse_tokens (split b';' raw_value)
