-- ===== src/Dungeon/Sql.antt =====
-- The statements that mysql_dungeon_repository.cpp sends, as data: a constructor for each text that
-- the code builds, with the values that it puts in. `Tables` and `run` are what the MySQL manual
-- says of these statements over the tables of deploy/mysql/init/001_schema.sql; the theorems take
-- them as hypotheses on a client (`IsMySql`), they are no code of the repository.
use project_moon.Base.{
  ℕ, Bool, true, false, not, ◌&&◌, ◌||◌, Option, none, some, List, [], ◌∷◌, Bytes, bytes_eq, ℤ,
  int_eq, pos, ◌==◌, if◌then◌else◌, leb_ℤ, ◌+ℤ◌, ◌-ℤ◌,
}
use project_moon.Base.Dict.{Dict, lookup, insert}

pub data Statement : Type 0 where
  start_transaction commit rollback : Statement
  -- UPDATE player_asset SET stamina = stamina - c WHERE player_id = p AND stamina >= c
  take_stamina : ℤ → ℤ → Statement
  -- INSERT INTO dungeon_battle (battle_id, player_id, dungeon_id, status, cost_stamina)
  insert_battle : Bytes → ℤ → ℤ → ℤ → Statement
  -- UPDATE dungeon_battle SET status = 1, … WHERE battle_id = b AND status = 0
  finish_battle : Bytes → Statement
  -- UPDATE player_asset SET gold = gold + g[, diamond = diamond + d] WHERE player_id = p
  add_reward : ℤ → Option ℤ → ℤ → Statement
  -- INSERT INTO player_dungeon … ON DUPLICATE KEY UPDATE best_star = GREATEST(…), …
  upsert_progress : ℤ → ℤ → ℤ → Bool → Statement
  -- INSERT INTO reward_log (player_id, battle_id, reward_type, reward_json)
  log_reward : ℤ → Bytes → Bytes → ℤ → Statement

-- The SELECT statements: their WHERE clauses compare with the values given.
pub data Select : Type 0 where
  unfinished_battle : ℤ → Select
  battle_by_id : Bytes → Select
  clear_of : ℤ → ℤ → Select

pub record Battle : Type 0 where
  pub player_id : ℤ
  pub dungeon_id : ℤ
  pub settled : Bool
  pub cost_stamina : ℤ

pub record Asset : Type 0 where
  pub stamina : ℤ
  pub gold : ℤ
  pub diamond : ℤ

pub record Progress : Type 0 where
  pub player_id : ℤ
  pub dungeon_id : ℤ
  pub best_star : ℤ
  pub is_first_clear : Bool

pub record RewardLog : Type 0 where
  pub player_id : ℤ
  pub battle_id : Bytes
  pub reward_type : Bytes
  pub amount : ℤ

pub record Tables : Type 0 where
  pub player_asset : Dict ℤ Asset
  pub dungeon_battle : Dict Bytes Battle
  pub player_dungeon : List Progress
  pub reward_log : List RewardLog

-- The first row with that player and dungeon (the pair is a unique key).
unfoldable pub find_progress : ℤ → ℤ → List Progress → Option Progress
find_progress p d [] = none
find_progress p d (r ∷ rs) =
    if r.player_id == p && r.dungeon_id == d then some r else find_progress p d rs

unfoldable pub put_progress : Progress → List Progress → List Progress
put_progress q [] = q ∷ []
put_progress q (r ∷ rs) =
    if r.player_id == q.player_id && r.dungeon_id == q.dungeon_id
    then q ∷ rs
    else r ∷ put_progress q rs

unfoldable pub is_logged : ℤ → Bytes → Bytes → List RewardLog → Bool
is_logged p b t [] = false
is_logged p b t (r ∷ rs) =
    (r.player_id == p && (r.battle_id == b && r.reward_type == t)) || is_logged p b t rs

-- An unfinished battle of the player.
unfoldable pub is_busy : ℤ → Dict Bytes Battle → Bool
is_busy p [] = false
is_busy p ((k, b) ∷ m) = (b.player_id == p && not b.settled) || is_busy p m

unfoldable pub greatest : ℤ → ℤ → ℤ
greatest a b = if leb_ℤ a b then b else a

-- The tables afterwards and the count of changed rows, as far as the code reads it; `none` where a
-- unique key forbids the statement.
unfoldable pub run : Statement → Tables → Option (Tables × ℕ)
run start_transaction t = some (t, 0)
run commit t = some (t, 0)
run rollback t = some (t, 0)
run (take_stamina cost p) t = elim (lookup p t.player_asset) [
  | none ↦ some (t, 0)
  | some a ↦
      if leb_ℤ cost a.stamina
      then some (
        record t {
          player_asset = insert p (record a { stamina = a.stamina -ℤ cost }) t.player_asset;
        },
        if cost == pos 0 then 0 else 1,
      )
      else some (t, 0)
]
run (insert_battle id p d cost) t = elim (lookup id t.dungeon_battle) [
  | some b ↦ none
  | none ↦ some (
    record t {
      dungeon_battle =
          insert id (record { player_id = p; dungeon_id = d; settled = false; cost_stamina = cost })
            t.dungeon_battle;
    },
    1,
  )
]
run (finish_battle id) t = elim (lookup id t.dungeon_battle) [
  | none ↦ some (t, 0)
  | some b ↦
      if b.settled
      then some (t, 0)
      else some (
        record t { dungeon_battle = insert id (record b { settled = true }) t.dungeon_battle },
        1,
      )
]
run (add_reward gold diamond p) t = elim (lookup p t.player_asset) [
  | none ↦ some (t, 0)
  | some a ↦ some (
    record t {
      player_asset =
          insert p
            (record a {
              gold = a.gold +ℤ gold;
              diamond = elim diamond [ none ↦ a.diamond | some d ↦ a.diamond +ℤ d ];
            })
            t.player_asset;
    },
    1,
  )
]
run (upsert_progress p d star first) t = elim (find_progress p d t.player_dungeon) [
  | none ↦ some (
    record t {
      player_dungeon =
          put_progress
            (record { player_id = p; dungeon_id = d; best_star = star; is_first_clear = first })
            t.player_dungeon;
    },
    1,
  )
  | some r ↦ some (
    record t {
      player_dungeon =
          put_progress
            (record r {
              best_star = greatest r.best_star star;
              is_first_clear = r.is_first_clear || first;
            })
            t.player_dungeon;
    },
    2,
  )
]
run (log_reward p b type amount) t =
    if is_logged p b type t.reward_log
    then none
    else some (
      record t {
        reward_log =
            record { player_id = p; battle_id = b; reward_type = type; amount = amount }
            ∷ t.reward_log;
      },
      1,
    )

-- What one connection sees, and what a rollback goes back to.
pub record Connection : Type 0 where
  pub tables : Tables
  pub saved : Option Tables

unfoldable pub run_on : Statement → Connection → Option (Connection × ℕ)
run_on start_transaction c = some (record c { saved = some c.tables }, 0)
run_on commit c = some (record c { saved = none }, 0)
run_on rollback c = elim c.saved [
  | none ↦ some (c, 0)
  | some t ↦ some (record { tables = t; saved = none }, 0)
]
run_on s c = elim (run s c.tables) [ none ↦ none | some (t, n) ↦ some (record c { tables = t }, n) ]
