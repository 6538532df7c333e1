-- ===== src/MySql/Players.antt =====
-- game_server/player/mysql_player_repository.cpp
pub mod Sorted
use project_moon.Base.{
  Bool, Option, none, some, List, [], ◌∷◌, ◌++◌, Bytes, bytes_eq, ◌==◌, ℤ, ltb_ℤ, if◌then◌else◌, ok,
  Exec, pure, lift, ◌>>=◌,
}
use project_moon.Base.Text.{codes}
use project_moon.Base.Decimal.{to_string, stoi, stoll}
use project_moon.Model.{PlayerProfile, PlayerDungeonProgress, PlayerState}
use project_moon.Player.{PlayerRepository}
use project_moon.Dungeon.MySql.{Row, at}
use project_moon.MySql.Client.{SqlClient}

unfoldable pub profile_select : ℤ → Bytes
profile_select player_id =
    codes "SELECT p.player_id, p.account_id, p.name, p.level, "
    ++ (codes
          "COALESCE(a.stamina, 0) AS stamina, COALESCE(a.gold, 0) AS gold, COALESCE(a.diamond, 0) AS diamond "
        ++ (codes "FROM player p "
            ++ (codes "LEFT JOIN player_asset a ON a.player_id = p.player_id "
                ++ (codes "WHERE p.player_id = " ++ (to_string player_id ++ codes " LIMIT 1")))))

unfoldable pub progress_select : ℤ → Bytes
progress_select player_id =
    codes "SELECT dungeon_id, best_star, is_first_clear FROM player_dungeon WHERE player_id = "
    ++ to_string player_id

unfoldable pub profile_of_row : Row → {S : Type 0} → Exec S PlayerProfile
profile_of_row row = do
  player_text ← lift (at (codes "player_id") row)
  player_id ← lift (stoll player_text)
  account_text ← lift (at (codes "account_id") row)
  account_id ← lift (stoll account_text)
  player_name ← lift (at (codes "name") row)
  level_text ← lift (at (codes "level") row)
  level ← lift (stoi level_text)
  stamina_text ← lift (at (codes "stamina") row)
  stamina ← lift (stoi stamina_text)
  gold_text ← lift (at (codes "gold") row)
  gold ← lift (stoll gold_text)
  diamond_text ← lift (at (codes "diamond") row)
  diamond ← lift (stoll diamond_text)
  pure (record {
    player_id = player_id;
    account_id = account_id;
    player_name = player_name;
    level = level;
    stamina = stamina;
    gold = gold;
    diamond = diamond;
  })

unfoldable pub progress_of_row : Row → {S : Type 0} → Exec S PlayerDungeonProgress
progress_of_row row = do
  dungeon_text ← lift (at (codes "dungeon_id") row)
  dungeon_id ← lift (stoi dungeon_text)
  star_text ← lift (at (codes "best_star") row)
  best_star ← lift (stoi star_text)
  first_text ← lift (at (codes "is_first_clear") row)
  pure (record {
    dungeon_id = dungeon_id;
    best_star = best_star;
    is_first_clear = first_text == codes "1";
  })

-- The loop over the rows
unfoldable pub progress_of_rows : List Row → {S : Type 0} → Exec S (List PlayerDungeonProgress)
progress_of_rows [] = pure []
progress_of_rows (row ∷ rows) = do
  progress ← progress_of_row row
  others ← progress_of_rows rows
  pure (progress ∷ others)

-- std::sort by the dungeon's id
unfoldable pub insert_sorted :
    PlayerDungeonProgress → List PlayerDungeonProgress → List PlayerDungeonProgress
insert_sorted p [] = p ∷ []
insert_sorted p (q ∷ sorted) =
    let later = insert_sorted p sorted in
    if ltb_ℤ q.dungeon_id p.dungeon_id then q ∷ later else p ∷ q ∷ sorted

unfoldable pub sort : List PlayerDungeonProgress → List PlayerDungeonProgress
unfolding insert_sorted
sort [] = []
sort (p ∷ progress) = insert_sorted p (sort progress)

module _ {S : Type 0} (mysql_client : SqlClient S) where
  -- What LoadPlayerState makes of the row of the profile
  unfoldable pub load_with_profile : ℤ → Row → Exec S PlayerState
  load_with_profile player_id row = do
    profile ← profile_of_row row
    progress_rows ← (λ s.
        let (rows, s') = mysql_client.query_rows (progress_select player_id) s in pure rows s')
    progress ← progress_of_rows progress_rows
    pure (record { profile = profile; dungeon_progress = sort progress })

  unfoldable pub load_player_state : ℤ → Exec S (Option PlayerState)
  unfolding load_with_profile
  load_player_state player_id s =
      let (row, s') = mysql_client.query_row (profile_select player_id) s in
      elim row [
        | none ↦ pure none s'
        | some r ↦ (do state ← load_with_profile player_id r; pure (some state)) s'
      ]

  -- The repository behind its interface
  abbrev pub mysql_player_repository : PlayerRepository S
  mysql_player_repository = record { load_player_state = load_player_state }
