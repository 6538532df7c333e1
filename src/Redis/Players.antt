-- ===== src/Redis/Players.antt =====
-- game_server/player/redis_player_cache_repository.cpp; the progress is in Player.Progress.
pub mod RoundTrip
use project_moon.Base.{
  Bool, Option, none, some, [], ◌∷◌, ◌++◌, Bytes, ℤ, ok, Exec, pure, lift, ◌>>=◌,
}
use project_moon.Base.Text.{codes}
use project_moon.Base.Decimal.{to_string, stoi, stoll}
use project_moon.Base.Dict.{Dict}
use project_moon.Model.{PlayerState}
use project_moon.Player.{PlayerCacheRepository}
use project_moon.Player.Progress.{serialize_progress, parse_progress}
use project_moon.Redis.{RedisClient, at, non_empty}

unfoldable pub cache_key : ℤ → Bytes
cache_key player_id = codes "player:snapshot:" ++ to_string player_id

-- The fields that Save writes.
unfoldable pub fields : PlayerState → Dict Bytes Bytes
fields player_state =
    (codes "player_id", to_string player_state.profile.player_id)
    ∷ (codes "account_id", to_string player_state.profile.account_id)
    ∷ (codes "player_name", player_state.profile.player_name)
    ∷ (codes "level", to_string player_state.profile.level)
    ∷ (codes "stamina", to_string player_state.profile.stamina)
    ∷ (codes "gold", to_string player_state.profile.gold)
    ∷ (codes "diamond", to_string player_state.profile.diamond)
    ∷ (codes "dungeon_progress", serialize_progress player_state.dungeon_progress)
    ∷ []

-- What FindByPlayerId makes of the fields that it reads.
unfoldable pub of_fields : Dict Bytes Bytes → {W : Type 0} → Exec W PlayerState
of_fields values = do
  player_id ← lift (at (codes "player_id") values)
  player ← lift (stoll player_id)
  account_id ← lift (at (codes "account_id") values)
  account ← lift (stoll account_id)
  player_name ← lift (at (codes "player_name") values)
  level_text ← lift (at (codes "level") values)
  level ← lift (stoi level_text)
  stamina_text ← lift (at (codes "stamina") values)
  stamina ← lift (stoi stamina_text)
  gold_text ← lift (at (codes "gold") values)
  gold ← lift (stoll gold_text)
  diamond_text ← lift (at (codes "diamond") values)
  diamond ← lift (stoll diamond_text)
  progress_text ← lift (at (codes "dungeon_progress") values)
  progress ← lift (parse_progress progress_text)
  pure (record {
    profile = record {
      player_id = player;
      account_id = account;
      player_name = player_name;
      level = level;
      stamina = stamina;
      gold = gold;
      diamond = diamond;
    };
    dungeon_progress = progress;
  })

module _ {W : Type 0} (redis_client : RedisClient W) (ttl_seconds : ℤ) where
  unfoldable pub save : PlayerState → W → Bool × W
  save player_state =
      redis_client.h_set (cache_key player_state.profile.player_id) (fields player_state)
        ttl_seconds

  unfoldable pub find_by_player_id : ℤ → Exec W (Option PlayerState)
  find_by_player_id player_id w =
      let (found, w') = redis_client.h_get_all (cache_key player_id) w in
      elim (non_empty found) [
        | none ↦ pure none w'
        | some values ↦ (do state ← of_fields values; pure (some state)) w'
      ]

  unfoldable pub invalidate : ℤ → W → Bool × W
  invalidate player_id = redis_client.del (cache_key player_id)

  -- The repository behind its interface; Save and Invalidate do not throw.
  abbrev pub redis_player_cache_repository : PlayerCacheRepository W
  redis_player_cache_repository = record {
    find_by_player_id = find_by_player_id;
    save = λ player_state w. let (r, w') = save player_state w in (ok r, w');
    invalidate = λ player_id w. let (r, w') = invalidate player_id w in (ok r, w');
  }
