-- ===== src/Player.antt =====
-- game_server/player: the repositories of players and the loading of a player.
pub mod Service
pub mod Progress
pub mod Server
use project_moon.Base.{Bool, Option, ℤ, Exec}
use project_moon.Model.{PlayerState}

-- player_repository.h
pub record PlayerRepository (W : Type 0) : Type 0 where
  pub load_player_state : ℤ → Exec W (Option PlayerState)

-- player_cache_repository.h
pub record PlayerCacheRepository (W : Type 0) : Type 0 where
  pub find_by_player_id : ℤ → Exec W (Option PlayerState)
  pub save : PlayerState → Exec W Bool
  pub invalidate : ℤ → Exec W Bool
