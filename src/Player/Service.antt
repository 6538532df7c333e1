-- ===== src/Player/Service.antt =====
-- game_server/player/player_service.{h,cpp}
pub mod Cache
use project_moon.Base.{
  Bool, true, false, not, Option, none, some, [], Bytes, ℤ, int_eq, pos, ◌==◌, if◌then◌else◌, Exec,
  pure, ◌>>=◌,
}
use project_moon.Base.Text.{codes}
use project_moon.Model.{PlayerState}
use project_moon.ErrorCode.{ErrorCode, session_invalid, player_not_found}
use project_moon.Session.{SessionRepository}
use project_moon.Player.{PlayerRepository, PlayerCacheRepository}

pub record LoadPlayerResponse : Type 0 where
  pub success : Bool
  pub error_code : ErrorCode
  pub error_message : Bytes
  pub player_state : PlayerState
  pub loaded_from_cache : Bool

-- `PlayerState{}`
abbrev pub empty_player_state : PlayerState
empty_player_state = record {
  profile = record {
    player_id = pos 0;
    account_id = pos 0;
    player_name = [];
    level = pos 1;
    stamina = pos 0;
    gold = pos 0;
    diamond = pos 0;
  };
  dungeon_progress = [];
}

abbrev pub refused : ErrorCode → Bytes → LoadPlayerResponse
refused code message = record {
  success = false;
  error_code = code;
  error_message = message;
  player_state = empty_player_state;
  loaded_from_cache = false;
}

abbrev pub loaded : PlayerState → Bool → LoadPlayerResponse
loaded state from_cache = record {
  success = true;
  error_code = ErrorCode.ok;
  error_message = [];
  player_state = state;
  loaded_from_cache = from_cache;
}

module _ {W : Type 0} (sessions : SessionRepository W) (players : PlayerRepository W)
    (cache : PlayerCacheRepository W) where
  load_from_repository : ℤ → Exec W LoadPlayerResponse
  load_from_repository player_id = do
    player_state ← players.load_player_state player_id
    elim player_state [
      | none ↦ pure (refused player_not_found (codes "player not found"))
      | some state ↦ do saved ← cache.save state; pure (loaded state false)
    ]

  load_authorized : ℤ → Exec W LoadPlayerResponse
  unfolding load_from_repository
  load_authorized player_id = do
    cached_state ← cache.find_by_player_id player_id
    elim cached_state [
      | some state ↦ pure (loaded state true)
      | none ↦ load_from_repository player_id
    ]

  unfoldable pub load_player : Bytes → ℤ → Exec W LoadPlayerResponse
  unfolding load_authorized
  load_player session_id player_id = do
    session ← sessions.find_by_id session_id
    elim session [
      | none ↦ pure (refused session_invalid (codes "session invalid"))
      | some s ↦
          if not (s.player_id == player_id)
          then pure (refused session_invalid (codes "session invalid"))
          else load_authorized player_id
    ]
