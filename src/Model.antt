-- ===== src/Model.antt =====
-- common/include/common/model: the data that the servers exchange with their repositories.
-- int and int64_t are ℤ; where a width matters, the value is printed or parsed (Base.Decimal).
use project_moon.Base.{Bool, List, Bytes, ℤ}

pub record Account : Type 0 where
  pub account_id : ℤ
  pub account_name : Bytes
  pub password_hash : Bytes
  pub default_player_id : ℤ
  pub enabled : Bool

pub record Session : Type 0 where
  pub session_id : Bytes
  pub account_id : ℤ
  pub player_id : ℤ
  pub created_at_epoch_seconds : ℤ

pub record PlayerProfile : Type 0 where
  pub player_id : ℤ
  pub account_id : ℤ
  pub player_name : Bytes
  pub level : ℤ
  pub stamina : ℤ
  pub gold : ℤ
  pub diamond : ℤ

pub record PlayerDungeonProgress : Type 0 where
  pub dungeon_id : ℤ
  pub best_star : ℤ
  pub is_first_clear : Bool

pub record PlayerState : Type 0 where
  pub profile : PlayerProfile
  pub dungeon_progress : List PlayerDungeonProgress

pub record BattleContext : Type 0 where
  pub battle_id : Bytes
  pub player_id : ℤ
  pub dungeon_id : ℤ
  pub cost_stamina : ℤ
  pub max_star : ℤ
  pub settled : Bool

pub record Reward : Type 0 where
  pub reward_type : Bytes
  pub amount : ℤ
