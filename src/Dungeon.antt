-- ===== src/Dungeon.antt =====
-- dungeon_server/dungeon: the interfaces between the dungeon service and its repositories.
pub mod Sql
pub mod MySql
pub mod Service
pub mod Server
use project_moon.Base.{ℕ, Bool, Option, List, Bytes, ℤ, Exec}
use project_moon.Model.{PlayerState, BattleContext, Reward}
use project_moon.ErrorCode.{ErrorCode}

-- dungeon_config.h
pub record DungeonConfig : Type 0 where
  pub dungeon_id : ℤ
  pub required_level : ℤ
  pub cost_stamina : ℤ
  pub max_star : ℤ
  pub normal_gold_reward : ℤ
  pub first_clear_diamond_reward : ℤ

-- mysql_dungeon_repository.h
pub record EnterDungeonResult : Type 0 where
  pub success : Bool
  pub remain_stamina : ℤ
  pub error_message : Bytes
  pub battle_context : BattleContext

pub record SettleDungeonResult : Type 0 where
  pub success : Bool
  pub first_clear : Bool
  pub error_message : Bytes
  pub rewards : List Reward

-- The abstract repositories, over the state `W` that they work on.
pub record PlayerLockRepository (W : Type 0) : Type 0 where
  pub acquire : ℤ → Exec W Bool
  pub release : ℤ → Exec W (Unit {0})

pub record DungeonConfigRepository (W : Type 0) : Type 0 where
  pub find_by_dungeon_id : ℤ → Exec W (Option DungeonConfig)

pub record DungeonRepository (W : Type 0) : Type 0 where
  pub find_battle_by_id : Bytes → Exec W (Option BattleContext)
  pub enter_dungeon : PlayerState → DungeonConfig → Bytes → Exec W EnterDungeonResult
  pub settle_dungeon : BattleContext → DungeonConfig → ℤ → Exec W SettleDungeonResult

pub record BattleContextRepository (W : Type 0) : Type 0 where
  pub save : BattleContext → Exec W Bool
  pub find_by_battle_id : Bytes → Exec W (Option BattleContext)
  pub delete : Bytes → Exec W Bool
