-- ===== src/Net/Proto.antt =====
-- proto/game_backend.proto: the messages, as the generated classes hold them.
use project_moon.Base.{ℕ, Bool, List, Bytes, ℤ}

-- RequestContext and ResponseContext have the same fields.
pub record Context : Type 0 where
  pub trace_id : Bytes
  pub request_id : ℕ
  pub session_id : Bytes
  pub player_id : ℤ

pub record PingRequest : Type 0 where
  pub context : Context
  pub message : Bytes

pub record PingResponse : Type 0 where
  pub context : Context
  pub message : Bytes

pub record ErrorResponse : Type 0 where
  pub context : Context
  pub error_code : ℤ
  pub error_name : Bytes
  pub error_message : Bytes

pub record DungeonProgress : Type 0 where
  pub dungeon_id : ℤ
  pub best_star : ℤ
  pub is_first_clear : Bool

pub record Profile : Type 0 where
  pub player_id : ℤ
  pub account_id : ℤ
  pub player_name : Bytes
  pub level : ℤ
  pub stamina : ℤ
  pub gold : ℤ
  pub diamond : ℤ

pub record State : Type 0 where
  pub profile : Profile
  pub dungeon_progress : List DungeonProgress

pub record Reward : Type 0 where
  pub reward_type : Bytes
  pub amount : ℤ

pub record LoginRequest : Type 0 where
  pub context : Context
  pub account_name : Bytes
  pub password : Bytes

pub record LoginResponse : Type 0 where
  pub context : Context
  pub success : Bool
  pub error_code : ℤ
  pub error_name : Bytes
  pub error_message : Bytes
  pub session_id : Bytes
  pub account_id : ℤ
  pub player_id : ℤ
  pub created_at_epoch_seconds : ℤ

pub record LoadPlayerRequest : Type 0 where
  pub context : Context
  pub player_id : ℤ

pub record LoadPlayerResponse : Type 0 where
  pub context : Context
  pub success : Bool
  pub error_code : ℤ
  pub error_name : Bytes
  pub error_message : Bytes
  pub player_state : State
  pub loaded_from_cache : Bool

pub record EnterDungeonRequest : Type 0 where
  pub context : Context
  pub player_id : ℤ
  pub dungeon_id : ℤ

pub record EnterDungeonResponse : Type 0 where
  pub context : Context
  pub success : Bool
  pub error_code : ℤ
  pub error_name : Bytes
  pub error_message : Bytes
  pub battle_id : Bytes
  pub remain_stamina : ℤ

pub record SettleDungeonRequest : Type 0 where
  pub context : Context
  pub player_id : ℤ
  pub battle_id : Bytes
  pub dungeon_id : ℤ
  pub star : ℤ
  pub result : Bool

pub record SettleDungeonResponse : Type 0 where
  pub context : Context
  pub success : Bool
  pub error_code : ℤ
  pub error_name : Bytes
  pub error_message : Bytes
  pub first_clear : Bool
  pub rewards : List Reward
