-- ===== src/Dungeon/Service.antt =====
-- dungeon_server/dungeon/dungeon_service.{h,cpp}
pub mod Triples
pub mod Lock
pub mod Guards
use project_moon.Base.{
  ℕ, ◌+◌, ◌%◌, ◌^◌, Bool, true, false, not, ◌||◌, Option, none, some, List, [], ◌∷◌, ◌++◌, Bytes,
  bytes_eq, ℤ, int_eq, pos, ◌==◌, if◌then◌else◌, ltb_ℤ, leb_ℤ, Outcome, ok, throw, Exec, pure,
  ◌>>=◌, ◌>>◌,
}
use project_moon.Base.Text.{codes}
use project_moon.Base.Decimal.{to_string, nat_to_string}
use project_moon.Model.{Session, PlayerState, BattleContext, Reward}
use project_moon.ErrorCode.{
  ErrorCode, session_invalid, dungeon_not_found, player_busy, player_not_found, dungeon_locked,
  stamina_not_enough, storage_error, invalid_star, battle_not_found, battle_mismatch,
  battle_already_settled,
}
use project_moon.Session.{SessionRepository}
use project_moon.Player.{PlayerRepository, PlayerCacheRepository}
use project_moon.Dungeon.{
  DungeonConfig, EnterDungeonResult, SettleDungeonResult, PlayerLockRepository,
  DungeonConfigRepository, DungeonRepository, BattleContextRepository,
}

pub record EnterDungeonRequest : Type 0 where
  pub session_id : Bytes
  pub player_id : ℤ
  pub dungeon_id : ℤ

pub record EnterDungeonResponse : Type 0 where
  pub success : Bool
  pub error_code : ErrorCode
  pub error_message : Bytes
  pub battle_id : Bytes
  pub remain_stamina : ℤ

pub record SettleDungeonRequest : Type 0 where
  pub session_id : Bytes
  pub player_id : ℤ
  pub battle_id : Bytes
  pub dungeon_id : ℤ
  pub star : ℤ
  pub result : Bool

pub record SettleDungeonResponse : Type 0 where
  pub success : Bool
  pub error_code : ErrorCode
  pub error_message : Bytes
  pub first_clear : Bool
  pub rewards : List Reward

-- The references that the service holds, and the cell of its `sequence_`.
pub record Repositories (W : Type 0) : Type 0 where
  pub sessions : SessionRepository W
  pub locks : PlayerLockRepository W
  pub players : PlayerRepository W
  pub cache : PlayerCacheRepository W
  pub configs : DungeonConfigRepository W
  pub dungeons : DungeonRepository W
  pub battles : BattleContextRepository W
  pub sequence : W → ℕ
  pub set_sequence : ℕ → W → W

unfoldable pub make_battle_id : ℤ → ℤ → ℕ → Bytes
make_battle_id player_id dungeon_id sequence =
    codes "battle-"
    ++ (to_string player_id ++ (b'-' ∷ to_string dungeon_id ++ (b'-' ∷ nat_to_string sequence)))

abbrev pub enter_refused : ErrorCode → Bytes → EnterDungeonResponse
enter_refused code message = record {
  success = false;
  error_code = code;
  error_message = message;
  battle_id = [];
  remain_stamina = pos 0;
}

abbrev pub settle_refused : ErrorCode → Bytes → SettleDungeonResponse
settle_refused code message = record {
  success = false;
  error_code = code;
  error_message = message;
  first_clear = false;
  rewards = [];
}

-- The code for a repository's message.
unfoldable pub enter_error : Bytes → ErrorCode
enter_error message =
    if message == codes "stamina not enough"
    then stamina_not_enough
    else if message == codes "unfinished battle exists"
    then player_busy
    else storage_error

unfoldable pub settle_error : Bytes → ErrorCode
settle_error message =
    if message == codes "battle already settled" then battle_already_settled else storage_error

-- `!session.has_value() || session->player_id != player_id`
unfoldable pub is_session_of : ℤ → Option Session → Bool
is_session_of player_id none = false
is_session_of player_id (some s) = s.player_id == player_id

module _ {W : Type 0} (repositories : Repositories W) where
  open repositories use {sessions, locks, players, cache, configs, dungeons, battles}

  unfoldable pub generate_battle_id : ℤ → ℤ → Exec W Bytes
  generate_battle_id player_id dungeon_id w = (
    ok (make_battle_id player_id dungeon_id (repositories.sequence w)),
    repositories.set_sequence ((repositories.sequence w + 1) % 2 ^ 64) w,
  )

  -- Every return between the lock and its release.
  abbrev pub release_and : {A : Type 0} → ℤ → A → Exec W A
  release_and player_id response = do locks.release player_id; pure response

  unfoldable pub enter_with_state :
      EnterDungeonRequest → DungeonConfig → PlayerState → Exec W EnterDungeonResponse
  enter_with_state request config player_state =
      if ltb_ℤ player_state.profile.level config.required_level
      then release_and request.player_id
          (enter_refused dungeon_locked (codes "player level not enough"))
      else if ltb_ℤ player_state.profile.stamina config.cost_stamina
      then release_and request.player_id
          (enter_refused stamina_not_enough (codes "stamina not enough"))
      else (do
        battle_id ← generate_battle_id request.player_id request.dungeon_id
        enter_result ← dungeons.enter_dungeon player_state config battle_id
        if not enter_result.success
            then release_and request.player_id
                (enter_refused (enter_error enter_result.error_message) enter_result.error_message)
            else (do
              saved ← battles.save enter_result.battle_context
              invalidated ← cache.invalidate request.player_id
              release_and request.player_id (record {
                success = true;
                error_code = ErrorCode.ok;
                error_message = [];
                battle_id = battle_id;
                remain_stamina = enter_result.remain_stamina;
              })))

  unfoldable pub enter_locked : EnterDungeonRequest → DungeonConfig → Exec W EnterDungeonResponse
  enter_locked request config = do
    player_state ← players.load_player_state request.player_id
    elim player_state [
      | none ↦
          release_and request.player_id (enter_refused player_not_found (codes "player not found"))
      | some state ↦ enter_with_state request config state
    ]

  unfoldable pub enter_dungeon : EnterDungeonRequest → Exec W EnterDungeonResponse
  enter_dungeon request = do
    session ← sessions.find_by_id request.session_id
    if not (is_session_of request.player_id session)
        then pure (enter_refused session_invalid (codes "session invalid"))
        else (do
          dungeon_config ← configs.find_by_dungeon_id request.dungeon_id
          elim dungeon_config [
            | none ↦ pure (enter_refused dungeon_not_found (codes "dungeon config not found"))
            | some config ↦ do
              acquired ← locks.acquire request.player_id
              if not acquired
                  then pure (enter_refused player_busy (codes "player is busy"))
                  else enter_locked request config
          ])

  -- The cached context, or the stored one.
  unfoldable pub find_battle : Bytes → Exec W (Option BattleContext)
  find_battle battle_id = do
    cached ← battles.find_by_battle_id battle_id
    elim cached [ some battle ↦ pure (some battle) | none ↦ dungeons.find_battle_by_id battle_id ]

  unfoldable pub settle_battle :
      SettleDungeonRequest → DungeonConfig → BattleContext → Exec W SettleDungeonResponse
  settle_battle request config battle =
      if not (battle.player_id == request.player_id)
        || not (battle.dungeon_id == request.dungeon_id)
      then release_and request.player_id
          (settle_refused battle_mismatch (codes "battle context mismatch"))
      else if battle.settled
      then release_and request.player_id
          (settle_refused battle_already_settled (codes "battle already settled"))
      else (do
        settle_result ← dungeons.settle_dungeon battle config request.star
        if not settle_result.success
            then release_and request.player_id (
                settle_refused (settle_error settle_result.error_message)
                  settle_result.error_message)
            else (do
              deleted ← battles.delete request.battle_id
              invalidated ← cache.invalidate request.player_id
              release_and request.player_id (record {
                success = true;
                error_code = ErrorCode.ok;
                error_message = [];
                first_clear = settle_result.first_clear;
                rewards = settle_result.rewards;
              })))

  unfoldable pub settle_locked : SettleDungeonRequest → DungeonConfig → Exec W SettleDungeonResponse
  settle_locked request config = do
    battle_context ← find_battle request.battle_id
    elim battle_context [
      | none ↦
          release_and request.player_id (settle_refused battle_not_found (codes "battle not found"))
      | some battle ↦ settle_battle request config battle
    ]

  unfoldable pub settle_with_config :
      SettleDungeonRequest → DungeonConfig → Exec W SettleDungeonResponse
  settle_with_config request config =
      if leb_ℤ request.star (pos 0) || ltb_ℤ config.max_star request.star
      then pure (settle_refused invalid_star (codes "star is out of range"))
      else (do
        acquired ← locks.acquire request.player_id
        if not acquired
            then pure (settle_refused player_busy (codes "player is busy"))
            else settle_locked request config)

  unfoldable pub settle_dungeon : SettleDungeonRequest → Exec W SettleDungeonResponse
  settle_dungeon request =
      if not request.result
      then pure
          (settle_refused storage_error (codes "only success settlement is supported in demo"))
      else (do
        session ← sessions.find_by_id request.session_id
        if not (is_session_of request.player_id session)
            then pure (settle_refused session_invalid (codes "session invalid"))
            else (do
              dungeon_config ← configs.find_by_dungeon_id request.dungeon_id
              elim dungeon_config [
                | none ↦ pure (settle_refused dungeon_not_found (codes "dungeon config not found"))
                | some config ↦ settle_with_config request config
              ]))
