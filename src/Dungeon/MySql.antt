-- ===== src/Dungeon/MySql.antt =====
-- dungeon_server/dungeon/mysql_dungeon_repository.cpp over the calls of MySqlClient that it makes.
pub mod Laws
pub mod Transaction
pub mod Enter
pub mod Settle
pub mod Invariant
use project_moon.Base.{
  ℕ, Bool, true, false, Option, none, some, List, [], ◌∷◌, Bytes, bytes_eq, nat_eq, ℤ, pos, ◌==◌,
  if◌then◌else◌, ◌-ℤ◌, ◌++◌, Outcome, ok, throw, Exec, pure, lift, ◌>>=◌,
}
use project_moon.Base.Text.{codes}
use project_moon.Base.Dict.{Dict, lookup}
use project_moon.Base.Decimal.{stoi, stoll}
use project_moon.Model.{PlayerState, BattleContext, Reward}
use project_moon.Dungeon.{DungeonConfig, EnterDungeonResult, SettleDungeonResult, DungeonRepository}
use project_moon.Dungeon.Sql.{
  Statement, Select, start_transaction, commit, rollback, take_stamina, insert_battle,
  finish_battle, add_reward, upsert_progress, log_reward, unfinished_battle, battle_by_id, clear_of,
}

-- `Execute` comes back true with the count of changed rows, or false with an error message.
pub data Executed : Type 0 where
  done : ℕ → Executed
  failed : Bytes → Executed

-- A row: column names to texts.
abbrev pub Row : Type 0
Row = Dict Bytes Bytes

pub record MySqlClient (W : Type 0) : Type 0 where
  pub execute : Statement → W → Executed × W
  -- `Query` comes back with no rows where it fails.
  pub query : Select → W → List Row × W

-- `row.at(column)` throws where the column is missing.
unfoldable pub at : Bytes → Row → Outcome Bytes
at column row = elim (lookup column row) [ none ↦ throw | some text ↦ ok text ]

-- `BattleContext{}`
abbrev pub empty_battle_context : BattleContext
empty_battle_context = record {
  battle_id = [];
  player_id = pos 0;
  dungeon_id = pos 0;
  cost_stamina = pos 0;
  max_star = pos 3;
  settled = false;
}

-- The rewards that a settlement reports.
unfoldable pub rewards_of : DungeonConfig → Bool → List Reward
rewards_of config first_clear =
    record { reward_type = codes "gold"; amount = config.normal_gold_reward }
    ∷ (if first_clear
        then record { reward_type = codes "diamond"; amount = config.first_clear_diamond_reward }
          ∷ []
        else [])

module _ {W : Type 0} (client : MySqlClient W) where
  open client use {execute, query}

  unfoldable pub query_one : Select → W → Option Row × W
  query_one select w =
      let (rows, w') = query select w in (elim rows [ [] ↦ none | row ∷ _ ↦ some row ], w')

  battle_of_row : Row → Exec W (Option BattleContext)
  unfolding at
  battle_of_row row = do
    battle_id ← lift (at (codes "battle_id") row)
    player_id ← lift (at (codes "player_id") row)
    player ← lift (stoll player_id)
    dungeon_id ← lift (at (codes "dungeon_id") row)
    dungeon ← lift (stoi dungeon_id)
    cost_stamina ← lift (at (codes "cost_stamina") row)
    cost ← lift (stoi cost_stamina)
    status ← lift (at (codes "status") row)
    pure (
        some (record empty_battle_context {
          battle_id = battle_id;
          player_id = player;
          dungeon_id = dungeon;
          cost_stamina = cost;
          settled = status == codes "1";
        }))

  unfoldable pub find_battle_by_id : Bytes → Exec W (Option BattleContext)
  unfolding battle_of_row query_one
  find_battle_by_id battle_id w =
      let (row, w') = query_one (battle_by_id battle_id) w in
      elim row [ none ↦ pure none w' | some r ↦ battle_of_row r w' ]

  -- A statement whose failure ends the transaction: its message, or `none`.
  unfoldable pub try_execute : Statement → W → Option Bytes × W
  try_execute statement w =
      let (r, w') = execute statement w in
      (elim r [ done _ ↦ none | failed message ↦ some message ], w')

  -- An update that must change one row; `if_none` is the message where it changed none, which
  -- `affected_rows` also says when the statement failed.
  unfoldable pub try_update : Statement → Bytes → W → Option Bytes × W
  try_update statement if_none w =
      let (r, w') = execute statement w in
      (
        elim r [
          | failed message ↦ some if_none
          | done affected_rows ↦
              if affected_rows == 1
              then none
              else if affected_rows == 0
              then some if_none
              else some []
        ],
        w',
      )

  -- One step after another, up to the first message.
  infixl 5 ◌then_try◌
  unfoldable pub ◌then_try◌ : (W → Option Bytes × W) → (W → Option Bytes × W) → W → Option Bytes × W
  ◌then_try◌ m n w = let (r, w') = m w in elim r [ none ↦ n w' | some message ↦ (some message, w') ]

  -- The end of a transaction: whether it is committed, and the message if not.
  unfoldable pub finish : Option Bytes × W → Option Bytes × W
  finish (some message, w) = (some message, (execute rollback w).1)
  finish (none, w) =
      let (r, w') = execute commit w in
      elim r [ done _ ↦ (none, w') | failed message ↦ (some message, (execute rollback w').1) ]

  -- A transaction round some steps.
  unfoldable pub transaction : (W → Option Bytes × W) → W → Option Bytes × W
  transaction steps w =
      let (r, w') = execute start_transaction w in
      elim r [ failed message ↦ (some message, w') | done _ ↦ finish (steps w') ]

  unfoldable pub check_unfinished : ℤ → W → Option Bytes × W
  check_unfinished player_id w =
      let (row, w') = query_one (unfinished_battle player_id) w in
      (elim row [ none ↦ none | some _ ↦ some (codes "unfinished battle exists") ], w')

  unfoldable pub enter_steps : ℤ → DungeonConfig → Bytes → W → Option Bytes × W
  enter_steps player_id config battle_id =
      check_unfinished player_id
      then_try try_update (take_stamina config.cost_stamina player_id) (codes "stamina not enough")
      then_try try_execute (insert_battle battle_id player_id config.dungeon_id config.cost_stamina)

  unfoldable pub enter_dungeon : PlayerState → DungeonConfig → Bytes → W → EnterDungeonResult × W
  enter_dungeon player_state config battle_id w =
      let battle_context : BattleContext = record {
        battle_id = battle_id;
        player_id = player_state.profile.player_id;
        dungeon_id = config.dungeon_id;
        cost_stamina = config.cost_stamina;
        max_star = config.max_star;
        settled = false;
      } in
      let (message, w') =
        transaction (enter_steps player_state.profile.player_id config battle_id) w in
      (
        elim message [
          | some text ↦ record {
            success = false;
            remain_stamina = pos 0;
            error_message = text;
            battle_context = battle_context;
          }
          | none ↦ record {
            success = true;
            remain_stamina = player_state.profile.stamina -ℤ config.cost_stamina;
            error_message = [];
            battle_context = battle_context;
          }
        ],
        w',
      )

  unfoldable pub settle_steps : BattleContext → DungeonConfig → ℤ → Bool → W → Option Bytes × W
  settle_steps battle config star first_clear =
      try_update (finish_battle battle.battle_id) (codes "battle already settled")
      then_try try_execute (
          add_reward config.normal_gold_reward
            (if first_clear then some config.first_clear_diamond_reward else none) battle.player_id)
      then_try try_execute (upsert_progress battle.player_id config.dungeon_id star first_clear)
      then_try try_execute
          (log_reward battle.player_id battle.battle_id (codes "gold") config.normal_gold_reward)
      then_try (if first_clear
          then try_execute (
              log_reward battle.player_id battle.battle_id (codes "diamond")
                config.first_clear_diamond_reward)
          else (λ w. (none, w)))

  -- The first clear is looked up before the transaction begins.
  unfoldable pub settle_dungeon : BattleContext → DungeonConfig → ℤ → W → SettleDungeonResult × W
  settle_dungeon battle config star w =
      let (row, w₁) = query_one (clear_of battle.player_id config.dungeon_id) w in
      let first_clear : Bool = elim row [ none ↦ true | some _ ↦ false ] in
      let (message, w₂) = transaction (settle_steps battle config star first_clear) w₁ in
      (
        record {
          success = elim message [ none ↦ true | some _ ↦ false ];
          first_clear = first_clear;
          error_message = elim message [ none ↦ [] | some text ↦ text ];
          rewards = rewards_of config first_clear;
        },
        w₂,
      )

  -- The repository behind its interface.
  abbrev pub mysql_dungeon_repository : DungeonRepository W
  mysql_dungeon_repository = record {
    find_battle_by_id = find_battle_by_id;
    enter_dungeon = λ state config battle_id w.
        let (r, w') = enter_dungeon state config battle_id w in (ok r, w');
    settle_dungeon =
        λ battle config star w. let (r, w') = settle_dungeon battle config star w in (ok r, w');
  }
