-- ===== src/Tests/Storage.antt =====
-- Entering and settling on a database that does what its statements say.
use project_moon.Base.{
  ◌≡◌, ◌⊎◌, ◌↔◌, refl, Bool, true, false, none, some, List, [], ◌∷◌, bytes_beq, bytes_eq, ℤ, int_eq,
  pos, ◌-ℤ◌, if◌then◌else◌, arith, Option-cases, inl, inr,
}
use project_moon.Base.Text.{codes}
use project_moon.Base.Dict.{Dict, lookup, insert}
use project_moon.Model.{PlayerState, BattleContext}
use project_moon.Dungeon.{DungeonConfig}
use project_moon.Dungeon.Sql.{
  Select, unfinished_battle, clear_of, battle_by_id, Battle, Asset, Connection, run, run_on,
  is_busy, find_progress, put_progress, is_logged, greatest,
}
use project_moon.Dungeon.MySql.{
  MySqlClient, done, failed, Row, query_one, enter_dungeon, settle_dungeon, rewards_of, try_execute,
  try_update, ◌then_try◌, finish, transaction, check_unfinished, enter_steps, settle_steps,
}
use project_moon.Dungeon.MySql.Laws.{IsMySql, Answers}
use project_moon.Dungeon.MySql.Transaction.{CommitFailed}
use project_moon.Dungeon.MySql.Enter.{Enters, enter_dungeon_failed, enter_dungeon_done}
use project_moon.Dungeon.MySql.Settle.{settled}
use project_moon.Dungeon.MySql.Settle.Once.{
  settle_dungeon_failed, settle_dungeon_done, settled_once,
}
use project_moon.Dungeon.MySql.Invariant.{IsSound, enters, settles, calls, calls-IsSound}

abbrev answer : Select → Connection → List Row
answer (unfinished_battle p) c = if is_busy p c.tables.dungeon_battle then [] ∷ [] else []
answer (battle_by_id b) c = []
answer (clear_of p d) c = elim (find_progress p d c.tables.player_dungeon) [
  | none ↦ []
  | some r ↦ [] ∷ []
]

abbrev pub database : MySqlClient Connection
database = record {
  execute = λ s c. elim (run_on s c) [ none ↦ (failed [], c) | some r ↦ (done r.1, r.0) ];
  query = λ q c. (answer q c, c);
}

abbrev pub seen : Connection → Connection
seen c = c

pub database-IsMySql : IsMySql database seen
unfolding run_on
database-IsMySql = record {
  executed = λ s w w' n e. elim (Option-cases (run_on s w)) [
    | inl r ↦ absurd (ground (arith, r, e))
    | inr ((c, k), r) ↦ (k, ground (arith, r, e), λ _. ground (arith, r, e))
  ];
  not_started = λ w w' m e. ground (arith, e);
  unchanged = λ s w w' m plain e. elim (Option-cases (run_on s w)) [
    | inl r ↦ ground (arith, r, e)
    | inr (x, r) ↦ absurd (ground (arith, r, e))
  ];
  commit_failed = λ w w' m e. absurd (ground (arith, e));
  nothing_open = λ w e. ground (arith, e);
  rolled_back = λ w t e. ground (arith, e);
  selected = λ q w. refl;
}

pub database-Answers : Answers database seen
unfolding query_one
database-Answers = record {
  unfinished = λ p w e. ground (arith, e);
  cleared = λ p d w e. ground (arith, e);
  not_cleared = λ p d w e. ground (arith, e);
}

abbrev pub config : DungeonConfig
config = record {
  dungeon_id = pos 1001;
  required_level = pos 1;
  cost_stamina = pos 10;
  max_star = pos 3;
  normal_gold_reward = pos 100;
  first_clear_diamond_reward = pos 50;
}

abbrev pub player : PlayerState
player = record {
  profile = record {
    player_id = pos 7;
    account_id = pos 1;
    player_name = codes "moon";
    level = pos 3;
    stamina = pos 40;
    gold = pos 0;
    diamond = pos 0;
  };
  dungeon_progress = [];
}

abbrev pub battle : BattleContext
battle = record {
  battle_id = codes "b";
  player_id = pos 7;
  dungeon_id = pos 1001;
  cost_stamina = pos 10;
  max_star = pos 3;
  settled = false;
}

abbrev assets : Dict ℤ Asset
assets = (pos 7, record { stamina = pos 40; gold = pos 0; diamond = pos 0 }) ∷ []

-- Before entering, and after.
abbrev fresh : Connection
fresh = record {
  tables = record {
    player_asset = assets;
    dungeon_battle = [];
    player_dungeon = [];
    reward_log = [];
  };
  saved = none;
}

abbrev open_battle : Battle
open_battle = record {
  player_id = pos 7;
  dungeon_id = pos 1001;
  settled = false;
  cost_stamina = pos 10;
}

abbrev busy : Connection
busy = record {
  tables = record {
    player_asset = assets;
    dungeon_battle = (codes "b", open_battle) ∷ [];
    player_dungeon = [];
    reward_log = [];
  };
  saved = none;
}

settles_busy : (settle_dungeon database battle config (pos 3) busy).0.success ≡ true
unfolding query_one try_execute try_update ◌then_try◌ finish transaction check_unfinished
    enter_steps enter_dungeon settle_steps settle_dungeon run run_on lookup insert is_busy
    find_progress put_progress is_logged greatest bytes_beq rewards_of
settles_busy = refl

enters_fresh : (enter_dungeon database player config (codes "b") fresh).0.success ≡ true
unfolding query_one try_execute try_update ◌then_try◌ finish transaction check_unfinished
    enter_steps enter_dungeon settle_steps settle_dungeon run run_on lookup insert is_busy
    find_progress put_progress is_logged greatest bytes_beq rewards_of
enters_fresh = refl

busy_refuses : (enter_dungeon database player config (codes "c") busy).0.success ≡ false
unfolding query_one try_execute try_update ◌then_try◌ finish transaction check_unfinished
    enter_steps enter_dungeon settle_steps settle_dungeon run run_on lookup insert is_busy
    find_progress put_progress is_logged greatest bytes_beq rewards_of
busy_refuses = refl

fresh_refuses : (settle_dungeon database battle config (pos 3) fresh).0.success ≡ false
unfolding query_one try_execute try_update ◌then_try◌ finish transaction check_unfinished
    enter_steps enter_dungeon settle_steps settle_dungeon run run_on lookup insert is_busy
    find_progress put_progress is_logged greatest bytes_beq rewards_of
fresh_refuses = refl

settled_once_example :
    ((settle_dungeon database battle config
        (pos 3)
        (settle_dungeon database battle config (pos 3) busy).1).0.success
      ≡ false)
    × ((settle_dungeon database battle config
          (pos 3)
          (settle_dungeon database battle config (pos 3) busy).1).1.tables
        ≡ (settle_dungeon database battle config (pos 3) busy).1.tables)
settled_once_example =
    settled_once database seen battle battle config config (pos 3) (pos 3) busy
      (settle_dungeon database battle config (pos 3) busy).1 database-IsMySql database-Answers
      settles_busy refl refl

settle_dungeon_done_example :
    (b : Battle) × (first_clear : Bool) × (lookup battle.battle_id busy.tables.dungeon_battle
      ≡ some b)
    × (b.settled ≡ false)
    × ((settle_dungeon database battle config (pos 3) busy).1.tables
        ≡ settled battle config (pos 3) first_clear b busy.tables)
    × ((first_clear ≡ true)
        ↔ (find_progress battle.player_id config.dungeon_id busy.tables.player_dungeon ≡ none))
    × ((settle_dungeon database battle config (pos 3) busy).0.first_clear ≡ first_clear)
    × ((settle_dungeon database battle config (pos 3) busy).0.rewards
        ≡ rewards_of config first_clear)
settle_dungeon_done_example =
    settle_dungeon_done database seen database-IsMySql battle config (pos 3) busy database-Answers
      settles_busy

settle_dungeon_failed_example :
    ((settle_dungeon database battle config (pos 3) fresh).1.tables ≡ fresh.tables)
    ⊎ ((w₂ : Connection) × (b : Battle) × CommitFailed database w₂
        × (lookup (codes "b") fresh.tables.dungeon_battle ≡ some b)
        × (b.settled ≡ false)
        × (w₂.tables
            ≡ settled battle config
                (pos 3)
                (settle_dungeon database battle config (pos 3) fresh).0.first_clear
                b
                fresh.tables)
        × ((settle_dungeon database battle config (pos 3) fresh).1.tables ≡ w₂.tables))
settle_dungeon_failed_example =
    settle_dungeon_failed database seen database-IsMySql battle config (pos 3) fresh fresh_refuses

enter_dungeon_done_example :
    (is_busy (pos 7) fresh.tables.dungeon_battle ≡ false)
    × Enters
        (pos 7)
        config
        (codes "b")
        fresh.tables
        (enter_dungeon database player config (codes "b") fresh).1.tables
    × ((enter_dungeon database player config (codes "b") fresh).0 ≡ record {
      success = true;
      remain_stamina = pos 40 -ℤ pos 10;
      error_message = [];
      battle_context = battle;
    })
enter_dungeon_done_example =
    enter_dungeon_done database seen database-IsMySql player config (codes "b") fresh
      database-Answers enters_fresh

enter_dungeon_failed_example :
    ((enter_dungeon database player config (codes "c") busy).1.tables ≡ busy.tables)
    ⊎ ((w₁ w₂ : Connection) × (w₁.tables ≡ busy.tables)
        × ((query_one database (unfinished_battle (pos 7)) w₁).0 ≡ none)
        × CommitFailed database w₂
        × Enters (pos 7) config (codes "c") busy.tables w₂.tables
        × ((enter_dungeon database player config (codes "c") busy).1.tables ≡ w₂.tables))
enter_dungeon_failed_example =
    enter_dungeon_failed database seen database-IsMySql player config (codes "c") busy busy_refuses

fresh-IsSound : IsSound fresh.tables
unfolding lookup
fresh-IsSound = record {
  one_unfinished = λ j k a b e f u v same. absurd (cc e);
  stamina_nonneg = λ p a e. ground (arith, e);
}

calls-IsSound_example :
    IsSound
      (calls database seen
        (enters player config (codes "b")
          ∷ enters player config (codes "c")
          ∷ settles battle config (pos 3)
          ∷ [])
        fresh).tables
calls-IsSound_example =
    calls-IsSound database seen database-IsMySql database-Answers
      (enters player config (codes "b")
        ∷ enters player config (codes "c")
        ∷ settles battle config (pos 3)
        ∷ [])
      fresh fresh-IsSound
