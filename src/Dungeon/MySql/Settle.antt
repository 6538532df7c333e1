-- ===== src/Dungeon/MySql/Settle.antt =====
-- What settling a battle writes: the four tables afterwards, and the statements that make them so.
pub mod Effect
pub mod Once
use project_moon.Base.{
  ℕ, ◌≡◌, inl, inr, Bool, true, false, ◌||◌, Option, none, some, List, [], ◌∷◌, Bytes, bytes_eq, ℤ,
  int_eq, if◌then◌else◌, arith, Option-cases, ◌+ℤ◌,
}
use project_moon.Base.Text.{codes}
use project_moon.Base.Dict.{Dict, lookup, insert}
use project_moon.Model.{BattleContext}
use project_moon.Dungeon.{DungeonConfig}
use project_moon.Dungeon.Sql.{
  Statement, Tables, Battle, Asset, Progress, RewardLog, Connection, run, finish_battle, add_reward,
  upsert_progress, log_reward, find_progress, put_progress, is_logged, greatest,
}

-- The four tables after a settlement. SettleDungeon does not look at how many rows the UPDATE of
-- player_asset has changed: where the player has no row there, the settlement goes on and nobody is
-- paid.
unfoldable pub paid : ℤ → ℤ → Option ℤ → Dict ℤ Asset → Dict ℤ Asset
paid p gold diamond assets = elim (lookup p assets) [
  | none ↦ assets
  | some a ↦
      insert p
        (record a {
          gold = a.gold +ℤ gold;
          diamond = elim diamond [ none ↦ a.diamond | some d ↦ a.diamond +ℤ d ];
        })
        assets
]

unfoldable pub cleared : ℤ → ℤ → ℤ → Bool → List Progress → List Progress
cleared p d star first rows = elim (find_progress p d rows) [
  | none ↦
      put_progress
        (record { player_id = p; dungeon_id = d; best_star = star; is_first_clear = first }) rows
  | some r ↦
      put_progress
        (record r {
          best_star = greatest r.best_star star;
          is_first_clear = r.is_first_clear || first;
        })
        rows
]

abbrev pub gold_entry : BattleContext → DungeonConfig → RewardLog
gold_entry battle config = record {
  player_id = battle.player_id;
  battle_id = battle.battle_id;
  reward_type = codes "gold";
  amount = config.normal_gold_reward;
}

abbrev pub diamond_entry : BattleContext → DungeonConfig → RewardLog
diamond_entry battle config = record {
  player_id = battle.player_id;
  battle_id = battle.battle_id;
  reward_type = codes "diamond";
  amount = config.first_clear_diamond_reward;
}

abbrev pub first_diamond : DungeonConfig → Bool → Option ℤ
first_diamond config first_clear =
    if first_clear then some config.first_clear_diamond_reward else none

abbrev pub settled : BattleContext → DungeonConfig → ℤ → Bool → Battle → Tables → Tables
settled battle config star first_clear b t = record {
  player_asset =
      paid battle.player_id config.normal_gold_reward (first_diamond config first_clear)
        t.player_asset;
  dungeon_battle = insert battle.battle_id (record b { settled = true }) t.dungeon_battle;
  player_dungeon = cleared battle.player_id config.dungeon_id star first_clear t.player_dungeon;
  reward_log =
      if first_clear
      then diamond_entry battle config ∷ gold_entry battle config ∷ t.reward_log
      else gold_entry battle config ∷ t.reward_log;
}

-- `run` at the statements.
pub finish_lem :
    (id : Bytes) (t t' : Tables)
    → run (finish_battle id) t ≡ some (t', 1)
    → (b : Battle) × (lookup id t.dungeon_battle ≡ some b)
      × (b.settled ≡ false)
      × (t'
          ≡ record t { dungeon_battle = insert id (record b { settled = true }) t.dungeon_battle })
unfolding run
finish_lem id t t' h = elim (Option-cases (lookup id t.dungeon_battle)) [
  | inl e ↦ absurd (ground (arith, e))
  | inr (b, e) ↦ (b, e, ground (arith, e), ground (arith, e))
]

pub add_lem :
    (gold : ℤ) (diamond : Option ℤ) (p : ℤ) (t t' : Tables) (n : ℕ)
    → run (add_reward gold diamond p) t ≡ some (t', n)
    → t' ≡ record t { player_asset = paid p gold diamond t.player_asset }
unfolding run paid
add_lem gold diamond p t t' n h = ground arith

pub upsert_lem :
    (p d star : ℤ) (first : Bool) (t t' : Tables) (n : ℕ)
    → run (upsert_progress p d star first) t ≡ some (t', n)
    → t' ≡ record t { player_dungeon = cleared p d star first t.player_dungeon }
unfolding run cleared
upsert_lem p d star first t t' n h = ground arith

pub log_lem :
    (p : ℤ) (b type : Bytes) (amount : ℤ) (t t' : Tables) (n : ℕ)
    → run (log_reward p b type amount) t ≡ some (t', n)
    → t' ≡ record t {
      reward_log =
          record { player_id = p; battle_id = b; reward_type = type; amount = amount }
          ∷ t.reward_log;
    }
unfolding run
log_lem p b type amount t t' n h = ground arith
