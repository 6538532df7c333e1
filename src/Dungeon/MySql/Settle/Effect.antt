-- ===== src/Dungeon/MySql/Settle/Effect.antt =====
-- Settling a battle pays once, or does nothing.
use project_moon.Base.{
  ◌≡◌, refl, ap, Bool, true, false, Option, none, some, ◌∷◌, Bytes, bytes_eq, ℤ, if◌then◌else◌,
  arith,
}
use project_moon.Base.Text.{codes}
use project_moon.Base.Dict.{lookup}
use project_moon.Model.{BattleContext}
use project_moon.Dungeon.{DungeonConfig}
use project_moon.Dungeon.Sql.{
  Tables, Battle, Connection, finish_battle, add_reward, upsert_progress, log_reward,
}
use project_moon.Dungeon.MySql.{MySqlClient, try_execute, settle_steps}
use project_moon.Dungeon.MySql.Laws.{
  IsMySql, Inside, try_execute-Inside, try_update-Inside, try_execute_done, try_update_done,
}
use project_moon.Dungeon.MySql.Transaction.{then_try-Inside, then_try_done}
use project_moon.Dungeon.MySql.Settle.{
  diamond_entry, first_diamond, settled, finish_lem, add_lem, upsert_lem, log_lem,
}

module _ {W : Type 0} (client : MySqlClient W) (view : W → Connection) (db : IsMySql client view)
    (battle : BattleContext) (config : DungeonConfig) (star : ℤ) where
  abbrev pub tables : W → Tables
  tables w = (view w).tables

  abbrev player : ℤ
  player = battle.player_id

  log_diamond : Bool → W → Option Bytes × W
  log_diamond first_clear =
      if first_clear
      then try_execute client (
          log_reward battle.player_id battle.battle_id (codes "diamond")
            config.first_clear_diamond_reward)
      else (λ w. (none, w))

  log_diamond-Inside : (first_clear : Bool) → Inside view (log_diamond first_clear)
  unfolding log_diamond
  log_diamond-Inside true =
      try_execute-Inside client view db
        (log_reward battle.player_id battle.battle_id (codes "diamond")
          config.first_clear_diamond_reward)
        tt
  log_diamond-Inside false = λ w. refl

  pub settle_steps-Inside :
      (first_clear : Bool) → Inside view (settle_steps client battle config star first_clear)
  unfolding settle_steps log_diamond
  settle_steps-Inside first_clear =
      then_try-Inside client view _ _
        (then_try-Inside client view _ _
          (then_try-Inside client view _ _
            (then_try-Inside client view _ _
              (try_update-Inside client view db (finish_battle battle.battle_id) tt
                (codes "battle already settled"))
              (try_execute-Inside client view db
                (add_reward config.normal_gold_reward (first_diamond config first_clear)
                  battle.player_id)
                tt))
            (try_execute-Inside client view db
              (upsert_progress battle.player_id config.dungeon_id star first_clear) tt))
          (try_execute-Inside client view db
            (log_reward battle.player_id battle.battle_id (codes "gold") config.normal_gold_reward)
            tt))
        (log_diamond-Inside first_clear)

  log_diamond_done :
      (first_clear : Bool) (w w' : W)
      → log_diamond first_clear w ≡ (none, w')
      → tables w' ≡ record (tables w) {
        reward_log =
            if first_clear
            then diamond_entry battle config ∷ (tables w).reward_log
            else (tables w).reward_log;
      }
  unfolding log_diamond
  log_diamond_done true w w' h =
      let (n, r) =
        try_execute_done client view db
          (log_reward player battle.battle_id (codes "diamond") config.first_clear_diamond_reward)
          tt w w' h in
      log_lem player battle.battle_id (codes "diamond") config.first_clear_diamond_reward (tables w)
        (tables w') n r
  log_diamond_done false w w' h = ap tables (ground arith)

  pub settle_steps_done :
      (first_clear : Bool) (w w' : W)
      → settle_steps client battle config star first_clear w ≡ (none, w')
      → (b : Battle) × (lookup battle.battle_id (tables w).dungeon_battle ≡ some b)
        × (b.settled ≡ false)
        × (tables w' ≡ settled battle config star first_clear b (tables w))
  unfolding settle_steps log_diamond
  settle_steps_done first_clear w w' h =
      let (w₄, s₄, h₅) = then_try_done client _ (log_diamond first_clear) w w' h in
      let (w₃, s₃, h₄) = then_try_done client _ _ w w₄ s₄ in
      let (w₂, s₂, h₃) = then_try_done client _ _ w w₃ s₃ in
      let (w₁, h₁, h₂) = then_try_done client _ _ w w₂ s₂ in
      let (b, found, unsettled, e₁) = finish_lem battle.battle_id (tables w) (tables w₁) (
        try_update_done client view db (finish_battle battle.battle_id) tt tt
          (codes "battle already settled") w w₁ h₁) in
      let (n₂, r₂) =
        try_execute_done client view db
          (add_reward config.normal_gold_reward (first_diamond config first_clear) player) tt w₁ w₂
          h₂ in
      let (n₃, r₃) =
        try_execute_done client view db (upsert_progress player config.dungeon_id star first_clear)
          tt w₂ w₃ h₃ in
      let (n₄, r₄) =
        try_execute_done client view db
          (log_reward player battle.battle_id (codes "gold") config.normal_gold_reward) tt w₃ w₄
          h₄ in
      let e₂ =
        add_lem config.normal_gold_reward (first_diamond config first_clear) player (tables w₁)
          (tables w₂) n₂ r₂ in
      let e₃ = upsert_lem player config.dungeon_id star first_clear (tables w₂) (tables w₃) n₃ r₃ in
      let e₄ =
        log_lem player battle.battle_id (codes "gold") config.normal_gold_reward (tables w₃)
          (tables w₄) n₄ r₄ in
      let e₅ = log_diamond_done first_clear w₄ w' h₅ in
      (b, found, unsettled, rw (e₅, e₄, e₃, e₂, e₁))
