-- ===== src/Dungeon/MySql/Settle/Once.antt =====
-- The settlement of a battle as a whole: all or nothing, and once.
use project_moon.Base.{
  ◌≡◌, ◌↔◌, ◌⊎◌, inl, inr, refl, sym, ap, ◌∙◌, Bool, true, false, Option, none, some, Bytes,
  bytes_eq, ℤ, arith, Option-cases,
}
use project_moon.Base.Dict.{lookup, lookup-insert_self}
use project_moon.Model.{BattleContext}
use project_moon.Dungeon.{DungeonConfig, SettleDungeonResult}
use project_moon.Dungeon.Sql.{Tables, Battle, Connection, clear_of, find_progress}
use project_moon.Dungeon.MySql.{
  MySqlClient, Row, query_one, settle_steps, settle_dungeon, transaction, rewards_of,
}
use project_moon.Dungeon.MySql.Laws.{IsMySql, Answers}
use project_moon.Dungeon.MySql.Transaction.{CommitFailed, transaction_failed, transaction_done}
use project_moon.Dungeon.MySql.Settle.{settled}
use project_moon.Dungeon.MySql.Settle.Effect.{settle_steps-Inside, settle_steps_done}

module _ {W : Type 0} (client : MySqlClient W) (view : W → Connection) (db : IsMySql client view)
    (battle : BattleContext) (config : DungeonConfig) (star : ℤ) (w : W) where
  abbrev select : Option Row × W
  select = query_one client (clear_of battle.player_id config.dungeon_id) w

  abbrev result : SettleDungeonResult × W
  result = settle_dungeon client battle config star w

  abbrev ran : Option Bytes × W
  ran = transaction client (settle_steps client battle config star result.0.first_clear) select.1

  view-select : view select.1 ≡ view w
  unfolding query_one
  view-select = db.selected (clear_of battle.player_id config.dungeon_id) w

  -- The steps, where none of them fails, from the tables of before.
  settled_by :
      (w₁ w₂ : W)
      → (view w₁).tables ≡ (view select.1).tables
      → settle_steps client battle config star result.0.first_clear w₁ ≡ (none, w₂)
      → (b : Battle) × (lookup battle.battle_id (view w).tables.dungeon_battle ≡ some b)
        × (b.settled ≡ false)
        × ((view w₂).tables ≡ settled battle config star result.0.first_clear b (view w).tables)
  settled_by w₁ w₂ before steps =
      let (b, found, unsettled, written) =
        settle_steps_done client view db battle config star result.0.first_clear w₁ w₂ steps in
      let start : (view w₁).tables ≡ (view w).tables =
        before ∙ ap (λ (c : Connection). c.tables) view-select in
      (
        b,
        ap (λ (t : Tables). lookup battle.battle_id t.dungeon_battle) (sym start) ∙ found,
        unsettled,
        written ∙ ap (settled battle config star result.0.first_clear b) start,
      )

  -- On MySQL as documented: if settling fails, no table has changed. Or the battle was there and
  -- unfinished, COMMIT was reported as failed on the tables of a whole settlement, with the diamonds
  -- as `first_clear` of the result says, and these tables stayed.
  pub settle_dungeon_failed :
      (settle_dungeon client battle config star w).0.success ≡ false
      → ((view (settle_dungeon client battle config star w).1).tables ≡ (view w).tables)
        ⊎ ((w₂ : W) × (b : Battle) × CommitFailed client w₂
            × (lookup battle.battle_id (view w).tables.dungeon_battle ≡ some b)
            × (b.settled ≡ false)
            × ((view w₂).tables
                ≡ settled battle config star
                    (settle_dungeon client battle config star w).0.first_clear
                    b
                    (view w).tables)
            × ((view (settle_dungeon client battle config star w).1).tables ≡ (view w₂).tables))
  unfolding settle_dungeon
  settle_dungeon_failed h = elim (Option-cases ran.0) [
    | inl e ↦ absurd (ground (arith, e))
    | inr (m, e) ↦
        elim (transaction_failed client view db
          (settle_steps client battle config star result.0.first_clear)
          (settle_steps-Inside client view db battle config star result.0.first_clear) select.1
          ran.1 m (ground (arith, e))) [
            | inl undone ↦ inl (undone ∙ ap (λ (c : Connection). c.tables) view-select)
            | inr (w₁, w₂, before, steps, unsure, after) ↦
                let (b, found, unsettled, written) = settled_by w₁ w₂ before steps in
                inr (w₂, b, unsure, found, unsettled, written, after)
          ]
  ]

  -- On MySQL as documented, if settling succeeds and the SELECTs do not fail: the battle was there
  -- and unfinished, and the tables are those before with the battle finished, the progress raised and
  -- the rewards logged, and with the gold and the diamonds added to the player's row of player_asset,
  -- or with player_asset as it was where the player has no row there. The diamonds belong to the
  -- rewards that are logged, added and named by the result exactly if the player had no progress in
  -- the dungeon.
  pub settle_dungeon_done :
      Answers client view
      → (settle_dungeon client battle config star w).0.success ≡ true
      → (b : Battle) × (first_clear : Bool) × (lookup battle.battle_id
            (view w).tables.dungeon_battle
          ≡ some b)
        × (b.settled ≡ false)
        × ((view (settle_dungeon client battle config star w).1).tables
            ≡ settled battle config star first_clear b (view w).tables)
        × ((first_clear ≡ true) ↔ (
            find_progress battle.player_id config.dungeon_id (view w).tables.player_dungeon ≡ none))
        × ((settle_dungeon client battle config star w).0.first_clear ≡ first_clear)
        × ((settle_dungeon client battle config star w).0.rewards ≡ rewards_of config first_clear)
  unfolding settle_dungeon
  settle_dungeon_done answers h =
      let finished : ran.0 ≡ none = elim (Option-cases ran.0) [
        | inl e ↦ e
        | inr (m, e) ↦ absurd (ground (arith, e))
      ] in
      let (w₁, w₂, before, steps, after) =
        transaction_done client view db
          (settle_steps client battle config star result.0.first_clear) select.1 ran.1
          (ground (arith, finished)) in
      let (b, found, unsettled, written) = settled_by w₁ w₂ before steps in
      (
        b,
        result.0.first_clear,
        found,
        unsettled,
        after ∙ written,
        (
          λ e. answers.cleared battle.player_id config.dungeon_id w (ground arith),
          λ e. ground (arith, answers.not_cleared battle.player_id config.dungeon_id w e),
        ),
        refl,
        refl,
      )

  -- A battle that is settled already cannot be settled: nothing changes.
  pub settle_dungeon_settled :
      (b : Battle)
      → lookup battle.battle_id (view w).tables.dungeon_battle ≡ some b
      → b.settled ≡ true
      → (settle_dungeon client battle config star w).0.success ≡ false
  unfolding settle_dungeon
  settle_dungeon_settled b found over = elim (Option-cases ran.0) [
    | inr (m, e) ↦ ground (arith, e)
    | inl e ↦
        (let (w₁, w₂, before, steps, after) =
            transaction_done client view db
              (settle_steps client battle config star result.0.first_clear) select.1 ran.1
              (ground (arith, e)) in
          let (b', found', unsettled, written) = settled_by w₁ w₂ before steps in
          let again : some b' ≡ some b = sym found' ∙ found in absurd (ground (arith, again)))
  ]

-- On MySQL as documented, with SELECTs that do not fail: after a settlement succeeded, none of the
-- same battle id succeeds on the tables that it left, and none changes them, whatever player,
-- dungeon, configuration or stars it names: the rewards are paid once at most.
pub settled_once :
    {W : Type 0} (client : MySqlClient W) (view : W → Connection) (battle battle' : BattleContext)
    (config config' : DungeonConfig) (star star' : ℤ) (w w' : W)
    → IsMySql client view
    → Answers client view
    → (settle_dungeon client battle config star w).0.success ≡ true
    → (view w').tables ≡ (view (settle_dungeon client battle config star w).1).tables
    → battle'.battle_id ≡ battle.battle_id
    → ((settle_dungeon client battle' config' star' w').0.success ≡ false)
      × ((view (settle_dungeon client battle' config' star' w').1).tables ≡ (view w').tables)
settled_once client view battle battle' config config' star star' w w' db answers h later same =
    let (b, first, found, unsettled, after, _, _, _) =
      settle_dungeon_done client view db battle config star w answers h in
    let now : lookup battle'.battle_id (view w').tables.dungeon_battle
        ≡ some (record b { settled = true }) =
      ap (λ id. lookup id (view w').tables.dungeon_battle) same
      ∙ ap (λ (t : Tables). lookup battle.battle_id t.dungeon_battle) (later ∙ after)
      ∙ lookup-insert_self battle.battle_id _ _ in
    let refused =
      settle_dungeon_settled client view db battle' config' star' w' (record b { settled = true })
        now refl in
    (
      refused,
      elim (settle_dungeon_failed client view db battle' config' star' w' refused) [
        | inl same_tables ↦ same_tables
        | inr (w₂, b', _, found', unsettled', _, _) ↦
            let again : some b' ≡ some (record b { settled = true }) = sym found' ∙ now in
            absurd (ground (arith, again, unsettled'))
      ],
    )
