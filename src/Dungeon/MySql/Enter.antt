-- ===== src/Dungeon/MySql/Enter.antt =====
-- Entering a dungeon takes the stamina and opens a battle, or does nothing.
use project_moon.Base.{
  ℕ, ◌≡◌, ◌≢◌, ◌⊎◌, inl, inr, sym, subst, Option, [], ap, ◌∙◌, true, false, none, some, Bytes,
  bytes_eq, ℤ, int_eq, nat_eq, arith, Option-cases, pos, ◌≤ℤ◌, ◌-ℤ◌,
}
use project_moon.Base.Text.{codes}
use project_moon.Base.Dict.{lookup, insert}
use project_moon.Model.{PlayerState, BattleContext}
use project_moon.Dungeon.{DungeonConfig, EnterDungeonResult}
use project_moon.Dungeon.Sql.{
  Tables, Asset, Connection, run, take_stamina, insert_battle, unfinished_battle, is_busy,
}
use project_moon.Dungeon.MySql.{
  MySqlClient, query_one, check_unfinished, enter_steps, enter_dungeon, transaction,
}
use project_moon.Dungeon.MySql.Laws.{
  IsMySql, Answers, Inside, try_execute-Inside, try_update-Inside, try_execute_done,
  try_update_done,
}
use project_moon.Dungeon.MySql.Transaction.{
  CommitFailed, transaction_failed, transaction_done, then_try-Inside, then_try_done,
}

-- The tables after a success.
abbrev pub entered : ℤ → DungeonConfig → Bytes → Asset → Tables → Tables
entered p config battle_id a t = record t {
  player_asset = insert p (record a { stamina = a.stamina -ℤ config.cost_stamina }) t.player_asset;
  dungeon_battle =
      insert battle_id
        (record {
          player_id = p;
          dungeon_id = config.dungeon_id;
          settled = false;
          cost_stamina = config.cost_stamina;
        })
        t.dungeon_battle;
}

-- The context of the battle that entering opens.
abbrev opened : PlayerState → DungeonConfig → Bytes → BattleContext
opened state config battle_id = record {
  battle_id = battle_id;
  player_id = state.profile.player_id;
  dungeon_id = config.dungeon_id;
  cost_stamina = config.cost_stamina;
  max_star = config.max_star;
  settled = false;
}

-- Between two states of the tables, entering has happened: the player had at least the stamina that
-- the dungeon costs, which is not 0, and the battle id was new.
abbrev pub Enters : ℤ → DungeonConfig → Bytes → Tables → Tables → Type 0
Enters p config battle_id t t' =
    (a : Asset) × (lookup p t.player_asset ≡ some a)
    × (config.cost_stamina ≤ℤ a.stamina)
    × (config.cost_stamina ≢ pos 0)
    × (lookup battle_id t.dungeon_battle ≡ none)
    × (t' ≡ entered p config battle_id a t)

module _ {W : Type 0} (client : MySqlClient W) (view : W → Connection)
    (db : IsMySql client view) where
  view-check_unfinished : (p : ℤ) (w : W) → view (check_unfinished client p w).1 ≡ view w
  unfolding check_unfinished query_one
  view-check_unfinished p w = db.selected (unfinished_battle p) w

  enter_steps-Inside :
      (p : ℤ) (config : DungeonConfig) (battle_id : Bytes)
      → Inside view (enter_steps client p config battle_id)
  unfolding enter_steps
  enter_steps-Inside p config battle_id =
      then_try-Inside client view _ _
        (then_try-Inside client view _ _
          (λ w. ap (λ (c : Connection). c.saved) (view-check_unfinished p w))
          (try_update-Inside client view db (take_stamina config.cost_stamina p) tt
            (codes "stamina not enough")))
        (try_execute-Inside client view db
          (insert_battle battle_id p config.dungeon_id config.cost_stamina) tt)

  module _ (state : PlayerState) (config : DungeonConfig) (battle_id : Bytes) (w : W) where
    -- `run` at the two updates.
    stamina_taken :
        (t t' : Tables)
        → run (take_stamina config.cost_stamina state.profile.player_id) t ≡ some (t', 1)
        → (a : Asset) × (lookup state.profile.player_id t.player_asset ≡ some a)
          × (config.cost_stamina ≤ℤ a.stamina)
          × (config.cost_stamina ≢ pos 0)
          × (t' ≡ record t {
            player_asset =
                insert state.profile.player_id
                  (record a { stamina = a.stamina -ℤ config.cost_stamina })
                  t.player_asset;
          })
    unfolding run
    stamina_taken t t' h = elim (Option-cases (lookup state.profile.player_id t.player_asset)) [
      | inl e ↦ absurd (ground (arith, e))
      | inr (a, e) ↦ (a, e, ground (arith, e), (λ z. ground (arith, e, z)), ground (arith, e))
    ]

    battle_inserted :
        (t t' : Tables) (n : ℕ)
        → run
            (insert_battle battle_id state.profile.player_id config.dungeon_id config.cost_stamina)
            t
          ≡ some (t', n)
        → (lookup battle_id t.dungeon_battle ≡ none)
          × (t' ≡ record t {
            dungeon_battle =
                insert battle_id
                  (record {
                    player_id = state.profile.player_id;
                    dungeon_id = config.dungeon_id;
                    settled = false;
                    cost_stamina = config.cost_stamina;
                  })
                  t.dungeon_battle;
          })
    unfolding run
    battle_inserted t t' n h = elim (Option-cases (lookup battle_id t.dungeon_battle)) [
      | inl e ↦ (e, ground (arith, e))
      | inr (b, e) ↦ absurd (ground (arith, e))
    ]

    check_done :
        (w₁ w₂ : W)
        → check_unfinished client state.profile.player_id w₁ ≡ (none, w₂)
        → (view w₂ ≡ view w₁)
          × ((query_one client (unfinished_battle state.profile.player_id) w₁).0 ≡ none)
    unfolding check_unfinished
    check_done w₁ w₂ h =
        elim (Option-cases (query_one client (unfinished_battle state.profile.player_id) w₁).0) [
          | inl e ↦
              (ap view (ground (arith, e)) ∙ view-check_unfinished state.profile.player_id w₁, e)
          | inr (r, e) ↦ absurd (ground (arith, e))
        ]

    -- The steps of entering, where none of them fails.
    enter_steps_done :
        (w₁ w₂ : W)
        → enter_steps client state.profile.player_id config battle_id w₁ ≡ (none, w₂)
        → ((query_one client (unfinished_battle state.profile.player_id) w₁).0 ≡ none)
          × Enters state.profile.player_id config battle_id (view w₁).tables (view w₂).tables
    unfolding enter_steps
    enter_steps_done w₁ w₂ ran =
        let p : ℤ = state.profile.player_id in
        let (w₄, front, last) = then_try_done client _ _ w₁ w₂ ran in
        let (w₃, checked, updated) = then_try_done client _ _ w₁ w₄ front in
        let (same, idle) = check_done w₁ w₃ checked in
        let (a, found, enough, nonzero, taken) = stamina_taken (view w₃).tables (view w₄).tables (
          try_update_done client view db (take_stamina config.cost_stamina p) tt tt
            (codes "stamina not enough") w₃ w₄ updated) in
        let (n, inserted) =
          try_execute_done client view db
            (insert_battle battle_id p config.dungeon_id config.cost_stamina) tt w₄ w₂ last in
        let (fresh, put) = battle_inserted (view w₄).tables (view w₂).tables n inserted in
        let start : (view w₃).tables ≡ (view w₁).tables = ap (λ (c : Connection). c.tables) same in
        let battles : (view w₄).tables.dungeon_battle ≡ (view w₁).tables.dungeon_battle =
          ap (λ (t : Tables). t.dungeon_battle) taken
          ∙ ap (λ (t : Tables). t.dungeon_battle) start in
        (
          idle,
          (
            a,
            ap (λ (t : Tables). lookup p t.player_asset) (sym start) ∙ found,
            enough,
            nonzero,
            ap (lookup battle_id) (sym battles) ∙ fresh,
            put
                ∙ ap (add_battle p) taken
                ∙ ap
                    (λ t. add_battle p (record t {
                      player_asset =
                          insert p (record a { stamina = a.stamina -ℤ config.cost_stamina })
                            t.player_asset;
                    }))
                    start,
          ),
        )
      where
        add_battle : ℤ → Tables → Tables
        add_battle p t = record t {
          dungeon_battle =
              insert battle_id
                (record {
                  player_id = p;
                  dungeon_id = config.dungeon_id;
                  settled = false;
                  cost_stamina = config.cost_stamina;
                })
                t.dungeon_battle;
        }

    -- On MySQL as documented: if entering fails, no table has changed. Or, on the tables from before,
    -- the SELECT of unfinished battles found none, COMMIT was reported as failed on the tables of a
    -- whole entering, and these tables stayed.
    pub enter_dungeon_failed :
        (enter_dungeon client state config battle_id w).0.success ≡ false
        → ((view (enter_dungeon client state config battle_id w).1).tables ≡ (view w).tables)
          ⊎ ((w₁ w₂ : W) × ((view w₁).tables ≡ (view w).tables)
              × ((query_one client (unfinished_battle state.profile.player_id) w₁).0 ≡ none)
              × CommitFailed client w₂
              × Enters state.profile.player_id config battle_id (view w).tables (view w₂).tables
              × ((view (enter_dungeon client state config battle_id w).1).tables
                  ≡ (view w₂).tables))
    unfolding enter_dungeon
    enter_dungeon_failed h =
        let p : ℤ = state.profile.player_id in
        elim (Option-cases (transaction client (enter_steps client p config battle_id) w).0) [
          | inl e ↦ absurd (ground (arith, e))
          | inr (m, e) ↦
              elim (transaction_failed client view db (enter_steps client p config battle_id)
                (enter_steps-Inside p config battle_id) w
                (transaction client (enter_steps client p config battle_id) w).1 m
                (ground (arith, e))) [
                  | inl undone ↦ inl undone
                  | inr (w₁, w₂, before, ran, unsure, after) ↦
                      let (idle, whole) = enter_steps_done w₁ w₂ ran in
                      inr (
                        w₁,
                        w₂,
                        before,
                        idle,
                        unsure,
                        subst (λ t. Enters p config battle_id t (view w₂).tables) before whole,
                        after,
                      )
                ]
        ]

    -- On MySQL as documented, if entering succeeds and the SELECTs do not fail: the player had no
    -- unfinished battle and at least the stamina that the dungeon costs, which is not 0; the battle
    -- id was new; exactly the stamina is gone and exactly the battle is there in addition. The
    -- result names this battle, unsettled, and, as the stamina that remains, the one of the state
    -- that it was called with less the cost.
    pub enter_dungeon_done :
        Answers client view
        → (enter_dungeon client state config battle_id w).0.success ≡ true
        → (is_busy state.profile.player_id (view w).tables.dungeon_battle ≡ false)
          × Enters state.profile.player_id config battle_id
              (view w).tables
              (view (enter_dungeon client state config battle_id w).1).tables
          × ((enter_dungeon client state config battle_id w).0 ≡ record {
            success = true;
            remain_stamina = state.profile.stamina -ℤ config.cost_stamina;
            error_message = [];
            battle_context = record {
              battle_id = battle_id;
              player_id = state.profile.player_id;
              dungeon_id = config.dungeon_id;
              cost_stamina = config.cost_stamina;
              max_star = config.max_star;
              settled = false;
            };
          })
    unfolding enter_dungeon
    enter_dungeon_done answers h =
        let p : ℤ = state.profile.player_id in
        let finished : (transaction client (enter_steps client p config battle_id) w).0 ≡ none =
          elim (Option-cases (transaction client (enter_steps client p config battle_id) w).0) [
            | inl e ↦ e
            | inr (m, e) ↦ absurd (ground (arith, e))
          ] in
        let (w₁, w₂, before, ran, after) =
          transaction_done client view db (enter_steps client p config battle_id) w
            (transaction client (enter_steps client p config battle_id) w).1
            (ground (arith, finished)) in
        let (idle, whole) = enter_steps_done w₁ w₂ ran in
        (
          ap (λ (t : Tables). is_busy p t.dungeon_battle) (sym before)
              ∙ answers.unfinished p w₁ idle,
          subst
              (λ t.
                Enters p config battle_id t
                  (view (transaction client (enter_steps client p config battle_id) w).1).tables)
              before (subst (Enters p config battle_id (view w₁).tables) (sym after) whole),
          ap told finished,
        )
      where
        told : Option Bytes → EnterDungeonResult
        told message = elim message [
          | some text ↦ record {
            success = false;
            remain_stamina = pos 0;
            error_message = text;
            battle_context = opened state config battle_id;
          }
          | none ↦ record {
            success = true;
            remain_stamina = state.profile.stamina -ℤ config.cost_stamina;
            error_message = [];
            battle_context = opened state config battle_id;
          }
        ]
