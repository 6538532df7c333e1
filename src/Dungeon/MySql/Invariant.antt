-- ===== src/Dungeon/MySql/Invariant.antt =====
-- What holds of the tables through any history of entering and settling.
use project_moon.Base.{
  ◌≡◌, inl, inr, sym, ap, subst, ◌∙◌, Bool, true, false, Option, some, List, [], ◌∷◌, Bytes,
  bytes_eq, ℤ, int_eq, int_beq_iff, pos, arith, Option-cases, Bool-cases, ◌≤ℤ◌, int_laws,
}
use project_moon.Base.Dict.{Dict, lookup, insert-cases}
use project_moon.Model.{PlayerState, BattleContext}
use project_moon.Dungeon.{DungeonConfig}
use project_moon.Dungeon.Sql.{Tables, Battle, Asset, Connection, is_busy}
use project_moon.Dungeon.MySql.{MySqlClient, enter_dungeon, settle_dungeon}
use project_moon.Dungeon.MySql.Laws.{IsMySql, Answers}
use project_moon.Dungeon.MySql.Enter.{entered, enter_dungeon_failed, enter_dungeon_done}
use project_moon.Dungeon.MySql.Settle.{paid, settled, first_diamond}
use project_moon.Dungeon.MySql.Settle.Once.{settle_dungeon_failed, settle_dungeon_done}

-- A player has one unfinished battle at most, and no stamina is below 0.
pub record IsSound (t : Tables) : Type 0 where
  pub one_unfinished :
      (j k : Bytes) (a b : Battle)
      → lookup j t.dungeon_battle ≡ some a
      → lookup k t.dungeon_battle ≡ some b
      → a.settled ≡ false
      → b.settled ≡ false
      → a.player_id ≡ b.player_id
      → j ≡ k
  pub stamina_nonneg : (p : ℤ) (a : Asset) → lookup p t.player_asset ≡ some a → pos 0 ≤ℤ a.stamina

not_busy :
    (p : ℤ) (m : Dict Bytes Battle) (k : Bytes) (b : Battle)
    → is_busy p m ≡ false
    → lookup k m ≡ some b
    → b.player_id ≡ p
    → b.settled ≡ true
unfolding is_busy lookup
not_busy p [] k b idle e same = absurd (cc e)
not_busy p ((j, c) ∷ m) k b idle e same =
    ground (arith, not_busy p m k b, int_beq_iff c.player_id p, int_beq_iff b.player_id p)

entered-IsSound :
    (p : ℤ) (config : DungeonConfig) (id : Bytes) (a : Asset) (t : Tables)
    → config.cost_stamina ≤ℤ a.stamina
    → is_busy p t.dungeon_battle ≡ false
    → IsSound t
    → IsSound (entered p config id a t)
entered-IsSound p config id a t enough idle v = record {
  one_unfinished = λ j k x y e f u u' same. elim (insert-cases id j _ x t.dungeon_battle e) [
    | inl (at_j, new_x) ↦ elim (insert-cases id k _ y t.dungeon_battle f) [
      | inl (at_k, new_y) ↦ sym at_j ∙ at_k
      | inr (ne_k, old_y) ↦
          absurd (ground (arith, not_busy p t.dungeon_battle k y idle old_y, new_x))
    ]
    | inr (ne_j, old_x) ↦ elim (insert-cases id k _ y t.dungeon_battle f) [
      | inl (at_k, new_y) ↦
          absurd (ground (arith, not_busy p t.dungeon_battle j x idle old_x, new_y))
      | inr (ne_k, old_y) ↦ v.one_unfinished j k x y old_x old_y u u' same
    ]
  ];
  stamina_nonneg = λ q b e. elim (insert-cases p q _ b t.player_asset e) [
    | inl (at_q, new) ↦ subst (λ (c : Asset). pos 0 ≤ℤ c.stamina) (sym new) (omega int_laws)
    | inr (ne_q, old) ↦ v.stamina_nonneg q b old
  ];
}

-- A payment touches no stamina.
paid_stamina :
    (p gold : ℤ) (diamond : Option ℤ) (q : ℤ) (c : Asset) (assets : Dict ℤ Asset)
    → ((r : ℤ) (a : Asset) → lookup r assets ≡ some a → pos 0 ≤ℤ a.stamina)
    → lookup q (paid p gold diamond assets) ≡ some c
    → pos 0 ≤ℤ c.stamina
unfolding paid
paid_stamina p gold diamond q c assets v e = elim (Option-cases (lookup p assets)) [
  | inl absent ↦ v q c (ground (arith, absent))
  | inr (a, present) ↦ elim (insert-cases p q _ c assets (rw (present, paid) at e)) [
    | inl (at_q, new) ↦ subst (λ (d : Asset). pos 0 ≤ℤ d.stamina) (sym new) (v p a present)
    | inr (ne_q, old) ↦ v q c old
  ]
]

settled-IsSound :
    (battle : BattleContext) (config : DungeonConfig) (star : ℤ) (first : Bool) (b : Battle)
    (t : Tables)
    → lookup battle.battle_id t.dungeon_battle ≡ some b
    → IsSound t
    → IsSound (settled battle config star first b t)
settled-IsSound battle config star first b t found v = record {
  one_unfinished = λ j k x y e f u u' same.
      elim (insert-cases battle.battle_id j _ x t.dungeon_battle e) [
        | inl (at_j, new_x) ↦ absurd (ground (arith, new_x))
        | inr (ne_j, old_x) ↦ elim (insert-cases battle.battle_id k _ y t.dungeon_battle f) [
          | inl (at_k, new_y) ↦ absurd (ground (arith, new_y))
          | inr (ne_k, old_y) ↦ v.one_unfinished j k x y old_x old_y u u' same
        ]
      ];
  stamina_nonneg = λ q c e.
      paid_stamina battle.player_id config.normal_gold_reward (first_diamond config first) q c
        t.player_asset v.stamina_nonneg e;
}

-- The calls of the two operations, with what the service hands them.
pub data Call : Type 0 where
  enters : PlayerState → DungeonConfig → Bytes → Call
  settles : BattleContext → DungeonConfig → ℤ → Call

module _ {W : Type 0} (client : MySqlClient W) (view : W → Connection) where
  pub call : Call → W → W
  call (enters state config id) w = (enter_dungeon client state config id w).1
  call (settles battle config star) w = (settle_dungeon client battle config star w).1

  pub calls : List Call → W → W
  calls [] w = w
  calls (c ∷ cs) w = calls cs (call c w)

  module _ (db : IsMySql client view) (answers : Answers client view) where
    call-IsSound : (c : Call) (w : W) → IsSound (view w).tables → IsSound (view (call c w)).tables
    unfolding call
    call-IsSound (enters state config id) w v =
        elim (Bool-cases (enter_dungeon client state config id w).0.success) [
          | inl good ↦
              (let (idle, (a, found, enough, _, _, after), _) =
                  enter_dungeon_done client view db state config id w answers good in
                subst IsSound (sym after) (
                  entered-IsSound state.profile.player_id config id a (view w).tables enough idle
                    v))
          | inr bad ↦ elim (enter_dungeon_failed client view db state config id w bad) [
            | inl same ↦ subst IsSound (sym same) v
            | inr (w₁, _, before, none_open, _, (a, found, enough, _, _, all), after) ↦
                subst IsSound (sym (after ∙ all)) (
                  entered-IsSound state.profile.player_id config id a (view w).tables enough
                    (ap (λ (t : Tables). is_busy state.profile.player_id t.dungeon_battle)
                        (sym before)
                      ∙ answers.unfinished state.profile.player_id w₁ none_open)
                    v)
          ]
        ]
    call-IsSound (settles battle config star) w v =
        elim (Bool-cases (settle_dungeon client battle config star w).0.success) [
          | inl good ↦
              (let (b, first, found, _, after, _, _, _) =
                  settle_dungeon_done client view db battle config star w answers good in
                subst IsSound (sym after)
                  (settled-IsSound battle config star first b (view w).tables found v))
          | inr bad ↦ elim (settle_dungeon_failed client view db battle config star w bad) [
            | inl same ↦ subst IsSound (sym same) v
            | inr (_, b, _, found, _, all, after) ↦ subst IsSound (sym (after ∙ all)) (
                settled-IsSound battle config star
                  (settle_dungeon client battle config star w).0.first_clear b (view w).tables found
                  v)
          ]
        ]

    -- On MySQL as documented, from sound tables, any history of entering and settling, with whatever arguments and whatever
    -- statements fail, keeps at most one unfinished battle for each player and no stamina below 0,
    -- as long as no SELECT fails.
    pub calls-IsSound :
        (cs : List Call) (w : W) → IsSound (view w).tables → IsSound (view (calls cs w)).tables
    unfolding calls
    calls-IsSound [] w v = v
    calls-IsSound (c ∷ cs) w v = calls-IsSound cs (call c w) (call-IsSound c w v)
