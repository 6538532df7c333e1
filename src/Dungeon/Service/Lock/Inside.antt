-- ===== src/Dungeon/Service/Lock/Inside.antt =====
-- A request of dungeon_service.cpp from the moment that it has the player's lock: every return
-- calls Release once.
use project_moon.Base.{
  ◌≡◌, inl, inr, ◌∙◌, ltb_ℤ, ◌||◌, ◌+◌, ◌%◌, ◌^◌, not, Bytes, ℤ, int_eq, ◌==◌, arith, int_laws,
  Bool-cases,
}
use project_moon.Model.{PlayerState, BattleContext}
use project_moon.Dungeon.{DungeonConfig}
use project_moon.Dungeon.Service.{
  Repositories, EnterDungeonRequest, SettleDungeonRequest, generate_battle_id, release_and,
  enter_with_state, enter_locked, find_battle, settle_battle, settle_locked,
}
use project_moon.Dungeon.Service.Triples.{
  Triple, Keeps, Triple-pure, Triple-if, Triple-bind, Triple-elim,
}
use project_moon.Dungeon.Service.Lock.{Counts, one_more, one_less, Counted, HasCounts}

one_less-one_more :
    (player_id : ℤ) (counts : Counts) (p : ℤ)
    → one_less player_id (one_more player_id counts) p ≡ counts p
unfolding one_less one_more
one_less-one_more player_id counts p = elim (Bool-cases (p == player_id)) [
  | inl e ↦ rw e (omega int_laws)
  | inr e ↦ rw e
]

module _ {W : Type 0} (r : Repositories W) (count : W → Counts) (laws : HasCounts r count)
    (counts : Counts) where
  -- One acquiring of the player is not released, beside the ones of before.
  abbrev Inside : ℤ → W → Type 0
  Inside player_id = Counted count (one_more player_id counts)

  release_and_lem :
      {A : Type 0} (player_id : ℤ)
      → (a : A) → Triple (Inside player_id) (release_and r player_id a) (λ _. Counted count counts)
  unfolding Counted
  release_and_lem player_id a =
      Triple-bind _ _ (laws.release _ player_id)
        λ _. Triple-pure a λ w h p. h p ∙ one_less-one_more player_id counts p

  generate_lem : (player_id d : ℤ) → Keeps (Inside player_id) (generate_battle_id r player_id d)
  unfolding generate_battle_id Counted
  generate_lem player_id d = record {
    run = λ w w' b h e p.
        let moved : r.set_sequence ((r.sequence w + 1) % 2 ^ 64) w ≡ w' = ground (arith, e) in
        rw (← moved) (laws.set_sequence _ w p ∙ h p);
  }

  enter_with_state_lem :
      (request : EnterDungeonRequest) (config : DungeonConfig) (s : PlayerState)
      → Triple
          (Inside request.player_id)
          (enter_with_state r request config s)
          (λ _. Counted count counts)
  unfolding enter_with_state
  enter_with_state_lem request config s =
      Triple-if (ltb_ℤ s.profile.level config.required_level) _ _ (λ _. release_and_lem _ _)
        λ _.
          Triple-if (ltb_ℤ s.profile.stamina config.cost_stamina) _ _ (λ _. release_and_lem _ _)
            λ _. Triple-bind _ _ (generate_lem _ _) λ _.
              Triple-bind _ _ (laws.enter _ _ _ _) λ result.
                Triple-if (not result.success) _ _ (λ _. release_and_lem _ _)
                  λ _.
                    Triple-bind _ _ (laws.save _ _)
                      λ _. Triple-bind _ _ (laws.invalidate _ _) λ _. release_and_lem _ _

  pub enter_locked_lem :
      (request : EnterDungeonRequest) (config : DungeonConfig)
      → Triple
          (Inside request.player_id)
          (enter_locked r request config)
          (λ _. Counted count counts)
  unfolding enter_locked
  enter_locked_lem request config = Triple-bind _ _ (laws.load_player _ _) λ found.
      Triple-elim found _ _ (release_and_lem _ _) λ s _. enter_with_state_lem request config s

  find_battle_lem : (player_id : ℤ) (b : Bytes) → Keeps (Inside player_id) (find_battle r b)
  unfolding find_battle
  find_battle_lem player_id b =
      Triple-bind _ _ (laws.find_cached _ b)
        λ found. Triple-elim found _ _ (laws.find_stored _ b) λ battle _. Triple-pure _ λ w h. h

  settle_battle_lem :
      (request : SettleDungeonRequest) (config : DungeonConfig) (b : BattleContext)
      → Triple
          (Inside request.player_id)
          (settle_battle r request config b)
          (λ _. Counted count counts)
  unfolding settle_battle
  settle_battle_lem request config b =
      Triple-if (not (b.player_id == request.player_id) || not (b.dungeon_id == request.dungeon_id))
        _ _ (λ _. release_and_lem _ _)
        λ _.
          Triple-if b.settled _ _ (λ _. release_and_lem _ _)
            λ _. Triple-bind _ _ (laws.settle _ _ _ _) λ result.
              Triple-if (not result.success) _ _ (λ _. release_and_lem _ _)
                λ _.
                  Triple-bind _ _ (laws.delete _ _)
                    λ _. Triple-bind _ _ (laws.invalidate _ _) λ _. release_and_lem _ _

  pub settle_locked_lem :
      (request : SettleDungeonRequest) (config : DungeonConfig)
      → Triple
          (Inside request.player_id)
          (settle_locked r request config)
          (λ _. Counted count counts)
  unfolding settle_locked
  settle_locked_lem request config = Triple-bind _ _ (find_battle_lem _ _) λ found.
      Triple-elim found _ _ (release_and_lem _ _)
        λ battle _. settle_battle_lem request config battle
