-- ===== src/Dungeon/Service/Guards/Enter.antt =====
-- What is known when dungeon_service.cpp lets a player enter.
use project_moon.Base.{◌≡◌, refl, Bool, true, not, Bytes, ℤ, int_eq, ltb_ℤ, ◌≤ℤ◌, ok, arith}
use project_moon.Model.{Session, PlayerState, BattleContext}
use project_moon.Dungeon.{DungeonConfig}
use project_moon.Dungeon.Service.{
  Repositories, EnterDungeonRequest, EnterDungeonResponse, enter_with_state, enter_locked,
  enter_dungeon, is_session_of,
}
use project_moon.Dungeon.Service.Triples.{Triple, Triple-if, Triple-fact, Triple-elim}
use project_moon.Dungeon.Service.Guards.{
  Any, HandsOut, Unless, is_session_of-some, known, refused, widen, released, past, after,
}

module _ {W : Type 0} (r : Repositories W) (Live : Bytes → Session → Type 0)
    (Configured : ℤ → DungeonConfig → Type 0) (Stored : ℤ → PlayerState → Type 0)
    (Known : Bytes → BattleContext → Type 0) (laws : HandsOut r Live Configured Stored Known) where
  abbrev entered : EnterDungeonResponse → Bool
  entered a = a.success

  -- The player may enter: the level and the stamina are enough.
  MayEnter : DungeonConfig → PlayerState → Type 0
  MayEnter config s =
      (config.required_level ≤ℤ s.profile.level) × (config.cost_stamina ≤ℤ s.profile.stamina)

  enter_with_state_success :
      {P : W → Type 0} (request : EnterDungeonRequest) (config : DungeonConfig) (s : PlayerState)
      → Triple P (enter_with_state r request config s) (Unless entered (MayEnter config s))
  unfolding enter_with_state MayEnter
  enter_with_state_success request config s =
      Triple-if (ltb_ℤ s.profile.level config.required_level) _ _ (λ _. released _ _ r _ _ refl)
        λ high.
          Triple-if (ltb_ℤ s.profile.stamina config.cost_stamina) _ _ (λ _. released _ _ r _ _ refl)
            λ fit. known _ _ _ (ground (arith, high), ground (arith, fit))

  -- What is known of a request that may enter.
  Admitted : EnterDungeonRequest → Type 0
  Admitted request =
      (session : Session) × (config : DungeonConfig) × (state : PlayerState) × Live
        request.session_id session
      × (session.player_id ≡ request.player_id)
      × Configured request.dungeon_id config
      × Stored request.player_id state
      × (config.required_level ≤ℤ state.profile.level)
      × (config.cost_stamina ≤ℤ state.profile.stamina)

  enter_locked_success :
      {P : W → Type 0} (request : EnterDungeonRequest) (config : DungeonConfig)
      → Triple P
          (enter_locked r request config)
          (Unless entered ((s : PlayerState) × Stored request.player_id s × MayEnter config s))
  unfolding enter_locked
  enter_locked_success request config = after _ _ _ _ (laws.player request.player_id) λ found.
      Triple-fact _ (λ w h. h)
        λ from.
          Triple-elim found _ _ (released _ _ r _ _ refl) λ s e.
            widen _ _ _ _ (enter_with_state_success request config s) λ may. (s, from s e, may)

  enter_dungeon-Admitted :
      (request : EnterDungeonRequest)
      → Triple Any (enter_dungeon r request) (Unless entered (Admitted request))
  unfolding enter_dungeon Admitted MayEnter
  enter_dungeon-Admitted request = after _ _ _ _ (laws.session request.session_id) λ found.
      Triple-fact _ (λ w h. h)
        λ live.
          Triple-if (not (is_session_of request.player_id found)) _ _ (λ _. refused _ _ _ refl)
            λ own.
              let (session, is, same) = is_session_of-some request.player_id found own in
              after _ _ _ _ (laws.config request.dungeon_id) λ config_found.
                Triple-fact _ (λ w h. h)
                  λ configured. Triple-elim config_found _ _ (refused _ _ _ refl) λ config e.
                    past _ _ (r.locks.acquire request.player_id) _ λ acquired.
                      Triple-if (not acquired) _ _ (λ _. refused _ _ _ refl)
                        λ _.
                          widen _ _ _ _ (enter_locked_success request config)
                            λ (state, stored, (high, fit)). (
                              session,
                              config,
                              state,
                              live session is,
                              same,
                              configured config e,
                              stored,
                              high,
                              fit,
                            )

  -- An answer with success is given only to the player of a session that the session repository
  -- found, for a dungeon that the configuration has, when the stored player has the level and the
  -- stamina that it asks for.
  pub enter_dungeon_success :
      (request : EnterDungeonRequest) (w w' : W) (response : EnterDungeonResponse)
      → enter_dungeon r request w ≡ (ok response, w')
      → response.success ≡ true
      → (session : Session) × (config : DungeonConfig) × (state : PlayerState) × Live
          request.session_id session
        × (session.player_id ≡ request.player_id)
        × Configured request.dungeon_id config
        × Stored request.player_id state
        × (config.required_level ≤ℤ state.profile.level)
        × (config.cost_stamina ≤ℤ state.profile.stamina)
  unfolding Unless Admitted
  enter_dungeon_success request w w' response returned =
      (enter_dungeon-Admitted request).run w w' response tt returned
