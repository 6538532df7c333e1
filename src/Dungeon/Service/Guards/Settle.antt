-- ===== src/Dungeon/Service/Guards/Settle.antt =====
-- What is known when dungeon_service.cpp settles a battle.
use project_moon.Base.{
  ◌≡◌, ◌∙◌, refl, Bool, true, false, not, ◌||◌, some, Bytes, ℤ, int_eq, int_beq_iff, ◌==◌, pos,
  ltb_ℤ, leb_ℤ, ◌≤ℤ◌, ok, arith,
}
use project_moon.Model.{Session, PlayerState, BattleContext}
use project_moon.Dungeon.{DungeonConfig}
use project_moon.Dungeon.Service.{
  Repositories, SettleDungeonRequest, SettleDungeonResponse, find_battle, settle_battle,
  settle_locked, settle_with_config, settle_dungeon, is_session_of,
}
use project_moon.Dungeon.Service.Triples.{
  Triple, Triple-pure, Triple-if, Triple-bind, Triple-fact, Triple-elim,
}
use project_moon.Dungeon.Service.Guards.{
  Any, HandsOut, Unless, is_session_of-some, known, refused, widen, released, past, after,
}

module _ {W : Type 0} (r : Repositories W) (Live : Bytes → Session → Type 0)
    (Configured : ℤ → DungeonConfig → Type 0) (Stored : ℤ → PlayerState → Type 0)
    (Known : Bytes → BattleContext → Type 0) (laws : HandsOut r Live Configured Stored Known) where
  abbrev was_settled : SettleDungeonResponse → Bool
  was_settled a = a.success

  -- The battle is the one that the request is about, and it is not settled.
  IsOwn : SettleDungeonRequest → BattleContext → Type 0
  IsOwn request battle =
      (battle.player_id ≡ request.player_id)
      × (battle.dungeon_id ≡ request.dungeon_id)
      × (battle.settled ≡ false)

  settle_battle_success :
      {P : W → Type 0} (request : SettleDungeonRequest) (config : DungeonConfig) (b : BattleContext)
      → Triple P (settle_battle r request config b) (Unless was_settled (IsOwn request b))
  unfolding settle_battle IsOwn
  settle_battle_success request config b =
      Triple-if (not (b.player_id == request.player_id) || not (b.dungeon_id == request.dungeon_id))
        _ _ (λ _. released _ _ r _ _ refl)
        λ own.
          Triple-if b.settled _ _ (λ _. released _ _ r _ _ refl)
            λ open_battle. known _ _ _ (
              (int_beq_iff b.player_id request.player_id).0 (ground (arith, own)),
              (int_beq_iff b.dungeon_id request.dungeon_id).0 (ground (arith, own)),
              open_battle,
            )

  -- The battle comes out of the cache or of the database.
  find_battle-Known :
      (id : Bytes)
      → Triple Any (find_battle r id) (λ found _. (b : BattleContext) → found ≡ some b → Known id b)
  unfolding find_battle
  find_battle-Known id = Triple-bind _ _ (laws.cached id) λ found.
      Triple-fact _ (λ w h. h)
        λ from.
          Triple-elim found _ _ (record { run = λ w w' b p e. (laws.stored id).run w w' b tt e })
            λ battle e. Triple-pure _ λ w h b same. from b (e ∙ same)

  settle_locked_success :
      {P : W → Type 0} (request : SettleDungeonRequest) (config : DungeonConfig)
      → Triple P
          (settle_locked r request config)
          (Unless was_settled ((b : BattleContext) × Known request.battle_id b × IsOwn request b))
  unfolding settle_locked
  settle_locked_success request config =
      after _ _ _ _ (find_battle-Known request.battle_id) λ found.
        Triple-fact _ (λ w h. h)
          λ from.
            Triple-elim found _ _ (released _ _ r _ _ refl) λ b e.
              widen _ _ _ _ (settle_battle_success request config b) λ own. (b, from b e, own)

  -- What is known of a request that may settle.
  Due : SettleDungeonRequest → Type 0
  Due request =
      (session : Session) × (config : DungeonConfig) × (battle : BattleContext) × Live
        request.session_id session
      × (session.player_id ≡ request.player_id)
      × Configured request.dungeon_id config
      × Known request.battle_id battle
      × (battle.player_id ≡ request.player_id)
      × (battle.dungeon_id ≡ request.dungeon_id)
      × (battle.settled ≡ false)
      × (pos 1 ≤ℤ request.star)
      × (request.star ≤ℤ config.max_star)
      × (request.result ≡ true)

  settle_dungeon-Due :
      (request : SettleDungeonRequest)
      → Triple Any (settle_dungeon r request) (Unless was_settled (Due request))
  unfolding settle_dungeon settle_with_config Due IsOwn
  settle_dungeon-Due request =
      Triple-if (not request.result) _ _ (λ _. refused _ _ _ refl)
        λ won. after _ _ _ _ (laws.session request.session_id) λ found.
          Triple-fact _ (λ w h. h)
            λ live.
              Triple-if (not (is_session_of request.player_id found)) _ _ (λ _. refused _ _ _ refl)
                λ own.
                  let (session, is, same) = is_session_of-some request.player_id found own in
                  after _ _ _ _ (laws.config request.dungeon_id) λ config_found.
                    Triple-fact _ (λ w h. h)
                      λ configured. Triple-elim config_found _ _ (refused _ _ _ refl) λ config e.
                        Triple-if (leb_ℤ request.star (pos 0) || ltb_ℤ config.max_star request.star)
                          _ _ (λ _. refused _ _ _ refl)
                          λ fits. past _ _ (r.locks.acquire request.player_id) _ λ acquired.
                            Triple-if (not acquired) _ _ (λ _. refused _ _ _ refl)
                              λ _.
                                widen _ _ _ _ (settle_locked_success request config)
                                  λ (battle, stored, (player, dungeon, unsettled)). (
                                    session,
                                    config,
                                    battle,
                                    live session is,
                                    same,
                                    configured config e,
                                    stored,
                                    player,
                                    dungeon,
                                    unsettled,
                                    ground (arith, fits),
                                    ground (arith, fits),
                                    ground (arith, won),
                                  )

  -- An answer with success is given only to the player of a session that the session repository
  -- found, for a won battle that the cache or the database knows, that belongs to this player and
  -- this configured dungeon, that is not marked as settled, and with a star between 1 and the
  -- dungeon's maximum.
  pub settle_dungeon_success :
      (request : SettleDungeonRequest) (w w' : W) (response : SettleDungeonResponse)
      → settle_dungeon r request w ≡ (ok response, w')
      → response.success ≡ true
      → (session : Session) × (config : DungeonConfig) × (battle : BattleContext) × Live
          request.session_id session
        × (session.player_id ≡ request.player_id)
        × Configured request.dungeon_id config
        × Known request.battle_id battle
        × (battle.player_id ≡ request.player_id)
        × (battle.dungeon_id ≡ request.dungeon_id)
        × (battle.settled ≡ false)
        × (pos 1 ≤ℤ request.star)
        × (request.star ≤ℤ config.max_star)
        × (request.result ≡ true)
  unfolding Unless Due
  settle_dungeon_success request w w' response returned =
      (settle_dungeon-Due request).run w w' response tt returned
