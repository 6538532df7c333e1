-- ===== src/Dungeon/Service/Lock/Returned.antt =====
-- A request of dungeon_service.cpp as a whole: no return leaves out a Release.
use project_moon.Base.{
  ◌≡◌, refl, ltb_ℤ, leb_ℤ, pos, ◌||◌, Bool, true, false, not, if◌then◌else◌, ℤ, int_eq, ok, Exec,
}
use project_moon.Dungeon.{DungeonConfig}
use project_moon.Dungeon.Service.{
  Repositories, EnterDungeonRequest, EnterDungeonResponse, SettleDungeonRequest,
  SettleDungeonResponse, enter_dungeon, settle_with_config, settle_dungeon, is_session_of,
}
use project_moon.Dungeon.Service.Triples.{
  Triple, Keeps, Triple-pure, Triple-if, Triple-bind, Triple-elim,
}
use project_moon.Dungeon.Service.Lock.{Counts, one_more, Counted, acquired_counts, HasCounts}
use project_moon.Dungeon.Service.Lock.Ledger.{counted, count_of, counted-HasCounts}
use project_moon.Dungeon.Service.Lock.Inside.{enter_locked_lem, settle_locked_lem}

module _ {W : Type 0} (r : Repositories W) (count : W → Counts) (laws : HasCounts r count)
    (counts : Counts) where
  -- What runs with the lock, once it is known whether the lock was got.
  with_acquired :
      {A : Type 0} (player_id : ℤ) (m n : Exec W A)
      → Keeps (Counted count counts) m
      → Triple (Counted count (one_more player_id counts)) n (λ _. Counted count counts)
      → (acquired : Bool)
      → Triple
          (Counted count (acquired_counts player_id acquired counts))
          (if not acquired then m else n)
          (λ _. Counted count counts)
  unfolding acquired_counts
  with_acquired player_id m n h k true = k
  with_acquired player_id m n h k false = h

  enter_dungeon-Counted :
      (request : EnterDungeonRequest) → Keeps (Counted count counts) (enter_dungeon r request)
  unfolding enter_dungeon
  enter_dungeon-Counted request = Triple-bind _ _ (laws.find_session _ _) λ session.
      Triple-if (not (is_session_of request.player_id session)) _ _ (λ _. Triple-pure _ λ w h. h)
        λ _. Triple-bind _ _ (laws.find_config _ _) λ found.
          Triple-elim found _ _ (Triple-pure _ λ w h. h) λ config _.
            Triple-bind _ _ (laws.acquire _ _) (
              with_acquired request.player_id _ _ (Triple-pure _ λ w h. h)
                (enter_locked_lem r count laws counts request config))

  settle_with_config_lem :
      (request : SettleDungeonRequest) (config : DungeonConfig)
      → Keeps (Counted count counts) (settle_with_config r request config)
  unfolding settle_with_config
  settle_with_config_lem request config =
      Triple-if (leb_ℤ request.star (pos 0) || ltb_ℤ config.max_star request.star) _ _
        (λ _. Triple-pure _ λ w h. h)
        λ _. Triple-bind _ _ (laws.acquire _ _) (
          with_acquired request.player_id _ _ (Triple-pure _ λ w h. h)
            (settle_locked_lem r count laws counts request config))

  settle_dungeon-Counted :
      (request : SettleDungeonRequest) → Keeps (Counted count counts) (settle_dungeon r request)
  unfolding settle_dungeon
  settle_dungeon-Counted request =
      Triple-if (not request.result) _ _ (λ _. Triple-pure _ λ w h. h)
        λ _. Triple-bind _ _ (laws.find_session _ _) λ session.
          Triple-if (not (is_session_of request.player_id session)) _ _
            (λ _. Triple-pure _ λ w h. h)
            λ _. Triple-bind _ _ (laws.find_config _ _) λ found.
              Triple-elim found _ _ (Triple-pure _ λ w h. h)
                λ config _. settle_with_config_lem request config

module _ {W : Type 0} (r : Repositories W) where
  -- On any repositories: a request to enter a dungeon that returns, with whatever answer, has called
  -- Release for every player as often as an Acquire for the player has come back true, whatever
  -- those calls and all others do.
  pub enter_dungeon_unlocks :
      (request : EnterDungeonRequest) (w w' : W) (counts counts' : Counts)
      (response : EnterDungeonResponse)
      → enter_dungeon (counted r) request (w, counts) ≡ (ok response, (w', counts'))
      → (p : ℤ) → counts' p ≡ counts p
  unfolding Counted
  enter_dungeon_unlocks request w w' counts counts' response returned =
      (enter_dungeon-Counted (counted r) count_of (counted-HasCounts r) counts request).run
        (w, counts) (w', counts') response (λ p. refl) returned

  -- On any repositories: a request to settle a battle that returns, with whatever answer, has called
  -- Release for every player as often as an Acquire for the player has come back true, whatever
  -- those calls and all others do.
  pub settle_dungeon_unlocks :
      (request : SettleDungeonRequest) (w w' : W) (counts counts' : Counts)
      (response : SettleDungeonResponse)
      → settle_dungeon (counted r) request (w, counts) ≡ (ok response, (w', counts'))
      → (p : ℤ) → counts' p ≡ counts p
  unfolding Counted
  settle_dungeon_unlocks request w w' counts counts' response returned =
      (settle_dungeon-Counted (counted r) count_of (counted-HasCounts r) counts request).run
        (w, counts) (w', counts') response (λ p. refl) returned
