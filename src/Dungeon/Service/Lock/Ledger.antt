-- ===== src/Dungeon/Service/Lock/Ledger.antt =====
-- Any repositories of the dungeon service, with a count beside their state of the calls on the locks.
use project_moon.Base.{◌≡◌, refl, sym, ap, ◌∙◌, Bool, true, false, ℤ, Outcome, ok, throw, Exec}
use project_moon.Dungeon.Service.{Repositories}
use project_moon.Dungeon.Service.Triples.{Keeps}
use project_moon.Dungeon.Service.Lock.{
  Counts, one_more, one_less, Counted, acquired_counts, HasCounts,
}

-- A call that is not counted
abbrev pub beside : {W A : Type 0} → Exec W A → Exec (W × Counts) A
beside m (w, counts) = let (a, w') = m w in (a, (w', counts))

-- The counts after an Acquire that has come back with `outcome`
unfoldable pub after_acquire : ℤ → Outcome Bool → Counts → Counts
after_acquire player_id (ok acquired) counts = acquired_counts player_id acquired counts
after_acquire player_id throw counts = counts

-- The repositories `r`, with the calls on the locks counted: an Acquire where it comes back true, a
-- Release where it is called, whatever it does.
abbrev pub counted : {W : Type 0} → Repositories W → Repositories (W × Counts)
counted r = record {
  sessions = record {
    create = λ a p. beside (r.sessions.create a p);
    find_by_id = λ id. beside (r.sessions.find_by_id id);
  };
  locks = record {
    acquire = λ p s.
        let (outcome, w') = r.locks.acquire p s.0 in (outcome, (w', after_acquire p outcome s.1));
    release = λ p s. let (outcome, w') = r.locks.release p s.0 in (outcome, (w', one_less p s.1));
  };
  players = record { load_player_state = λ p. beside (r.players.load_player_state p) };
  cache = record {
    find_by_player_id = λ p. beside (r.cache.find_by_player_id p);
    save = λ s. beside (r.cache.save s);
    invalidate = λ p. beside (r.cache.invalidate p);
  };
  configs = record { find_by_dungeon_id = λ d. beside (r.configs.find_by_dungeon_id d) };
  dungeons = record {
    find_battle_by_id = λ b. beside (r.dungeons.find_battle_by_id b);
    enter_dungeon = λ s c b. beside (r.dungeons.enter_dungeon s c b);
    settle_dungeon = λ b c star. beside (r.dungeons.settle_dungeon b c star);
  };
  battles = record {
    save = λ b. beside (r.battles.save b);
    find_by_battle_id = λ b. beside (r.battles.find_by_battle_id b);
    delete = λ b. beside (r.battles.delete b);
  };
  sequence = λ s. r.sequence s.0;
  set_sequence = λ n s. (r.set_sequence n s.0, s.1);
}

abbrev pub count_of : {W : Type 0} → W × Counts → Counts
count_of s = s.1

beside_lem :
    {W A : Type 0} (m : Exec W A) (counts : Counts) → Keeps (Counted count_of counts) (beside m)
unfolding Counted
beside_lem m counts = record { run = λ s s' a h e p. ap (λ r. r.1.1 p) (sym e) ∙ h p }

more_lem :
    (player_id : ℤ) (c counts : Counts) (p : ℤ)
    → c p ≡ counts p
    → one_more player_id c p ≡ one_more player_id counts p
unfolding one_more
more_lem player_id c counts p h = rw h

less_lem :
    (player_id : ℤ) (c counts : Counts) (p : ℤ)
    → c p ≡ counts p
    → one_less player_id c p ≡ one_less player_id counts p
unfolding one_less
less_lem player_id c counts p h = rw h

acquired_lem :
    (player_id : ℤ) (acquired : Bool) (c counts : Counts) (p : ℤ)
    → c p ≡ counts p
    → after_acquire player_id (ok acquired) c p ≡ acquired_counts player_id acquired counts p
unfolding after_acquire acquired_counts
acquired_lem player_id true c counts p h = more_lem player_id c counts p h
acquired_lem player_id false c counts p h = h

pub counted-HasCounts : {W : Type 0} (r : Repositories W) → HasCounts (counted r) count_of
unfolding Counted
counted-HasCounts r = record {
  acquire = λ counts player_id. record {
    run = λ s s' a h e p.
        ap (λ x. x.1.1 p) (sym e)
        ∙ ap (λ o. after_acquire player_id o s.1 p) (ap (λ x. x.0) e)
        ∙ acquired_lem player_id a s.1 counts p (h p);
  };
  release = λ counts player_id. record {
    run = λ s s' a h e p. ap (λ x. x.1.1 p) (sym e) ∙ less_lem player_id s.1 counts p (h p);
  };
  find_session = λ counts s. beside_lem (r.sessions.find_by_id s) counts;
  find_config = λ counts d. beside_lem (r.configs.find_by_dungeon_id d) counts;
  load_player = λ counts p. beside_lem (r.players.load_player_state p) counts;
  invalidate = λ counts p. beside_lem (r.cache.invalidate p) counts;
  enter = λ counts s c b. beside_lem (r.dungeons.enter_dungeon s c b) counts;
  settle = λ counts b c star. beside_lem (r.dungeons.settle_dungeon b c star) counts;
  find_stored = λ counts b. beside_lem (r.dungeons.find_battle_by_id b) counts;
  save = λ counts b. beside_lem (r.battles.save b) counts;
  find_cached = λ counts b. beside_lem (r.battles.find_by_battle_id b) counts;
  delete = λ counts b. beside_lem (r.battles.delete b) counts;
  set_sequence = λ n w p. refl;
}
