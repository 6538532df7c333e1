-- ===== src/Tests/Service.antt =====
-- The dungeon service and the player service on repositories with one player and one dungeon.
use project_moon.Base.{
  ◌≡◌, refl, sym, Bool, true, false, none, some, [], Bytes, ℤ, int_eq, pos, ◌≤ℤ◌, ok, Outcome, pure,
  ◌==◌, if◌then◌else◌, ◌⊎◌,
}
use project_moon.Base.Text.{codes}
use project_moon.Model.{Session, PlayerState, BattleContext}
use project_moon.Dungeon.{DungeonConfig}
use project_moon.Dungeon.Service.{
  Repositories, EnterDungeonRequest, EnterDungeonResponse, SettleDungeonRequest,
  SettleDungeonResponse, make_battle_id, generate_battle_id, enter_with_state, enter_locked,
  enter_dungeon, find_battle, settle_battle, settle_locked, settle_with_config, settle_dungeon,
  is_session_of,
}
use project_moon.Dungeon.Service.Triples.{Triple-pure}
use project_moon.Dungeon.Service.Lock.{Counts, one_more, one_less, acquired_counts}
use project_moon.Dungeon.Service.Lock.Ledger.{counted, after_acquire}
use project_moon.Dungeon.Service.Lock.Returned.{enter_dungeon_unlocks, settle_dungeon_unlocks}
use project_moon.Dungeon.Service.Guards.{HandsOut}
use project_moon.Dungeon.Service.Guards.Enter.{enter_dungeon_success}
use project_moon.Dungeon.Service.Guards.Settle.{settle_dungeon_success}
use project_moon.Player.Service.{load_player, loaded}
use project_moon.Player.Service.Cache.{load_player_success}
use project_moon.Tests.Storage.{config, player, battle}

-- The state: who holds a lock.
abbrev Held : Type 0
Held = ℤ → Bool

abbrev session : Session
session = record {
  session_id = codes "s";
  account_id = pos 1;
  player_id = pos 7;
  created_at_epoch_seconds = pos 0;
}

abbrev acquire_from : Bool → ℤ → Held → Outcome Bool × Held
acquire_from true p w = (ok false, w)
acquire_from false p w = (ok true, λ q. if q == p then true else w q)

abbrev repositories : Repositories Held
repositories = record {
  sessions = record { create = λ a p. pure session; find_by_id = λ id. pure (some session) };
  locks = record { acquire = λ p w. acquire_from (w p) p w; release = λ p w. (ok tt, w) };
  players = record { load_player_state = λ p. pure (some player) };
  cache = record {
    find_by_player_id = λ p. pure none;
    save = λ s. pure true;
    invalidate = λ p. pure true;
  };
  configs = record { find_by_dungeon_id = λ d. pure (some config) };
  dungeons = record {
    find_battle_by_id = λ b. pure (some battle);
    enter_dungeon = λ s c b. pure (record {
      success = true;
      remain_stamina = pos 30;
      error_message = [];
      battle_context = battle;
    });
    settle_dungeon = λ b c star.
        pure (record { success = true; first_clear = true; error_message = []; rewards = [] });
  };
  battles = record {
    save = λ b. pure true;
    find_by_battle_id = λ b. pure none;
    delete = λ b. pure true;
  };
  sequence = λ w. 1;
  set_sequence = λ n w. w;
}

abbrev nobody : Held
nobody p = false

abbrev none_open : Counts
none_open p = pos 0

abbrev closed : Counts
closed = one_less (pos 7) (one_more (pos 7) none_open)

-- Release has failed without a word: the lock is still held.
abbrev still_held : Held
still_held p = if p == pos 7 then true else false

abbrev enter_request : EnterDungeonRequest
enter_request = record { session_id = codes "s"; player_id = pos 7; dungeon_id = pos 1001 }

abbrev enter_response : EnterDungeonResponse
enter_response = record {
  success = true;
  error_code = project_moon.ErrorCode.ErrorCode.ok;
  error_message = [];
  battle_id = make_battle_id (pos 7) (pos 1001) 1;
  remain_stamina = pos 30;
}

enters :
    enter_dungeon (counted repositories) enter_request (nobody, none_open)
    ≡ (ok enter_response, (still_held, closed))
unfolding after_acquire acquired_counts one_more one_less enter_dungeon enter_locked
    enter_with_state generate_battle_id is_session_of
enters = refl

entered : enter_dungeon repositories enter_request nobody ≡ (ok enter_response, still_held)
unfolding enter_dungeon enter_locked enter_with_state generate_battle_id is_session_of
entered = refl

abbrev settle_request : SettleDungeonRequest
settle_request = record {
  session_id = codes "s";
  player_id = pos 7;
  battle_id = codes "b";
  dungeon_id = pos 1001;
  star = pos 2;
  result = true;
}

abbrev settle_response : SettleDungeonResponse
settle_response = record {
  success = true;
  error_code = project_moon.ErrorCode.ErrorCode.ok;
  error_message = [];
  first_clear = true;
  rewards = [];
}

settles :
    settle_dungeon (counted repositories) settle_request (nobody, none_open)
    ≡ (ok settle_response, (still_held, closed))
unfolding after_acquire acquired_counts one_more one_less settle_dungeon settle_with_config
    settle_locked settle_battle find_battle is_session_of
settles = refl

settled : settle_dungeon repositories settle_request nobody ≡ (ok settle_response, still_held)
unfolding settle_dungeon settle_with_config settle_locked settle_battle find_battle is_session_of
settled = refl

enter_dungeon_unlocks_example : closed (pos 7) ≡ none_open (pos 7)
enter_dungeon_unlocks_example =
    enter_dungeon_unlocks repositories enter_request nobody still_held none_open closed
      enter_response enters (pos 7)

settle_dungeon_unlocks_example : closed (pos 7) ≡ none_open (pos 7)
settle_dungeon_unlocks_example =
    settle_dungeon_unlocks repositories settle_request nobody still_held none_open closed
      settle_response settles (pos 7)

-- The repositories hand out just these.
abbrev IsSession : Bytes → Session → Type 0
IsSession id s = s ≡ session

abbrev IsConfig : ℤ → DungeonConfig → Type 0
IsConfig id c = c ≡ config

abbrev IsPlayer : ℤ → PlayerState → Type 0
IsPlayer id s = s ≡ player

abbrev IsBattle : Bytes → BattleContext → Type 0
IsBattle id b = b ≡ battle

some_injective : {A : Type 0} (a b : A) → some a ≡ some b → b ≡ a
some_injective a b e = sym (cc e)

repositories-HandsOut : HandsOut repositories IsSession IsConfig IsPlayer IsBattle
repositories-HandsOut = record {
  session = λ id. Triple-pure _ λ w p s e. some_injective session s e;
  config = λ id. Triple-pure _ λ w p c e. some_injective config c e;
  player = λ id. Triple-pure _ λ w p s e. some_injective player s e;
  cached = λ id. Triple-pure _ λ w p b e. absurd (cc e);
  stored = λ id. Triple-pure _ λ w p b e. some_injective battle b e;
}

enter_dungeon_success_example :
    (s : Session) × (c : DungeonConfig) × (state : PlayerState) × IsSession (codes "s") s
    × (s.player_id ≡ pos 7)
    × IsConfig (pos 1001) c
    × IsPlayer (pos 7) state
    × (c.required_level ≤ℤ state.profile.level)
    × (c.cost_stamina ≤ℤ state.profile.stamina)
enter_dungeon_success_example =
    enter_dungeon_success repositories IsSession IsConfig IsPlayer IsBattle repositories-HandsOut
      enter_request nobody still_held enter_response entered refl

settle_dungeon_success_example :
    (s : Session) × (c : DungeonConfig) × (b : BattleContext) × IsSession (codes "s") s
    × (s.player_id ≡ pos 7)
    × IsConfig (pos 1001) c
    × IsBattle (codes "b") b
    × (b.player_id ≡ pos 7)
    × (b.dungeon_id ≡ pos 1001)
    × (b.settled ≡ false)
    × (pos 1 ≤ℤ pos 2)
    × (pos 2 ≤ℤ c.max_star)
    × (true ≡ true)
settle_dungeon_success_example =
    settle_dungeon_success repositories IsSession IsConfig IsPlayer IsBattle repositories-HandsOut
      settle_request nobody still_held settle_response settled refl

loads :
    load_player repositories.sessions repositories.players repositories.cache
      (codes "s")
      (pos 7)
      nobody
    ≡ (ok (loaded player false), nobody)
unfolding load_player
loads = refl

load_player_success_example :
    (s : Session) × (w₁ : Held) × (repositories.sessions.find_by_id (codes "s") nobody
      ≡ (ok (some s), w₁))
    × (s.player_id ≡ pos 7)
    × (((false ≡ true)
          × (repositories.cache.find_by_player_id (pos 7) w₁ ≡ (ok (some player), nobody)))
        ⊎ ((false ≡ false)
            × ((w₂ w₃ : Held) × (saved : Bool) × (repositories.cache.find_by_player_id (pos 7) w₁
                  ≡ (ok none, w₂))
                × (repositories.players.load_player_state (pos 7) w₂ ≡ (ok (some player), w₃))
                × (repositories.cache.save player w₃ ≡ (ok saved, nobody)))))
load_player_success_example =
    load_player_success repositories.sessions repositories.players repositories.cache (codes "s")
      (pos 7) nobody nobody (loaded player false) loads refl
