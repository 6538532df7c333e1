-- ===== src/Redis/Battles.antt =====
-- dungeon_server/dungeon/redis_battle_context_repository.cpp
pub mod RoundTrip
pub mod OnClient
use project_moon.Base.{
  Bool, true, false, Option, none, some, [], ◌∷◌, ◌++◌, Bytes, bytes_eq, ℤ, pos, ◌==◌,
  if◌then◌else◌, Outcome, ok, Exec, pure, lift, ◌>>=◌,
}
use project_moon.Base.Text.{codes}
use project_moon.Base.Decimal.{to_string, stoi, stoll}
use project_moon.Base.Dict.{Dict}
use project_moon.Model.{BattleContext}
use project_moon.Dungeon.{BattleContextRepository}
use project_moon.Redis.{RedisClient, at, non_empty}

unfoldable pub cache_key : Bytes → Bytes
cache_key battle_id = codes "battle:ctx:" ++ battle_id

-- The fields that Save writes.
unfoldable pub fields : BattleContext → Dict Bytes Bytes
fields battle_context =
    (codes "player_id", to_string battle_context.player_id)
    ∷ (codes "dungeon_id", to_string battle_context.dungeon_id)
    ∷ (codes "cost_stamina", to_string battle_context.cost_stamina)
    ∷ (codes "max_star", to_string battle_context.max_star)
    ∷ (codes "settled", if battle_context.settled then codes "1" else codes "0")
    ∷ []

-- What FindByBattleId makes of the fields that it reads.
unfoldable pub of_fields : Bytes → Dict Bytes Bytes → {W : Type 0} → Exec W BattleContext
of_fields battle_id values = do
  player_id ← lift (at (codes "player_id") values)
  player ← lift (stoll player_id)
  dungeon_id ← lift (at (codes "dungeon_id") values)
  dungeon ← lift (stoi dungeon_id)
  cost_stamina ← lift (at (codes "cost_stamina") values)
  cost ← lift (stoi cost_stamina)
  max_star ← lift (at (codes "max_star") values)
  star ← lift (stoi max_star)
  settled ← lift (at (codes "settled") values)
  pure (record {
    battle_id = battle_id;
    player_id = player;
    dungeon_id = dungeon;
    cost_stamina = cost;
    max_star = star;
    settled = settled == codes "1";
  })

module _ {W : Type 0} (redis_client : RedisClient W) (ttl_seconds : ℤ) where
  unfoldable pub save : BattleContext → W → Bool × W
  save battle_context =
      redis_client.h_set (cache_key battle_context.battle_id) (fields battle_context) ttl_seconds

  unfoldable pub find_by_battle_id : Bytes → Exec W (Option BattleContext)
  find_by_battle_id battle_id w =
      let (found, w') = redis_client.h_get_all (cache_key battle_id) w in
      elim (non_empty found) [
        | none ↦ pure none w'
        | some values ↦
            (do battle_context ← of_fields battle_id values; pure (some battle_context)) w'
      ]

  unfoldable pub delete : Bytes → W → Bool × W
  delete battle_id = redis_client.del (cache_key battle_id)

  -- The repository behind its interface; Save and Delete do not throw.
  abbrev pub redis_battle_context_repository : BattleContextRepository W
  redis_battle_context_repository = record {
    save = λ battle_context w. let (r, w') = save battle_context w in (ok r, w');
    find_by_battle_id = find_by_battle_id;
    delete = λ battle_id w. let (r, w') = delete battle_id w in (ok r, w');
  }
