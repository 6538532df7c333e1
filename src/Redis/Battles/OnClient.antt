-- ===== src/Redis/Battles/OnClient.antt =====
-- The battle contexts on the client that redis_client.cpp implements.
use project_moon.Base.{
  ◌≡◌, ◌⊎◌, refl, Bool, true, bytes_eq, bytes_beq, Option, none, some, Bytes, ℤ, ok,
}
use project_moon.Base.Dict.{IsMap, lookup}
use project_moon.Base.Calls.{failed}
use project_moon.Model.{BattleContext}
use project_moon.Redis.Hiredis.{ConnectionOptions, Hiredis}
use project_moon.Redis.Client.{h_get_all, redis_client}
use project_moon.Redis.Client.Server.{IsRedis}
use project_moon.Redis.Battles.{cache_key, fields, of_fields, save, find_by_battle_id}
use project_moon.Redis.Battles.RoundTrip.{Fits, fields_ne_nil, of_fields_lem}
use project_moon.Redis.Keeping.{answer-h_set}

fields-IsMap : (b : BattleContext) → IsMap (fields b)
unfolding fields lookup bytes_beq
fields-IsMap b = (refl, (refl, (refl, (refl, (refl, tt)))))

module _ {W Context : Type 0} (hiredis : Hiredis W Context)
    (hash : Context → W → Bytes → Bytes → Option Bytes) (holds : Context → W → Bytes → Bool)
    (redis : IsRedis hiredis hash holds) (options : ConnectionOptions) (ttl_seconds : ℤ) where
  -- With the repository on the client of redis_client.cpp and a server that does what Redis
  -- documents: behind a Save that reports success of a battle context whose numbers fit their
  -- types, FindByBattleId on the same client comes back with that battle context; or its HGETALL
  -- has failed, and it comes back with nothing.
  pub find_by_battle_id-save_on_client :
      (b : BattleContext) (s s' : Option Context × W)
      → Fits b
      → save (redis_client hiredis options) ttl_seconds b s ≡ (true, s')
      → ((find_by_battle_id (redis_client hiredis options) ttl_seconds b.battle_id s').0
          ≡ ok (some b))
        ⊎ ((m : Bytes) × (s'' : Option Context × W) × (h_get_all hiredis options
                (cache_key b.battle_id)
                s'
              ≡ (failed m, s''))
            × ((find_by_battle_id (redis_client hiredis options) ttl_seconds b.battle_id s').0
                ≡ ok none))
  unfolding save find_by_battle_id
  find_by_battle_id-save_on_client b s s' fit saved =
      answer-h_set hiredis options (λ m. of_fields b.battle_id m) hash holds redis
        (cache_key b.battle_id) (fields b) b ttl_seconds s s' (fields_ne_nil b) (fields-IsMap b)
        (λ m t there. of_fields_lem b fit m there t) saved
