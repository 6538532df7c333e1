-- ===== src/Tests/Snapshots.antt =====
-- A player's snapshot on the small Redis server.
use project_moon.Base.{
  ◌≡◌, ◌⊎◌, refl, true, Option, none, some, [], ◌∷◌, Bytes, bytes_eq, bytes_beq, pos, ok,
}
use project_moon.Base.Text.{codes}
use project_moon.Base.Calls.{failed}
use project_moon.Model.{PlayerState}
use project_moon.Redis.Hiredis.{default_options}
use project_moon.Redis.Client.{h_set, h_get_all, redis_client}
use project_moon.Redis.Players.{save, find_by_player_id, cache_key, fields}
use project_moon.Redis.Players.RoundTrip.{Snapshot, find_by_player_id-save}
use project_moon.Tests.Redis.{Store, small_redis, hash, holds, small_redis-IsRedis, start}

abbrev snapshot : PlayerState
snapshot = record {
  profile = record {
    player_id = pos 7;
    account_id = pos 1;
    player_name = codes "moon";
    level = pos 3;
    stamina = pos 120;
    gold = pos 1000;
    diamond = pos 50;
  };
  dungeon_progress =
      record { dungeon_id = pos 1001; best_star = pos 3; is_first_clear = true } ∷ [];
}

snapshot-Snapshot : Snapshot snapshot
snapshot-Snapshot = record {
  player_fits = refl;
  account_fits = refl;
  level_fits = refl;
  stamina_fits = refl;
  gold_fits = refl;
  diamond_fits = refl;
  progress_fits = ((refl, refl), tt);
}

abbrev after_save : Option (Unit {0}) × Store
after_save = (save (redis_client small_redis default_options) (pos 60) snapshot start).1

saves : save (redis_client small_redis default_options) (pos 60) snapshot start ≡ (true, after_save)
unfolding save fields h_set bytes_beq
saves = refl

find_by_player_id-save_example :
    ((find_by_player_id (redis_client small_redis default_options) (pos 60) (pos 7) after_save).0
      ≡ ok (some snapshot))
    ⊎ ((m : Bytes) × (s : Option (Unit {0}) × Store) × (h_get_all small_redis default_options
            (cache_key (pos 7))
            after_save
          ≡ (failed m, s))
        × ((find_by_player_id
              (redis_client small_redis default_options)
              (pos 60)
              (pos 7)
              after_save).0
            ≡ ok none))
find_by_player_id-save_example =
    find_by_player_id-save small_redis hash holds small_redis-IsRedis default_options (pos 60)
      snapshot start after_save snapshot-Snapshot saves
