-- ===== src/Redis/Locks.antt =====
-- dungeon_server/dungeon/redis_player_lock_repository.cpp
pub mod OnClient
use project_moon.Base.{Bool, ◌&&◌, ◌++◌, Bytes, ℤ, pos, ltb_ℤ, if◌then◌else◌, ok}
use project_moon.Base.Text.{codes}
use project_moon.Base.Decimal.{to_string}
use project_moon.Dungeon.{PlayerLockRepository}
use project_moon.Redis.{RedisClient}

unfoldable pub player_lock_key : ℤ → Bytes
player_lock_key player_id = codes "player:lock:" ++ to_string player_id

-- The constructor's `ttl_seconds > 0 ? ttl_seconds : 10`
unfoldable pub lock_ttl : ℤ → ℤ
lock_ttl ttl_seconds = if ltb_ℤ (pos 0) ttl_seconds then ttl_seconds else pos 10

module _ {W : Type 0} (redis_client : RedisClient W) (ttl_seconds : ℤ) where
  unfoldable pub acquire : ℤ → W → Bool × W
  acquire player_id w =
      let ((done, inserted), w') =
        redis_client.set_nx_with_expire (player_lock_key player_id) (codes "1")
          (lock_ttl ttl_seconds) w in
      (done && inserted, w')

  unfoldable pub release : ℤ → W → W
  release player_id w = (redis_client.del (player_lock_key player_id) w).1

  -- The repository behind its interface; nothing throws.
  abbrev pub redis_player_lock_repository : PlayerLockRepository W
  redis_player_lock_repository = record {
    acquire = λ player_id w. let (r, w') = acquire player_id w in (ok r, w');
    release = λ player_id w. (ok tt, release player_id w);
  }
