-- ===== src/Redis.antt =====
-- The repositories on Redis: login_server/session/redis_session_repository.cpp,
-- game_server/player/redis_player_cache_repository.cpp, and redis_battle_context_repository.cpp and
-- redis_player_lock_repository.cpp of dungeon_server/dungeon; and their client,
-- common/src/redis/redis_client.cpp.
pub mod Sessions
pub mod Battles
pub mod Players
pub mod Locks
pub mod Hiredis
pub mod Client
pub mod Keeping
use project_moon.Base.{
  ℕ, Bool, Option, none, some, [], ◌∷◌, Bytes, bytes_eq, ℤ, Outcome, ok, throw, ◌≡◌, true,
}
use project_moon.Base.Dict.{Dict, lookup}

-- The operations of common::redis::RedisClient, over the state `W` of the connection and of the
-- server; the integers are times to live.
pub record RedisClient (W : Type 0) : Type 0 where
  pub set : Bytes → Bytes → ℤ → W → Bool × W
  pub get : Bytes → W → Option Bytes × W
  pub del : Bytes → W → Bool × W
  pub h_set : Bytes → Dict Bytes Bytes → ℤ → W → Bool × W
  pub h_get_all : Bytes → W → Option (Dict Bytes Bytes) × W
  -- What the result is, and what is written to `inserted`.
  pub set_nx_with_expire : Bytes → Bytes → ℤ → W → (Bool × Bool) × W

-- `values->at(field)` throws where the field is missing.
unfoldable pub at : Bytes → Dict Bytes Bytes → Outcome Bytes
at field values = elim (lookup field values) [ none ↦ throw | some text ↦ ok text ]

-- `!values.has_value() || values->empty()` is the `none` of this.
unfoldable pub non_empty : Option (Dict Bytes Bytes) → Option (Dict Bytes Bytes)
non_empty none = none
non_empty (some []) = none
non_empty (some (entry ∷ values)) = some (entry ∷ values)
