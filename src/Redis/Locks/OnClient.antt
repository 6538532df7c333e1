-- ===== src/Redis/Locks/OnClient.antt =====
-- The player's lock on the client that redis_client.cpp implements.
use project_moon.Base.{
  ◌≡◌, ◌⊎◌, inl, inr, ap, ◌∙◌, Bool, true, false, ◌&&◌, Option, Bytes, bytes_eq, ◌==◌, beq_self, ℤ,
  if◌then◌else◌, arith,
}
use project_moon.Base.Text.{codes}
use project_moon.Base.Calls.{Result, done, is_done, result_or, Result-cases}
use project_moon.Redis.Hiredis.{ConnectionOptions, Hiredis}
use project_moon.Redis.Client.{is_connected, set_nx_with_expire, redis_client}
use project_moon.Redis.Client.Server.{IsRedis, seen_key}
use project_moon.Redis.Client.Keys.{set_nx_done}
use project_moon.Redis.Locks.{player_lock_key, lock_ttl, acquire}

module _ {W Context : Type 0} (hiredis : Hiredis W Context)
    (hash : Context → W → Bytes → Bytes → Option Bytes) (holds : Context → W → Bytes → Bool)
    (redis : IsRedis hiredis hash holds) (options : ConnectionOptions) (ttl_seconds : ℤ) where
  abbrev set_lock : ℤ → Option Context × W → Result Bool × (Option Context × W)
  set_lock player_id =
      set_nx_with_expire hiredis options (player_lock_key player_id) (codes "1")
        (lock_ttl ttl_seconds)

  nx :
      (player_id : ℤ) (s s' : Option Context × W) (inserted : Bool)
      → is_connected hiredis s.0 ≡ true
      → set_lock player_id s ≡ (done inserted, s')
      → (is_connected hiredis s'.0 ≡ true)
        × (((inserted ≡ false)
              × (seen_key holds s (player_lock_key player_id) ≡ true)
              × (seen_key holds s' ≡ seen_key holds s))
            ⊎ ((inserted ≡ true)
                × (seen_key holds s (player_lock_key player_id) ≡ false)
                × ((key : Bytes)
                    → seen_key holds s' key
                      ≡ (if player_lock_key player_id == key then true else seen_key holds s key))))
  nx player_id =
      set_nx_done hiredis hash holds redis options (player_lock_key player_id) (codes "1")
        (lock_ttl ttl_seconds)

  -- A lock whose key is there is not acquired.
  refused_again :
      (player_id : ℤ) (s : Option Context × W)
      → is_connected hiredis s.0 ≡ true
      → seen_key holds s (player_lock_key player_id) ≡ true
      → (acquire (redis_client hiredis options) ttl_seconds player_id s).0 ≡ false
  unfolding acquire
  refused_again player_id s on there = elim (Result-cases (set_lock player_id s)) [
    | inr (m, t, e) ↦ ap (λ r. is_done r.0 && result_or false r.0) e
    | inl (inserted, t, e) ↦
        ap (λ r. is_done r.0 && result_or false r.0) e ∙ elim (nx player_id s t inserted on e).1 [
          | inl (refused, held, kept) ↦ refused
          | inr (took, free, changed) ↦ absurd (ground (arith, there, free))
        ]
  ]

  -- On a connection that works an Acquire that comes back true has found the lock's key free; the
  -- key is then there, as all keys that were there before and no other, and a second Acquire for
  -- the same player that follows on this client comes back false.
  pub acquire_excludes :
      (player_id : ℤ) (s s' : Option Context × W)
      → is_connected hiredis s.0 ≡ true
      → acquire (redis_client hiredis options) ttl_seconds player_id s ≡ (true, s')
      → (seen_key holds s (player_lock_key player_id) ≡ false)
        × ((key : Bytes)
            → seen_key holds s' key
              ≡ (if player_lock_key player_id == key then true else seen_key holds s key))
        × ((acquire (redis_client hiredis options) ttl_seconds player_id s').0 ≡ false)
  unfolding acquire
  acquire_excludes player_id s s' on h = elim (Result-cases (set_lock player_id s)) [
    | inr (m, t, e) ↦ absurd (ground (arith, h, e))
    | inl (inserted, t, e) ↦
        let same : t ≡ s' = ground (arith, h, e) in
        let set = e ∙ ap (λ x. (done inserted, x)) same in
        elim (nx player_id s s' inserted on set).1 [
          | inl (refused, there, kept) ↦ absurd (ground (arith, h, e, refused))
          | inr (took, free, changed) ↦ (
            free,
            changed,
            refused_again player_id s' (nx player_id s s' inserted on set).0 (
                changed (player_lock_key player_id)
                ∙ ap (λ b. if b then true else seen_key holds s (player_lock_key player_id))
                    (beq_self (player_lock_key player_id))),
          )
        ]
  ]
