-- ===== src/Redis/Client/Keys.antt =====
-- Which keys are there behind SetNxWithExpire and Del.
use project_moon.Base.{
  ◌≡◌, ◌≢◌, ◌⊎◌, inl, inr, refl, ap, sym, ◌∙◌, Bool, true, false, Option, ◌==◌, Bytes, bytes_eq, ℤ,
  if◌then◌else◌,
}
use project_moon.Base.Calls.{done, >>=-done}
use project_moon.Redis.Hiredis.{
  ConnectionOptions, Reply, nil, error, status, text, integer, array, Hiredis, set_nx_command,
  del_command, was_inserted,
}
use project_moon.Redis.Client.{replied, is_connected, ping, set_nx_with_expire, del}
use project_moon.Redis.Client.Server.{IsRedis, seen_key, checked_done, replied_done}
use project_moon.Redis.Client.Hashes.{Ran-is_connected, ping_pinged}

was_inserted_nil : (r : Reply) → r ≡ nil → was_inserted r ≡ false
unfolding was_inserted
was_inserted_nil r e = ap was_inserted e

was_inserted_other : (r : Reply) → r ≢ nil → was_inserted r ≡ true
unfolding was_inserted
was_inserted_other nil h = absurd (h refl)
was_inserted_other (error m) h = refl
was_inserted_other (status m) h = refl
was_inserted_other (text m) h = refl
was_inserted_other (integer m) h = refl
was_inserted_other (array m) h = refl

module _ {W Context : Type 0} (hiredis : Hiredis W Context)
    (hash : Context → W → Bytes → Bytes → Option Bytes) (holds : Context → W → Bytes → Bool)
    (redis : IsRedis hiredis hash holds) (options : ConnectionOptions) where
  ping_keys :
      (s s' : Option Context × W) (u : Unit {0})
      → is_connected hiredis s.0 ≡ true
      → ping hiredis options s ≡ (done u, s')
      → seen_key holds s' ≡ seen_key holds s
  ping_keys s s' u on h =
      let (r, x) = ping_pinged hiredis options s s' u on h in
      ap (seen_key holds) x.after
      ∙ (redis.pinged x.c x.c' x.w x.w' r x.call).1
      ∙ ap (seen_key holds) (sym x.before)

  -- A SetNxWithExpire that goes well on a connection that works has found the key, and then changed nothing, or has put it there.
  pub set_nx_done :
      (key value : Bytes) (ttl : ℤ) (s s' : Option Context × W) (inserted : Bool)
      → is_connected hiredis s.0 ≡ true
      → set_nx_with_expire hiredis options key value ttl s ≡ (done inserted, s')
      → (is_connected hiredis s'.0 ≡ true)
        × (((inserted ≡ false)
              × (seen_key holds s key ≡ true)
              × (seen_key holds s' ≡ seen_key holds s))
            ⊎ ((inserted ≡ true)
                × (seen_key holds s key ≡ false)
                × ((key' : Bytes)
                    → seen_key holds s' key'
                      ≡ (if key == key' then true else seen_key holds s key'))))
  unfolding set_nx_with_expire
  set_nx_done key value ttl s s' inserted on h =
      let (a, t, pinged, rest) = >>=-done (ping hiredis options) _ s s' inserted h in
      let (r, t', got, e) =
        >>=-done (replied hiredis (set_nx_command key value ttl)) _ t s' inserted rest in
      let x = replied_done hiredis (set_nx_command key value ttl) t t' r got in
      let same : t' ≡ s' = ap (λ q. q.1) e in
      let is : done (was_inserted r) ≡ done inserted = ap (λ q. q.0) e in
      let first = ap (seen_key holds) (sym x.before) ∙ ping_keys s t a on pinged in
      let last = ap (seen_key holds) (sym same ∙ x.after) in
      (
        ap (λ q. is_connected hiredis q.0) (sym same) ∙ Ran-is_connected hiredis hash holds redis x,
        elim (redis.set_nx key value ttl x.c x.c' x.w x.w' r x.call x.accepted) [
          | inl (there, none_new, kept) ↦ inl (
            cc (was_inserted_nil r none_new, is),
            ap (λ m. m key) (sym first) ∙ there,
            last ∙ kept ∙ first,
          )
          | inr (free, new, changed) ↦ inr (
            cc (was_inserted_other r new, is),
            ap (λ m. m key) (sym first) ∙ free,
            λ key'.
                ap (λ m. m key') last
                ∙ changed key'
                ∙ ap (λ m. if key == key' then true else m key') first,
          )
        ],
      )

  -- A Del that goes well has taken the key away, and no other.
  pub del_done :
      (key : Bytes) (s s' : Option Context × W) (u : Unit {0})
      → is_connected hiredis s.0 ≡ true
      → del hiredis options key s ≡ (done u, s')
      → (key' : Bytes)
      → seen_key holds s' key' ≡ (if key == key' then false else seen_key holds s key')
  unfolding del
  del_done key s s' u on h key' =
      let (a, t, pinged, deleted) = >>=-done (ping hiredis options) _ s s' u h in
      let (r, x) = checked_done hiredis (del_command key) t s' u deleted in
      ap (λ q. seen_key holds q key') x.after
      ∙ redis.del key x.c x.c' x.w x.w' r x.call x.accepted key'
      ∙ ap (λ m. if key == key' then false else m key')
          (ap (seen_key holds) (sym x.before) ∙ ping_keys s t a on pinged)
