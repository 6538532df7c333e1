-- ===== src/Redis/Client/Hashes.antt =====
-- What HSet has written HGetAll reads back.
use project_moon.Base.{
  ◌≡◌, ◌≢◌, refl, ap, sym, ◌∙◌, Bool, true, not, ◌&&◌, Option, some, List, [], ◌∷◌, ◌==◌, Bytes,
  bytes_eq, bytes_beq_iff, ℤ, pos, ltb_ℤ, if◌then◌else◌, arith, Bool-cases, inl, inr,
}
use project_moon.Base.Dict.{Dict, lookup, last_value, IsMap, last_value-lookup}
use project_moon.Base.Calls.{done, returns, ◌>>=◌, >>=-done}
use project_moon.Redis.Hiredis.{
  ConnectionOptions, Reply, array, Hiredis, h_set_command, expire_command, h_get_all_command,
  ping_command, pairs, hash_of,
}
use project_moon.Redis.Client.{
  checked, replied, is_connected, connect, ping, h_set_fields, h_set, h_get_all,
}
use project_moon.Redis.Client.Server.{IsRedis, Ran, seen, checked_done, replied_done}

pub some_entry :
    (values : Dict Bytes Bytes)
    → values ≢ []
    → (field value : Bytes) × (lookup field values ≡ some value)
unfolding lookup
some_entry [] h = absurd (h refl)
some_entry ((field, value) ∷ values) h = (field, value, ground (arith, bytes_beq_iff field field))

-- An array with a field in it is not empty.
hash_of_filled :
    (elements : List (Option Bytes)) (field value : Bytes)
    → lookup field (pairs elements []) ≡ some value
    → hash_of (array elements) ≡ some (pairs elements [])
unfolding hash_of lookup
hash_of_filled [] field value h = absurd (ground (arith, h))
hash_of_filled (e ∷ elements) field value h = refl

-- On a connection that works Ping sends PING and nothing else.
pub ping_pinged :
    {W Context : Type 0} (hiredis : Hiredis W Context) (options : ConnectionOptions)
    (s s' : Option Context × W) (u : Unit {0})
    → is_connected hiredis s.0 ≡ true
    → ping hiredis options s ≡ (done u, s')
    → (r : Reply) × Ran hiredis ping_command s s' r
unfolding ping
ping_pinged hiredis options s s' u on h = checked_done hiredis ping_command s s' u (
    ap
      (λ b.
        ((if b then returns tt else connect hiredis options) >>= λ _. checked hiredis ping_command)
          s)
      (sym on)
    ∙ h)

module _ {W Context : Type 0} (hiredis : Hiredis W Context)
    (hash : Context → W → Bytes → Bytes → Option Bytes) (holds : Context → W → Bytes → Bool)
    (redis : IsRedis hiredis hash holds) where
  -- A context that has brought a reply is connected.
  pub Ran-is_connected :
      {command : List Bytes} {s s' : Option Context × W} {r : Reply}
      → Ran hiredis command s s' r
      → is_connected hiredis s'.0 ≡ true
  unfolding is_connected
  Ran-is_connected {command} {r = r} x =
      ap (λ t. is_connected hiredis t.0) x.after
      ∙ ap not (redis.answered command x.c x.c' x.w x.w' r x.call)

  -- After a PING that goes well there is a connection.
  pub ping_done :
      (options : ConnectionOptions) (s s' : Option Context × W) (u : Unit {0})
      → ping hiredis options s ≡ (done u, s')
      → is_connected hiredis s'.0 ≡ true
  unfolding ping
  ping_done options s s' u h =
      let (a, t, connected, pinged) =
        >>=-done (if is_connected hiredis s.0 then returns tt else connect hiredis options)
          (λ _. checked hiredis ping_command) s s' u h in
      Ran-is_connected (checked_done hiredis ping_command t s' u pinged).1

  -- On a connection that works PING changes nothing.
  pub ping_connected :
      (options : ConnectionOptions) (s s' : Option Context × W) (u : Unit {0})
      → is_connected hiredis s.0 ≡ true
      → ping hiredis options s ≡ (done u, s')
      → seen hash s' ≡ seen hash s
  ping_connected options s s' u on h =
      let (r, x) = ping_pinged hiredis options s s' u on h in
      ap (seen hash) x.after
      ∙ (redis.pinged x.c x.c' x.w x.w' r x.call).0
      ∙ ap (seen hash) (sym x.before)

  one_field :
      (key field value : Bytes) (s s' : Option Context × W) (u : Unit {0})
      → checked hiredis (h_set_command key field value) s ≡ (done u, s')
      → (key' field' : Bytes)
      → seen hash s' key' field'
        ≡ (if (key == key') && (field == field') then some value else seen hash s key' field')
  one_field key field value s s' u h key' field' =
      let (r, x) = checked_done hiredis (h_set_command key field value) s s' u h in
      ap (λ t. seen hash t key' field') x.after
      ∙ redis.h_set key field value x.c x.c' x.w x.w' r x.call x.accepted key' field'
      ∙ ap (λ t. if (key == key') && (field == field') then some value else seen hash t key' field')
          (sym x.before)

  all_fields :
      (key : Bytes) (values : Dict Bytes Bytes) (s s' : Option Context × W) (u : Unit {0})
      → is_connected hiredis s.0 ≡ true
      → h_set_fields hiredis key values s ≡ (done u, s')
      → (is_connected hiredis s'.0 ≡ true)
        × ((field : Bytes)
            → seen hash s' key field ≡ last_value field values (seen hash s key field))
  unfolding h_set_fields
  all_fields key [] s s' u on h = (
    ap (λ r. is_connected hiredis r.1.0) (sym h) ∙ on,
    λ field. ap (λ r. seen hash r.1 key field) (sym h),
  )
  all_fields key ((name, value) ∷ values) s s' u on h =
      let (a, t, first, rest) =
        >>=-done (checked hiredis (h_set_command key name value))
          (λ _. h_set_fields hiredis key values) s s' u h in
      let (on', ih) =
        all_fields key values t s' u
          (Ran-is_connected (checked_done hiredis (h_set_command key name value) s t a first).1)
          rest in
      (
        on',
        λ field.
            ih field
            ∙ ap (last_value field values) (
                one_field key name value s t a first key field
                ∙ ground (arith, bytes_beq_iff key key)),
      )

  kept_expiry :
      (key : Bytes) (ttl : ℤ) (s s' : Option Context × W) (u : Unit {0})
      → is_connected hiredis s.0 ≡ true
      → (if ltb_ℤ (pos 0) ttl then checked hiredis (expire_command key ttl) else returns tt) s
        ≡ (done u, s')
      → (is_connected hiredis s'.0 ≡ true) × (seen hash s' ≡ seen hash s)
  kept_expiry key ttl s s' u on h = elim (Bool-cases (ltb_ℤ (pos 0) ttl)) [
    | inr without ↦
        let e : (done tt, s) ≡ (done u, s') =
          ap (λ b. (if b then checked hiredis (expire_command key ttl) else returns tt) s)
            (sym without)
          ∙ h in
        (ap (λ r. is_connected hiredis r.1.0) (sym e) ∙ on, ap (λ r. seen hash r.1) (sym e))
    | inl with ↦
        let e =
          ap (λ b. (if b then checked hiredis (expire_command key ttl) else returns tt) s)
            (sym with)
          ∙ h in
        let (r, x) = checked_done hiredis (expire_command key ttl) s s' u e in
        (
          Ran-is_connected x,
          ap (seen hash) x.after
              ∙ redis.expires key ttl x.c x.c' x.w x.w' r with x.call
              ∙ ap (seen hash) (sym x.before),
        )
  ]

  module _ (options : ConnectionOptions) where
    -- Every field that HSet was given is there.
    pub h_set_done :
        (key : Bytes) (values : Dict Bytes Bytes) (ttl : ℤ) (s s' : Option Context × W)
        (u : Unit {0})
        → IsMap values
        → h_set hiredis options key values ttl s ≡ (done u, s')
        → (is_connected hiredis s'.0 ≡ true)
          × ((field value : Bytes)
              → lookup field values ≡ some value
              → seen hash s' key field ≡ some value)
    unfolding h_set
    h_set_done key values ttl s s' u once h =
        let (a, t, pinged, rest) = >>=-done (ping hiredis options) _ s s' u h in
        let (b, t', stored, expired) = >>=-done (h_set_fields hiredis key values) _ t s' u rest in
        let (on, there) = all_fields key values t t' b (ping_done options s t a pinged) stored in
        let (on', same) = kept_expiry key ttl t' s' u on expired in
        (
          on',
          λ field value e.
              ap (λ m. m key field) same
              ∙ there field
              ∙ last_value-lookup field values value (seen hash t key field) once e,
        )

    -- What HGetAll comes back with are the fields that are there, and an empty hash is no result.
    pub h_get_all_done :
        (key : Bytes) (s s' : Option Context × W) (found : Option (Dict Bytes Bytes))
        → is_connected hiredis s.0 ≡ true
        → h_get_all hiredis options key s ≡ (done found, s')
        → (elements : List (Option Bytes)) × (found ≡ hash_of (array elements))
          × ((field : Bytes) → lookup field (pairs elements []) ≡ seen hash s key field)
    unfolding h_get_all
    h_get_all_done key s s' found on h =
        let (a, t, pinged, rest) = >>=-done (ping hiredis options) _ s s' found h in
        let (r, t', got, e) =
          >>=-done (replied hiredis (h_get_all_command key)) _ t s' found rest in
        let x = replied_done hiredis (h_get_all_command key) t t' r got in
        let (kept, elements, is, listed) =
          redis.h_get_all key x.c x.c' x.w x.w' r x.call x.accepted in
        (
          elements,
          cc (ap hash_of is, e),
          λ field.
              listed field
              ∙ ap (λ q. seen hash q key field) (sym x.before)
              ∙ ap (λ m. m key field) (ping_connected options s t a on pinged),
        )

    -- What HGetAll comes back with behind an HSet that reported success, on the same client and
    -- with nothing between the two, has every field of the HSet with its value.
    pub h_get_all-h_set :
        (key : Bytes) (values : Dict Bytes Bytes) (ttl : ℤ) (s s' s'' : Option Context × W)
        (u : Unit {0}) (found : Option (Dict Bytes Bytes))
        → values ≢ []
        → IsMap values
        → h_set hiredis options key values ttl s ≡ (done u, s')
        → h_get_all hiredis options key s' ≡ (done found, s'')
        → (m : Dict Bytes Bytes) × (found ≡ some m)
          × ((field value : Bytes) → lookup field values ≡ some value → lookup field m ≡ some value)
    h_get_all-h_set key values ttl s s' s'' u found filled once stored got =
        let (on, there) = h_set_done key values ttl s s' u once stored in
        let (elements, is, listed) = h_get_all_done key s' s'' found on got in
        let (field, value, e) = some_entry values filled in
        (
          pairs elements [],
          is ∙ hash_of_filled elements field value (listed field ∙ there field value e),
          λ field value e. listed field ∙ there field value e,
        )
