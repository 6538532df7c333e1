-- ===== src/Redis/Client/Server.antt =====
-- What the client relies on in hiredis and in a Redis server, as their documentation has it; keys
-- are not looked at after their time to live.
use project_moon.Base.{
  ◌≡◌, ◌≢◌, ◌⊎◌, inl, inr, refl, ap, subst, ◌∙◌, Bool, true, false, ◌&&◌, Option, none, some, List,
  [], ◌==◌, Bytes, bytes_eq, ℤ, pos, ltb_ℤ, if◌then◌else◌, arith,
}
use project_moon.Base.Dict.{lookup}
use project_moon.Base.Calls.{done}
use project_moon.Redis.Hiredis.{
  Reply, nil, error, status, text, integer, array, Hiredis, set_nx_command, del_command,
  h_set_command, expire_command, h_get_all_command, ping_command, pairs,
}
use project_moon.Redis.Client.{checked, replied, refused}

-- The reply is no error.
abbrev pub IsAccepted : Reply → Type 0
IsAccepted (error m) = ⊥
IsAccepted r = Unit

-- `hash c w key field` is what the connection sees under a field of a hash, and `holds c w key`
-- whether it sees the key at all.
pub record IsRedis {W Context : Type 0} (hiredis : Hiredis W Context)
    (hash : Context → W → Bytes → Bytes → Option Bytes) (holds : Context → W → Bytes → Bool)
    : Type 0 where
  -- A context that has brought a reply is not broken.
  pub answered :
      (command : List Bytes) (c c' : Context) (w w' : W) (r : Reply)
      → hiredis.redis_command command c w ≡ (some r, (c', w'))
      → hiredis.err c' ≡ false
  pub pinged :
      (c c' : Context) (w w' : W) (r : Reply)
      → hiredis.redis_command ping_command c w ≡ (some r, (c', w'))
      → (hash c' w' ≡ hash c w) × (holds c' w' ≡ holds c w)
  -- EXPIRE with a positive time to live
  pub expires :
      (key : Bytes) (ttl : ℤ) (c c' : Context) (w w' : W) (r : Reply)
      → ltb_ℤ (pos 0) ttl ≡ true
      → hiredis.redis_command (expire_command key ttl) c w ≡ (some r, (c', w'))
      → hash c' w' ≡ hash c w
  pub h_set :
      (key field value : Bytes) (c c' : Context) (w w' : W) (r : Reply)
      → hiredis.redis_command (h_set_command key field value) c w ≡ (some r, (c', w'))
      → IsAccepted r
      → (key' field' : Bytes)
      → hash c' w' key' field'
        ≡ (if (key == key') && (field == field') then some value else hash c w key' field')
  -- The names and values of a hash, one behind the other; an empty hash is no key.
  pub h_get_all :
      (key : Bytes) (c c' : Context) (w w' : W) (r : Reply)
      → hiredis.redis_command (h_get_all_command key) c w ≡ (some r, (c', w'))
      → IsAccepted r
      → (hash c' w' ≡ hash c w)
        × (elements : List (Option Bytes)) × (r ≡ array elements)
        × ((field : Bytes) → lookup field (pairs elements []) ≡ hash c w key field)
  -- SET with NX: nil where the key is there, else it is put there.
  pub set_nx :
      (key value : Bytes) (ttl : ℤ) (c c' : Context) (w w' : W) (r : Reply)
      → hiredis.redis_command (set_nx_command key value ttl) c w ≡ (some r, (c', w'))
      → IsAccepted r
      → ((holds c w key ≡ true) × (r ≡ nil) × (holds c' w' ≡ holds c w))
        ⊎ ((holds c w key ≡ false)
            × (r ≢ nil)
            × ((key' : Bytes) → holds c' w' key' ≡ (if key == key' then true else holds c w key')))
  pub del :
      (key : Bytes) (c c' : Context) (w w' : W) (r : Reply)
      → hiredis.redis_command (del_command key) c w ≡ (some r, (c', w'))
      → IsAccepted r
      → (key' : Bytes) → holds c' w' key' ≡ (if key == key' then false else holds c w key')

-- What the connection of a state sees; without a connection it sees nothing.
abbrev pub seen :
    {W Context : Type 0}
    → (Context → W → Bytes → Bytes → Option Bytes)
    → Option Context × W
    → Bytes
    → Bytes
    → Option Bytes
seen hash (none, w) key field = none
seen hash (some c, w) key field = hash c w key field

abbrev pub seen_key :
    {W Context : Type 0} → (Context → W → Bytes → Bool) → Option Context × W → Bytes → Bool
seen_key holds (none, w) key = false
seen_key holds (some c, w) key = holds c w key

-- A command has been sent on a context and has had a reply that is no error.
pub record Ran {W Context : Type 0} (hiredis : Hiredis W Context) (command : List Bytes)
    (s s' : Option Context × W) (r : Reply) : Type 0 where
  pub c : Context
  pub c' : Context
  pub w : W
  pub w' : W
  pub before : s ≡ (some c, w)
  pub after : s' ≡ (some c', w')
  pub call : hiredis.redis_command command c w ≡ (some r, (c', w'))
  pub accepted : IsAccepted r

Reply-cases :
    {X : Type 0} (r : Option Reply × X)
    → ((x : X) × (r ≡ (none, x)))
      ⊎ ((m : Bytes) × (x : X) × (r ≡ (some (error m), x)))
      ⊎ ((reply : Reply) × (x : X) × (r ≡ (some reply, x)) × IsAccepted reply)
Reply-cases (none, x) = inl (x, refl)
Reply-cases (some (error m), x) = inr (inl (m, x, refl))
Reply-cases (some nil, x) = inr (inr (nil, x, refl, tt))
Reply-cases (some (status m), x) = inr (inr (status m, x, refl, tt))
Reply-cases (some (text m), x) = inr (inr (text m, x, refl, tt))
Reply-cases (some (integer m), x) = inr (inr (integer m, x, refl, tt))
Reply-cases (some (array m), x) = inr (inr (array m, x, refl, tt))

module _ {W Context : Type 0} (hiredis : Hiredis W Context) where
  refused-IsAccepted :
      (context : Option Context) (r : Reply)
      → IsAccepted r
      → refused hiredis context (some r) ≡ none
  unfolding refused
  refused-IsAccepted context (error m) h = absurd h
  refused-IsAccepted context nil h = refl
  refused-IsAccepted context (status m) h = refl
  refused-IsAccepted context (text m) h = refl
  refused-IsAccepted context (integer m) h = refl
  refused-IsAccepted context (array m) h = refl

  -- A command that is checked and goes well has had a reply that is no error.
  pub checked_done :
      (command : List Bytes) (s s' : Option Context × W) (u : Unit {0})
      → checked hiredis command s ≡ (done u, s')
      → (r : Reply) × Ran hiredis command s s' r
  unfolding checked
  checked_done command (none, w) s' u h = absurd (ground (arith, h))
  checked_done command (some c, w) s' u h = elim (Reply-cases (hiredis.redis_command command c w)) [
    | inl ((c', w'), e) ↦ absurd (ground (arith, h, e))
    | inr (inl (m, (c', w'), e)) ↦ absurd (ground (arith, h, e))
    | inr (inr (r, (c', w'), e, a)) ↦ (
      r,
      record {
        c = c;
        c' = c';
        w = w;
        w' = w';
        before = refl;
        after = ground (arith, h, e, refused-IsAccepted (some c') r a);
        call = e;
        accepted = a;
      },
    )
  ]

  -- The same where the reply is used.
  pub replied_done :
      (command : List Bytes) (s s' : Option Context × W) (r : Reply)
      → replied hiredis command s ≡ (done r, s')
      → Ran hiredis command s s' r
  unfolding replied
  replied_done command (none, w) s' r h = absurd (ground (arith, h))
  replied_done command (some c, w) s' r h = elim (Reply-cases (hiredis.redis_command command c w)) [
    | inl ((c', w'), e) ↦ absurd (ground (arith, h, e))
    | inr (inl (m, (c', w'), e)) ↦ absurd (ground (arith, h, e))
    | inr (inr (q, (c', w'), e, a)) ↦
        let same : q ≡ r = ground (arith, h, e, refused-IsAccepted (some c') q a) in
        record {
          c = c;
          c' = c';
          w = w;
          w' = w';
          before = refl;
          after = ground (arith, h, e, refused-IsAccepted (some c') q a);
          call = e ∙ ap (λ x. (some x, (c', w'))) same;
          accepted = subst IsAccepted same a;
        }
  ]
