-- ===== src/Tests/Redis.antt =====
-- The Redis client on a small server that keeps its hashes in a list and its keys in a function.
use project_moon.Base.{
  ◌≡◌, ◌≢◌, ◌⊎◌, inl, inr, refl, ap, sym, ◌∙◌, Bool, true, false, Option, none, some, List, nat_eq,
  [], ◌∷◌, Bytes, bytes_eq, bytes_beq, bytes_beq_iff, arith, ◌==◌, ◌&&◌, if◌then◌else◌, pos,
  Bool-cases, ok,
}
use project_moon.Base.Text.{codes}
use project_moon.Base.Decimal.{to_string}
use project_moon.Base.Dict.{Dict, lookup, insert, emplace, lookup-insert, lookup-emplace}
use project_moon.Base.Calls.{done, failed}
use project_moon.Redis.Hiredis.{default_options, Reply, nil, status, integer, array, Hiredis, pairs}
use project_moon.Redis.Client.{h_set, h_get_all, redis_client, is_connected, set_nx_with_expire}
use project_moon.Redis.Client.Server.{IsRedis, seen_key}
use project_moon.Redis.Client.Hashes.{h_get_all-h_set}
use project_moon.Redis.Battles.{save, find_by_battle_id, cache_key, fields}
use project_moon.Redis.Battles.OnClient.{find_by_battle_id-save_on_client}
use project_moon.Redis.Locks.{acquire, player_lock_key}
use project_moon.Redis.Locks.OnClient.{acquire_excludes}
use project_moon.Tests.Storage.{battle}

pub record Store : Type 0 where
  pub hashes : Dict Bytes (Dict Bytes Bytes)
  pub keys : Bytes → Bool

abbrev fields_of : Bytes → Dict Bytes (Dict Bytes Bytes) → Dict Bytes Bytes
fields_of key hashes = elim (lookup key hashes) [ none ↦ [] | some m ↦ m ]

abbrev listed : Dict Bytes Bytes → List (Option Bytes)
listed [] = []
listed ((field, value) ∷ m) = some field ∷ some value ∷ listed m

abbrev answer : List Bytes → Store → Option Reply × Store
answer (name ∷ key ∷ []) w =
    if name == codes "HGETALL"
    then (some (array (listed (fields_of key w.hashes))), w)
    else (some (integer (pos 1)), record w { keys = λ k. if key == k then false else w.keys k })
answer (name ∷ key ∷ field ∷ value ∷ []) w = (
  some (integer (pos 1)),
  record w { hashes = insert key (insert field value (fields_of key w.hashes)) w.hashes },
)
answer (name ∷ key ∷ value ∷ nx ∷ ex ∷ ttl ∷ []) w =
    if w.keys key
    then (some nil, w)
    else (some (status (codes "OK")), record w { keys = λ k. if key == k then true else w.keys k })
answer command w = (some (status (codes "OK")), w)

abbrev pub small_redis : Hiredis Store (Unit {0})
small_redis = record {
  redis_connect_with_timeout = λ host port s us w. (some tt, w);
  err = λ c. false;
  errstr = λ c. none;
  redis_command = λ command c w. let (r, w') = answer command w in (r, (c, w'));
  redis_free = λ c w. w;
}

abbrev pub hash : Unit {0} → Store → Bytes → Bytes → Option Bytes
hash c w key field = lookup field (fields_of key w.hashes)

abbrev pub holds : Unit {0} → Store → Bytes → Bool
holds c w key = w.keys key

-- Listing a hash and reading the list back
pairs-listed :
    (field : Bytes) (m read : Dict Bytes Bytes)
    → lookup field (pairs (listed m) read)
      ≡ elim (lookup field read) [ none ↦ lookup field m | some v ↦ some v ]
unfolding pairs lookup
pairs-listed field [] read = ground arith
pairs-listed field ((name, value) ∷ m) read =
    ground
      (arith, pairs-listed field m (emplace name value read), lookup-emplace name field value read)

stored :
    (key field value : Bytes) (w : Store) (key' field' : Bytes)
    → lookup field'
        (fields_of key' (insert key (insert field value (fields_of key w.hashes)) w.hashes))
      ≡ (if (key == key') && (field == field')
          then some value
          else lookup field' (fields_of key' w.hashes))
stored key field value w key' field' = ground (
  arith,
  lookup-insert key key' (insert field value (fields_of key w.hashes)) w.hashes,
  lookup-insert field field' value (fields_of key w.hashes),
  bytes_beq_iff key key',
)

inserted :
    (key value : Bytes) (ttl : Bytes) (w w' : Store) (r : Reply)
    → answer (codes "SET" ∷ key ∷ value ∷ codes "NX" ∷ codes "EX" ∷ ttl ∷ []) w ≡ (some r, w')
    → ((w.keys key ≡ true) × (r ≡ nil) × (w'.keys ≡ w.keys))
      ⊎ ((w.keys key ≡ false)
          × (r ≢ nil)
          × ((key' : Bytes) → w'.keys key' ≡ (if key == key' then true else w.keys key')))
inserted key value ttl w w' r h = elim (Bool-cases (w.keys key)) [
  | inl there ↦ inl (there, ground (arith, h, there), ground (arith, h, there))
  | inr free ↦ inr (
    free,
    (λ e. ground (arith, h, free, e)),
    λ key'.
        ap (λ (q : Option Reply × Store). q.1.keys key')
          (sym h
            ∙ ap
                (λ b. if b then (some nil, w) else (
                  some (status (codes "OK")),
                  record w { keys = λ k. if key == k then true else w.keys k },
                ))
                free),
  )
]

same_store :
    {c c' : Unit {0}} {w w' : Store} {r r' : Reply}
    → ◌≡◌ {A = Option Reply × (Unit {0} × Store)} (some r, (c, w)) (some r', (c', w'))
    → (w ≡ w') × (r ≡ r')
same_store e = (ap (λ q. q.1.1) e, cc)

pub small_redis-IsRedis : IsRedis small_redis hash holds
unfolding bytes_beq lookup
small_redis-IsRedis = record {
  answered = λ command c c' w w' r e. refl;
  pinged = λ c c' w w' r e.
      let same = same_store e in
      (ap (λ q key field. hash c q key field) (sym same.0), ap (λ q. q.keys) (sym same.0));
  expires = λ key ttl c c' w w' r positive e.
      ap (λ q key field. hash c q key field) (sym (same_store e).0);
  h_set = λ key field value c c' w w' r e accepted key' field'.
      ap (λ q. hash c q key' field') (sym (same_store e).0) ∙ stored key field value w key' field';
  h_get_all = λ key c c' w w' r e accepted.
      let same = same_store e in
      (
        ap (λ q key field. hash c q key field) (sym same.0),
        listed (fields_of key w.hashes),
        sym same.1,
        λ field. pairs-listed field (fields_of key w.hashes) [],
      );
  set_nx = λ key value ttl c c' w w' r e accepted.
      inserted key value (to_string ttl) w w' r (ap (λ q. (q.0, q.1.1)) e);
  del = λ key c c' w w' r e accepted key'. ap (λ q. q.keys key') (sym (same_store e).0);
}

abbrev pub start : Option (Unit {0}) × Store
start = (some tt, record { hashes = []; keys = λ k. false })

abbrev values : Dict Bytes Bytes
values = (codes "a", codes "1") ∷ (codes "b", codes "2") ∷ []

abbrev after_h_set : Option (Unit {0}) × Store
after_h_set = (h_set small_redis default_options (codes "h") values (pos 60) start).1

h_set_runs :
    h_set small_redis default_options (codes "h") values (pos 60) start ≡ (done tt, after_h_set)
unfolding h_set bytes_beq
h_set_runs = refl

h_get_all_runs :
    h_get_all small_redis default_options (codes "h") after_h_set
    ≡ (done (some values), after_h_set)
unfolding h_set h_get_all bytes_beq lookup insert pairs emplace
h_get_all_runs = refl

h_get_all-h_set_example :
    (m : Dict Bytes Bytes) × (some values ≡ some m)
    × ((field value : Bytes) → lookup field values ≡ some value → lookup field m ≡ some value)
unfolding lookup bytes_beq
h_get_all-h_set_example =
    h_get_all-h_set small_redis hash holds small_redis-IsRedis default_options (codes "h") values
      (pos 60) start after_h_set after_h_set tt (some values) (λ e. cc) (refl, (refl, tt))
      h_set_runs h_get_all_runs

abbrev client_save : Option (Unit {0}) × Store
client_save = (save (redis_client small_redis default_options) (pos 60) battle start).1

saved : save (redis_client small_redis default_options) (pos 60) battle start ≡ (true, client_save)
unfolding save fields h_set bytes_beq
saved = refl

find_by_battle_id-save_on_client_example :
    ((find_by_battle_id
        (redis_client small_redis default_options)
        (pos 60)
        (codes "b")
        client_save).0
      ≡ ok (some battle))
    ⊎ ((m : Bytes) × (s : Option (Unit {0}) × Store) × (h_get_all small_redis default_options
            (cache_key (codes "b"))
            client_save
          ≡ (failed m, s))
        × ((find_by_battle_id
              (redis_client small_redis default_options)
              (pos 60)
              (codes "b")
              client_save).0
            ≡ ok none))
find_by_battle_id-save_on_client_example =
    find_by_battle_id-save_on_client small_redis hash holds small_redis-IsRedis default_options
      (pos 60) battle start client_save (refl, refl, refl, refl) saved

abbrev locked : Option (Unit {0}) × Store
locked = (acquire (redis_client small_redis default_options) (pos 5) (pos 7) start).1

acquires : acquire (redis_client small_redis default_options) (pos 5) (pos 7) start ≡ (true, locked)
unfolding acquire is_connected set_nx_with_expire
acquires = refl

acquire_excludes_example :
    (seen_key holds start (player_lock_key (pos 7)) ≡ false)
    × ((key : Bytes)
        → seen_key holds locked key
          ≡ (if player_lock_key (pos 7) == key then true else seen_key holds start key))
    × ((acquire (redis_client small_redis default_options) (pos 5) (pos 7) locked).0 ≡ false)
unfolding is_connected
acquire_excludes_example =
    acquire_excludes small_redis hash holds small_redis-IsRedis default_options (pos 5) (pos 7)
      start locked refl acquires
