-- ===== src/Redis/Client.antt =====
-- common/src/redis/redis_client.cpp. The state is `context_` beside what lies behind hiredis.
pub mod Server
pub mod Hashes
pub mod Keys
use project_moon.Base.{
  Bool, true, false, not, Option, none, some, List, [], ◌∷◌, Bytes, ℤ, pos, ltb_ℤ, if◌then◌else◌,
}
use project_moon.Base.Text.{codes, is_empty}
use project_moon.Base.Decimal.{to_string}
use project_moon.Base.Dict.{Dict}
use project_moon.Base.Calls.{Result, done, failed, is_done, result_or, Call, returns, ◌>>=◌, ◌>>◌}
use project_moon.Redis.{RedisClient}
use project_moon.Redis.Hiredis.{
  ConnectionOptions, Reply, error, Hiredis, quotient, remainder, times, set_command, set_nx_command,
  get_command, del_command, h_set_command, expire_command, h_get_all_command, ping_command, text_of,
  hash_of, was_inserted,
}

module _ {W Context : Type 0} (hiredis : Hiredis W Context) where
  open hiredis use {redis_connect_with_timeout, err, errstr, redis_command, redis_free}

  unfoldable pub last_error : Option Context → Bytes
  last_error none = codes "redis context not initialized"
  last_error (some context) = elim (errstr context) [
    | none ↦ codes "redis unknown error"
    | some m ↦ m
  ]

  unfoldable pub is_connected : Option Context → Bool
  is_connected none = false
  is_connected (some context) = not (err context)

  -- redisCommand on `context_`, which is never null where the code calls it.
  unfoldable pub run : List Bytes → Option Context × W → Option Reply × (Option Context × W)
  run command (none, w) = (none, (none, w))
  run command (some context, w) =
      let (reply, (context', w')) = redis_command command context w in (reply, (some context', w'))

  -- `!reply || reply->type == REDIS_REPLY_ERROR`, with the message that is then written
  unfoldable pub refused : Option Context → Option Reply → Option Bytes
  unfolding last_error
  refused context none = some (last_error context)
  refused context (some (error m)) = some m
  refused context (some reply) = none

  -- A command whose reply is looked at for an error only
  unfoldable pub checked : List Bytes → Call (Option Context × W) (Unit {0})
  unfolding refused run
  checked command s =
      let (reply, s') = run command s in
      elim (refused s'.0 reply) [ some m ↦ (failed m, s') | none ↦ (done tt, s') ]

  -- A command whose reply is used
  unfoldable pub replied : List Bytes → Call (Option Context × W) Reply
  unfolding refused run
  replied command s =
      let (reply, s') = run command s in
      elim reply [
        | none ↦ (failed (last_error s'.0), s')
        | some r ↦ elim (refused s'.0 (some r)) [ some m ↦ (failed m, s') | none ↦ (done r, s') ]
      ]

  -- The connection that there was is freed.
  unfoldable pub disconnect : Option Context × W → W
  disconnect (none, w) = w
  disconnect (some context, w) = redis_free context w

  -- The loop of HSet: one command for every field
  unfoldable pub h_set_fields : Bytes → Dict Bytes Bytes → Call (Option Context × W) (Unit {0})
  unfolding checked
  h_set_fields key [] = returns tt
  h_set_fields key ((field, value) ∷ values) = do
    checked (h_set_command key field value)
    h_set_fields key values

  module _ (options : ConnectionOptions) where
    -- AUTH and SELECT on a new connection
    unfoldable pub authenticate : Call (Option Context × W) (Unit {0})
    unfolding checked
    authenticate =
        if not (is_empty options.password)
        then checked (codes "AUTH" ∷ options.password ∷ [])
        else returns tt

    unfoldable pub select_database : Call (Option Context × W) (Unit {0})
    unfolding checked
    select_database =
        if ltb_ℤ (pos 0) options.database
        then checked (codes "SELECT" ∷ to_string options.database ∷ [])
        else returns tt

    unfoldable pub connect : Call (Option Context × W) (Unit {0})
    unfolding disconnect quotient remainder times authenticate select_database
    connect s =
        let w = disconnect s in
        let (made, w₁) =
          redis_connect_with_timeout options.host options.port (quotient options.timeout_ms 1000)
            (times (remainder options.timeout_ms 1000) 1000) w in
        elim made [
          | none ↦ (failed (last_error none), (none, w₁))
          | some context ↦
              if err context
              then (failed (last_error (some context)), (none, redis_free context w₁))
              else (do authenticate; select_database) (some context, w₁)
        ]

    unfoldable pub ping : Call (Option Context × W) (Unit {0})
    unfolding connect checked is_connected
    ping s = (do (if is_connected s.0 then returns tt else connect); checked ping_command) s

    unfoldable pub set : Bytes → Bytes → ℤ → Call (Option Context × W) (Unit {0})
    unfolding ping checked
    set key value ttl_seconds = do ping; checked (set_command key value ttl_seconds)

    unfoldable pub get : Bytes → Call (Option Context × W) (Option Bytes)
    unfolding ping replied text_of
    get key = do ping; reply ← replied (get_command key); returns (text_of reply)

    unfoldable pub del : Bytes → Call (Option Context × W) (Unit {0})
    unfolding ping checked
    del key = do ping; checked (del_command key)

    unfoldable pub h_set : Bytes → Dict Bytes Bytes → ℤ → Call (Option Context × W) (Unit {0})
    unfolding ping h_set_fields checked
    h_set key values ttl_seconds = do
      ping
      h_set_fields key values
      (if ltb_ℤ (pos 0) ttl_seconds then checked (expire_command key ttl_seconds) else returns tt)

    unfoldable pub h_get_all : Bytes → Call (Option Context × W) (Option (Dict Bytes Bytes))
    unfolding ping replied hash_of
    h_get_all key = do ping; reply ← replied (h_get_all_command key); returns (hash_of reply)

    unfoldable pub set_nx_with_expire : Bytes → Bytes → ℤ → Call (Option Context × W) Bool
    unfolding ping replied was_inserted
    set_nx_with_expire key value ttl_seconds = do
      ping
      reply ← replied (set_nx_command key value ttl_seconds)
      returns (was_inserted reply)

    -- The client behind its interface, as the repositories call it: without `error_message`, and
    -- with an `inserted` that starts as false.
    abbrev pub redis_client : RedisClient (Option Context × W)
    redis_client = record {
      set = λ key value ttl s. let (r, s') = set key value ttl s in (is_done r, s');
      get = λ key s. let (r, s') = get key s in (result_or none r, s');
      del = λ key s. let (r, s') = del key s in (is_done r, s');
      h_set = λ key values ttl s. let (r, s') = h_set key values ttl s in (is_done r, s');
      h_get_all = λ key s. let (r, s') = h_get_all key s in (result_or none r, s');
      set_nx_with_expire = λ key value ttl s.
          let (r, s') = set_nx_with_expire key value ttl s in ((is_done r, result_or false r), s');
    }
