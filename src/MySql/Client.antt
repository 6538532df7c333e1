-- ===== src/MySql/Client.antt =====
-- common/src/mysql/mysql_client.cpp. libmysqlclient is a parameter: `Handle` is its MYSQL, and `W`
-- is what lies behind it. The state is `handle_` beside `W`.
pub mod Handles
pub mod Rows
use project_moon.Base.{
  ℕ, ◌+◌, ◌-◌, ◌%◌, ◌^◌, Bool, true, false, not, Option, none, some, List, [], ◌∷◌, Bytes, bytes_eq,
  ltb, ℤ, pos, negsuc, if◌then◌else◌,
}
use project_moon.Base.Text.{codes}
use project_moon.Base.Dict.{Dict, emplace}
use project_moon.Base.Calls.{Result, done, failed, result_or, Call, returns, ◌>>=◌, ◌>>◌}
use project_moon.Config.{get_string, get_int}
use project_moon.Dungeon.MySql.{Row}

pub record ConnectionOptions : Type 0 where
  pub host : Bytes
  pub port : ℤ
  pub user : Bytes
  pub password : Bytes
  pub database : Bytes
  pub charset : Bytes

-- `ConnectionOptions{}`
abbrev pub default_options : ConnectionOptions
default_options = record {
  host = codes "127.0.0.1";
  port = pos 3306;
  user = codes "game";
  password = codes "gamepass";
  database = codes "game_backend";
  charset = codes "utf8mb4";
}

unfoldable pub read_connection_options : Dict Bytes Bytes → ConnectionOptions
read_connection_options config = record {
  host = get_string (codes "mysql.host") default_options.host config;
  port = get_int (codes "mysql.port") default_options.port config;
  user = get_string (codes "mysql.user") default_options.user config;
  password = get_string (codes "mysql.password") default_options.password config;
  database = get_string (codes "mysql.database") default_options.database config;
  charset = get_string (codes "mysql.charset") default_options.charset config;
}

-- A stored result: the names of its fields, and its rows; `none` is a null pointer.
pub record Table : Type 0 where
  pub fields : List (Option Bytes)
  pub rows : List (List (Option Bytes))

-- The calls of libmysqlclient. Where the code tests for 0 or for a null pointer, a call comes back
-- with whether it went well.
pub record LibMySql (W : Type 0) (Handle : Type 0) : Type 0 where
  pub mysql_init : W → Option Handle × W
  -- mysql_options with MYSQL_SET_CHARSET_NAME
  pub set_charset_name : Bytes → Handle → Handle
  -- host, user, password, database and port
  pub mysql_real_connect : Bytes → Bytes → Bytes → Bytes → ℕ → Handle → W → Bool × (Handle × W)
  pub mysql_close : Handle → W → W
  pub mysql_ping : Handle → W → Bool × (Handle × W)
  pub mysql_query : Bytes → Handle → W → Bool × (Handle × W)
  pub mysql_field_count : Handle → ℕ
  pub mysql_store_result : Handle → W → Option Table × (Handle × W)
  pub mysql_affected_rows : Handle → ℕ
  pub mysql_error : Handle → Bytes
  pub mysql_real_escape_string : Handle → Bytes → Bytes

-- `static_cast<unsigned int>` of an int
to_unsigned : ℤ → ℕ
to_unsigned (pos n) = n % 2 ^ 32
to_unsigned (negsuc n) = 2 ^ 32 - 1 - n % 2 ^ 32

-- The loop of Query over the fields of one row; a null pointer counts as the empty text.
unfoldable pub row_of : List (Option Bytes) → List (Option Bytes) → Row → Row
row_of [] values row = row
row_of (field ∷ fields) [] row = row
row_of (field ∷ fields) (value ∷ values) row = row_of fields values (
    emplace (elim field [ none ↦ [] | some name ↦ name ])
      (elim value [ none ↦ [] | some text ↦ text ]) row)

-- The loop of Query over the rows
unfoldable pub rows_of : List (Option Bytes) → List (List (Option Bytes)) → List Row
rows_of fields [] = []
rows_of fields (values ∷ rows) = row_of fields values [] ∷ rows_of fields rows

-- What the repositories of accounts and players call: Escape, Query and QueryOne.
pub record SqlClient (S : Type 0) : Type 0 where
  pub escape_text : Bytes → S → Bytes × S
  pub query_rows : Bytes → S → List Row × S
  pub query_row : Bytes → S → Option Row × S

unfoldable pub is_connected : {Handle : Type 0} → Option Handle → Bool
is_connected none = false
is_connected (some handle) = true

unfoldable pub first_row : List Row → Option Row
first_row [] = none
first_row (row ∷ rows) = some row

module _ {W Handle : Type 0} (lib : LibMySql W Handle) where
  open lib use {
    mysql_init, set_charset_name, mysql_real_connect, mysql_close, mysql_ping, mysql_query,
    mysql_field_count, mysql_store_result, mysql_affected_rows, mysql_error,
    mysql_real_escape_string,
  }

  unfoldable pub last_error : Option Handle → Bytes
  last_error none = codes "mysql handle not initialized"
  last_error (some handle) = mysql_error handle

  -- The handle that there was is closed.
  unfoldable pub disconnect : Option Handle × W → W
  disconnect (none, w) = w
  disconnect (some handle, w) = mysql_close handle w

  -- A call on `handle_` that tells whether it went well
  checked : (Handle → W → Bool × (Handle × W)) → Call (Option Handle × W) (Unit {0})
  unfolding last_error
  checked call (none, w) = (failed (last_error none), (none, w))
  checked call (some handle, w) =
      let (good, (handle', w')) = call handle w in
      if good
      then (done tt, (some handle', w'))
      else (failed (mysql_error handle'), (some handle', w'))

  -- The result of a statement that gives one is stored and freed.
  discard_result : Option Handle × W → Option Handle × W
  discard_result (none, w) = (none, w)
  discard_result (some handle, w) =
      if ltb 0 (mysql_field_count handle)
      then (let (result, (handle', w')) = mysql_store_result handle w in (some handle', w'))
      else (some handle, w)

  affected : Option Handle → ℕ
  affected none = 0
  affected (some handle) = mysql_affected_rows handle

  stored_rows : Option Handle × W → List Row × (Option Handle × W)
  unfolding rows_of
  stored_rows (none, w) = ([], (none, w))
  stored_rows (some handle, w) =
      let (result, (handle', w')) = mysql_store_result handle w in
      (elim result [ none ↦ [] | some table ↦ rows_of table.fields table.rows ], (some handle', w'))

  module _ (options : ConnectionOptions) where
    -- The handle that Connect makes, or the message
    unfoldable pub open_handle : Option Handle × W → Result Handle × W
    unfolding disconnect to_unsigned
    open_handle s =
        let (made, w) = mysql_init (disconnect s) in
        elim made [
          | none ↦ (failed (codes "mysql_init failed"), w)
          | some handle ↦
              let (good, (handle', w')) =
                mysql_real_connect options.host options.user options.password options.database
                  (to_unsigned options.port) (set_charset_name options.charset handle) w in
              if good
              then (done handle', w')
              else (failed (mysql_error handle'), mysql_close handle' w')
        ]

    unfoldable pub connect : Call (Option Handle × W) (Unit {0})
    unfolding open_handle
    connect s =
        let (opened, w) = open_handle s in
        elim opened [ failed m ↦ (failed m, (none, w)) | done handle ↦ (done tt, (some handle, w)) ]

    unfoldable pub ping : Call (Option Handle × W) (Unit {0})
    unfolding connect checked is_connected
    ping s = (do (if is_connected s.0 then returns tt else connect); checked mysql_ping) s

    -- A connection that is missing is made as Connect makes it.
    unfoldable pub escape : Bytes → Option Handle × W → Bytes × (Option Handle × W)
    unfolding open_handle
    escape value (some handle, w) = (mysql_real_escape_string handle value, (some handle, w))
    escape value (none, w) =
        let (opened, w') = open_handle (none, w) in
        elim opened [
          | failed m ↦ (value, (none, w'))
          | done handle ↦ (mysql_real_escape_string handle value, (some handle, w'))
        ]

    -- Execute with its count of rows; without a count asked for it does the same.
    unfoldable pub execute : Bytes → Call (Option Handle × W) ℕ
    unfolding ping checked discard_result affected
    execute sql = do
      ping
      checked (mysql_query sql)
      (λ s. let s' = discard_result s in (done (affected s'.0), s'))

    -- Query, with the message that is written where there are no rows because it failed
    unfoldable pub query : Bytes → Call (Option Handle × W) (List Row)
    unfolding ping checked stored_rows
    query sql = do
      ping
      checked (mysql_query sql)
      (λ s. let (rows, s') = stored_rows s in (done rows, s'))

    unfoldable pub query_one : Bytes → Option Handle × W → Option Row × (Option Handle × W)
    unfolding query first_row
    query_one sql s = let (rows, s') = query sql s in (first_row (result_or [] rows), s')

    unfoldable pub begin_transaction : Call (Option Handle × W) ℕ
    unfolding execute
    begin_transaction = execute (codes "START TRANSACTION")

    unfoldable pub commit : Call (Option Handle × W) ℕ
    unfolding execute
    commit = execute (codes "COMMIT")

    unfoldable pub rollback : Call (Option Handle × W) ℕ
    unfolding execute
    rollback = execute (codes "ROLLBACK")

    -- The client behind that interface, without `error_message`
    abbrev pub sql_client : SqlClient (Option Handle × W)
    sql_client = record {
      escape_text = escape;
      query_rows = λ sql s. let (rows, s') = query sql s in (result_or [] rows, s');
      query_row = query_one;
    }
