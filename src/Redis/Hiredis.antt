-- ===== src/Redis/Hiredis.antt =====
-- What common/src/redis/redis_client.cpp sends to hiredis and gets from it. hiredis is a parameter:
-- `Context` is its redisContext, and `W` is what lies behind it. A command is the list of arguments
-- that its format gives.
use project_moon.Base.{
  ℕ, ◌/◌, ◌%◌, ◌*◌, Bool, true, false, Option, none, some, List, [], ◌∷◌, Bytes, bytes_eq, ℤ, pos,
  pos_part, neg_part, sub_ℕ, ltb_ℤ, if◌then◌else◌,
}
use project_moon.Base.Text.{codes}
use project_moon.Base.Decimal.{to_string}
use project_moon.Base.Dict.{Dict, emplace}
use project_moon.Config.{get_string, get_int}

pub record ConnectionOptions : Type 0 where
  pub host : Bytes
  pub port : ℤ
  pub password : Bytes
  pub database : ℤ
  pub timeout_ms : ℤ

-- `ConnectionOptions{}`
abbrev pub default_options : ConnectionOptions
default_options = record {
  host = codes "127.0.0.1";
  port = pos 6379;
  password = [];
  database = pos 0;
  timeout_ms = pos 2000;
}

unfoldable pub read_connection_options : Dict Bytes Bytes → ConnectionOptions
read_connection_options config = record {
  host = get_string (codes "redis.host") default_options.host config;
  port = get_int (codes "redis.port") default_options.port config;
  password = get_string (codes "redis.password") default_options.password config;
  database = get_int (codes "redis.database") default_options.database config;
  timeout_ms = get_int (codes "redis.timeout_ms") default_options.timeout_ms config;
}

-- A redisReply. The elements of an array are the texts of their replies, `none` where there is no
-- element or no text.
pub data Reply : Type 0 where
  nil : Reply
  error : Bytes → Reply
  status : Bytes → Reply
  text : Bytes → Reply
  integer : ℤ → Reply
  array : List (Option Bytes) → Reply

-- The calls of hiredis. A command may come back without a reply, and leaves the context changed.
pub record Hiredis (W : Type 0) (Context : Type 0) : Type 0 where
  -- host, port, seconds and microseconds
  pub redis_connect_with_timeout : Bytes → ℤ → ℤ → ℤ → W → Option Context × W
  pub err : Context → Bool
  pub errstr : Context → Option Bytes
  pub redis_command : List Bytes → Context → W → Option Reply × (Context × W)
  pub redis_free : Context → W → W

-- A quotient and a remainder of C++, cut towards zero.
unfoldable pub quotient : ℤ → ℕ → ℤ
quotient a k = sub_ℕ (pos_part a / k) (neg_part a / k)

unfoldable pub remainder : ℤ → ℕ → ℤ
remainder a k = sub_ℕ (pos_part a % k) (neg_part a % k)

unfoldable pub times : ℤ → ℕ → ℤ
times a k = sub_ℕ (pos_part a * k) (neg_part a * k)

-- The argument lists of the formats "SET %b %b EX %d" and so on.
abbrev pub set_command : Bytes → Bytes → ℤ → List Bytes
set_command key value ttl_seconds =
    if ltb_ℤ (pos 0) ttl_seconds
    then codes "SET" ∷ key ∷ value ∷ codes "EX" ∷ to_string ttl_seconds ∷ []
    else codes "SET" ∷ key ∷ value ∷ []

abbrev pub set_nx_command : Bytes → Bytes → ℤ → List Bytes
set_nx_command key value ttl_seconds =
    codes "SET" ∷ key ∷ value ∷ codes "NX" ∷ codes "EX" ∷ to_string ttl_seconds ∷ []

abbrev pub get_command : Bytes → List Bytes
get_command key = codes "GET" ∷ key ∷ []

abbrev pub del_command : Bytes → List Bytes
del_command key = codes "DEL" ∷ key ∷ []

abbrev pub h_set_command : Bytes → Bytes → Bytes → List Bytes
h_set_command key field value = codes "HSET" ∷ key ∷ field ∷ value ∷ []

abbrev pub expire_command : Bytes → ℤ → List Bytes
expire_command key ttl_seconds = codes "EXPIRE" ∷ key ∷ to_string ttl_seconds ∷ []

abbrev pub h_get_all_command : Bytes → List Bytes
h_get_all_command key = codes "HGETALL" ∷ key ∷ []

abbrev pub ping_command : List Bytes
ping_command = codes "PING" ∷ []

-- `reply->str` with its length; a reply of another kind has none.
unfoldable pub reply_text : Reply → Bytes
reply_text (error m) = m
reply_text (status s) = s
reply_text (text s) = s
reply_text r = []

-- The loop of HGetAll over the elements two by two.
unfoldable pub pairs : List (Option Bytes) → Dict Bytes Bytes → Dict Bytes Bytes
pairs [] values = values
pairs (field ∷ []) values = values
pairs (some field ∷ some value ∷ elements) values = pairs elements (emplace field value values)
pairs (none ∷ value ∷ elements) values = pairs elements values
pairs (some field ∷ none ∷ elements) values = pairs elements values

-- What Get makes of a reply that is no error
unfoldable pub text_of : Reply → Option Bytes
unfolding reply_text
text_of nil = none
text_of r = some (reply_text r)

-- What HGetAll makes of a reply that is no error
unfoldable pub hash_of : Reply → Option (Dict Bytes Bytes)
unfolding pairs
hash_of (array []) = none
hash_of (array (e ∷ elements)) = some (pairs (e ∷ elements) [])
hash_of r = none

-- The value for `*inserted` where the reply is no error
unfoldable pub was_inserted : Reply → Bool
was_inserted nil = false
was_inserted r = true
