-- ===== src/Tests/MySql.antt =====
-- The MySQL client, the repositories on it, and the demo account.
use mathlib.Core.List.{Perm}
use project_moon.Base.{
  ℕ, ◌≡◌, ◌⊎◌, refl, true, false, Option, none, some, List, [], ◌∷◌, ◌++◌, Bytes, bytes_eq,
  bytes_beq, ◌==◌, pos, ok,
}
use project_moon.Base.Text.{codes, is_empty}
use project_moon.Base.Decimal.{stoi, stoll, to_string}
use project_moon.Base.Dict.{lookup, emplace}
use project_moon.Base.Calls.{failed}
use project_moon.Config.{get_string}
use project_moon.Model.{PlayerState, PlayerDungeonProgress}
use project_moon.Dungeon.MySql.{Row, at}
use project_moon.MySql.Client.{LibMySql, SqlClient, connect, escape, default_options, row_of}
use project_moon.MySql.Client.Handles.{escape_cases}
use project_moon.MySql.Players.{
  progress_select, progress_of_rows, load_player_state, profile_of_row, progress_of_row, sort,
}
use project_moon.MySql.Players.Sorted.{IsSorted, load_player_state-IsSorted}
use project_moon.Security.{hash_password, build_encoded_hash, to_hex}
use project_moon.Session.InMemory.{InMemorySessionRepository, empty, in_memory}
use project_moon.Login.{LoginResponse, login, in_memory_accounts}
use project_moon.Demo.{demo_salt, default_iterations, accounts_from_config}
use project_moon.Demo.Accounts.{demo_name, demo_password, demo_account_logs_in}
use project_moon.Tests.Net.{joined}

-- A library whose server is not there
abbrev no_server : LibMySql (Unit {0}) (Unit {0})
no_server = record {
  mysql_init = λ w. (some tt, w);
  set_charset_name = λ name h. h;
  mysql_real_connect = λ host user password database port h w. (false, (h, w));
  mysql_close = λ h w. w;
  mysql_ping = λ h w. (false, (h, w));
  mysql_query = λ sql h w. (false, (h, w));
  mysql_field_count = λ h. 0;
  mysql_store_result = λ h w. (none, (h, w));
  mysql_affected_rows = λ h. 0;
  mysql_error = λ h. codes "Can't connect";
  mysql_real_escape_string = λ h value. b'\\' ∷ value;
}

no_connection :
    connect no_server default_options (none, tt) ≡ (failed (codes "Can't connect"), (none, tt))
unfolding connect
no_connection = refl

stays_raw :
    escape no_server default_options (codes "' OR 1") (none, tt) ≡ (codes "' OR 1", (none, tt))
unfolding escape
stays_raw = refl

escape_cases_example :
    ((handle : Unit {0}) × (◌≡◌ {A = Option (Unit {0})} none (some handle))
      × (codes "' OR 1" ≡ no_server.mysql_real_escape_string handle (codes "' OR 1")))
    ⊎ ((◌≡◌ {A = Option (Unit {0})} none none)
        × (◌≡◌ {A = Option (Unit {0})} none none)
        × (codes "' OR 1" ≡ codes "' OR 1")
        × (m : Bytes) × (connect no_server default_options (none, tt) ≡ (failed m, (none, tt))))
escape_cases_example =
    escape_cases no_server default_options (codes "' OR 1") (codes "' OR 1") (none, tt) (none, tt)
      stays_raw

a_row :
    row_of (some (codes "a") ∷ some (codes "b") ∷ []) (none ∷ some (codes "2") ∷ []) []
    ≡ ((codes "a", []) ∷ (codes "b", codes "2") ∷ [])
unfolding row_of emplace lookup bytes_beq
a_row = refl

abbrev profile_row : Row
profile_row =
    (codes "player_id", codes "7")
    ∷ (codes "account_id", codes "1")
    ∷ (codes "name", codes "hero")
    ∷ (codes "level", codes "10")
    ∷ (codes "stamina", codes "120")
    ∷ (codes "gold", codes "5")
    ∷ (codes "diamond", codes "0")
    ∷ []

abbrev progress_row : Bytes → Bytes → Row
progress_row dungeon_id star =
    (codes "dungeon_id", dungeon_id)
    ∷ (codes "best_star", star)
    ∷ (codes "is_first_clear", codes "1")
    ∷ []

abbrev two_rows : List Row
two_rows = progress_row (codes "1002") (codes "1") ∷ progress_row (codes "1001") (codes "3") ∷ []

abbrev tables : SqlClient (Unit {0})
tables = record {
  escape_text = λ value w. (value, w);
  query_rows = λ sql w. (two_rows, w);
  query_row = λ sql w. (some profile_row, w);
}

abbrev progress : ℕ → ℕ → PlayerDungeonProgress
progress dungeon_id star = record {
  dungeon_id = pos dungeon_id;
  best_star = pos star;
  is_first_clear = true;
}

abbrev hero : PlayerState
hero = record {
  profile = record {
    player_id = pos 7;
    account_id = pos 1;
    player_name = codes "hero";
    level = pos 10;
    stamina = pos 120;
    gold = pos 5;
    diamond = pos 0;
  };
  dungeon_progress = progress 1001 3 ∷ progress 1002 1 ∷ [];
}

loads : load_player_state tables (pos 7) tt ≡ (ok (some hero), tt)
unfolding load_player_state profile_of_row progress_of_rows progress_of_row sort at lookup bytes_beq
    stoi stoll
loads = refl

load_player_state-IsSorted_example :
    IsSorted hero.dungeon_progress
    × (rows : List Row) × (s₁ s₂ : Unit {0}) × (found : List PlayerDungeonProgress)
    × (tables.query_rows (progress_select (pos 7)) s₁ ≡ (rows, s₂))
    × (progress_of_rows rows {S = Unit {0}} s₂ ≡ (ok found, tt))
    × Perm hero.dungeon_progress found
load_player_state-IsSorted_example = load_player_state-IsSorted tables (pos 7) tt tt hero loads

abbrev demo_encoded : Bytes
demo_encoded =
    codes "pbkdf2_sha256"
    ++ (b'$' ∷ to_string default_iterations
        ++ (b'$' ∷ to_hex demo_salt
            ++ (b'$' ∷ hash_password joined (demo_password []) demo_salt default_iterations)))

demo_built :
    build_encoded_hash joined (demo_password []) demo_salt default_iterations ≡ some demo_encoded
unfolding build_encoded_hash is_empty hash_password to_hex get_string lookup
demo_built = refl

no_hash : is_empty (get_string (codes "demo.password_hash") [] []) ≡ true
unfolding is_empty get_string lookup
no_hash = refl

demo_account_logs_in_example :
    (response : LoginResponse) × (sessions : InMemorySessionRepository) × (login joined
        (in_memory_accounts (accounts_from_config joined []))
        (in_memory (pos 0))
        (record { account_name = demo_name []; password = codes "demo123" })
        empty
      ≡ (ok response, sessions))
    × (response.success ≡ (
        hash_password joined (codes "demo123") demo_salt default_iterations
        == hash_password joined (demo_password []) demo_salt default_iterations))
demo_account_logs_in_example =
    demo_account_logs_in joined [] (pos 0) demo_encoded (codes "demo123") empty no_hash demo_built
