-- ===== src/Demo.antt =====
-- The repositories that hold one record from the configuration:
-- login_server/auth/in_memory_account_repository.cpp, game_server/player/in_memory_player_repository.cpp
-- and dungeon_server/dungeon/in_memory_dungeon_config_repository.cpp.
pub mod Accounts
use project_moon.Base.{
  true, not, Option, none, some, [], ◌∷◌, Bytes, ℤ, pos, int_eq, bytes_eq, ◌==◌, if◌then◌else◌, ok,
}
use project_moon.Base.Text.{codes, is_empty}
use project_moon.Base.Dict.{Dict, lookup, emplace}
use project_moon.Model.{Account, PlayerState}
use project_moon.Config.{get_string, get_int}
use project_moon.Security.{build_encoded_hash}
use project_moon.Player.{PlayerRepository}
use project_moon.Dungeon.{DungeonConfig, DungeonConfigRepository}

abbrev pub demo_salt : Bytes
demo_salt = codes "demo-local-salt"

-- The default number of iterations of BuildEncodedHash
abbrev pub default_iterations : ℤ
default_iterations = pos 100000

module _ (pbkdf2 : Bytes → Bytes → ℤ → Option Bytes) where
  -- The hash of the demo account: the configured one, or that of the configured password
  unfoldable pub demo_hash : Dict Bytes Bytes → Bytes
  demo_hash config =
      let configured = get_string (codes "demo.password_hash") [] config in
      if is_empty configured
      then elim (build_encoded_hash pbkdf2
          (get_string (codes "demo.password") (codes "demo123") config) demo_salt
          default_iterations) [ none ↦ [] | some encoded ↦ encoded ]
      else configured

  unfoldable pub demo_account : Dict Bytes Bytes → Account
  demo_account config = record {
    account_id = get_int (codes "demo.account_id") (pos 10001) config;
    account_name = get_string (codes "demo.account_name") (codes "demo") config;
    password_hash = demo_hash config;
    default_player_id = get_int (codes "demo.default_player_id") (pos 20001) config;
    enabled = true;
  }

  -- InMemoryAccountRepository::FromConfig
  unfoldable pub accounts_from_config : Dict Bytes Bytes → Dict Bytes Account
  accounts_from_config config =
      let account = demo_account config in emplace account.account_name account []

-- InMemoryPlayerRepository::FromConfig
unfoldable pub demo_player : Dict Bytes Bytes → PlayerState
demo_player config = record {
  profile = record {
    player_id = get_int (codes "demo.player_id") (pos 20001) config;
    account_id = get_int (codes "demo.account_id") (pos 10001) config;
    player_name = get_string (codes "demo.player_name") (codes "hero_demo") config;
    level = get_int (codes "demo.level") (pos 10) config;
    stamina = get_int (codes "demo.stamina") (pos 120) config;
    gold = get_int (codes "demo.gold") (pos 1000) config;
    diamond = get_int (codes "demo.diamond") (pos 100) config;
  };
  dungeon_progress = [];
}

unfoldable pub players_from_config : Dict Bytes Bytes → Dict ℤ PlayerState
unfolding demo_player
players_from_config config =
    let player = demo_player config in emplace player.profile.player_id player []

unfoldable pub load_player_state : Dict ℤ PlayerState → ℤ → Option PlayerState
load_player_state players player_id = lookup player_id players

abbrev pub in_memory_players : {W : Type 0} → Dict ℤ PlayerState → PlayerRepository W
in_memory_players players = record {
  load_player_state = λ player_id w. (ok (load_player_state players player_id), w);
}

-- InMemoryDungeonConfigRepository::FromConfig
unfoldable pub dungeon_from_config : Dict Bytes Bytes → DungeonConfig
dungeon_from_config config = record {
  dungeon_id = get_int (codes "demo.dungeon_id") (pos 1001) config;
  required_level = get_int (codes "demo.dungeon_required_level") (pos 1) config;
  cost_stamina = get_int (codes "demo.dungeon_cost_stamina") (pos 10) config;
  max_star = get_int (codes "demo.dungeon_max_star") (pos 3) config;
  normal_gold_reward = get_int (codes "demo.dungeon_normal_gold_reward") (pos 100) config;
  first_clear_diamond_reward =
      get_int (codes "demo.dungeon_first_clear_diamond_reward") (pos 50) config;
}

unfoldable pub find_by_dungeon_id : DungeonConfig → ℤ → Option DungeonConfig
find_by_dungeon_id dungeon_config dungeon_id =
    if not (dungeon_id == dungeon_config.dungeon_id) then none else some dungeon_config

abbrev pub in_memory_dungeon_configs : {W : Type 0} → DungeonConfig → DungeonConfigRepository W
in_memory_dungeon_configs dungeon_config = record {
  find_by_dungeon_id = λ dungeon_id w. (ok (find_by_dungeon_id dungeon_config dungeon_id), w);
}
