-- ===== src/Login.antt =====
-- login_server/login_service.{h,cpp} and auth/{account_repository,in_memory_account_repository}.
pub mod Sessions
pub mod Server
use project_moon.Base.{
  Bool, true, false, not, Option, none, some, [], Bytes, bytes_eq, ℤ, pos, if◌then◌else◌, ok, Exec,
  pure, ◌>>=◌,
}
use project_moon.Base.Text.{codes}
use project_moon.Base.Dict.{Dict, lookup}
use project_moon.Model.{Account, Session}
use project_moon.ErrorCode.{ErrorCode, account_not_found, account_disabled, invalid_password}
use project_moon.Security.{verify_password}
use project_moon.Session.{SessionRepository}

-- account_repository.h
pub record AccountRepository (W : Type 0) : Type 0 where
  pub find_by_name : Bytes → Exec W (Option Account)

-- in_memory_account_repository.cpp, whose accounts do not change after construction.
unfoldable pub find_account : Dict Bytes Account → Bytes → Option Account
find_account accounts account_name = lookup account_name accounts

abbrev pub in_memory_accounts : {W : Type 0} → Dict Bytes Account → AccountRepository W
in_memory_accounts accounts = record {
  find_by_name = λ account_name w. (ok (find_account accounts account_name), w);
}

pub record LoginRequest : Type 0 where
  pub account_name : Bytes
  pub password : Bytes

pub record LoginResponse : Type 0 where
  pub success : Bool
  pub error_code : ErrorCode
  pub error_message : Bytes
  pub session : Session
  pub default_player_id : ℤ

-- `Session{}`
abbrev pub empty_session : Session
empty_session = record {
  session_id = [];
  account_id = pos 0;
  player_id = pos 0;
  created_at_epoch_seconds = pos 0;
}

abbrev pub refused : ErrorCode → Bytes → LoginResponse
refused code message = record {
  success = false;
  error_code = code;
  error_message = message;
  session = empty_session;
  default_player_id = pos 0;
}

module _ {W : Type 0} (pbkdf2 : Bytes → Bytes → ℤ → Option Bytes) (accounts : AccountRepository W)
    (sessions : SessionRepository W) where
  unfoldable pub login_account : LoginRequest → Account → Exec W LoginResponse
  login_account request account =
      if not account.enabled
      then pure (refused account_disabled (codes "account disabled"))
      else if not (verify_password pbkdf2 request.password account.password_hash)
      then pure (refused invalid_password (codes "invalid password"))
      else (do
        session ← sessions.create account.account_id account.default_player_id
        pure (record {
          success = true;
          error_code = ErrorCode.ok;
          error_message = [];
          session = session;
          default_player_id = account.default_player_id;
        }))

  unfoldable pub login : LoginRequest → Exec W LoginResponse
  login request = do
    account ← accounts.find_by_name request.account_name
    elim account [
      | none ↦ pure (refused account_not_found (codes "account not found"))
      | some found ↦ login_account request found
    ]
