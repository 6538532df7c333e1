-- ===== src/Tests/Accounts.antt =====
-- Logins and sessions on the in-memory repositories, and a battle context in a hash store.
use project_moon.Base.{
  ◌≡◌, refl, ◌∙◌, beq_self, true, some, List, [], ◌∷◌, Bytes, bytes_beq, bytes_eq, int_eq, ℤ, pos,
  ok, ◌==◌, if◌then◌else◌,
}
use project_moon.Base.Text.{codes}
use project_moon.Base.Decimal.{to_string}
use project_moon.Base.Dict.{Dict, lookup, insert, erase}
use project_moon.Model.{Account, Session}
use project_moon.Session.SessionId.{make_session_id}
use project_moon.Session.InMemory.{
  InMemorySessionRepository, empty, new_session, create, find_by_id, in_memory, drop_active,
}
use project_moon.Session.InMemory.Invariant.{
  empty-IsValid, unless_account, find_by_id-create, create_all, one_session_per_account,
}
use project_moon.Security.{hash_password, verify_password}
use project_moon.Login.{
  LoginRequest, LoginResponse, login, login_account, find_account, in_memory_accounts,
}
use project_moon.Login.Sessions.{login_success, login-find_by_id}
use project_moon.Security.Laws.{verify_password-build_encoded_hash}
use project_moon.Tests.Net.{joined, encoded, salt-AreBytes, built}

find_by_id-create_example : find_by_id (codes "x") (create (pos 0) (pos 1) (pos 7) empty).1 ≡ (
    if make_session_id (pos 1) (pos 7) 1 == codes "x"
    then some (new_session (pos 0) (pos 1) (pos 7) 1)
    else unless_account (pos 1) (find_by_id (codes "x") empty))
find_by_id-create_example =
    find_by_id-create empty (pos 0) (pos 1) (pos 7) (codes "x") empty-IsValid

abbrev twice : List (ℤ × ℤ × ℤ)
twice = (pos 0, pos 1, pos 7) ∷ (pos 9, pos 1, pos 7) ∷ []

abbrev second : Session
second = new_session (pos 9) (pos 1) (pos 7) 2

found_second : find_by_id (make_session_id (pos 1) (pos 7) 2) (create_all twice empty) ≡ some second
unfolding find_by_id create_all create drop_active lookup insert erase make_session_id bytes_beq
    to_string
found_second = refl

one_session_per_account_example :
    make_session_id (pos 1) (pos 7) 2 ≡ make_session_id (pos 1) (pos 7) 2
one_session_per_account_example =
    one_session_per_account twice (make_session_id (pos 1) (pos 7) 2)
      (make_session_id (pos 1) (pos 7) 2) second second found_second found_second refl

abbrev account : Account
account = record {
  account_id = pos 1;
  account_name = codes "demo";
  password_hash = encoded;
  default_player_id = pos 7;
  enabled = true;
}

abbrev accounts : Dict Bytes Account
accounts = (codes "demo", account) ∷ []

abbrev request : LoginRequest
request = record { account_name = codes "demo"; password = codes "moon" }

abbrev response : LoginResponse
response = record {
  success = true;
  error_code = project_moon.ErrorCode.ErrorCode.ok;
  error_message = [];
  session = (create (pos 0) (pos 1) (pos 7) empty).0;
  default_player_id = pos 7;
}

accepts : verify_password joined (codes "moon") encoded ≡ true
accepts =
    verify_password-build_encoded_hash joined (codes "moon") (codes "moon") (codes "salt") encoded
      (pos 5) salt-AreBytes refl built
    ∙ beq_self (hash_password joined (codes "moon") (codes "salt") (pos 5))

logs_in :
    login joined (in_memory_accounts accounts) (in_memory (pos 0)) request empty
    ≡ (ok response, (create (pos 0) (pos 1) (pos 7) empty).1)
unfolding login login_account find_account lookup bytes_beq
logs_in = rw accepts

login_success_example :
    (a : Account) × (w₁ : InMemorySessionRepository) × ((in_memory_accounts accounts).find_by_name
        (codes "demo")
        empty
      ≡ (ok (some a), w₁))
    × (a.enabled ≡ true)
    × (verify_password joined (codes "moon") a.password_hash ≡ true)
    × (pos 7 ≡ a.default_player_id)
    × ((in_memory (pos 0)).create a.account_id a.default_player_id w₁
        ≡ (ok response.session, (create (pos 0) (pos 1) (pos 7) empty).1))
login_success_example =
    login_success joined (in_memory_accounts accounts) (in_memory (pos 0)) request empty
      (create (pos 0) (pos 1) (pos 7) empty).1 response logs_in refl

login-find_by_id_example :
    (find_by_id response.session.session_id (create (pos 0) (pos 1) (pos 7) empty).1
      ≡ some response.session)
    × ((k : Bytes) (s : Session)
        → find_by_id k (create (pos 0) (pos 1) (pos 7) empty).1 ≡ some s
        → s.account_id ≡ response.session.account_id
        → s ≡ response.session)
login-find_by_id_example =
    login-find_by_id joined accounts (pos 0) request response empty
      (create (pos 0) (pos 1) (pos 7) empty).1 empty-IsValid logs_in refl
