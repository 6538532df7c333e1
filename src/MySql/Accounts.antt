-- ===== src/MySql/Accounts.antt =====
-- login_server/auth/mysql_account_repository.cpp
use project_moon.Base.{Option, none, some, ◌++◌, Bytes, bytes_eq, ◌==◌, Exec, pure, lift, ◌>>=◌}
use project_moon.Base.Text.{codes}
use project_moon.Base.Decimal.{stoll}
use project_moon.Model.{Account}
use project_moon.Dungeon.MySql.{Row, at}
use project_moon.MySql.Client.{SqlClient}

-- The text of the SELECT, around the escaped name
unfoldable pub account_select : Bytes → Bytes
account_select escaped_name =
    codes "SELECT a.account_id, a.account_name, a.password_hash, a.status, "
    ++ (codes "COALESCE(MIN(p.player_id), 0) AS default_player_id "
        ++ (codes "FROM account a "
            ++ (codes "LEFT JOIN player p ON p.account_id = a.account_id "
                ++ (codes "WHERE a.account_name = '"
                    ++ (escaped_name
                        ++ codes
                            "' GROUP BY a.account_id, a.account_name, a.password_hash, a.status LIMIT 1")))))

-- The account of a row
unfoldable pub account_of_row : Row → {S : Type 0} → Exec S Account
account_of_row row = do
  id_text ← lift (at (codes "account_id") row)
  account_id ← lift (stoll id_text)
  account_name ← lift (at (codes "account_name") row)
  password_hash ← lift (at (codes "password_hash") row)
  player_text ← lift (at (codes "default_player_id") row)
  default_player_id ← lift (stoll player_text)
  status ← lift (at (codes "status") row)
  pure (record {
    account_id = account_id;
    account_name = account_name;
    password_hash = password_hash;
    default_player_id = default_player_id;
    enabled = status == codes "1";
  })

module _ {S : Type 0} (mysql_client : SqlClient S) where
  unfoldable pub find_by_name : Bytes → Exec S (Option Account)
  find_by_name account_name s =
      let (escaped, s₁) = mysql_client.escape_text account_name s in
      let (row, s₂) = mysql_client.query_row (account_select escaped) s₁ in
      elim row [
        | none ↦ pure none s₂
        | some r ↦ (do account ← account_of_row r; pure (some account)) s₂
      ]
