-- ===== src/MySql.antt =====
-- common/src/mysql/mysql_client.cpp, and the repositories of accounts and players on it:
-- login_server/auth/mysql_account_repository.cpp and game_server/player/mysql_player_repository.cpp.
pub mod Client
pub mod Accounts
pub mod Players
