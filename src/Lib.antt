-- ===== src/Lib.antt =====
-- A verification library of the game back end: four servers (gateway, login_server, game_server,
-- dungeon_server) over the shared code of common.
--
-- A client talks to the gateway, which binds each connection to a session and forwards a packet
-- to the login, game or dungeon server. A server decodes the packet, calls its service and answers
-- with one packet. The services keep accounts, players and battles in MySQL, and sessions, player
-- snapshots, battle contexts and player locks in Redis.
--
-- The files, and the code that each is about:
--   Base          shared names, lists, equality tests, integers, texts (std::to_string, std::stoi,
--                 std::string::find), std::unordered_map, and code that may throw
--   Model         common/include/common/model
--   ErrorCode     common/include/common/error/error_code.h
--   Net           common/include/common/net and common/src/net: message_id.h, packet.cpp,
--                 request_context.h, proto_codec.h, proto_mapper.cpp, tcp_server.cpp,
--                 tcp_client.cpp, and the messages of proto/game_backend.proto
--   Security      common/src/security/password_hasher.cpp
--   Session       login_server/session: the interface and the in-memory repository
--   Login         login_server: login_service.cpp, login_network_server.cpp, in-memory accounts
--   Player        game_server: player_service.cpp, game_network_server.cpp, and the progress texts
--                 of redis_player_cache_repository.cpp
--   Dungeon       dungeon_server: dungeon_service.cpp, mysql_dungeon_repository.cpp,
--                 dungeon_network_server.cpp
--   Gateway       gateway: session_binding_authorizer.cpp, gateway_server.cpp
--   Config        common/src/config/simple_config.cpp
--   Redis         the repositories on Redis of all three servers, and their client,
--                 common/src/redis/redis_client.cpp
--   MySql         common/src/mysql/mysql_client.cpp, and the repositories of accounts and players on
--                 it
--   Demo          the repositories of accounts, players and dungeons from the configuration
--   Tests         examples at which the theorems' hypotheses hold
--
-- How the code is rendered. A class is a record of what it keeps; a method is a function with the
-- method's name, which takes the state and gives it back. A method that may throw is an `Exec`: an
-- outcome beside the state, so that what was written before an exception stays written. An
-- interface with virtual methods is a record of operations over any state. Numbers are natural
-- numbers or integers without a bound; where the code depends on a width it is written out, in the
-- packets' fields, in std::stoi and std::stoll, and in the session and battle counters. Strings are
-- lists of bytes. Maps are association lists, whose order nothing reads.
--
-- Loops. Extracting packets from a buffer runs on fuel, the buffer's length and one, which is
-- enough since every packet takes its header; expanding a text of the configuration runs on the
-- text's length, since a round takes three bytes. The other loops are recursion on a list. Results
-- of the calls of sockets, and the events of epoll_wait, are given as the list of what the calls of
-- one run come back with; a run whose list is used up has not come back yet.
--
-- What is taken as given. The SQL statements are data, and what MySQL does with them is a
-- hypothesis (Dungeon.MySql.Laws) over the tables of deploy/mysql/init/001_schema.sql, in which a
-- COMMIT that is reported as failed may have committed; the escaping of ids in these statements is
-- left out; the generated protobuf classes, PBKDF2 of OpenSSL, the clock, getenv, hiredis,
-- libmysqlclient and the upstream connections are parameters. Of the locks that the dungeon service
-- calls nothing is assumed: the calls are counted (Dungeon.Service.Lock.Ledger). What the theorems
-- on the Redis client rely on in a Redis server is a hypothesis too (Redis.Client.Server); no key's
-- time to live runs out there. The service's calls run one after another.
--
-- Not modelled: the listening socket and the registering with epoll, start-up, signals, logging,
-- destructors, the tools, the tests and the deployment: they call the system and the parts above,
-- and hold no rule of their own.
pub mod Base
pub mod Model
pub mod ErrorCode
pub mod Net
pub mod Security
pub mod Session
pub mod Login
pub mod Player
pub mod Dungeon
pub mod Gateway
pub mod Config
pub mod Redis
pub mod MySql
pub mod Demo
pub mod Tests
