-- ===== src/Redis/Sessions.antt =====
-- login_server/session/redis_session_repository.cpp. `now` is what the system clock shows; the cell
-- `sequence_` is kept beside the state of the connection.
use project_moon.Base.{
  ℕ, ◌+◌, ◌%◌, ◌^◌, Option, none, some, [], ◌∷◌, ◌++◌, Bytes, ℤ, ok, Exec, pure, lift, ◌>>=◌,
}
use project_moon.Base.Text.{codes}
use project_moon.Base.Decimal.{to_string, stoll}
use project_moon.Base.Dict.{Dict}
use project_moon.Model.{Session}
use project_moon.Session.{SessionRepository}
use project_moon.Session.SessionId.{make_session_id}
use project_moon.Redis.{RedisClient, at, non_empty}

unfoldable pub session_key : Bytes → Bytes
session_key session_id = codes "session:" ++ session_id

unfoldable pub account_session_key : ℤ → Bytes
account_session_key account_id = codes "account:session:" ++ to_string account_id

-- The fields that Create writes.
unfoldable pub fields : Session → Dict Bytes Bytes
fields session =
    (codes "account_id", to_string session.account_id)
    ∷ (codes "player_id", to_string session.player_id)
    ∷ (codes "created_at_epoch_seconds", to_string session.created_at_epoch_seconds)
    ∷ []

-- What FindById makes of the fields that it reads.
unfoldable pub of_fields : Bytes → Dict Bytes Bytes → {W : Type 0} → Exec W Session
of_fields session_id values = do
  account_text ← lift (at (codes "account_id") values)
  account ← lift (stoll account_text)
  player_text ← lift (at (codes "player_id") values)
  player ← lift (stoll player_text)
  created_text ← lift (at (codes "created_at_epoch_seconds") values)
  created ← lift (stoll created_text)
  pure (record {
    session_id = session_id;
    account_id = account;
    player_id = player;
    created_at_epoch_seconds = created;
  })

module _ {W : Type 0} (redis_client : RedisClient W) (session_ttl_seconds : ℤ) where
  -- The deletion of the account's former session.
  unfoldable pub drop_old_session : ℤ → W → W
  drop_old_session account_id w =
      let (old_session, w') = redis_client.get (account_session_key account_id) w in
      elim old_session [ none ↦ w' | some old ↦ (redis_client.del (session_key old) w').1 ]

  unfoldable pub create : ℤ → ℤ → ℤ → ℕ × W → Session × (ℕ × W)
  create now account_id player_id (sequence, w) =
      let session : Session = record {
        session_id = make_session_id account_id player_id sequence;
        account_id = account_id;
        player_id = player_id;
        created_at_epoch_seconds = now;
      } in
      let w₁ = drop_old_session account_id w in
      let (stored, w₂) =
        redis_client.h_set (session_key session.session_id) (fields session) session_ttl_seconds
          w₁ in
      let (named, w₃) =
        redis_client.set (account_session_key account_id) session.session_id session_ttl_seconds
          w₂ in
      (session, ((sequence + 1) % 2 ^ 64, w₃))

  unfoldable pub find_by_id : Bytes → Exec W (Option Session)
  find_by_id session_id w =
      let (found, w') = redis_client.h_get_all (session_key session_id) w in
      elim (non_empty found) [
        | none ↦ pure none w'
        | some values ↦ (do session ← of_fields session_id values; pure (some session)) w'
      ]

  -- The repository behind its interface.
  abbrev pub redis_session_repository : ℤ → SessionRepository (ℕ × W)
  redis_session_repository now = record {
    create = λ account_id player_id s.
        let (session, s') = create now account_id player_id s in (ok session, s');
    find_by_id =
        λ session_id (sequence, w). let (r, w') = find_by_id session_id w in (r, (sequence, w'));
  }
