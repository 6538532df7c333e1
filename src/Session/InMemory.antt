-- ===== src/Session/InMemory.antt =====
-- login_server/session/in_memory_session_repository.{h,cpp}. A call runs under the mutex; `now` is
-- what the system clock shows.
pub mod Invariant
use project_moon.Base.{ℕ, ◌+◌, ◌%◌, ◌^◌, Option, none, some, [], Bytes, bytes_eq, ℤ, int_eq, ok}
use project_moon.Base.Dict.{Dict, lookup, insert, erase}
use project_moon.Model.{Session}
use project_moon.Session.{SessionRepository}
use project_moon.Session.SessionId.{make_session_id}

pub record InMemorySessionRepository : Type 0 where
  pub sessions : Dict Bytes Session
  pub account_sessions : Dict ℤ Bytes
  pub sequence : ℕ

abbrev pub empty : InMemorySessionRepository
empty = record { sessions = []; account_sessions = []; sequence = 1 }

abbrev pub new_session : ℤ → ℤ → ℤ → ℕ → Session
new_session now account_id player_id sequence = record {
  session_id = make_session_id account_id player_id sequence;
  account_id = account_id;
  player_id = player_id;
  created_at_epoch_seconds = now;
}

-- the erasure of the account's active session
unfoldable pub drop_active : ℤ → InMemorySessionRepository → Dict Bytes Session
drop_active account_id r = elim (lookup account_id r.account_sessions) [
  | none ↦ r.sessions
  | some session_id ↦ erase session_id r.sessions
]

unfoldable pub create : ℤ → ℤ → ℤ → InMemorySessionRepository → Session × InMemorySessionRepository
unfolding drop_active
create now account_id player_id r =
    let session = new_session now account_id player_id r.sequence in
    (
      session,
      record {
        sessions = insert session.session_id session (drop_active account_id r);
        account_sessions = insert account_id session.session_id r.account_sessions;
        sequence = (r.sequence + 1) % 2 ^ 64;
      },
    )

unfoldable pub find_by_id : Bytes → InMemorySessionRepository → Option Session
find_by_id session_id r = lookup session_id r.sessions

-- The repository behind its interface.
abbrev pub in_memory : ℤ → SessionRepository InMemorySessionRepository
in_memory now = record {
  create = λ account_id player_id r.
      let (session, r') = create now account_id player_id r in (ok session, r');
  find_by_id = λ session_id r. (ok (find_by_id session_id r), r);
}
