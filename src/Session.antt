-- ===== src/Session.antt =====
-- login_server/session: the SessionRepository interface and its implementations.
pub mod SessionId
pub mod InMemory
use project_moon.Base.{◌≡◌, Bytes, ℤ, Option, some, ok, Exec}
use project_moon.Model.{Session}

-- session_repository.h: the virtual methods, over the state `W` that the implementation works on.
pub record SessionRepository (W : Type 0) : Type 0 where
  pub create : ℤ → ℤ → Exec W Session
  pub find_by_id : Bytes → Exec W (Option Session)

-- What the clients rely on: in the states that satisfy `Inv`, a session that is found carries the
-- id that it was asked for, and a look-up stays in such states.
pub record FindsNamed {W : Type 0} (sessions : SessionRepository W) (Inv : W → Type 0)
    : Type 0 where
  pub named :
      (w w' : W) (session_id : Bytes) (s : Session)
      → Inv w
      → sessions.find_by_id session_id w ≡ (ok (some s), w')
      → s.session_id ≡ session_id
  pub kept : (w : W) (session_id : Bytes) → Inv w → Inv (sessions.find_by_id session_id w).1
