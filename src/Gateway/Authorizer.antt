-- ===== src/Gateway/Authorizer.antt =====
-- gateway/session_binding_authorizer.{h,cpp}
pub mod Binding
use project_moon.Base.{
  ℕ, Bool, Option, none, some, [], ◌&&◌, ◌||◌, not, Bytes, bytes_eq, ℤ, int_eq, pos, nat_eq, ◌==◌,
  if◌then◌else◌, Outcome, ok, throw, Exec, pure, ◌>>=◌,
}
use project_moon.Base.Text.{codes, is_empty}
use project_moon.Base.Dict.{Dict, lookup, insert, erase}
use project_moon.Net.RequestContext.{RequestContext}
use project_moon.Session.{SessionRepository}

pub record ClientBinding : Type 0 where
  pub session_id : Bytes
  pub player_id : ℤ

pub data Status : Type 0 where
  bound restored invalid : Status

pub record Result : Type 0 where
  pub status : Status
  pub reason : Bytes

-- `client_bindings_`
abbrev pub Bindings : Type 0
Bindings = Dict ℕ ClientBinding

module _ {W : Type 0} (sessions : SessionRepository W) where
  unfoldable pub restore_binding_from_session : RequestContext → Exec W (Option ClientBinding)
  restore_binding_from_session context =
      if is_empty context.session_id || context.player_id == pos 0 then pure none else (do
        session ← sessions.find_by_id context.session_id
        elim session [
          | none ↦ pure none
          | some s ↦
              if not (s.player_id == context.player_id)
              then pure none
              else pure (some (record { session_id = s.session_id; player_id = s.player_id }))
        ])

  -- The result and the bindings afterwards.
  unfoldable pub validate_or_restore : ℕ → RequestContext → Bindings → Exec W (Result × Bindings)
  validate_or_restore connection_id context client_bindings =
      elim (lookup connection_id client_bindings) [
        | some binding ↦
            if binding.session_id == context.session_id && binding.player_id == context.player_id
            then pure (record { status = bound; reason = [] }, client_bindings)
            else pure (
              record { status = invalid; reason = codes "connection session binding mismatch" },
              client_bindings,
            )
        | none ↦ do
          restored_binding ← restore_binding_from_session context
          elim restored_binding [
            | none ↦ pure (
              record { status = invalid; reason = codes "session restore failed" },
              client_bindings,
            )
            | some binding ↦ pure (
              record { status = restored; reason = [] },
              insert connection_id binding client_bindings,
            )
          ]
      ]

unfoldable pub bind : ℕ → Bytes → ℤ → Bindings → Bindings
bind connection_id session_id player_id client_bindings =
    insert connection_id (record { session_id = session_id; player_id = player_id }) client_bindings

unfoldable pub unbind : ℕ → Bindings → Bindings
unbind connection_id client_bindings = erase connection_id client_bindings
