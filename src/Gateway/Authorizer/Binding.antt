-- ===== src/Gateway/Authorizer/Binding.antt =====
-- What a connection is bound to, and who may pass.
use project_moon.Base.{
  ℕ, ◌≡◌, ◌≢◌, ◌⊎◌, false, inl, inr, none, some, arith, bytes_eq, int_eq, pos, nat_eq, ok,
  Option-cases, bytes_beq_iff, int_beq_iff, nat_beq_iff, Found-cases,
}
use project_moon.Base.Text.{is_empty}
use project_moon.Base.Dict.{lookup, insert, lookup-insert}
use project_moon.Model.{Session}
use project_moon.Net.RequestContext.{RequestContext}
use project_moon.Session.{SessionRepository, FindsNamed}
use project_moon.Gateway.Authorizer.{
  ClientBinding, bound, restored, invalid, Result, Bindings, restore_binding_from_session,
  validate_or_restore,
}

-- The binding that a request asks for.
abbrev pub asked : RequestContext → ClientBinding
asked context = record { session_id = context.session_id; player_id = context.player_id }

module _ {W : Type 0} (sessions : SessionRepository W) where
  -- A binding is restored from a session of that id, which is not empty, and that player, not 0.
  restore_lem :
      (context : RequestContext) (w w' : W) (b : ClientBinding)
      → restore_binding_from_session sessions context w ≡ (ok (some b), w')
      → (s : Session) × (sessions.find_by_id context.session_id w ≡ (ok (some s), w'))
        × (s.player_id ≡ context.player_id)
        × (b ≡ record { session_id = s.session_id; player_id = s.player_id })
        × (is_empty context.session_id ≡ false)
        × (context.player_id ≢ pos 0)
  unfolding restore_binding_from_session
  restore_lem context w w' b h = elim (Found-cases (sessions.find_by_id context.session_id w)) [
    | inl (s, w₁, e) ↦ (
      s,
      ground (arith, e),
      ground (arith, e, int_beq_iff s.player_id context.player_id),
      ground (arith, e),
      ground (arith, e),
      λ z. ground (arith, e, int_beq_iff context.player_id (pos 0)),
    )
    | inr (inl (w₁, e)) ↦ absurd (ground (arith, e))
    | inr (inr (w₁, e)) ↦ absurd (ground (arith, e))
  ]

  module _ (conn : ℕ) (context : RequestContext) (b b' : Bindings) (w w' : W) (r : Result) where
    -- The three ways to come back: by the binding that is there, restored, or refused.
    validate_cases :
        validate_or_restore sessions conn context b w ≡ (ok (r, b'), w')
        → ((r.status ≡ bound) × (lookup conn b ≡ some (asked context)) × (b' ≡ b))
          ⊎ ((r.status ≡ invalid) × (b' ≡ b))
          ⊎ ((r.status ≡ restored)
              × (lookup conn b ≡ none)
              × ((c : ClientBinding) × (restore_binding_from_session sessions context w
                    ≡ (ok (some c), w'))
                  × (b' ≡ insert conn c b)))
    unfolding validate_or_restore
    validate_cases h = elim (Option-cases (lookup conn b)) [
      | inl e ↦ elim (Found-cases (restore_binding_from_session sessions context w)) [
        | inl (c, w₁, f) ↦
            inr (inr (ground (arith, e, f), e, (c, ground (arith, e, f), ground (arith, e, f))))
        | inr (inl (w₁, f)) ↦ inr (inl (ground (arith, e, f), ground (arith, e, f)))
        | inr (inr (w₁, f)) ↦ absurd (ground (arith, e, f))
      ]
      | inr (c, e) ↦ ground (
        arith,
        e,
        bytes_beq_iff c.session_id context.session_id,
        int_beq_iff c.player_id context.player_id,
      )
    ]

    -- Validating one connection leaves the binding of every other connection as it was.
    pub other_connections :
        (j : ℕ)
        → validate_or_restore sessions conn context b w ≡ (ok (r, b'), w')
        → j ≢ conn
        → lookup j b' ≡ lookup j b
    other_connections j h ne = elim (validate_cases h) [
      | inl (_, _, e) ↦ rw e
      | inr (inl (_, e)) ↦ rw e
      | inr (inr (_, _, (c, _, e))) ↦
          rw e (ground (arith, lookup-insert conn j c b, nat_beq_iff conn j))
    ]

    module _ {Inv : W → Type 0} (laws : FindsNamed sessions Inv) (good : Inv w) where
      -- In a repository that finds sessions under their own ids: a request that is not refused
      -- leaves its connection bound to just the session and the player that the request names.
      pub accepted-binding :
          validate_or_restore sessions conn context b w ≡ (ok (r, b'), w')
          → r.status ≢ invalid
          → lookup conn b' ≡ some (asked context)
      accepted-binding h accepted = elim (validate_cases h) [
        | inl (_, e, same) ↦ rw same e
        | inr (inl (no_entry, _)) ↦ absurd (accepted no_entry)
        | inr (inr (_, _, (c, f, e))) ↦
            (let (s, found, player, is_c, _, _) = restore_lem context w w' c f in
              ground (
                arith,
                e,
                lookup-insert conn conn c b,
                nat_beq_iff conn conn,
                is_c,
                player,
                laws.named w w' context.session_id s good found,
              ))
      ]

  -- A connection with no binding is accepted only on the strength of a session that the repository
  -- found under the request's session id, which is not empty, and that belongs to the request's
  -- player, who is not player 0.
  pub restored_from_session :
      (conn : ℕ) (context : RequestContext) (b b' : Bindings) (w w' : W) (r : Result)
      → lookup conn b ≡ none
      → validate_or_restore sessions conn context b w ≡ (ok (r, b'), w')
      → r.status ≢ invalid
      → (s : Session) × (sessions.find_by_id context.session_id w ≡ (ok (some s), w'))
        × (s.player_id ≡ context.player_id)
        × (is_empty context.session_id ≡ false)
        × (context.player_id ≢ pos 0)
  restored_from_session conn context b b' w w' r e h accepted =
      elim (validate_cases conn context b b' w w' r h) [
        | inl (_, held, _) ↦ absurd (cc)
        | inr (inl (refused, _)) ↦ absurd (accepted refused)
        | inr (inr (_, _, (c, f, _))) ↦
            (let (s, found, player, _, nonempty, nonzero) = restore_lem context w w' c f in
              (s, found, player, nonempty, nonzero))
      ]
