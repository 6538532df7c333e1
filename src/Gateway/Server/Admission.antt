-- ===== src/Gateway/Server/Admission.antt =====
-- Which requests the gateway lets through to an upstream.
use project_moon.Base.{
  ◌≡◌, ◌≢◌, ◌⊎◌, inl, inr, refl, ap, sym, ◌∙◌, true, false, some, arith, Bytes, bytes_eq, nat_eq,
  ok, Bool-cases, Option-cases, Outcome-cases,
}
use project_moon.Base.Text.{codes}
use project_moon.Base.Dict.{lookup}
use project_moon.ErrorCode.{ErrorCode, session_invalid, bad_gateway}
use project_moon.Net.MessageId.{
  MessageId, to_int, message_id_from_int, same_id, ping_request, login_request, error_response,
}
use project_moon.Net.MessageId.Laws.{same_id_iff, message_id_from_int_iff}
use project_moon.Net.Packet.{Packet}
use project_moon.Net.RequestContext.{RequestContext, IncomingPacket}
use project_moon.Net.Codec.{build_packet}
use project_moon.Net.Mapper.{build_error_packet, extract_request_context}
use project_moon.Session.{FindsNamed}
use project_moon.Gateway.Authorizer.{Bindings, Result, Status, invalid, validate_or_restore}
use project_moon.Gateway.Authorizer.Binding.{asked, accepted-binding}
use project_moon.Gateway.Server.{
  Reply, received, failed, Upstream, Parts, normalize_context, fallback_context, is_invalid,
  resolve_upstream, check_response, forward, authorize_and_forward, handle_message, handle_packet,
}

is_invalid-invalid : (s : Status) → is_invalid s ≡ false → s ≢ invalid
unfolding is_invalid
is_invalid-invalid s e is = ground (arith, e, is)

asked-normalize_context :
    (incoming : IncomingPacket) (context : RequestContext)
    → asked (normalize_context incoming context) ≡ asked context
unfolding normalize_context
asked-normalize_context incoming context = refl

-- The same gateway with other upstreams
abbrev pub with_upstreams : {W : Type 0} → Parts W → Upstream W → Upstream W → Upstream W → Parts W
with_upstreams parts login game dungeon = record parts {
  login_upstream = login;
  game_upstream = game;
  dungeon_upstream = dungeon;
}

module _ {W : Type 0} (parts : Parts W) (incoming : IncomingPacket) where
  error_type :
      (context : RequestContext) (code : ErrorCode) (message : Bytes)
      → (build_error_packet parts.codec context code message).header.msg_id ≡ to_int error_response
  unfolding build_error_packet build_packet
  error_type context code message = refl

  check_response-bindings :
      (message_id : MessageId) (context : RequestContext) (p : Packet) (b : Bindings)
      → same_id message_id login_request ≡ false
      → (check_response parts incoming message_id context p b).1 ≡ b
  unfolding check_response
  check_response-bindings message_id context p b other =
      elim (Option-cases (message_id_from_int p.header.msg_id)) [
        | inl e ↦ ground (arith, e)
        | inr (u, e) ↦ ground (arith, e, other)
      ]

  forward-bindings :
      (message_id : MessageId) (context : RequestContext) (b : Bindings) (w : W)
      → same_id message_id login_request ≡ false
      → (forward parts incoming message_id context b w).0.1 ≡ b
  unfolding forward
  forward-bindings message_id context b w other =
      go ((resolve_upstream parts message_id).send_and_receive incoming.packet w).0 refl
    where
      go :
          (r : Reply)
          → ((resolve_upstream parts message_id).send_and_receive incoming.packet w).0 ≡ r
          → (forward parts incoming message_id context b w).0.1 ≡ b
      go (received p) e = rw (e, forward) (check_response-bindings message_id context p b other)
      go (failed m) e = rw (e, forward) refl

  module _ {Inv : W → Type 0} (laws : FindsNamed parts.sessions Inv) (b b' : Bindings) (w w' : W)
      (p : Packet) (good : Inv w) where
    authorize-asked :
        (message_id : MessageId) (context : RequestContext)
        → same_id message_id login_request ≡ false
        → authorize_and_forward parts incoming message_id context b w ≡ (ok (p, b'), w')
        → (lookup incoming.connection_id b' ≡ some (asked context))
          ⊎ ((p.header.msg_id ≡ to_int error_response)
              × ((login game dungeon : Upstream W)
                  → authorize_and_forward
                      (with_upstreams parts login game dungeon)
                      incoming
                      message_id
                      context
                      b
                      w
                    ≡ (ok (p, b'), w')))
    unfolding authorize_and_forward
    authorize-asked message_id context other h =
        elim (Outcome-cases
          (validate_or_restore parts.sessions incoming.connection_id context b w)) [
            | inr (w₁, e) ↦ absurd (ground (arith, other, e))
            | inl ((r, b₁), w₁, e) ↦ elim (Bool-cases (is_invalid r.status)) [
              | inl refused ↦ inr (
                ap (λ (q : Packet). q.header.msg_id) (sym (refusal r w₁ b₁ e refused))
                    ∙ error_type context session_invalid r.reason,
                λ login game dungeon. ground (arith, other, e, refused),
              )
              | inr accepted ↦
                  (let same : (forward parts incoming message_id context b₁ w₁).0.1 ≡ b' =
                      ground (arith, other, e, accepted) in
                    inl (
                      ap (lookup incoming.connection_id)
                        (sym same ∙ forward-bindings message_id context b₁ w₁ other)
                      ∙ accepted-binding parts.sessions incoming.connection_id context b b₁ w w₁ r
                          laws good e (is_invalid-invalid r.status accepted)))
            ]
          ]
      where
        refusal :
            (r : Result) (w₁ : W) (b₁ : Bindings)
            → validate_or_restore parts.sessions incoming.connection_id context b w
              ≡ (ok (r, b₁), w₁)
            → is_invalid r.status ≡ true
            → build_error_packet parts.codec context session_invalid r.reason ≡ p
        refusal r w₁ b₁ e refused = ground (arith, h, other, e, refused)

    -- A packet of a message id that is neither a login nor a ping
    known-asked :
        (message_id : MessageId)
        → message_id_from_int incoming.packet.header.msg_id ≡ some message_id
        → message_id ≢ login_request
        → message_id ≢ ping_request
        → handle_packet parts incoming b w ≡ (ok (p, b'), w')
        → ((context : RequestContext) × (extract_request_context parts.codec message_id
                incoming.packet.body
              ≡ some context)
            × (lookup incoming.connection_id b' ≡ some (asked context)))
          ⊎ ((p.header.msg_id ≡ to_int error_response)
              × ((login game dungeon : Upstream W)
                  → handle_packet (with_upstreams parts login game dungeon) incoming b w
                    ≡ (ok (p, b'), w')))
    unfolding handle_packet handle_message
    known-asked message_id known no_login no_ping h =
        let other = not_same message_id login_request no_login in
        let silent = not_same message_id ping_request no_ping in
        elim (Option-cases (extract_request_context parts.codec message_id incoming.packet.body)) [
          | inl e ↦
              (let is : build_error_packet parts.codec (fallback_context incoming) bad_gateway
                      (codes "failed to parse request context")
                    ≡ p =
                  ground (arith, h, known, silent, e) in
                inr (
                  ap (λ (q : Packet). q.header.msg_id) (sym is)
                      ∙ error_type (fallback_context incoming) bad_gateway _,
                  λ login game dungeon. ground (arith, h, known, silent, e),
                ))
          | inr (context, e) ↦
              elim (authorize-asked message_id (normalize_context incoming context) other
                (ground (arith, h, known, silent, e))) [
                  | inl held ↦
                      inl (context, e, held ∙ ap some (asked-normalize_context incoming context))
                  | inr (error, without) ↦ inr (
                    error,
                    λ login game dungeon.
                        (let again = without login game dungeon in
                          ground (arith, known, silent, e, again)),
                  )
                ]
        ]
      where
        not_same : (m n : MessageId) → m ≢ n → same_id m n ≡ false
        not_same m n differ = ground (arith, differ, same_id_iff m n)

    -- In a repository that finds sessions under their own ids, of a packet whose number is neither
    -- that of a login nor that of a ping, known or not, and that the gateway answers: the number is a
    -- message id, the packet held a request's context, and its connection is afterwards bound to just
    -- the session and the player which that context names; or the answer is an ERROR_RESPONSE to which
    -- no upstream contributed: the same happens with any others in their place.
    pub handle_packet-asked :
        (incoming.packet.header.msg_id ≢ to_int login_request)
        → (incoming.packet.header.msg_id ≢ to_int ping_request)
        → handle_packet parts incoming b w ≡ (ok (p, b'), w')
        → ((message_id : MessageId) × (context : RequestContext) × (message_id_from_int
                incoming.packet.header.msg_id
              ≡ some message_id)
            × (extract_request_context parts.codec message_id incoming.packet.body ≡ some context)
            × (lookup incoming.connection_id b' ≡ some (asked context)))
          ⊎ ((p.header.msg_id ≡ to_int error_response)
              × ((login game dungeon : Upstream W)
                  → handle_packet (with_upstreams parts login game dungeon) incoming b w
                    ≡ (ok (p, b'), w')))
    unfolding handle_packet
    handle_packet-asked no_login no_ping h =
        elim (Option-cases (message_id_from_int incoming.packet.header.msg_id)) [
          | inl e ↦
              (let is : build_error_packet parts.codec (fallback_context incoming) bad_gateway
                      (codes "unknown message id")
                    ≡ p =
                  ground (arith, h, e) in
                inr (
                  ap (λ (q : Packet). q.header.msg_id) (sym is)
                      ∙ error_type (fallback_context incoming) bad_gateway _,
                  λ login game dungeon. ground (arith, h, e),
                ))
          | inr (m, e) ↦
              (let number = (message_id_from_int_iff incoming.packet.header.msg_id m).0 e in
                elim (known-asked m e (λ is. no_login (number ∙ ap to_int is))
                  (λ is. no_ping (number ∙ ap to_int is)) h) [
                    | inl (context, extracted, held) ↦ inl (m, context, e, extracted, held)
                    | inr refused ↦ inr refused
                  ])
        ]
