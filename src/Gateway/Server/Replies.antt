-- ===== src/Gateway/Server/Replies.antt =====
-- What the client gets back, and what happens to the bindings.
use project_moon.Base.{
  ◌≡◌, ◌⊎◌, inl, inr, refl, ap, subst, ◌∙◌, true, not, some, arith, Bytes, bytes_eq, nat_eq,
  nat_beq_iff, ◌==◌, ok, Bool-cases, Option-cases, Outcome-cases, if-elim,
}
use project_moon.Base.Text.{codes}
use project_moon.ErrorCode.{ErrorCode, session_invalid, bad_gateway}
use project_moon.Net.MessageId.{
  MessageId, to_int, message_id_from_int, same_id, expected_response_message_id, ping_request,
  ping_response, login_request, login_response, error_response,
}
use project_moon.Net.MessageId.Laws.{message_id_from_int_iff, same_id_iff}
use project_moon.Net.Packet.{Packet}
use project_moon.Net.RequestContext.{RequestContext, IncomingPacket}
use project_moon.Net.Proto.{PingRequest}
use project_moon.Net.Codec.{build_packet}
use project_moon.Net.Mapper.{
  from_proto, build_error_packet, build_ping_response_packet, extract_request_context,
}
use project_moon.Gateway.Authorizer.{Bindings, validate_or_restore}
use project_moon.Gateway.Server.{
  Reply, received, failed, Parts, normalize_context, fallback_context, is_invalid, is_expected,
  resolve_upstream, bind_login, check_response, forward, authorize_and_forward, handle_message,
  handle_packet, map_upstream_error,
}

-- The packet may answer a request of that number and, if its id is known, of that id.
pub record Answers (incoming : IncomingPacket) (message_id : MessageId) (p : Packet) : Type 0 where
  pub same_request : p.header.request_id ≡ incoming.packet.header.request_id
  pub right_type :
      (p.header.msg_id ≡ to_int error_response)
      ⊎ ((e : MessageId) × (expected_response_message_id message_id ≡ some e)
          × (p.header.msg_id ≡ to_int e))

module _ {W : Type 0} (parts : Parts W) (incoming : IncomingPacket) where
  error-Answers :
      (message_id : MessageId) (context : RequestContext) (code : ErrorCode) (message : Bytes)
      → context.request_id ≡ incoming.packet.header.request_id
      → Answers incoming message_id (build_error_packet parts.codec context code message)
  unfolding build_error_packet build_packet
  error-Answers message_id context code message h = record {
    same_request = h;
    right_type = inl refl;
  }

  fallback_id : (fallback_context incoming).request_id ≡ incoming.packet.header.request_id
  unfolding fallback_context
  fallback_id = refl

  normalize_id :
      (context : RequestContext)
      → (context.request_id ≡ 0) ⊎ (context.request_id ≡ incoming.packet.header.request_id)
      → (normalize_context incoming context).request_id ≡ incoming.packet.header.request_id
  unfolding normalize_context
  normalize_id context h = ground arith

  pong-Answers :
      (message_id : MessageId)
      → message_id ≡ ping_request
      → (context : RequestContext)
      → (context.request_id ≡ 0) ⊎ (context.request_id ≡ incoming.packet.header.request_id)
      → Answers incoming message_id (
          build_ping_response_packet parts.codec
            (normalize_context incoming context)
            (codes "pong"))
  unfolding build_ping_response_packet build_packet expected_response_message_id
  pong-Answers message_id is_ping context h = record {
    same_request = normalize_id context h;
    right_type = inr (ping_response, rw is_ping, refl);
  }

  extract_ping :
      (message_id : MessageId) (request : PingRequest)
      → message_id ≡ ping_request
      → parts.codec.parse_ping_request incoming.packet.body ≡ some request
      → extract_request_context parts.codec message_id incoming.packet.body
        ≡ some (from_proto request.context)
  unfolding extract_request_context
  extract_ping message_id request is_ping e = rw is_ping (rw e)

  error_type :
      (context : RequestContext) (message : Bytes)
      → (build_error_packet parts.codec context bad_gateway message).header.msg_id
        ≡ to_int error_response
  unfolding build_error_packet build_packet
  error_type context message = refl

  is_expected_type :
      (message_id upstream_id : MessageId)
      → is_expected message_id upstream_id ≡ true
      → (upstream_id ≡ error_response)
        ⊎ (expected_response_message_id message_id ≡ some upstream_id)
  unfolding is_expected
  is_expected_type message_id upstream_id h =
      elim (Option-cases (expected_response_message_id message_id)) [
        | inl e ↦ inl (ground (arith, e, same_id_iff upstream_id error_response))
        | inr (x, e) ↦
            ground (arith, e, same_id_iff upstream_id error_response, same_id_iff x upstream_id)
      ]

  module _ (message_id : MessageId) (context : RequestContext) (b : Bindings)
      (same : context.request_id ≡ incoming.packet.header.request_id) where
    -- A packet that passes the checks is an answer.
    upstream-Answers :
        (p : Packet) (upstream_id : MessageId)
        → p.header.request_id ≡ incoming.packet.header.request_id
        → message_id_from_int p.header.msg_id ≡ some upstream_id
        → is_expected message_id upstream_id ≡ true
        → Answers incoming message_id p
    upstream-Answers p upstream_id h known expected = record {
      same_request = h;
      right_type = elim (is_expected_type message_id upstream_id expected) [
        | inl e ↦ inl ((message_id_from_int_iff p.header.msg_id upstream_id).0 known ∙ ap to_int e)
        | inr e ↦
            inr (upstream_id, e, (message_id_from_int_iff p.header.msg_id upstream_id).0 known)
      ];
    }

    bind_login-Answers :
        (p : Packet)
        → Answers incoming message_id p
        → Answers incoming message_id (bind_login parts incoming context p b).0
    unfolding bind_login
    bind_login-Answers p h = elim (Option-cases (parts.codec.parse_login_response p.body)) [
      | inl e ↦ rw (e, bind_login) (error-Answers message_id context bad_gateway _ same)
      | inr (r, e) ↦ elim (Bool-cases r.success) [
        | inl f ↦ rw (e, bind_login) (rw f h)
        | inr f ↦ rw (e, bind_login) (rw f h)
      ]
    ]

    check_response-Answers :
        (p : Packet)
        → Answers incoming message_id (check_response parts incoming message_id context p b).0
    unfolding check_response
    check_response-Answers p =
        if-elim good (not (p.header.request_id == incoming.packet.header.request_id)) _ _
          (λ _. refused _)
          λ agree. elim (Option-cases (message_id_from_int p.header.msg_id)) [
            | inl e ↦ rw (e, check_response) (refused _)
            | inr (u, e) ↦
                rw (e, check_response)
                  (if-elim good (not (is_expected message_id u)) _ _ (λ _. refused _)
                    λ expected.
                      let fine =
                        upstream-Answers p u
                          ((nat_beq_iff p.header.request_id incoming.packet.header.request_id).0
                            (ground arith))
                          e (ground arith) in
                      if-elim good (same_id message_id login_request) _ _
                        (λ _.
                          if-elim good (same_id u login_response) _ _
                            (λ _. bind_login-Answers p fine) (λ _. fine))
                        (λ _. fine))
          ]
      where
        good : Packet × Bindings → Type 0
        good r = Answers incoming message_id r.0

        refused :
            (message : Bytes)
            → Answers incoming message_id
                (build_error_packet parts.codec context bad_gateway message)
        refused message = error-Answers message_id context bad_gateway message same

    forward-Answers :
        (w : W) → Answers incoming message_id (forward parts incoming message_id context b w).0.0
    unfolding forward
    forward-Answers w =
        go ((resolve_upstream parts message_id).send_and_receive incoming.packet w).0 refl
      where
        go :
            (r : Reply)
            → ((resolve_upstream parts message_id).send_and_receive incoming.packet w).0 ≡ r
            → Answers incoming message_id (forward parts incoming message_id context b w).0.0
        go (received p) e = rw (e, forward) (check_response-Answers p)
        go (failed m) e =
            rw (e, forward) (error-Answers message_id context (map_upstream_error m) m same)

  authorize-Answers :
      (message_id : MessageId) (context : RequestContext) (b b' : Bindings) (w w' : W) (p : Packet)
      → context.request_id ≡ incoming.packet.header.request_id
      → authorize_and_forward parts incoming message_id context b w ≡ (ok (p, b'), w')
      → Answers incoming message_id p
  unfolding authorize_and_forward
  authorize-Answers message_id context b b' w w' p same h =
      elim (Bool-cases (same_id message_id login_request)) [
        | inl login ↦
            subst (Answers incoming message_id) (ground (arith, login))
              (forward-Answers message_id context b same w)
        | inr other ↦
            elim (Outcome-cases
              (validate_or_restore parts.sessions incoming.connection_id context b w)) [
                | inr (w₁, e) ↦ absurd (ground (arith, other, e))
                | inl ((r, b₁), w₁, e) ↦ elim (Bool-cases (is_invalid r.status)) [
                  | inl refused ↦
                      subst (Answers incoming message_id) (ground (arith, other, e, refused))
                        (error-Answers message_id context session_invalid r.reason same)
                  | inr accepted ↦
                      subst (Answers incoming message_id) (ground (arith, other, e, accepted))
                        (forward-Answers message_id context b₁ same w₁)
                ]
              ]
      ]

  handle_message-Answers :
      (message_id : MessageId) (b b' : Bindings) (w w' : W) (p : Packet)
      → ((context : RequestContext)
          → extract_request_context parts.codec message_id incoming.packet.body ≡ some context
          → (context.request_id ≡ 0) ⊎ (context.request_id ≡ incoming.packet.header.request_id))
      → handle_message parts incoming message_id b w ≡ (ok (p, b'), w')
      → Answers incoming message_id p
  unfolding handle_message
  handle_message-Answers message_id b b' w w' p honest h =
      elim (Bool-cases (same_id message_id ping_request)) [
        | inl ping ↦ elim (Option-cases (parts.codec.parse_ping_request incoming.packet.body)) [
          | inl e ↦ subst (Answers incoming message_id) (ground (arith, ping, e)) (
              error-Answers message_id (fallback_context incoming) bad_gateway
                (codes "invalid ping request") fallback_id)
          | inr (request, e) ↦ subst (Answers incoming message_id) (ground (arith, ping, e)) (
              pong-Answers message_id ((same_id_iff message_id ping_request).0 ping)
                (from_proto request.context)
                (honest (from_proto request.context) (
                  extract_ping message_id request ((same_id_iff message_id ping_request).0 ping)
                    e)))
        ]
        | inr other ↦
            elim (Option-cases
              (extract_request_context parts.codec message_id incoming.packet.body)) [
                | inl e ↦ subst (Answers incoming message_id) (ground (arith, other, e)) (
                    error-Answers message_id (fallback_context incoming) bad_gateway
                      (codes "failed to parse request context") fallback_id)
                | inr (context, e) ↦
                    authorize-Answers message_id (normalize_context incoming context) b b' w w' p
                      (normalize_id context (honest context e)) (ground (arith, other, e))
              ]
      ]

  -- Let every context that the packet's body can hold have request number 0 or the number of the
  -- packet's header. Then whatever the upstreams send, a packet that the gateway answers with has
  -- the number of the client's packet; its type is ERROR_RESPONSE, or the response type that
  -- belongs to the type of the client's packet.
  pub handle_packet-Answers :
      (b b' : Bindings) (w w' : W) (p : Packet)
      → ((message_id : MessageId) (context : RequestContext)
          → extract_request_context parts.codec message_id incoming.packet.body ≡ some context
          → (context.request_id ≡ 0) ⊎ (context.request_id ≡ incoming.packet.header.request_id))
      → handle_packet parts incoming b w ≡ (ok (p, b'), w')
      → (p.header.request_id ≡ incoming.packet.header.request_id)
        × ((p.header.msg_id ≡ to_int error_response)
            ⊎ ((m e : MessageId) × (message_id_from_int incoming.packet.header.msg_id ≡ some m)
                × (expected_response_message_id m ≡ some e)
                × (p.header.msg_id ≡ to_int e)))
  unfolding handle_packet
  handle_packet-Answers b b' w w' p honest h =
      elim (Option-cases (message_id_from_int incoming.packet.header.msg_id)) [
        | inl e ↦
            (let a =
                error-Answers ping_request (fallback_context incoming) bad_gateway
                  (codes "unknown message id") fallback_id in
              let same : p
                  ≡ build_error_packet parts.codec (fallback_context incoming) bad_gateway
                      (codes "unknown message id") =
                ground (arith, e) in
              (
                ap (λ (q : Packet). q.header.request_id) same ∙ a.same_request,
                inl (
                    ap (λ (q : Packet). q.header.msg_id) same
                    ∙ error_type (fallback_context incoming) (codes "unknown message id")),
              ))
        | inr (m, e) ↦
            (let a = handle_message-Answers m b b' w w' p (honest m) (ground (arith, e)) in
              (
                a.same_request,
                elim a.right_type [ inl t ↦ inl t | inr (x, f, t) ↦ inr (m, x, e, f, t) ],
              ))
      ]
