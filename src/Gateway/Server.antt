-- ===== src/Gateway/Server.antt =====
-- gateway/gateway_server.cpp: the handling of one packet. Logging and the wiring of `Initialize`
-- are left out.
pub mod Replies
pub mod Admission
use project_moon.Base.{
  ℕ, Bool, true, false, not, Option, none, some, Bytes, bytes_eq, nat_eq, ◌==◌, if◌then◌else◌, ok,
  Exec, pure, ◌>>=◌,
}
use project_moon.Base.Text.{codes}
use project_moon.ErrorCode.{
  ErrorCode, upstream_timeout, service_unavailable, bad_gateway, session_invalid,
}
use project_moon.Net.MessageId.{
  MessageId, message_id_from_int, same_id, expected_response_message_id, ping_request,
  login_request, load_player_request, enter_dungeon_request, settle_dungeon_request, login_response,
  error_response,
}
use project_moon.Net.Packet.{Packet}
use project_moon.Net.RequestContext.{
  RequestContext, IncomingPacket, fallback_context_for, normalize_context_for,
}
use project_moon.Net.Codec.{Protobuf}
use project_moon.Net.Mapper.{
  from_proto, build_error_packet, build_ping_response_packet, extract_request_context,
}
use project_moon.Session.{SessionRepository}
use project_moon.Gateway.Authorizer.{
  Status, bound, restored, invalid, Bindings, validate_or_restore, bind, unbind,
}

-- What `SendAndReceive` of an upstream pool comes back with: a packet, or an error message.
pub data Reply : Type 0 where
  received : Packet → Reply
  failed : Bytes → Reply

pub record Upstream (W : Type 0) : Type 0 where
  pub send_and_receive : Packet → W → Reply × W

-- The objects that `Initialize` sets up.
pub record Parts (W : Type 0) : Type 0 where
  pub codec : Protobuf
  pub sessions : SessionRepository W
  pub login_upstream : Upstream W
  pub game_upstream : Upstream W
  pub dungeon_upstream : Upstream W

unfoldable pub normalize_context : IncomingPacket → RequestContext → RequestContext
unfolding normalize_context_for
normalize_context = normalize_context_for (codes "gateway-")

unfoldable pub fallback_context : IncomingPacket → RequestContext
unfolding fallback_context_for
fallback_context = fallback_context_for (codes "gateway-")

unfoldable pub map_upstream_error : Bytes → ErrorCode
map_upstream_error error_message =
    if error_message == codes "timeout" then upstream_timeout else service_unavailable

unfoldable pub is_invalid : Status → Bool
is_invalid bound = false
is_invalid restored = false
is_invalid invalid = true

-- Whether the upstream's message id may answer the request's.
unfoldable pub is_expected : MessageId → MessageId → Bool
is_expected message_id upstream_message_id =
    if same_id upstream_message_id error_response
    then true
    else elim (expected_response_message_id message_id) [
      | none ↦ false
      | some expected ↦ same_id expected upstream_message_id
    ]

module _ {W : Type 0} (parts : Parts W) where
  open parts use {codec, sessions}

  unfoldable pub resolve_upstream : MessageId → Upstream W
  resolve_upstream login_request = parts.login_upstream
  resolve_upstream load_player_request = parts.game_upstream
  resolve_upstream enter_dungeon_request = parts.dungeon_upstream
  resolve_upstream settle_dungeon_request = parts.dungeon_upstream
  resolve_upstream _ = parts.login_upstream

  bad_gateway_packet : RequestContext → Bytes → Packet
  bad_gateway_packet context = build_error_packet codec context bad_gateway

  -- A login reply that parses and reports success binds the connection.
  unfoldable pub bind_login :
      IncomingPacket → RequestContext → Packet → Bindings → Packet × Bindings
  unfolding bad_gateway_packet
  bind_login incoming context upstream_response client_bindings =
      elim (codec.parse_login_response upstream_response.body) [
        | none ↦
            (bad_gateway_packet context (codes "failed to parse login response"), client_bindings)
        | some response ↦
            if response.success
            then (
              upstream_response,
              bind incoming.connection_id response.session_id response.player_id client_bindings,
            )
            else (upstream_response, client_bindings)
      ]

  -- The checks on what the upstream sent.
  unfoldable pub check_response :
      IncomingPacket → MessageId → RequestContext → Packet → Bindings → Packet × Bindings
  unfolding bad_gateway_packet
  check_response incoming message_id context upstream_response client_bindings =
      if not (upstream_response.header.request_id == incoming.packet.header.request_id)
      then (bad_gateway_packet context (codes "upstream request_id mismatch"), client_bindings)
      else elim (message_id_from_int upstream_response.header.msg_id) [
        | none ↦ (
          bad_gateway_packet context (codes "upstream returned unknown message id"),
          client_bindings,
        )
        | some upstream_message_id ↦
            if not (is_expected message_id upstream_message_id)
            then (
              bad_gateway_packet context (codes "upstream returned unexpected response type"),
              client_bindings,
            )
            else if same_id message_id login_request
            then (if same_id upstream_message_id login_response
                then bind_login incoming context upstream_response client_bindings
                else (upstream_response, client_bindings))
            else (upstream_response, client_bindings)
      ]

  unfoldable pub forward :
      IncomingPacket → MessageId → RequestContext → Bindings → W → (Packet × Bindings) × W
  forward incoming message_id context client_bindings w =
      let (reply, w') = (resolve_upstream message_id).send_and_receive incoming.packet w in
      (
        elim reply [
          | failed error_message ↦ (
            build_error_packet codec context (map_upstream_error error_message) error_message,
            client_bindings,
          )
          | received upstream_response ↦
              check_response incoming message_id context upstream_response client_bindings
        ],
        w',
      )

  -- Every request but a login must come from a bound connection, or restore its binding.
  unfoldable pub authorize_and_forward :
      IncomingPacket → MessageId → RequestContext → Bindings → Exec W (Packet × Bindings)
  authorize_and_forward incoming message_id context client_bindings =
      if same_id message_id login_request
      then (λ w. let (a, w') = forward incoming message_id context client_bindings w in (ok a, w'))
      else (validate_or_restore sessions incoming.connection_id context client_bindings
          >>= λ (binding_result, client_bindings').
              if is_invalid binding_result.status
              then pure (
                build_error_packet codec context session_invalid binding_result.reason,
                client_bindings',
              )
              else (λ w.
                  let (a, w') = forward incoming message_id context client_bindings' w in
                  (ok a, w')))

  unfoldable pub handle_message : IncomingPacket → MessageId → Bindings → Exec W (Packet × Bindings)
  unfolding bad_gateway_packet
  handle_message incoming message_id client_bindings =
      if same_id message_id ping_request
      then elim (codec.parse_ping_request incoming.packet.body) [
        | none ↦ pure (
          bad_gateway_packet (fallback_context incoming) (codes "invalid ping request"),
          client_bindings,
        )
        | some request ↦ pure (
          build_ping_response_packet codec (normalize_context incoming (from_proto request.context))
              (codes "pong"),
          client_bindings,
        )
      ]
      else elim (extract_request_context codec message_id incoming.packet.body) [
        | none ↦ pure (
          bad_gateway_packet (fallback_context incoming) (codes "failed to parse request context"),
          client_bindings,
        )
        | some context ↦
            authorize_and_forward incoming message_id (normalize_context incoming context)
              client_bindings
      ]

  -- HandlePacket: the packet to send back, and the bindings afterwards.
  unfoldable pub handle_packet : IncomingPacket → Bindings → Exec W (Packet × Bindings)
  unfolding bad_gateway_packet
  handle_packet incoming client_bindings =
      elim (message_id_from_int incoming.packet.header.msg_id) [
        | none ↦ pure (
          bad_gateway_packet (fallback_context incoming) (codes "unknown message id"),
          client_bindings,
        )
        | some message_id ↦ handle_message incoming message_id client_bindings
      ]

-- The disconnect handler that `Initialize` installs.
unfoldable pub handle_disconnect : ℕ → Bindings → Bindings
handle_disconnect connection_id client_bindings = unbind connection_id client_bindings
