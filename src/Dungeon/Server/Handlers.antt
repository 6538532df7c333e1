-- ===== src/Dungeon/Server/Handlers.antt =====
-- What the three handlers of dungeon_network_server.cpp answer with.
use project_moon.Base.{
  ℕ, ℤ, ◌≡◌, ◌⊎◌, inl, inr, refl, ◌∙◌, subst, some, arith, ok, Bytes, nat_eq, Option-cases,
  Outcome-cases, Exec,
}
use project_moon.Base.Text.{codes}
use project_moon.ErrorCode.{bad_gateway}
use project_moon.Net.MessageId.{
  MessageId, to_int, ping_request, ping_response, enter_dungeon_request, enter_dungeon_response,
  settle_dungeon_request, settle_dungeon_response, error_response,
}
use project_moon.Net.Packet.{Packet}
use project_moon.Net.RequestContext.{RequestContext, IncomingPacket}
use project_moon.Net.Codec.{Protobuf, build_packet}
use project_moon.Net.Mapper.{
  from_proto, build_error_packet, build_ping_response_packet, extract_request_context,
}
use project_moon.Dungeon.Service.{
  EnterDungeonRequest, EnterDungeonResponse, SettleDungeonRequest, SettleDungeonResponse,
}
use project_moon.Dungeon.Server.{
  normalize_context, fallback_context, with_player, enter_message, settle_message, handle_enter,
  handle_settle, handle_ping,
}

-- The packet has the number of the request, and one of two types.
abbrev pub Replies : IncomingPacket → MessageId → Packet → Type 0
Replies incoming response p =
    (p.header.request_id ≡ incoming.packet.header.request_id)
    × ((p.header.msg_id ≡ to_int error_response) ⊎ (p.header.msg_id ≡ to_int response))

-- The request's number in a context
abbrev pub Numbered : IncomingPacket → RequestContext → Type 0
Numbered incoming context =
    (context.request_id ≡ 0) ⊎ (context.request_id ≡ incoming.packet.header.request_id)

normalize_id :
    (incoming : IncomingPacket) (context : RequestContext)
    → Numbered incoming context
    → (normalize_context incoming context).request_id ≡ incoming.packet.header.request_id
unfolding normalize_context
normalize_id incoming context h = ground arith

with_player_id :
    (player_id : ℤ) (context : RequestContext)
    → (with_player player_id context).request_id ≡ context.request_id
unfolding with_player
with_player_id player_id context = refl

build_packet-Replies :
    (incoming : IncomingPacket) (response : MessageId) (id : ℕ) (body : Bytes)
    → id ≡ incoming.packet.header.request_id
    → Replies incoming response (build_packet response id body)
unfolding build_packet
build_packet-Replies incoming response id body h = (h, inr refl)

pub same-Replies :
    (incoming : IncomingPacket) (response : MessageId) (q p : Packet)
    → q ≡ p
    → Replies incoming response q
    → Replies incoming response p
same-Replies incoming response q p e h = subst (Replies incoming response) e h

module _ {W : Type 0} (codec : Protobuf)
    (enter_dungeon : EnterDungeonRequest → Exec W EnterDungeonResponse)
    (settle_dungeon : SettleDungeonRequest → Exec W SettleDungeonResponse)
    (incoming : IncomingPacket) where
  pub error-Replies :
      (response : MessageId) (message : Bytes)
      → Replies incoming response
          (build_error_packet codec (fallback_context incoming) bad_gateway message)
  unfolding build_error_packet build_packet fallback_context
  error-Replies response message = (refl, inl refl)

  pub error_type :
      (message : Bytes)
      → (build_error_packet codec (fallback_context incoming) bad_gateway message).header.msg_id
        ≡ to_int error_response
  unfolding build_error_packet build_packet
  error_type message = refl

  pub handle_ping-Replies :
      (w w' : W) (p : Packet)
      → ((context : RequestContext)
          → extract_request_context codec ping_request incoming.packet.body ≡ some context
          → Numbered incoming context)
      → handle_ping codec enter_dungeon settle_dungeon incoming w ≡ (ok p, w')
      → Replies incoming ping_response p
  unfolding handle_ping build_ping_response_packet extract_request_context
  handle_ping-Replies w w' p honest h =
      elim (Option-cases (codec.parse_ping_request incoming.packet.body)) [
        | inl e ↦
            same-Replies incoming ping_response
              (build_error_packet codec (fallback_context incoming) bad_gateway
                (codes "invalid ping request"))
              p (ground (arith, h, e)) (error-Replies ping_response (codes "invalid ping request"))
        | inr (request, e) ↦
            same-Replies incoming ping_response
              (build_ping_response_packet codec
                (normalize_context incoming (from_proto request.context)) (codes "pong"))
              p (ground (arith, h, e))
              (build_packet-Replies incoming ping_response
                (normalize_context incoming (from_proto request.context)).request_id _
                (normalize_id incoming (from_proto request.context)
                  (honest (from_proto request.context) (rw e))))
      ]

  pub handle_enter-Replies :
      (w w' : W) (p : Packet)
      → ((context : RequestContext)
          → extract_request_context codec enter_dungeon_request incoming.packet.body ≡ some context
          → Numbered incoming context)
      → handle_enter codec enter_dungeon settle_dungeon incoming w ≡ (ok p, w')
      → Replies incoming enter_dungeon_response p
  unfolding handle_enter extract_request_context
  handle_enter-Replies w w' p honest h =
      elim (Option-cases (codec.parse_enter_dungeon_request incoming.packet.body)) [
        | inl e ↦
            same-Replies incoming enter_dungeon_response
              (build_error_packet codec (fallback_context incoming) bad_gateway
                (codes "invalid enter dungeon request"))
              p (ground (arith, h, e))
              (error-Replies enter_dungeon_response (codes "invalid enter dungeon request"))
        | inr (request, e) ↦
            let context =
              with_player request.player_id
                (normalize_context incoming (from_proto request.context)) in
            let asked : EnterDungeonRequest = record {
              session_id = context.session_id;
              player_id = context.player_id;
              dungeon_id = request.dungeon_id;
            } in
            elim (Outcome-cases (enter_dungeon asked w)) [
              | inr (w₁, f) ↦ absurd (ground (arith, h, e, f))
              | inl (result, w₁, f) ↦
                  same-Replies incoming enter_dungeon_response
                    (build_packet enter_dungeon_response context.request_id
                      (codec.serialize_enter_dungeon_response (enter_message context result)))
                    p (ground (arith, h, e, f))
                    (build_packet-Replies incoming enter_dungeon_response context.request_id
                      (codec.serialize_enter_dungeon_response (enter_message context result))
                      (with_player_id request.player_id _
                        ∙ normalize_id incoming (from_proto request.context)
                            (honest (from_proto request.context) (rw e))))
            ]
      ]

  pub handle_settle-Replies :
      (w w' : W) (p : Packet)
      → ((context : RequestContext)
          → extract_request_context codec settle_dungeon_request incoming.packet.body ≡ some context
          → Numbered incoming context)
      → handle_settle codec enter_dungeon settle_dungeon incoming w ≡ (ok p, w')
      → Replies incoming settle_dungeon_response p
  unfolding handle_settle extract_request_context
  handle_settle-Replies w w' p honest h =
      elim (Option-cases (codec.parse_settle_dungeon_request incoming.packet.body)) [
        | inl e ↦
            same-Replies incoming settle_dungeon_response
              (build_error_packet codec (fallback_context incoming) bad_gateway
                (codes "invalid settle dungeon request"))
              p (ground (arith, h, e))
              (error-Replies settle_dungeon_response (codes "invalid settle dungeon request"))
        | inr (request, e) ↦
            let context =
              with_player request.player_id
                (normalize_context incoming (from_proto request.context)) in
            let asked : SettleDungeonRequest = record {
              session_id = context.session_id;
              player_id = context.player_id;
              battle_id = request.battle_id;
              dungeon_id = request.dungeon_id;
              star = request.star;
              result = request.result;
            } in
            elim (Outcome-cases (settle_dungeon asked w)) [
              | inr (w₁, f) ↦ absurd (ground (arith, h, e, f))
              | inl (result, w₁, f) ↦
                  same-Replies incoming settle_dungeon_response
                    (build_packet settle_dungeon_response context.request_id
                      (codec.serialize_settle_dungeon_response (settle_message context result)))
                    p (ground (arith, h, e, f))
                    (build_packet-Replies incoming settle_dungeon_response context.request_id
                      (codec.serialize_settle_dungeon_response (settle_message context result))
                      (with_player_id request.player_id _
                        ∙ normalize_id incoming (from_proto request.context)
                            (honest (from_proto request.context) (rw e))))
            ]
      ]
