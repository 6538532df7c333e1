-- ===== src/Dungeon/Server/Replies.antt =====
-- What dungeon_network_server.cpp answers with.
use project_moon.Base.{
  ◌≡◌, ◌⊎◌, inl, inr, refl, sym, ap, ◌∙◌, true, some, arith, ok, Bytes, nat_eq, Bool-cases,
  Option-cases, Exec,
}
use project_moon.Base.Text.{codes}
use project_moon.ErrorCode.{bad_gateway}
use project_moon.Net.MessageId.{
  MessageId, to_int, message_id_from_int, same_id, expected_response_message_id, ping_request,
  ping_response, enter_dungeon_request, enter_dungeon_response, settle_dungeon_request,
  settle_dungeon_response, error_response,
}
use project_moon.Net.MessageId.Laws.{same_id_iff}
use project_moon.Net.Packet.{Packet}
use project_moon.Net.RequestContext.{RequestContext, IncomingPacket}
use project_moon.Net.Codec.{Protobuf}
use project_moon.Net.Mapper.{build_error_packet, extract_request_context}
use project_moon.Dungeon.Service.{
  EnterDungeonRequest, EnterDungeonResponse, SettleDungeonRequest, SettleDungeonResponse,
}
use project_moon.Dungeon.Server.{fallback_context, handle_packet}
use project_moon.Dungeon.Server.Handlers.{
  Replies, same-Replies, error-Replies, error_type, handle_ping-Replies, handle_enter-Replies,
  handle_settle-Replies,
}

module _ {W : Type 0} (codec : Protobuf)
    (enter_dungeon : EnterDungeonRequest → Exec W EnterDungeonResponse)
    (settle_dungeon : SettleDungeonRequest → Exec W SettleDungeonResponse)
    (incoming : IncomingPacket) where
  -- Let every context that the packet's body can hold have request number 0 or the number of the
  -- packet's header. Then whatever the service answers, a packet that the dungeon server answers with
  -- has the number of the request; its type is ERROR_RESPONSE, or the response type that belongs to
  -- the type of the request.
  pub handle_packet-Replies :
      (w w' : W) (p : Packet)
      → ((message_id : MessageId) (context : RequestContext)
          → extract_request_context codec message_id incoming.packet.body ≡ some context
          → (context.request_id ≡ 0) ⊎ (context.request_id ≡ incoming.packet.header.request_id))
      → handle_packet codec enter_dungeon settle_dungeon incoming w ≡ (ok p, w')
      → (p.header.request_id ≡ incoming.packet.header.request_id)
        × ((p.header.msg_id ≡ to_int error_response)
            ⊎ ((m e : MessageId) × (message_id_from_int incoming.packet.header.msg_id ≡ some m)
                × (expected_response_message_id m ≡ some e)
                × (p.header.msg_id ≡ to_int e)))
  unfolding handle_packet expected_response_message_id
  handle_packet-Replies w w' p honest h =
      elim (Option-cases (message_id_from_int incoming.packet.header.msg_id)) [
        | inl e ↦ refused (codes "unknown message id") (ground (arith, h, e))
        | inr (m, e) ↦ elim (Bool-cases (same_id m ping_request)) [
          | inl ping ↦ answered m ping_request ping_response e ping refl (
              handle_ping-Replies codec enter_dungeon settle_dungeon incoming w w' p
                (honest ping_request) (ground (arith, h, e, ping)))
          | inr no_ping ↦ elim (Bool-cases (same_id m enter_dungeon_request)) [
            | inl enter ↦ answered m enter_dungeon_request enter_dungeon_response e enter refl (
                handle_enter-Replies codec enter_dungeon settle_dungeon incoming w w' p
                  (honest enter_dungeon_request) (ground (arith, h, e, no_ping, enter)))
            | inr no_enter ↦ elim (Bool-cases (same_id m settle_dungeon_request)) [
              | inl settle ↦
                  answered m settle_dungeon_request settle_dungeon_response e settle refl (
                    handle_settle-Replies codec enter_dungeon settle_dungeon incoming w w' p
                      (honest settle_dungeon_request)
                      (ground (arith, h, e, no_ping, no_enter, settle)))
              | inr no_settle ↦
                  refused (codes "message not supported by dungeon_server")
                    (ground (arith, h, e, no_ping, no_enter, no_settle))
            ]
          ]
        ]
      ]
    where
      Good : Type 0
      Good =
          (p.header.request_id ≡ incoming.packet.header.request_id)
          × ((p.header.msg_id ≡ to_int error_response)
              ⊎ ((m e : MessageId) × (message_id_from_int incoming.packet.header.msg_id ≡ some m)
                  × (expected_response_message_id m ≡ some e)
                  × (p.header.msg_id ≡ to_int e)))

      refused :
          (message : Bytes)
          → build_error_packet codec (fallback_context incoming) bad_gateway message ≡ p
          → Good
      refused message is =
          let (number, type) =
            same-Replies incoming ping_response
              (build_error_packet codec (fallback_context incoming) bad_gateway message) p is
              (error-Replies codec enter_dungeon settle_dungeon incoming ping_response message) in
          (
            number,
            inl (
                ap (λ (q : Packet). q.header.msg_id) (sym is)
                ∙ error_type codec enter_dungeon settle_dungeon incoming message),
          )

      answered :
          (m n response : MessageId)
          → message_id_from_int incoming.packet.header.msg_id ≡ some m
          → same_id m n ≡ true
          → expected_response_message_id n ≡ some response
          → Replies incoming response p
          → Good
      answered m n response known same expected (number, type) = (
        number,
        elim type [
          | inl t ↦ inl t
          | inr t ↦ inr (
            m,
            response,
            known,
            ap expected_response_message_id ((same_id_iff m n).0 same) ∙ expected,
            t,
          )
        ],
      )
