-- ===== src/Net/RequestContext.antt =====
-- common/include/common/net/request_context.h, the incoming packet of tcp_server.h, and the
-- completion of a context that every server makes.
use project_moon.Base.{ℕ, [], ◌++◌, Bytes, ℤ, pos, ◌==◌, nat_eq, if◌then◌else◌}
use project_moon.Base.Text.{is_empty}
use project_moon.Base.Decimal.{nat_to_string}
use project_moon.Net.Packet.{Packet}

pub record RequestContext : Type 0 where
  pub trace_id : Bytes
  pub request_id : ℕ
  pub session_id : Bytes
  pub player_id : ℤ

-- `RequestContext{}`
abbrev pub empty_context : RequestContext
empty_context = record { trace_id = []; request_id = 0; session_id = []; player_id = pos 0 }

pub record IncomingPacket : Type 0 where
  pub connection_id : ℕ
  pub packet : Packet
  pub peer_address : Bytes

-- The context for answers to a request whose own context is not known.
unfoldable pub fallback_context_for : Bytes → IncomingPacket → RequestContext
fallback_context_for service incoming = record empty_context {
  request_id = incoming.packet.header.request_id;
  trace_id = service ++ nat_to_string incoming.packet.header.request_id;
}

-- NormalizeContext, whose four copies differ in the name before the number.
unfoldable pub normalize_context_for : Bytes → IncomingPacket → RequestContext → RequestContext
normalize_context_for service incoming parsed =
    let request_id : ℕ =
      if parsed.request_id == 0 then incoming.packet.header.request_id else parsed.request_id in
    record parsed {
      request_id = request_id;
      trace_id =
          if is_empty parsed.trace_id then service ++ nat_to_string request_id else parsed.trace_id;
    }
