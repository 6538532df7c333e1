-- ===== src/Tests/Admission.antt =====
-- The gateway passes a request to load a player on to an upstream that answers.
use project_moon.Base.{arith, ℕ, ◌≡◌, ◌≢◌, ◌⊎◌, refl, some, [], pos, ok, nat_eq, bytes_eq, int_eq}
use project_moon.Base.Text.{codes, is_empty}
use project_moon.Base.Dict.{lookup, insert}
use project_moon.Net.MessageId.{
  MessageId, to_int, message_id_from_int, same_id, expected_response_message_id, login_request,
  ping_request, load_player_request, load_player_response, error_response,
}
use project_moon.Net.Packet.{Packet, default_header}
use project_moon.Net.RequestContext.{RequestContext, IncomingPacket}
use project_moon.Net.Codec.{Protobuf}
use project_moon.Net.Mapper.{from_proto, extract_request_context}
use project_moon.Gateway.Authorizer.{validate_or_restore, restore_binding_from_session}
use project_moon.Gateway.Authorizer.Binding.{asked}
use project_moon.Gateway.Server.{
  Parts, Upstream, received, normalize_context, handle_message, handle_packet,
  authorize_and_forward, forward, check_response, resolve_upstream, is_expected, is_invalid,
}
use project_moon.Gateway.Server.Admission.{handle_packet-asked, with_upstreams}
use project_moon.Tests.Gateway.{
  sessions, sessions-FindsNamed, bindings, bindings_after, codec, silent,
}

-- A codec that reads every text as a request of player 7 under session "s".
abbrev loading : Protobuf
loading = record codec {
  parse_load_player_request = λ s. some (record {
    context = record { trace_id = []; request_id = 4; session_id = codes "s"; player_id = pos 7 };
    player_id = pos 7;
  });
}

abbrev answer : Packet
answer = record {
  header = record default_header { msg_id = to_int load_player_response; request_id = 4 };
  body = codes "state";
}

abbrev answering : Upstream ℕ
answering = record { send_and_receive = λ p w. (received answer, w) }

abbrev parts : Parts ℕ
parts = record {
  codec = loading;
  sessions = sessions;
  login_upstream = silent;
  game_upstream = answering;
  dungeon_upstream = silent;
}

abbrev incoming : IncomingPacket
incoming = record {
  connection_id = 5;
  packet = record {
    header = record default_header { msg_id = to_int load_player_request; request_id = 4 };
    body = [];
  };
  peer_address = codes "10.0.0.1:4000";
}

passes : handle_packet parts incoming bindings 0 ≡ (ok (answer, bindings_after), 0)
unfolding handle_packet handle_message message_id_from_int to_int same_id from_proto
    extract_request_context authorize_and_forward validate_or_restore restore_binding_from_session
    lookup insert is_empty is_invalid forward resolve_upstream check_response is_expected
    expected_response_message_id normalize_context
passes = refl

no_login : to_int load_player_request ≢ to_int login_request
unfolding to_int
no_login e = omega (arith, e)

no_ping : to_int load_player_request ≢ to_int ping_request
unfolding to_int
no_ping e = omega (arith, e)

handle_packet-asked_example :
    ((m : MessageId) × (c : RequestContext) × (message_id_from_int (to_int load_player_request)
        ≡ some m)
      × (extract_request_context loading m [] ≡ some c)
      × (lookup 5 bindings_after ≡ some (asked c)))
    ⊎ ((answer.header.msg_id ≡ to_int error_response)
        × ((login game dungeon : Upstream ℕ)
            → handle_packet (with_upstreams parts login game dungeon) incoming bindings 0
              ≡ (ok (answer, bindings_after), 0)))
handle_packet-asked_example =
    handle_packet-asked parts incoming sessions-FindsNamed bindings bindings_after 0 0 answer tt
      no_login no_ping passes
