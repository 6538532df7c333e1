-- ===== src/Tests/Gateway.antt =====
-- The gateway with one session and upstreams that do not answer in time.
use project_moon.Base.{
  nat_eq, ℕ, ◌≡◌, ◌≢◌, ◌⊎◌, refl, false, none, some, [], ◌∷◌, pos, ok, pure, arith,
}
use project_moon.Base.Text.{codes, is_empty}
use project_moon.Base.Dict.{lookup, insert}
use project_moon.Model.{Session}
use project_moon.Session.{SessionRepository, FindsNamed}
use project_moon.Net.MessageId.{
  MessageId, to_int, message_id_from_int, same_id, expected_response_message_id, ping_request,
  error_response,
}
use project_moon.Net.Packet.{Packet, default_header}
use project_moon.Net.RequestContext.{RequestContext, IncomingPacket}
use project_moon.Net.Codec.{Protobuf}
use project_moon.Net.Mapper.{from_proto, extract_request_context, build_ping_response_packet}
use project_moon.Gateway.Authorizer.{
  Result, Bindings, restored, invalid, validate_or_restore, restore_binding_from_session,
}
use project_moon.Gateway.Authorizer.Binding.{
  asked, other_connections, accepted-binding, restored_from_session,
}
use project_moon.Gateway.Server.{
  Parts, Upstream, failed, normalize_context, handle_message, handle_packet,
}
use project_moon.Gateway.Server.Replies.{handle_packet-Answers}

-- A repository that has a session of player 7 under every id.
abbrev pub sessions : SessionRepository ℕ
sessions = record {
  create = λ a p. pure (record {
    session_id = codes "s";
    account_id = a;
    player_id = p;
    created_at_epoch_seconds = pos 0;
  });
  find_by_id = λ id. pure (
      some (record {
        session_id = id;
        account_id = pos 1;
        player_id = pos 7;
        created_at_epoch_seconds = pos 0;
      }));
}

-- Every state.
abbrev pub AnyState : ℕ → Type 0
AnyState w = Unit

pub sessions-FindsNamed : FindsNamed sessions AnyState
sessions-FindsNamed = record { named = λ w w' id s h e. ground (arith, e); kept = λ w id h. tt }

abbrev pub context : RequestContext
context = record { trace_id = []; request_id = 4; session_id = codes "s"; player_id = pos 7 }

abbrev pub bindings : Bindings
bindings = (3, asked context) ∷ []

abbrev passed : Result
passed = record { status = restored; reason = [] }

abbrev pub bindings_after : Bindings
bindings_after = (3, asked context) ∷ (5, asked context) ∷ []

restores : validate_or_restore sessions 5 context bindings 0 ≡ (ok (passed, bindings_after), 0)
unfolding validate_or_restore restore_binding_from_session lookup insert is_empty
restores = refl

not_invalid : passed.status ≢ invalid
not_invalid e = cc

unbound : lookup 5 bindings ≡ none
unfolding lookup
unbound = refl

other_connections_example : lookup 3 bindings_after ≡ lookup 3 bindings
other_connections_example =
    other_connections sessions 5 context bindings bindings_after 0 0 passed 3 restores (omega arith)

accepted-binding_example : lookup 5 bindings_after ≡ some (asked context)
accepted-binding_example =
    accepted-binding sessions 5 context bindings bindings_after 0 0 passed sessions-FindsNamed tt
      restores not_invalid

restored_from_session_example :
    (s : Session) × (sessions.find_by_id (codes "s") 0 ≡ (ok (some s), 0))
    × (s.player_id ≡ pos 7)
    × (is_empty (codes "s") ≡ false)
    × (pos 7 ≢ pos 0)
restored_from_session_example =
    restored_from_session sessions 5 context bindings bindings_after 0 0 passed unbound restores
      not_invalid

-- A codec that reads every text as a ping and writes nothing.
abbrev pub codec : Protobuf
codec = record {
  parse_ping_request = λ s. some (record {
    context = record { trace_id = []; request_id = 0; session_id = []; player_id = pos 0 };
    message = s;
  });
  parse_login_request = λ s. none;
  parse_login_response = λ s. none;
  parse_load_player_request = λ s. none;
  parse_enter_dungeon_request = λ s. none;
  parse_settle_dungeon_request = λ s. none;
  serialize_ping_response = λ m. [];
  serialize_error_response = λ m. [];
  serialize_login_response = λ m. [];
  serialize_load_player_response = λ m. [];
  serialize_enter_dungeon_response = λ m. [];
  serialize_settle_dungeon_response = λ m. [];
}

abbrev pub silent : Upstream ℕ
silent = record { send_and_receive = λ p w. (failed (codes "timeout"), w) }

abbrev parts : Parts ℕ
parts = record {
  codec = codec;
  sessions = sessions;
  login_upstream = silent;
  game_upstream = silent;
  dungeon_upstream = silent;
}

abbrev incoming : IncomingPacket
incoming = record {
  connection_id = 5;
  packet = record {
    header = record default_header { msg_id = to_int ping_request; request_id = 4 };
    body = [];
  };
  peer_address = codes "10.0.0.1:4000";
}

abbrev pong : Packet
pong =
    build_ping_response_packet codec
      (normalize_context incoming
        (record { trace_id = []; request_id = 0; session_id = []; player_id = pos 0 }))
      (codes "pong")

answers : handle_packet parts incoming bindings 0 ≡ (ok (pong, bindings), 0)
unfolding handle_packet handle_message message_id_from_int to_int same_id from_proto
answers = refl

honest :
    (m : MessageId) (c : RequestContext)
    → extract_request_context codec m [] ≡ some c
    → (c.request_id ≡ 0) ⊎ (c.request_id ≡ 4)
unfolding extract_request_context from_proto
honest m c e = ground (arith, e)

handle_packet-Answers_example :
    (pong.header.request_id ≡ 4)
    × ((pong.header.msg_id ≡ to_int error_response)
        ⊎ ((m e : MessageId) × (message_id_from_int (to_int ping_request) ≡ some m)
            × (expected_response_message_id m ≡ some e)
            × (pong.header.msg_id ≡ to_int e)))
handle_packet-Answers_example =
    handle_packet-Answers parts incoming bindings bindings 0 0 pong honest answers
