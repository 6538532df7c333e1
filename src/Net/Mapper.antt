-- ===== src/Net/Mapper.antt =====
-- common/src/net/proto_mapper.cpp. The `output` pointers are never null.
use project_moon.Base.{Option, none, map, Bytes}
use mathlib.Core.Option as Opt
use project_moon.Model.{Session, PlayerDungeonProgress, PlayerState, Reward}
use project_moon.ErrorCode.{ErrorCode, to_int, to_string}
use project_moon.Net.MessageId.{
  MessageId, ping_request, login_request, load_player_request, enter_dungeon_request,
  settle_dungeon_request, ping_response, error_response,
}
use project_moon.Net.Packet.{Packet}
use project_moon.Net.RequestContext.{RequestContext}
use project_moon.Net.Proto
use project_moon.Net.Proto.{Context}
use project_moon.Net.Codec.{Protobuf, build_packet}

unfoldable pub from_proto : Context → RequestContext
from_proto context = record {
  trace_id = context.trace_id;
  request_id = context.request_id;
  session_id = context.session_id;
  player_id = context.player_id;
}

unfoldable pub fill_context : RequestContext → Context
fill_context context = record {
  trace_id = context.trace_id;
  request_id = context.request_id;
  session_id = context.session_id;
  player_id = context.player_id;
}

unfoldable pub fill_session : Session → Proto.LoginResponse → Proto.LoginResponse
fill_session session output = record output {
  session_id = session.session_id;
  account_id = session.account_id;
  player_id = session.player_id;
  created_at_epoch_seconds = session.created_at_epoch_seconds;
}

fill_progress : PlayerDungeonProgress → Proto.DungeonProgress
fill_progress progress = record {
  dungeon_id = progress.dungeon_id;
  best_star = progress.best_star;
  is_first_clear = progress.is_first_clear;
}

-- Every field of the output is written.
unfoldable pub fill_player_state : PlayerState → Proto.State
unfolding fill_progress
fill_player_state state = record {
  profile = record {
    player_id = state.profile.player_id;
    account_id = state.profile.account_id;
    player_name = state.profile.player_name;
    level = state.profile.level;
    stamina = state.profile.stamina;
    gold = state.profile.gold;
    diamond = state.profile.diamond;
  };
  dungeon_progress = map fill_progress state.dungeon_progress;
}

unfoldable pub fill_reward : Reward → Proto.Reward
fill_reward reward = record { reward_type = reward.reward_type; amount = reward.amount }

module _ (codec : Protobuf) where
  unfoldable pub build_error_packet : RequestContext → ErrorCode → Bytes → Packet
  build_error_packet context error_code error_message =
      build_packet error_response context.request_id (
        codec.serialize_error_response (record {
          context = fill_context context;
          error_code = to_int error_code;
          error_name = to_string error_code;
          error_message = error_message;
        }))

  unfoldable pub build_ping_response_packet : RequestContext → Bytes → Packet
  build_ping_response_packet context message =
      build_packet ping_response context.request_id (
        codec.serialize_ping_response
          (record { context = fill_context context; message = message }))

  -- `none` where the result is false; the context is written only where it is true.
  unfoldable pub extract_request_context : MessageId → Bytes → Option RequestContext
  extract_request_context ping_request body =
      Opt.map (λ r. from_proto r.context) (codec.parse_ping_request body)
  extract_request_context login_request body =
      Opt.map (λ r. from_proto r.context) (codec.parse_login_request body)
  extract_request_context load_player_request body =
      Opt.map (λ r. from_proto r.context) (codec.parse_load_player_request body)
  extract_request_context enter_dungeon_request body =
      Opt.map (λ r. from_proto r.context) (codec.parse_enter_dungeon_request body)
  extract_request_context settle_dungeon_request body =
      Opt.map (λ r. from_proto r.context) (codec.parse_settle_dungeon_request body)
  extract_request_context _ body = none
