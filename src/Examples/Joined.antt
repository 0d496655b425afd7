-- ===== src/Examples/Joined.antt =====
-- A host and a client from the connection to the stream's parameters.
use iran_remote_play.Prelude.{◌≡◌, refl, [], ◌∷◌, true, false, none, some, arith}
use iran_remote_play.Udp.FrameMap.{find}
use iran_remote_play.Codes.{
  verify_session_code, normalize_session_code, compact, all_found, found, upper,
  constant_time_equal, diff_loop,
}
use iran_remote_play.Protocol.Negotiate.{negotiate_codec, supports}
use iran_remote_play.Clients.{ConnectionState, ClientRecord, HostSession}
use iran_remote_play.ClientSession.{ClientSession}
use iran_remote_play.Session.{steps}
use iran_remote_play.Session.Hearing.{link}
use iran_remote_play.Session.Joined.{joined, steps-connected}
use iran_remote_play.Examples.Host.{no_text, waiting, session_with}

abbrev open_host : HostSession
open_host =
    let s = session_with ConnectionState.connecting in
    record s { params = record (s.params) { auto_approve = true } }

abbrev player : ClientSession
player = record {
  params = record {
    client_name = b'M' ∷ [];
    session_code = b'a' ∷ b'b' ∷ b'c' ∷ b'd' ∷ b'e' ∷ b'f' ∷ b'g' ∷ b'2' ∷ [];
    app_version = [];
    supported_codecs = 0 ∷ [];
  };
  status = record {
    state = ConnectionState.connecting;
    host_name = [];
    game_name = [];
    codec = 0;
    width = 0;
    height = 0;
    fps = 0;
    bitrate_kbps = 0;
    rtt_ms = 0;
    input = record { controller = true; keyboard = false; mouse = false; vibration = true };
    last_error = none;
    bytes_in = 0;
    bytes_out = 0;
  };
  has_connection = false;
  running = true;
  stopping = false;
  last_activity = 0;
  has_app_message = true;
}

steps-connected_example :
    (t : HostSession) × (r : ClientRecord) × (d : ClientSession) × (steps no_text 9 7
        (joined no_text 9 1 open_host player)
      ≡ link 1 t d [] [] [])
    × (find 1 t.clients ≡ some r)
    × (r.state ≡ ConnectionState.connected)
    × (d.status.state ≡ ConnectionState.connected)
    × (d.status.codec ≡ 0)
    × (d.status.width ≡ 1920)
    × (d.status.height ≡ 1080)
    × (d.status.fps ≡ 60)
    × (d.status.bitrate_kbps ≡ 8000)
    × (d.status.input ≡ r.input)
    × (r.input ≡ open_host.params.input_defaults)
unfolding find verify_session_code negotiate_codec supports normalize_session_code compact all_found
    found upper constant_time_equal diff_loop
steps-connected_example =
    steps-connected no_text 9 1 0 (waiting ConnectionState.connecting) open_host player (tt, tt)
      refl refl refl refl refl (omega arith) (omega arith) (omega arith) refl (omega arith) refl
      (omega arith, tt) (omega arith) refl
