-- ===== src/Examples/Host.antt =====
-- The handshake on one client.
use iran_remote_play.Prelude.{◌≡◌, refl, none, some, [], ◌∷◌, true, false, ◌&&◌, if◌then◌else◌, leb}
use iran_remote_play.Prelude.Bytes.{Bytes, from_le}
use iran_remote_play.Udp.FrameMap.{find}
use iran_remote_play.Packet.Reader
use iran_remote_play.Packet.Reader.{◌>>=◌}
use iran_remote_play.Protocol.Ids.{id_of_raw}
use iran_remote_play.Protocol.Messages.{ClientHello}
use iran_remote_play.Protocol.Read.{
  decode_message, decode_known, accepted, wants_all, read_body, read_video_codec_list, read_codecs,
}
use iran_remote_play.Protocol.Negotiate.{negotiate_codec, supports}
use iran_remote_play.Codes.{verify_session_code}
use iran_remote_play.Clients.{Text, ConnectionState, ClientRecord, HostSession}
use iran_remote_play.Host.{handle_client_hello, handle_frame}
use iran_remote_play.Host.Handshake.{handle_client_hello_lem, handle_frame_connects}

abbrev pub no_text : Text → Bytes
no_text t = []

abbrev pub waiting : ConnectionState → ClientRecord
waiting state = record {
  name = [];
  state = state;
  last_activity = 5;
  last_host_ping = 0;
  input = record { controller = true; keyboard = false; mouse = false; vibration = true };
  rtt_ms = 0;
  address = [];
}

abbrev pub session_with : ConnectionState → HostSession
session_with state = record {
  params = record {
    host_name = [];
    game_name = [];
    capture_mode = 0;
    width = 1920;
    height = 1080;
    fps = 60;
    bitrate_kbps = 8000;
    preferred_codec = 1;
    auto_approve = false;
    input_defaults = record {
      controller = true;
      keyboard = false;
      mouse = false;
      vibration = true;
    };
    max_clients = 4;
  };
  session_code = b'A' ∷ b'B' ∷ b'C' ∷ b'D' ∷ b'-' ∷ b'E' ∷ b'F' ∷ b'G' ∷ b'2' ∷ [];
  clients = (1, waiting state) ∷ [];
  snapshot = [];
  next_client_id = 2;
  running = true;
  stopping = false;
  has_app_message = true;
}

abbrev hello : ClientHello
hello = record {
  client_name = b'M' ∷ [];
  session_code = b'a' ∷ b'b' ∷ b'c' ∷ b'd' ∷ b'e' ∷ b'f' ∷ b'g' ∷ b'2' ∷ [];
  app_version = [];
}

handle_client_hello_lem_example :
    find 1 (handle_client_hello no_text 1 hello (session_with ConnectionState.connecting)).1.clients
    ≡ (if leb 1 4
          && verify_session_code hello.session_code
              (session_with ConnectionState.connecting).session_code
        then some (record (waiting ConnectionState.connecting) {
          name = b'M' ∷ [];
          state = ConnectionState.authenticating;
        })
        else none)
unfolding find
handle_client_hello_lem_example =
    handle_client_hello_lem no_text 1 hello (waiting ConnectionState.connecting)
      (session_with ConnectionState.connecting) (tt, tt) refl refl

-- A client that supports H.264 only, 0.
handle_frame_connects_example :
    find 1
      (handle_frame no_text 1 0x0005
        (1 ∷ 0 ∷ [])
        9
        (session_with ConnectionState.authenticating)).1.clients
    ≡ some (record (waiting ConnectionState.authenticating) {
      last_activity = 9;
      state = ConnectionState.connected;
    })
unfolding find decode_message decode_known accepted wants_all read_body read_video_codec_list
    read_codecs id_of_raw negotiate_codec supports ◌>>=◌ Reader.u8 Reader.pure Reader.word
    Reader.slice from_le
handle_frame_connects_example =
    handle_frame_connects no_text 1 9 0 (1 ∷ 0 ∷ []) (0 ∷ [])
      (waiting ConnectionState.authenticating) (session_with ConnectionState.authenticating) refl
      refl refl refl refl
