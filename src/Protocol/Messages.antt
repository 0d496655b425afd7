-- ===== src/Protocol/Messages.antt =====
-- The message structs of `rp::proto::msg`, the variant over them, and the envelope.
use iran_remote_play.Prelude.{ℕ, ◌<◌, ◌^◌, ◌≡◌, List, Bool, length, All}
use iran_remote_play.Prelude.Bytes.{Bytes}
use iran_remote_play.Protocol.Ids.{MsgId}

pub record ClientHello : Type 0 where
  pub client_name : Bytes
  pub session_code : Bytes
  pub app_version : Bytes

pub record HostReject : Type 0 where
  pub reason_code : ℕ
  pub reason_text : Bytes

pub record HostCapabilities : Type 0 where
  pub host_name : Bytes
  pub game_name : Bytes
  pub capture_mode : ℕ
  pub width : ℕ
  pub height : ℕ
  pub fps : ℕ
  pub bitrate_kbps : ℕ
  pub offered_codecs : List ℕ

pub record NegotiationResult : Type 0 where
  pub accepted : Bool
  pub codec : ℕ
  pub width : ℕ
  pub height : ℕ
  pub fps : ℕ
  pub bitrate_kbps : ℕ
  pub note : Bytes

pub record InputPermission : Type 0 where
  pub controller : Bool
  pub keyboard : Bool
  pub mouse : Bool
  pub vibration : Bool

pub record StreamStart : Type 0 where
  pub udp_port : ℕ
  pub session_id : ℕ
  pub player_index : ℕ
  pub codec : ℕ
  pub width : ℕ
  pub height : ℕ
  pub fps : ℕ
  pub bitrate_kbps : ℕ

pub record KeyExchange : Type 0 where
  pub public_key : Bytes
  pub salt : Bytes

-- A message with one field is that field; one with none has no argument.
pub data Body : Type 0 where
  client_hello : ClientHello → Body
  host_reject : HostReject → Body
  host_approved : Body
  host_capabilities : HostCapabilities → Body
  client_capabilities : List ℕ → Body
  negotiation_result : NegotiationResult → Body
  ping : ℕ → Body
  pong : ℕ → Body
  input_permission : InputPermission → Body
  kick : Bytes → Body
  bye : Bytes → Body
  stream_start : StreamStart → Body
  stream_stop : Bytes → Body
  keyframe_request : Body
  key_exchange : KeyExchange → Body
  session_key_ready : Body

pub record Envelope : Type 0 where
  pub type : MsgId
  pub body : Body

-- The id that belongs to a body.
unfoldable pub id_of : Body → MsgId
id_of (client_hello m) = MsgId.client_hello
id_of (host_reject m) = MsgId.host_reject
id_of host_approved = MsgId.host_approved
id_of (host_capabilities m) = MsgId.host_capabilities
id_of (client_capabilities m) = MsgId.client_capabilities
id_of (negotiation_result m) = MsgId.negotiation_result
id_of (ping m) = MsgId.ping
id_of (pong m) = MsgId.pong
id_of (input_permission m) = MsgId.input_permission
id_of (kick m) = MsgId.kick
id_of (bye m) = MsgId.bye
id_of (stream_start m) = MsgId.stream_start
id_of (stream_stop m) = MsgId.stream_stop
id_of keyframe_request = MsgId.keyframe_request
id_of (key_exchange m) = MsgId.key_exchange
id_of session_key_ready = MsgId.session_key_ready

abbrev pub IsU8 : ℕ → Type 0
IsU8 n = n < 256

-- The ranges of the C++ field types; for a key exchange, the sizes that its sender gives it.
abbrev pub InRange : Body → Type 0
InRange (host_reject m) = m.reason_code < 2 ^ 16
InRange (host_capabilities m) =
    IsU8 m.capture_mode
    × (m.width < 2 ^ 16)
    × (m.height < 2 ^ 16)
    × IsU8 m.fps
    × (m.bitrate_kbps < 2 ^ 32)
    × All IsU8 m.offered_codecs
InRange (client_capabilities m) = All IsU8 m
InRange (negotiation_result m) =
    IsU8 m.codec × (m.width < 2 ^ 16) × (m.height < 2 ^ 16) × IsU8 m.fps × (m.bitrate_kbps < 2 ^ 32)
InRange (ping m) = m < 2 ^ 64
InRange (pong m) = m < 2 ^ 64
InRange (stream_start m) =
    (m.udp_port < 2 ^ 16)
    × (m.session_id < 2 ^ 32)
    × IsU8 m.player_index
    × IsU8 m.codec
    × (m.width < 2 ^ 16)
    × (m.height < 2 ^ 16)
    × IsU8 m.fps
    × (m.bitrate_kbps < 2 ^ 32)
InRange (key_exchange m) = (length m.public_key ≡ 64) × (length m.salt ≡ 16)
InRange _ = Unit {0}
