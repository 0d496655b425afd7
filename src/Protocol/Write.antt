-- ===== src/Protocol/Write.antt =====
-- The writers, one for each message, and `encodeMessage`.
use iran_remote_play.Prelude.{ℕ, zero, suc, min, List, [], ◌∷◌, length}
use iran_remote_play.Prelude.Bytes.{Bytes}
use iran_remote_play.Packet.Writer.{Write, ◌>>◌, u8, u16, u32, u64, boolean, bytes, str}
use iran_remote_play.Protocol.Messages.{
  ClientHello, HostReject, HostCapabilities, NegotiationResult, InputPermission, StreamStart,
  KeyExchange, Body, Envelope,
}

abbrev pub nothing : Write
nothing buf = buf

-- `for (i = 0; i < list.size() && i < limit; ++i)`.
unfoldable pub write_codecs : ℕ → List ℕ → Write
write_codecs zero list = nothing
write_codecs (suc limit) [] = nothing
write_codecs (suc limit) (c ∷ list) = u8 c >> write_codecs limit list

unfoldable pub write_video_codec_list : List ℕ → Write
write_video_codec_list list = do u8 (min (length list) 32); write_codecs 32 list

unfoldable pub write_client_hello : ClientHello → Write
write_client_hello m = do str m.client_name; str m.session_code; str m.app_version

unfoldable pub write_host_reject : HostReject → Write
write_host_reject m = do u16 m.reason_code; str m.reason_text

unfoldable pub write_host_capabilities : HostCapabilities → Write
write_host_capabilities m = do
  str m.host_name
  str m.game_name
  u8 m.capture_mode
  u16 m.width
  u16 m.height
  u8 m.fps
  u32 m.bitrate_kbps
  write_video_codec_list m.offered_codecs

unfoldable pub write_negotiation_result : NegotiationResult → Write
write_negotiation_result m = do
  boolean m.accepted
  u8 m.codec
  u16 m.width
  u16 m.height
  u8 m.fps
  u32 m.bitrate_kbps
  str m.note

unfoldable pub write_input_permission : InputPermission → Write
write_input_permission m = do
  boolean m.controller
  boolean m.keyboard
  boolean m.mouse
  boolean m.vibration

unfoldable pub write_stream_start : StreamStart → Write
write_stream_start m = do
  u16 m.udp_port
  u32 m.session_id
  u8 m.player_index
  u8 m.codec
  u16 m.width
  u16 m.height
  u8 m.fps
  u32 m.bitrate_kbps

unfoldable pub write_key_exchange : KeyExchange → Write
write_key_exchange m = do bytes m.public_key; bytes m.salt

-- `std::visit` over the body.
unfoldable pub write_body : Body → Write
write_body (Body.client_hello m) = write_client_hello m
write_body (Body.host_reject m) = write_host_reject m
write_body Body.host_approved = nothing
write_body (Body.host_capabilities m) = write_host_capabilities m
write_body (Body.client_capabilities m) = write_video_codec_list m
write_body (Body.negotiation_result m) = write_negotiation_result m
write_body (Body.ping m) = u64 m
write_body (Body.pong m) = u64 m
write_body (Body.input_permission m) = write_input_permission m
write_body (Body.kick m) = str m
write_body (Body.bye m) = str m
write_body (Body.stream_start m) = write_stream_start m
write_body (Body.stream_stop m) = str m
write_body Body.keyframe_request = nothing
write_body (Body.key_exchange m) = write_key_exchange m
write_body Body.session_key_ready = nothing

unfoldable pub encode_message : Envelope → Bytes
encode_message e = write_body e.body []
