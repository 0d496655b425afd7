-- ===== src/Protocol/Read.antt =====
-- The readers, one for each message, and `decodeMessage`.
use iran_remote_play.Prelude.{
  ℕ, zero, suc, Option, none, some, List, [], ◌∷◌, Bool, true, false, ◌&&◌, if◌then◌else◌, ◌==◌,
  replicate,
}
use iran_remote_play.Prelude.Bytes.{Bytes}
use iran_remote_play.Packet.Reader.{
  Reader, reader, Read, ◌>>=◌, pure, remaining, u8, u16, u32, u64, boolean, bytes, str,
}
use iran_remote_play.Protocol.Ids.{MsgId, id_of_raw}
use iran_remote_play.Protocol.Messages.{
  ClientHello, HostReject, HostCapabilities, NegotiationResult, InputPermission, StreamStart,
  KeyExchange, Body, Envelope,
}

-- The loop of `readVideoCodecList`, which does not stop at a failed read.
unfoldable pub read_codecs : ℕ → Read (List ℕ)
read_codecs zero = pure []
read_codecs (suc n) = do c ← u8; list ← read_codecs n; pure (c ∷ list)

unfoldable pub read_video_codec_list : Read (List ℕ)
read_video_codec_list = do n ← u8; read_codecs n

unfoldable pub read_client_hello : Read ClientHello
read_client_hello = do
  client_name ← str
  session_code ← str
  app_version ← str
  pure
      (record { client_name = client_name; session_code = session_code; app_version = app_version })

unfoldable pub read_host_reject : Read HostReject
read_host_reject = do
  reason_code ← u16
  reason_text ← str
  pure (record { reason_code = reason_code; reason_text = reason_text })

unfoldable pub read_host_capabilities : Read HostCapabilities
read_host_capabilities = do
  host_name ← str
  game_name ← str
  capture_mode ← u8
  width ← u16
  height ← u16
  fps ← u8
  bitrate_kbps ← u32
  offered_codecs ← read_video_codec_list
  pure (record {
    host_name = host_name;
    game_name = game_name;
    capture_mode = capture_mode;
    width = width;
    height = height;
    fps = fps;
    bitrate_kbps = bitrate_kbps;
    offered_codecs = offered_codecs;
  })

unfoldable pub read_negotiation_result : Read NegotiationResult
read_negotiation_result = do
  accepted ← boolean
  codec ← u8
  width ← u16
  height ← u16
  fps ← u8
  bitrate_kbps ← u32
  note ← str
  pure (record {
    accepted = accepted;
    codec = codec;
    width = width;
    height = height;
    fps = fps;
    bitrate_kbps = bitrate_kbps;
    note = note;
  })

unfoldable pub read_input_permission : Read InputPermission
read_input_permission = do
  controller ← boolean
  keyboard ← boolean
  mouse ← boolean
  vibration ← boolean
  pure (record {
    controller = controller;
    keyboard = keyboard;
    mouse = mouse;
    vibration = vibration;
  })

unfoldable pub read_stream_start : Read StreamStart
read_stream_start = do
  udp_port ← u16
  session_id ← u32
  player_index ← u8
  codec ← u8
  width ← u16
  height ← u16
  fps ← u8
  bitrate_kbps ← u32
  pure (record {
    udp_port = udp_port;
    session_id = session_id;
    player_index = player_index;
    codec = codec;
    width = width;
    height = height;
    fps = fps;
    bitrate_kbps = bitrate_kbps;
  })

-- Both vectors are resized before the read.
unfoldable pub read_key_exchange : Read KeyExchange
read_key_exchange = do
  public_key ← bytes (replicate 64 0) 64
  salt ← bytes (replicate 16 0) 16
  pure (record { public_key = public_key; salt = salt })

-- The reader of each message, into the variant.
unfoldable pub read_body : MsgId → Read Body
read_body MsgId.client_hello = do m ← read_client_hello; pure (Body.client_hello m)
read_body MsgId.host_reject = do m ← read_host_reject; pure (Body.host_reject m)
read_body MsgId.host_approved = pure Body.host_approved
read_body MsgId.host_capabilities = do m ← read_host_capabilities; pure (Body.host_capabilities m)
read_body MsgId.client_capabilities = do
  m ← read_video_codec_list
  pure (Body.client_capabilities m)
read_body MsgId.negotiation_result = do
  m ← read_negotiation_result
  pure (Body.negotiation_result m)
read_body MsgId.ping = do m ← u64; pure (Body.ping m)
read_body MsgId.pong = do m ← u64; pure (Body.pong m)
read_body MsgId.input_permission = do m ← read_input_permission; pure (Body.input_permission m)
read_body MsgId.kick = do m ← str; pure (Body.kick m)
read_body MsgId.bye = do m ← str; pure (Body.bye m)
read_body MsgId.stream_start = do m ← read_stream_start; pure (Body.stream_start m)
read_body MsgId.stream_stop = do m ← str; pure (Body.stream_stop m)
read_body MsgId.keyframe_request = pure Body.keyframe_request
read_body MsgId.key_exchange = do m ← read_key_exchange; pure (Body.key_exchange m)
read_body MsgId.session_key_ready = pure Body.session_key_ready

-- Which readers end in `return r.ok() && r.remaining() == 0`; the others end in `return r.ok()`.
unfoldable pub wants_all : MsgId → Bool
wants_all MsgId.host_approved = true
wants_all MsgId.ping = true
wants_all MsgId.pong = true
wants_all MsgId.input_permission = true
wants_all MsgId.stream_start = true
wants_all MsgId.keyframe_request = true
wants_all MsgId.key_exchange = true
wants_all MsgId.session_key_ready = true
wants_all _ = false

-- What a reader returns.
unfoldable pub accepted : MsgId → Reader → Bool
unfolding wants_all
accepted id r = if wants_all id then r.ok && remaining r == 0 else r.ok

unfoldable pub decode_known : MsgId → Bytes → Option Envelope
unfolding accepted
decode_known id input =
    let (body, r) = read_body id (reader input) in
    if accepted id r then some (record { type = id; body = body }) else none

unfoldable pub decode_message : ℕ → Bytes → Option Envelope
unfolding decode_known
decode_message raw input = elim (id_of_raw raw) [ none ↦ none | some id ↦ decode_known id input ]
