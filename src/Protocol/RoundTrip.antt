-- ===== src/Protocol/RoundTrip.antt =====
-- What `decodeMessage` makes of what `encodeMessage` wrote.
use iran_remote_play.Prelude.{
  ℕ, zero, suc, min, ◌≡◌, none, some, List, [], ◌∷◌, ◌++◌, ◌&&◌, not, if◌then◌else◌, ◌==◌, length,
  take, replicate, arith, All,
}
use native.Mathlib.Numerals.{unary_clauses}
use iran_remote_play.Prelude.Bytes.{Bytes}
use iran_remote_play.Packet.Writer.{max_string}
use iran_remote_play.Packet.Reader.{reader}
use iran_remote_play.Packet.Laws.{
  Undoes, Undoes-pure, Undoes-bind, Undoes-last, Undoes-u8, Undoes-u16, Undoes-u32, Undoes-u64,
  Undoes-boolean, Undoes-bytes, Undoes-str,
}
use iran_remote_play.Protocol.Ids.{MsgId, raw_id, id_of_raw-raw_id}
use iran_remote_play.Protocol.Messages.{Body, Envelope, id_of, IsU8, InRange}
use iran_remote_play.Protocol.Write.{
  write_codecs, write_video_codec_list, write_client_hello, write_host_reject,
  write_host_capabilities, write_negotiation_result, write_input_permission, write_stream_start,
  write_key_exchange, write_body, encode_message,
}
use iran_remote_play.Protocol.Read.{
  read_codecs, read_video_codec_list, read_client_hello, read_host_reject, read_host_capabilities,
  read_negotiation_result, read_input_permission, read_stream_start, read_key_exchange, read_body,
  wants_all, accepted, decode_known, decode_message,
}

-- A message as it comes back: strings cut to 1024 bytes, codec lists to 32 entries.
abbrev cut : Bytes → Bytes
cut = take max_string

abbrev pub canonical : Body → Body
canonical (Body.client_hello m) = Body.client_hello (record {
  client_name = cut m.client_name;
  session_code = cut m.session_code;
  app_version = cut m.app_version;
})
canonical (Body.host_reject m) = Body.host_reject (record m { reason_text = cut m.reason_text })
canonical (Body.host_capabilities m) = Body.host_capabilities (record m {
  host_name = cut m.host_name;
  game_name = cut m.game_name;
  offered_codecs = take 32 m.offered_codecs;
})
canonical (Body.client_capabilities m) = Body.client_capabilities (take 32 m)
canonical (Body.negotiation_result m) = Body.negotiation_result (record m { note = cut m.note })
canonical (Body.kick m) = Body.kick (cut m)
canonical (Body.bye m) = Body.bye (cut m)
canonical (Body.stream_stop m) = Body.stream_stop (cut m)
canonical m = m

Undoes-codecs :
    (limit : ℕ) (list : List ℕ)
    → All IsU8 list
    → Undoes (write_codecs limit list) (read_codecs (min (length list) limit)) (take limit list)
unfolding write_codecs read_codecs
Undoes-codecs zero list h = rw (min-zero (length list)) (Undoes-pure [])
  where
    min-zero : (n : ℕ) → min n 0 ≡ 0
    min-zero n = omega arith
Undoes-codecs (suc limit) [] h = simp unary_clauses (Undoes-pure [])
Undoes-codecs (suc limit) (c ∷ list) (hc, h) =
    rw (min-suc (length list) limit)
      (Undoes-bind _ (Undoes-u8 c hc) (Undoes-last _ (Undoes-codecs limit list h)))
  where
    min-suc : (n k : ℕ) → min (suc n) (suc k) ≡ suc (min n k)
    min-suc n k = omega arith

Undoes-codec_list :
    (list : List ℕ)
    → All IsU8 list
    → Undoes (write_video_codec_list list) read_video_codec_list (take 32 list)
unfolding write_video_codec_list read_video_codec_list
Undoes-codec_list list h =
    Undoes-bind _ (Undoes-u8 (min (length list) 32) (omega arith)) (Undoes-codecs 32 list h)

-- Every writer is undone by the reader of its message.
pub Undoes-body : (m : Body) → InRange m → Undoes (write_body m) (read_body (id_of m)) (canonical m)
unfolding write_body read_body id_of write_client_hello write_host_reject write_host_capabilities
    write_negotiation_result write_input_permission write_stream_start write_key_exchange
    read_client_hello read_host_reject read_host_capabilities read_negotiation_result
    read_input_permission read_stream_start read_key_exchange
Undoes-body (Body.client_hello m) h = Undoes-last _ (
    Undoes-bind _ (Undoes-str m.client_name)
      (Undoes-bind _ (Undoes-str m.session_code) (Undoes-last _ (Undoes-str m.app_version))))
Undoes-body (Body.host_reject m) h =
    Undoes-last _
      (Undoes-bind _ (Undoes-u16 m.reason_code h) (Undoes-last _ (Undoes-str m.reason_text)))
Undoes-body Body.host_approved h = Undoes-pure Body.host_approved
Undoes-body (Body.host_capabilities m) (h0, h1, h2, h3, h4, h5) = Undoes-last _ (
    Undoes-bind _ (Undoes-str m.host_name) (
      Undoes-bind _ (Undoes-str m.game_name) (
        Undoes-bind _ (Undoes-u8 m.capture_mode h0) (
          Undoes-bind _ (Undoes-u16 m.width h1) (
            Undoes-bind _ (Undoes-u16 m.height h2) (
              Undoes-bind _ (Undoes-u8 m.fps h3) (
                Undoes-bind _ (Undoes-u32 m.bitrate_kbps h4)
                  (Undoes-last _ (Undoes-codec_list m.offered_codecs h5)))))))))
Undoes-body (Body.client_capabilities m) h = Undoes-last _ (Undoes-codec_list m h)
Undoes-body (Body.negotiation_result m) (h0, h1, h2, h3, h4) = Undoes-last _ (
    Undoes-bind _ (Undoes-boolean m.accepted) (
      Undoes-bind _ (Undoes-u8 m.codec h0) (
        Undoes-bind _ (Undoes-u16 m.width h1) (
          Undoes-bind _ (Undoes-u16 m.height h2) (
            Undoes-bind _ (Undoes-u8 m.fps h3) (
              Undoes-bind _ (Undoes-u32 m.bitrate_kbps h4) (Undoes-last _ (Undoes-str m.note))))))))
Undoes-body (Body.ping m) h = Undoes-last _ (Undoes-u64 m h)
Undoes-body (Body.pong m) h = Undoes-last _ (Undoes-u64 m h)
Undoes-body (Body.input_permission m) h = Undoes-last _ (
    Undoes-bind _ (Undoes-boolean m.controller) (
      Undoes-bind _ (Undoes-boolean m.keyboard)
        (Undoes-bind _ (Undoes-boolean m.mouse) (Undoes-last _ (Undoes-boolean m.vibration)))))
Undoes-body (Body.kick m) h = Undoes-last _ (Undoes-str m)
Undoes-body (Body.bye m) h = Undoes-last _ (Undoes-str m)
Undoes-body (Body.stream_start m) (h0, h1, h2, h3, h4, h5, h6, h7) = Undoes-last _ (
    Undoes-bind _ (Undoes-u16 m.udp_port h0) (
      Undoes-bind _ (Undoes-u32 m.session_id h1) (
        Undoes-bind _ (Undoes-u8 m.player_index h2) (
          Undoes-bind _ (Undoes-u8 m.codec h3) (
            Undoes-bind _ (Undoes-u16 m.width h4) (
              Undoes-bind _ (Undoes-u16 m.height h5) (
                Undoes-bind _ (Undoes-u8 m.fps h6)
                  (Undoes-last _ (Undoes-u32 m.bitrate_kbps h7)))))))))
Undoes-body (Body.stream_stop m) h = Undoes-last _ (Undoes-str m)
Undoes-body Body.keyframe_request h = Undoes-pure Body.keyframe_request
Undoes-body (Body.key_exchange m) (h0, h1) = Undoes-last _ (
    Undoes-bind _ (Undoes-bytes m.public_key (replicate 64 0) 64 h0)
      (Undoes-last _ (Undoes-bytes m.salt (replicate 16 0) 16 h1)))
Undoes-body Body.session_key_ready h = Undoes-pure Body.session_key_ready

-- An envelope whose type is that of its body.
abbrev pub envelope : Body → Envelope
envelope m = record { type = id_of m; body = m }

pub encode_message-written :
    (m : Body) (h : InRange m) → encode_message (envelope m) ≡ (Undoes-body m h).written
unfolding encode_message
encode_message-written m h = (Undoes-body m h).writes []

-- What a reader that has read everything but `more` makes of it.
accepted_reader :
    (id : MsgId) (more : Bytes)
    → accepted id (reader more) ≡ not (wants_all id && not (length more == 0))
unfolding accepted
accepted_reader id more = ground arith

decode_known_lem :
    (id : MsgId) (input more : Bytes) (m : Body)
    → read_body id (reader input) ≡ (m, reader more)
    → decode_known id input ≡ (
        if wants_all id && not (length more == 0)
        then none
        else some (record { type = id; body = m }))
unfolding decode_known
decode_known_lem id input more m h = rw h (ground (arith, accepted_reader id more))

pub decode_message-raw_id :
    (id : MsgId) (input : Bytes) → decode_message (raw_id id) input ≡ decode_known id input
unfolding decode_message
decode_message-raw_id id input = ground (arith, id_of_raw-raw_id id)

-- Decoding under its own id what `encodeMessage` wrote for a body with any bytes behind it gives
-- the message back, cut to the caps. Bytes behind it are refused exactly if the id is one whose
-- reader checks `remaining()`.
pub decode_message-encode_message :
    (m : Body) (more : Bytes)
    → InRange m
    → decode_message (raw_id (id_of m)) (encode_message (envelope m) ++ more) ≡ (
        if wants_all (id_of m) && not (length more == 0)
        then none
        else some (record { type = id_of m; body = canonical m }))
decode_message-encode_message m more h =
    let u = Undoes-body m h in
    rw (decode_message-raw_id, encode_message-written m h)
      (decode_known_lem (id_of m) (u.written ++ more) more (canonical m) (u.reads more))
