-- ===== src/Examples/Control.antt =====
-- The control channel on small messages.
use iran_remote_play.Prelude.{
  ℕ, ◌≡◌, refl, none, some, [], ◌∷◌, ◌++◌, ◌&&◌, not, if◌then◌else◌, leb, ◌==◌, arith, All,
}
use mathlib.Core.List.{Mem}
use iran_remote_play.Prelude.Bytes.{le_bytes}
use iran_remote_play.Packet.Frame.{
  frame_magic, frame_version, max_control_payload, make_frame, parse_frame_header,
  parse_frame_header-make_frame,
}
use iran_remote_play.Packet.Writer
use iran_remote_play.Packet.Writer.{◌>>◌}
use iran_remote_play.Protocol.Ids.{raw_id}
use iran_remote_play.Protocol.Messages.{Body, id_of}
use iran_remote_play.Protocol.Write.{encode_message, write_body}
use iran_remote_play.Protocol.Read.{decode_message, wants_all}
use iran_remote_play.Protocol.RoundTrip.{envelope, canonical, decode_message-encode_message}
use iran_remote_play.Protocol.Reject.{decode_message_truncated}
use iran_remote_play.Protocol.Negotiate.{negotiate_codec, IsFirst, negotiate_codec-IsFirst}

parse_frame_header-make_frame_example :
    parse_frame_header (make_frame 0x10 (1 ∷ 2 ∷ []) ++ (9 ∷ [])) ≡ (
      if leb 2 max_control_payload
      then some (record {
        magic = frame_magic;
        version = frame_version;
        type = 0x10;
        flags = 0;
        payload_size = 2;
      })
      else none)
parse_frame_header-make_frame_example =
    parse_frame_header-make_frame 0x10 (1 ∷ 2 ∷ []) (9 ∷ []) (omega arith) (omega arith)

-- A ping, whose reader checks the end, and a byte behind it.
abbrev a_ping : Body
a_ping = Body.ping 77

decode_message-encode_message_example :
    decode_message (raw_id (id_of a_ping)) (encode_message (envelope a_ping) ++ (3 ∷ [])) ≡ (
      if wants_all (id_of a_ping) && not (1 == 0)
      then none
      else some (record { type = id_of a_ping; body = canonical a_ping }))
decode_message-encode_message_example = decode_message-encode_message a_ping (3 ∷ []) (omega arith)

decode_message_truncated_example : decode_message (raw_id (id_of a_ping)) (77 ∷ 0 ∷ []) ≡ none
unfolding encode_message write_body Writer.u64 le_bytes
decode_message_truncated_example =
    decode_message_truncated a_ping (77 ∷ 0 ∷ []) 0 (0 ∷ 0 ∷ 0 ∷ 0 ∷ 0 ∷ []) (omega arith) refl

negotiate_codec-IsFirst_example :
    ((c : ℕ) → negotiate_codec (2 ∷ 1 ∷ []) (1 ∷ []) ≡ some c → IsFirst (2 ∷ 1 ∷ []) (1 ∷ []) c)
    × (negotiate_codec (2 ∷ 1 ∷ []) (1 ∷ []) ≡ none
        → All (λ (d : ℕ). ¬ Mem d (1 ∷ [])) (2 ∷ 1 ∷ []))
negotiate_codec-IsFirst_example = negotiate_codec-IsFirst (2 ∷ 1 ∷ []) (1 ∷ [])
