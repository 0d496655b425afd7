-- ===== src/Udp/Endpoint.antt =====
-- networking/UdpTransport.h and networking/UdpTransport.cpp: the transport's state, its peer, and what
-- it sends. The sockets are left out: a datagram that is handed to one is an effect. An endpoint is a
-- number.
use iran_remote_play.Prelude.{
  ℕ, ◌+◌, ◌-◌, ◌%◌, ◌^◌, Option, none, some, List, [], ◌∷◌, ◌++◌, Bool, true, false, ◌&&◌, ◌||◌,
  not, if◌then◌else◌, ltb, ◌==◌, length, take, get_or, set,
}
use Prim.Native.Nat.{bit_and, bit_or}
use iran_remote_play.Prelude.Bytes.{Bytes, le_bytes}
use iran_remote_play.Udp.Header.{
  UdpType, UdpHeader, raw_type, flag_encrypted, udp_magic, udp_version, max_udp_payload,
  encode_udp_header, read_header,
}
use iran_remote_play.Udp.Sequence.{SequenceTracker}
use iran_remote_play.Udp.Jitter.{AssembledFrame, JitterBuffer, pop}
use iran_remote_play.Udp.Reassembly.{Reassembler}
use iran_remote_play.Secure.Channel.{SecureChannel}

pub record Transport (D : Type 0) : Type 0 where
  pub has_socket : Bool
  pub peer : ℕ
  pub have_peer : Bool
  pub running : Bool
  pub session_id : ℕ
  pub video_reassembly : Reassembler
  pub audio_reassembly : Reassembler
  pub input_reassembly : Reassembler
  pub video_seq : SequenceTracker
  pub audio_seq : SequenceTracker
  pub video_jitter : JitterBuffer
  pub audio_jitter : JitterBuffer
  pub seq_counter : List ℕ
  pub ping_seq : ℕ
  pub last_rtt_ms : D
  pub avg_rtt_ms : D
  pub last_arrival_ns : ℕ
  pub jitter_ewma : D
  pub sent_datagrams : ℕ
  pub sent_bytes : ℕ
  pub send_errors : ℕ
  pub recv_datagrams : ℕ
  pub recv_bytes : ℕ
  pub malformed : ℕ
  pub wrong_session : ℕ
  pub has_input_cb : Bool
  pub has_control_cb : Bool
  pub secure : Option SecureChannel
  pub auth_drops : ℕ
  pub drop_unknown_remote : Bool
  pub auto_keyframe_request : Bool
  pub last_keyframe_req_ns : ℕ
  pub video_jitter_target_ms : ℕ
  pub audio_jitter_target_ms : ℕ
  pub locked_remote : Option ℕ
  pub relay_fallback : Option ℕ
  pub last_rx_abs_ns : ℕ

-- What leaves the transport: a datagram for `postDatagram`, a call of a callback, or a posted call
-- of `requestKeyframe`.
pub data Effect : Type 0 where
  sends : Bytes → Effect
  controls : UdpType → Bytes → Effect
  inputs : AssembledFrame → Effect
  requests_keyframe : Effect

-- `++` on a 64-bit counter.
abbrev pub count : ℕ → ℕ
count n = (n + 1) % 2 ^ 64

-- `secure_ && secure_->active()`.
unfoldable pub is_secure : Option SecureChannel → Bool
is_secure none = false
is_secure (some c) = c.active

abbrev pub is_encrypted : UdpHeader → Bool
is_encrypted h = not (bit_and h.flags flag_encrypted == 0)

-- `lockedRemote_ && *lockedRemote_ != ep`, and the test that no other remote is locked.
unfoldable pub locked_elsewhere : Option ℕ → ℕ → Bool
locked_elsewhere none ep = false
locked_elsewhere (some locked) ep = not (locked == ep)

unfoldable pub set_peer : {D : Type 0} → Transport D → ℕ → Transport D
set_peer t ep = record t { peer = ep; have_peer = true }

unfoldable pub lock_to_remote : {D : Type 0} → Transport D → ℕ → Transport D
lock_to_remote t ep = record t { locked_remote = some ep }

unfoldable pub poll_video : {D : Type 0} → Transport D → ℕ → List AssembledFrame × Transport D
poll_video t now =
    let popped = pop t.video_jitter now in (popped.0, record t { video_jitter = popped.1 })

unfoldable pub poll_audio : {D : Type 0} → Transport D → ℕ → List AssembledFrame × Transport D
poll_audio t now =
    let popped = pop t.audio_jitter now in (popped.0, record t { audio_jitter = popped.1 })

-- `sendSmall`: the datagram, if any, and the counter drawn from.
unfoldable pub send_small :
    {D : Type 0} → Transport D → ℕ → UdpType → Bytes → List Effect × Transport D
send_small t now type payload =
    let raw = raw_type type in
    let sequence = get_or t.seq_counter raw 0 in
    let small = take max_udp_payload payload in
    let h : UdpHeader = record {
      magic = udp_magic;
      version = udp_version;
      type = raw;
      flags = 0;
      session_id = t.session_id;
      sequence = sequence;
      fragment_index = 0;
      fragment_count = 1;
      timestamp_ns = now;
      payload_size = length small;
    } in
    if not t.running || not t.has_socket || not t.have_peer then ([], t) else (
      sends (encode_udp_header h ++ small) ∷ [],
      record t { seq_counter = set t.seq_counter raw (count sequence) },
    )

-- `sendPingOnce` without its timer: the return to the relay, then the ping.
unfoldable pub fall_back : {D : Type 0} → Transport D → ℕ → Option ℕ → Transport D
fall_back t now none = t
fall_back t now (some relay) =
    if t.have_peer
      && not (t.peer == relay)
      && not (t.last_rx_abs_ns == 0)
      && ltb 5_000_000_000 ((now + 2 ^ 64 - t.last_rx_abs_ns) % 2 ^ 64)
    then record t { peer = relay }
    else t

unfoldable pub send_ping_once : {D : Type 0} → Transport D → ℕ → List Effect × Transport D
unfolding fall_back
send_ping_once t now =
    let back = fall_back t now t.relay_fallback in
    if not t.running
    then ([], t)
    else send_small (record back { ping_seq = (t.ping_seq + 1) % 2 ^ 32 }) now UdpType.ping
        (le_bytes 8 now ++ le_bytes 4 t.ping_seq)

-- The end of `postDatagram`: what goes to the socket, which succeeds or not.
unfoldable pub transmit : {D : Type 0} → Transport D → Bytes → Bool → List Bytes × Transport D
transmit t dg succeeds = (
  dg ∷ [],
  if succeeds
      then record t {
        sent_datagrams = count t.sent_datagrams;
        sent_bytes = (t.sent_bytes + length dg) % 2 ^ 64;
      }
      else record t { send_errors = count t.send_errors },
)

-- The header that goes with a sealed payload. The datagrams that come here were encoded with the
-- magic, the version and a type, so `decodeUdpHeader` reads all fields.
unfoldable pub sealed_header : Bytes → Bytes → UdpHeader
unfolding read_header
sealed_header dg out = record (read_header dg) {
  flags = bit_or (read_header dg).flags flag_encrypted;
  payload_size = length out % 2 ^ 16;
}
