-- ===== src/Examples/Transport.antt =====
-- The transport on single datagrams.
use iran_remote_play.Prelude.{
  ℕ, ◌+◌, ◌*◌, ◌/◌, ◌≡◌, refl, ◌≢◌, ◌⊎◌, none, some, [], ◌∷◌, ◌++◌, true, false, replicate, arith,
}
use iran_remote_play.Prelude.Bytes.{Bytes, le_bytes}
use iran_remote_play.Udp.Header.{UdpHeader, udp_magic, udp_version, encode_udp_header}
use iran_remote_play.Udp.Sequence.{fresh}
use iran_remote_play.Udp.Jitter
use iran_remote_play.Udp.Reassembly
use iran_remote_play.Udp.Endpoint.{Transport}
use iran_remote_play.Udp.Transport.{Estimates, handle_datagram, post_datagram}
use iran_remote_play.Udp.Transport.Guards.{
  Refused, Ignored, media, IsOpened, handle_datagram-IsOpened, handle_datagram_locked,
}
use iran_remote_play.Udp.Transport.Sealing.{post_datagram_rebinds}
use iran_remote_play.Secure.Channel.{seal, seal_result, bound_header}
use iran_remote_play.Examples.Channel.{toy, ready_channel}

-- Whole numbers in place of doubles.
abbrev whole : Estimates
whole = record {
  Carrier = ℕ;
  millis = λ ns. ns / 1_000_000;
  average = λ a b. (4 * a + b) / 5;
  deviation = λ a b. (9 * a + b) / 10;
}

abbrev opened_socket : Transport ℕ
opened_socket = record {
  has_socket = true;
  peer = 0;
  have_peer = false;
  running = true;
  session_id = 9;
  video_reassembly = Reassembly.init;
  audio_reassembly = Reassembly.init;
  input_reassembly = Reassembly.init;
  video_seq = fresh;
  audio_seq = fresh;
  video_jitter = Jitter.init 30;
  audio_jitter = Jitter.init 30;
  seq_counter = replicate 9 0;
  ping_seq = 0;
  last_rtt_ms = 0;
  avg_rtt_ms = 0;
  last_arrival_ns = 0;
  jitter_ewma = 0;
  sent_datagrams = 0;
  sent_bytes = 0;
  send_errors = 0;
  recv_datagrams = 0;
  recv_bytes = 0;
  malformed = 0;
  wrong_session = 0;
  has_input_cb = true;
  has_control_cb = true;
  secure = none;
  auth_drops = 0;
  drop_unknown_remote = true;
  auto_keyframe_request = true;
  last_keyframe_req_ns = 0;
  video_jitter_target_ms = 30;
  audio_jitter_target_ms = 30;
  locked_remote = none;
  relay_fallback = none;
  last_rx_abs_ns = 0;
}

abbrev input_header : UdpHeader
input_header = record {
  magic = udp_magic;
  version = udp_version;
  type = 2;
  flags = 0;
  session_id = 9;
  sequence = 1;
  fragment_index = 0;
  fragment_count = 1;
  timestamp_ns = 1;
  payload_size = 1;
}

abbrev input_datagram : Bytes
input_datagram = encode_udp_header input_header ++ (7 ∷ [])

abbrev secured : Transport ℕ
secured = record opened_socket { secure = some ready_channel }

handle_datagram-IsOpened_example :
    Refused secured (handle_datagram whole toy secured 50 input_datagram 3)
    ⊎ IsOpened toy ready_channel input_datagram
handle_datagram-IsOpened_example =
    handle_datagram-IsOpened whole toy ready_channel secured 50 input_datagram 3 refl refl

abbrev locked : Transport ℕ
locked = record opened_socket { locked_remote = some 8 }

handle_datagram_locked_example :
    Ignored (media locked) (handle_datagram whole toy locked 50 input_datagram 3)
handle_datagram_locked_example =
    handle_datagram_locked whole toy locked 50 input_datagram 3 8 refl refl
      (λ e. absurd (omega (arith, e)))

abbrev sending : Transport ℕ
sending = record secured { have_peer = true; peer = 3 }

post_datagram_rebinds_example :
    (sent : Bytes) × ((post_datagram whole toy sending input_datagram true).0 ≡ sent ∷ [])
    × (bound_header sent ≢ bound_header input_datagram)
unfolding seal seal_result le_bytes encode_udp_header
post_datagram_rebinds_example =
    post_datagram_rebinds whole toy sending ready_channel input_header (7 ∷ [])
      (0 ∷ 1 ∷ 1 ∷ 1 ∷ 1 ∷ 1 ∷ 1 ∷ 1 ∷ 6 ∷ 9 ∷ 9 ∷ 9 ∷ 9 ∷ 1 ∷ 0 ∷ 0 ∷ 0 ∷ 0 ∷ 0 ∷ 0 ∷ 0 ∷ 0 ∷ 0 ∷ 0
        ∷ 0 ∷ [])
      true (omega arith) refl refl refl refl
