-- ===== src/Udp/Transport.antt =====
-- networking/UdpTransport.cpp: what a datagram does to the transport, and `postDatagram`. A call
-- reads the clock once, as the argument `now`.
use iran_remote_play.Prelude.{
  ℕ, zero, suc, ◌+◌, ◌-◌, ◌*◌, ◌/◌, ◌%◌, ◌^◌, ◌≤◌, ◌<◌, min, max, ◌≡◌, refl, sym, ap, ◌∙◌, subst,
  ◌≢◌, ◌↔◌, ◌⊎◌, inl, inr, Option, none, some, List, [], ◌∷◌, ◌++◌, map, Bool, true, false, ◌&&◌,
  ◌||◌, not, if◌then◌else◌, leb, ltb, ◌==◌, length, take, drop, get_or, set, replicate, arith,
  take-all, append-nil, append_assoc, Bool-cases, Option-cases, length-append, length-take,
  length-drop, All, append-eq-nil, take-append, drop-append,
}
use Prim.Native.Nat.{bit_and, bit_or}
use iran_remote_play.Prelude.Int.{ℤ, pos, negsuc}
use iran_remote_play.Prelude.Bytes.{Bytes, le_bytes, from_le}
use iran_remote_play.Udp.Header.{
  UdpType, UdpHeader, raw_type, type_of_raw, flag_encrypted, udp_magic, udp_version,
  udp_header_size, max_udp_payload, encode_udp_header, decode_udp_header, read_header,
}
use iran_remote_play.Udp.Sequence.{SequenceTracker, track}
use iran_remote_play.Udp.Jitter.{AssembledFrame, JitterBuffer, pop, set_target_ms, push}
use iran_remote_play.Udp.Reassembly.{Reassembler, fault, returns, feed, gc}
use iran_remote_play.Secure.Crypto.{Cng}
use iran_remote_play.Secure.Channel.{SecureChannel, open_sealed, seal}
pub mod Guards
pub mod Sealing
use iran_remote_play.Udp.Endpoint.{
  Effect, Transport, controls, count, fall_back, inputs, is_encrypted, is_secure, lock_to_remote,
  locked_elsewhere, poll_audio, poll_video, requests_keyframe, sealed_header, send_ping_once,
  send_small, sends, set_peer, transmit,
}

-- What the code computes on doubles: a number of nanoseconds in milliseconds, the running average
-- of the round trip, and the running estimate of the jitter.
pub record Estimates : Type 1 where
  pub Carrier : Type 0
  pub millis : ℕ → Carrier
  pub average : Carrier → Carrier → Carrier
  pub deviation : Carrier → ℕ → Carrier

-- `faulted` is the undefined behaviour of a reassembler.
pub data Handled (D : Type 0) : Type 0 where
  faulted : Handled D
  done : List Effect → Transport D → Handled D

-- `handleMediaComplete`.
unfoldable pub handle_media_complete :
    {D : Type 0} → Transport D → ℕ → AssembledFrame → List Effect × Transport D
handle_media_complete t now frame = elim frame.type [
  | UdpType.input ↦ (if t.has_input_cb then inputs frame ∷ [] else [], t)
  | UdpType.video ↦ (
    [],
    record t {
      video_jitter = push (set_target_ms t.video_jitter t.video_jitter_target_ms) frame now;
    },
  )
  | UdpType.audio ↦ (
    [],
    record t {
      audio_jitter = push (set_target_ms t.audio_jitter t.audio_jitter_target_ms) frame now;
    },
  )
  | _ ↦ ([], t)
]

-- `if (complete) handleMediaComplete(std::move(frame));` after earlier effects.
unfoldable pub complete_with :
    {D : Type 0} → Transport D → ℕ → List Effect → Option AssembledFrame → Handled D
complete_with t now effects none = done effects t
complete_with t now effects (some frame) =
    let handled = handle_media_complete t now frame in done (effects ++ handled.0) handled.1

-- A gap of more than one number.
unfoldable pub is_gap : ℤ → Bool
is_gap (pos n) = ltb 1 n
is_gap (negsuc n) = false

-- The case of a video datagram after the reassembler, with the result of `track`.
unfoldable pub request_keyframe : {D : Type 0} → Transport D → ℕ → ℤ → List Effect × Transport D
request_keyframe t now gap =
    if is_gap gap
      && t.auto_keyframe_request
      && ltb 500_000_000 ((now + 2 ^ 64 - t.last_keyframe_req_ns) % 2 ^ 64)
    then (requests_keyframe ∷ [], record t { last_keyframe_req_ns = now })
    else ([], t)

unfoldable pub video : {D : Type 0} → Transport D → ℕ → UdpHeader → Bytes → Handled D
video t now h payload =
    let tracked = track t.video_seq h.sequence in
    elim (feed h payload t.video_reassembly) [
      | fault ↦ faulted
      | returns frame r ↦
          let asked =
            request_keyframe (record t { video_seq = tracked.1; video_reassembly = gc r }) now
              tracked.0 in
          complete_with asked.1 now asked.0 frame
    ]

unfoldable pub audio : {D : Type 0} → Transport D → ℕ → UdpHeader → Bytes → Handled D
audio t now h payload =
    let tracked = track t.audio_seq h.sequence in
    elim (feed h payload t.audio_reassembly) [
      | fault ↦ faulted
      | returns frame r ↦
          complete_with (record t { audio_seq = tracked.1; audio_reassembly = gc r }) now [] frame
    ]

unfoldable pub input : {D : Type 0} → Transport D → ℕ → UdpHeader → Bytes → Handled D
input t now h payload = elim (feed h payload t.input_reassembly) [
  | fault ↦ faulted
  | returns frame r ↦ complete_with (record t { input_reassembly = r }) now [] frame
]

unfoldable pub control : {D : Type 0} → Transport D → UdpType → Bytes → Handled D
control t type payload = done (if t.has_control_cb then controls type payload ∷ [] else []) t

-- The peer that an accepted datagram from `from` leaves.
unfoldable pub learn_peer : {D : Type 0} → Transport D → UdpHeader → ℕ → Transport D
unfolding set_peer
learn_peer t h from =
    if not t.have_peer
    then set_peer t from
    else if is_secure t.secure
        && is_encrypted h
        && not (t.peer == from)
        && not (locked_elsewhere t.locked_remote t.peer)
    then record t { peer = from }
    else t

module _ (estimates : Estimates) (cng : Cng) where
  -- What `open` gave, and the channel after it.
  unfoldable pub unlocked :
      Transport estimates.Carrier
      → Option Bytes × SecureChannel
      → Option Bytes × Transport estimates.Carrier
  unlocked t (none, c) = (none, record t { secure = some c; auth_drops = count t.auth_drops })
  unlocked t (some clear, c) = (some clear, record t { secure = some c })

  unfoldable pub open_with :
      Transport estimates.Carrier
      → Bytes
      → Bytes
      → Option SecureChannel
      → Option Bytes × Transport estimates.Carrier
  open_with t buf payload none = (none, record t { auth_drops = count t.auth_drops })
  open_with t buf payload (some c) = unlocked t (open_sealed cng c buf payload)

  -- The payload in the clear, or none where the datagram is dropped.
  unfoldable pub decrypt :
      Transport estimates.Carrier → Bytes → UdpHeader → Option Bytes × Transport estimates.Carrier
  decrypt t buf h =
      let payload = take h.payload_size (drop udp_header_size buf) in
      if is_encrypted h
      then open_with t buf payload t.secure
      else if is_secure t.secure
      then (none, record t { auth_drops = count t.auth_drops })
      else (some payload, t)

  unfoldable pub estimate_jitter : Transport estimates.Carrier → ℕ → Transport estimates.Carrier
  estimate_jitter t now = record t {
    jitter_ewma =
        if not (t.last_arrival_ns == 0) && ltb t.last_arrival_ns now
        then estimates.deviation t.jitter_ewma (now - t.last_arrival_ns)
        else t.jitter_ewma;
    last_arrival_ns = now;
  }

  unfoldable pub pong : Transport estimates.Carrier → ℕ → Bytes → Handled estimates.Carrier
  pong t now payload =
      let sent = from_le (take 8 payload) in
      let rtt = estimates.millis (now - sent) in
      if leb 12 (length payload) && leb sent now
      then done [] (record t { last_rtt_ms = rtt; avg_rtt_ms = estimates.average t.avg_rtt_ms rtt })
      else done [] t

  -- The two `switch` statements on the type.
  unfoldable pub dispatch :
      Transport estimates.Carrier → ℕ → UdpHeader → Bytes → Handled estimates.Carrier
  dispatch t now h payload = elim (type_of_raw h.type) [
    | UdpType.ping ↦ let sent = send_small t now UdpType.pong payload in done sent.0 sent.1
    | UdpType.pong ↦ pong t now payload
    | UdpType.video ↦ video t now h payload
    | UdpType.audio ↦ audio t now h payload
    | UdpType.input ↦ input t now h payload
    | type ↦ control t type payload
  ]

  -- From the plaintext on.
  unfoldable pub accept :
      Transport estimates.Carrier → ℕ → UdpHeader → ℕ → Bytes → Handled estimates.Carrier
  accept t now h from payload =
      let known = learn_peer t h from in
      if known.drop_unknown_remote && locked_elsewhere known.locked_remote from
      then done [] known
      else dispatch (estimate_jitter known now) now
          (record h { payload_size = length payload % 2 ^ 16 }) payload

  -- After the decryption.
  unfoldable pub admitted :
      ℕ → UdpHeader → ℕ → Option Bytes × Transport estimates.Carrier → Handled estimates.Carrier
  admitted now h from (none, t) = done [] t
  admitted now h from (some payload, t) = accept t now h from payload

  -- From the decoded header on.
  unfoldable pub admit :
      Transport estimates.Carrier → ℕ → Bytes → UdpHeader → ℕ → Handled estimates.Carrier
  admit t now buf h from =
      if not (t.session_id == 0) && not (h.session_id == t.session_id)
      then done [] (record t { wrong_session = count t.wrong_session })
      else admitted now h from (decrypt (record t { last_rx_abs_ns = now }) buf h)

  unfoldable pub decoded :
      Transport estimates.Carrier → ℕ → Bytes → ℕ → Option UdpHeader → Handled estimates.Carrier
  decoded t now buf from none = done [] (record t { malformed = count t.malformed })
  decoded t now buf from (some h) = admit t now buf h from

  unfoldable pub handle_datagram :
      Transport estimates.Carrier → ℕ → Bytes → ℕ → Handled estimates.Carrier
  handle_datagram t now buf from =
      let counted : Transport estimates.Carrier = record t {
        recv_datagrams = count t.recv_datagrams;
        recv_bytes = (t.recv_bytes + length buf) % 2 ^ 64;
      } in
      decoded counted now buf from (decode_udp_header buf)

  unfoldable pub post_datagram :
      Transport estimates.Carrier → Bytes → Bool → List Bytes × Transport estimates.Carrier
  post_datagram t dg succeeds =
      if not t.has_socket || not t.have_peer then ([], t) else elim t.secure [
        | none ↦ transmit t dg succeeds
        | some c ↦
            let sealed = seal cng c dg (drop udp_header_size dg) in
            elim sealed.0 [
              | none ↦ ([], record t { secure = some sealed.1 })
              | some out ↦
                  transmit (record t { secure = some sealed.1 })
                    (encode_udp_header (sealed_header dg out) ++ out) succeeds
            ]
      ]
