-- ===== src/Udp/Send.antt =====
-- `UdpTransport::sendFrame` (networking/UdpTransport.cpp): a frame cut into datagrams that share
-- one sequence number.
pub mod Split
use iran_remote_play.Prelude.{
  ℕ, zero, suc, ◌+◌, ◌-◌, ◌*◌, ◌/◌, ◌%◌, ◌^◌, ◌≤◌, ◌<◌, min, max, ◌≡◌, refl, sym, ap, ◌∙◌, subst,
  ◌≢◌, ◌⊎◌, inl, inr, Option, none, some, List, [], ◌∷◌, ◌++◌, map, Bool, true, false, ◌&&◌, ◌||◌,
  not, if◌then◌else◌, leb, ltb, ◌==◌, length, take, drop, get_or, set, replicate, arith, take-all,
  append-nil, append_assoc, Bool-cases, Option-cases, length-append, length-take, length-drop, All,
  append-eq-nil, take-append, drop-append,
}
use Prim.Native.Nat.{bit_or}
use iran_remote_play.Prelude.Bytes.{Bytes}
use iran_remote_play.Udp.Header.{
  UdpType, UdpHeader, raw_type, udp_magic, udp_version, flag_keyframe, flag_fragment,
  max_udp_payload, fragment_count_for, encode_udp_header,
}

-- The arguments of a call, with the session's id and the sequence number that it draws.
pub record Outgoing : Type 0 where
  pub type : UdpType
  pub keyframe : Bool
  pub session_id : ℕ
  pub sequence : ℕ
  pub timestamp_ns : ℕ
  pub frame : Bytes

abbrev pub fragments : Outgoing → ℕ
fragments s = fragment_count_for (length s.frame)

-- The size of the payload of fragment `fi`, cast to `uint16_t`.
unfoldable pub fragment_size : Outgoing → ℕ → ℕ
fragment_size s fi =
    let off = fi * max_udp_payload in
    (if fi + 1 == fragments s then length s.frame - off else max_udp_payload) % 2 ^ 16

unfoldable pub fragment_header : Outgoing → ℕ → UdpHeader
fragment_header s fi = record {
  magic = udp_magic;
  version = udp_version;
  type = raw_type s.type;
  flags =
      bit_or (if s.keyframe then flag_keyframe else 0)
        (if ltb 1 (fragments s) then flag_fragment else 0);
  session_id = s.session_id;
  sequence = s.sequence;
  fragment_index = fi;
  fragment_count = fragments s;
  timestamp_ns = s.timestamp_ns;
  payload_size = fragment_size s fi;
}

unfoldable pub fragment_payload : Outgoing → ℕ → Bytes
fragment_payload s fi = take (fragment_size s fi) (drop (fi * max_udp_payload) s.frame)

-- The datagrams of the loop, from fragment `fi` on for `left` rounds.
unfoldable pub send_loop : Outgoing → ℕ → ℕ → List Bytes
send_loop s fi zero = []
send_loop s fi (suc left) =
    (encode_udp_header (fragment_header s fi) ++ fragment_payload s fi) ∷ send_loop s (fi + 1) left

unfoldable pub send_frame : Outgoing → List Bytes
send_frame s = send_loop s 0 (fragments s)
