-- ===== src/Udp/Header.antt =====
-- `UdpHeader`, `encodeUdpHeader`, `decodeUdpHeader`, `fragmentCountFor`. `memcpy` of a word is its
-- little-endian bytes (both ends are x86-64).
use iran_remote_play.Prelude.{
  ap, ◌∙◌, Bool, ℕ, ◌+◌, ◌-◌, ◌/◌, ◌%◌, ◌^◌, ◌<◌, ◌≡◌, refl, Option, none, some, [], ◌∷◌, ◌++◌,
  Bool, ◌&&◌, not, if◌then◌else◌, leb, ltb, ◌==◌, length, take, drop, get_or, arith, length-append,
}
use iran_remote_play.Prelude.Bytes.{Bytes, le_bytes, from_le, from_le-le_bytes}

pub data UdpType : Type 0 where
  video audio input control ping pong keyframe_request stream_start stream_stop : UdpType

unfoldable pub raw_type : UdpType → ℕ
raw_type video = 0
raw_type audio = 1
raw_type input = 2
raw_type control = 3
raw_type ping = 4
raw_type pong = 5
raw_type keyframe_request = 6
raw_type stream_start = 7
raw_type stream_stop = 8

-- `static_cast<UdpType>` of a type that `decodeUdpHeader` has accepted.
unfoldable pub type_of_raw : ℕ → UdpType
type_of_raw raw =
    if raw == 0
    then video
    else if raw == 1
    then audio
    else if raw == 2
    then input
    else if raw == 3
    then control
    else if raw == 4
    then ping
    else if raw == 5
    then pong
    else if raw == 6
    then keyframe_request
    else if raw == 7
    then stream_start
    else stream_stop

abbrev pub flag_fragment : ℕ
flag_fragment = 0x01

abbrev pub flag_keyframe : ℕ
flag_keyframe = 0x02

abbrev pub flag_encrypted : ℕ
flag_encrypted = 0x04

abbrev pub udp_magic : ℕ
udp_magic = 0x5252

abbrev pub udp_version : ℕ
udp_version = 0x01

-- The sum that the source writes; its comment says 30.
abbrev pub udp_header_size : ℕ
udp_header_size = 2 + 1 + 1 + 1 + 4 + 8 + 2 + 2 + 8 + 2

abbrev pub max_udp_payload : ℕ
max_udp_payload = 1100

abbrev pub max_fragments : ℕ
max_fragments = 1024

pub record UdpHeader : Type 0 where
  pub magic : ℕ
  pub version : ℕ
  pub type : ℕ
  pub flags : ℕ
  pub session_id : ℕ
  pub sequence : ℕ
  pub fragment_index : ℕ
  pub fragment_count : ℕ
  pub timestamp_ns : ℕ
  pub payload_size : ℕ

unfoldable pub encode_udp_header : UdpHeader → Bytes
encode_udp_header h =
    le_bytes 2 h.magic
    ++ ((h.version ∷ h.type ∷ h.flags ∷ [])
        ++ (le_bytes 4 h.session_id
            ++ (le_bytes 8 h.sequence
                ++ (le_bytes 2 h.fragment_index
                    ++ (le_bytes 2 h.fragment_count
                        ++ (le_bytes 8 h.timestamp_ns ++ le_bytes 2 h.payload_size))))))

-- The fields at their offsets.
unfoldable pub read_header : Bytes → UdpHeader
read_header buf = record {
  magic = from_le (take 2 buf);
  version = get_or buf 2 0;
  type = get_or buf 3 0;
  flags = get_or buf 4 0;
  session_id = from_le (take 4 (drop 5 buf));
  sequence = from_le (take 8 (drop 9 buf));
  fragment_index = from_le (take 2 (drop 17 buf));
  fragment_count = from_le (take 2 (drop 19 buf));
  timestamp_ns = from_le (take 8 (drop 21 buf));
  payload_size = from_le (take 2 (drop 29 buf));
}

-- The conditions under which `decodeUdpHeader` returns true, for a datagram of `size` bytes.
unfoldable pub acceptable : UdpHeader → ℕ → Bool
acceptable h size =
    h.magic == udp_magic
    && h.version == udp_version
    && leb h.type 8
    && leb (udp_header_size + h.payload_size) size
    && not (h.fragment_count == 0)
    && leb h.fragment_count max_fragments
    && ltb h.fragment_index h.fragment_count

unfoldable pub decode_udp_header : Bytes → Option UdpHeader
unfolding read_header acceptable
decode_udp_header buf =
    if ltb (length buf) udp_header_size
    then none
    else if acceptable (read_header buf) (length buf)
    then some (read_header buf)
    else none

-- A `uint16_t` of the number of fragments.
unfoldable pub fragment_count_for : ℕ → ℕ
fragment_count_for size =
    let n = (size + max_udp_payload - 1) / max_udp_payload % 2 ^ 16 in
    if size == 0 then 1 else if ltb n 1 then 1 else n

-- The ranges of the field types.
pub record InRange (h : UdpHeader) : Type 0 where
  pub magic : h.magic < 2 ^ 16
  pub version : h.version < 2 ^ 8
  pub type : h.type < 2 ^ 8
  pub flags : h.flags < 2 ^ 8
  pub session_id : h.session_id < 2 ^ 32
  pub sequence : h.sequence < 2 ^ 64
  pub fragment_index : h.fragment_index < 2 ^ 16
  pub fragment_count : h.fragment_count < 2 ^ 16
  pub timestamp_ns : h.timestamp_ns < 2 ^ 64
  pub payload_size : h.payload_size < 2 ^ 16

read_header-encode :
    (h : UdpHeader) (more : Bytes) → InRange h → read_header (encode_udp_header h ++ more) ≡ h
unfolding read_header encode_udp_header le_bytes
read_header-encode h more r = ground (
  arith,
  from_le-le_bytes 2 h.magic,
  from_le-le_bytes 4 h.session_id,
  from_le-le_bytes 8 h.sequence,
  from_le-le_bytes 2 h.fragment_index,
  from_le-le_bytes 2 h.fragment_count,
  from_le-le_bytes 8 h.timestamp_ns,
  from_le-le_bytes 2 h.payload_size,
)

-- The encoded header is 31 bytes.
pub length-encode_udp_header : (h : UdpHeader) → length (encode_udp_header h) ≡ udp_header_size
unfolding encode_udp_header le_bytes
length-encode_udp_header h = refl

pub decode_udp_header_lem :
    (h : UdpHeader) (payload : Bytes)
    → InRange h
    → decode_udp_header (encode_udp_header h ++ payload)
      ≡ (if acceptable h (udp_header_size + length payload) then some h else none)
unfolding decode_udp_header
decode_udp_header_lem h payload r = ground (
  arith,
  read_header-encode h payload r,
  length-append (encode_udp_header h) payload,
  length-encode_udp_header h,
)

acceptable_guards :
    (h : UdpHeader) (size : ℕ)
    → acceptable h (udp_header_size + size) ≡ (
        h.magic == 0x5252
        && h.version == 1
        && leb h.type 8
        && leb 1 h.fragment_count
        && leb h.fragment_count 1024
        && ltb h.fragment_index h.fragment_count
        && leb h.payload_size size)
unfolding acceptable
acceptable_guards h size = ground arith

-- A header with fields in range is read back from the datagram that begins with it exactly if its
-- magic is 0x5252, its version 1, its type at most 8, its number of fragments from 1 to 1024, its
-- fragment one of them, and the datagram holds its payload.
pub decode_udp_header-encode :
    (h : UdpHeader) (payload : Bytes)
    → InRange h
    → decode_udp_header (encode_udp_header h ++ payload) ≡ (
        if h.magic == 0x5252
          && h.version == 1
          && leb h.type 8
          && leb 1 h.fragment_count
          && leb h.fragment_count 1024
          && ltb h.fragment_index h.fragment_count
          && leb h.payload_size (length payload)
        then some h
        else none)
decode_udp_header-encode h payload r =
    decode_udp_header_lem h payload r
    ∙ ap (λ (b : Bool). if b then some h else none) (acceptable_guards h (length payload))
