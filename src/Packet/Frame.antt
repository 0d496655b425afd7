-- ===== src/Packet/Frame.antt =====
-- The control channel's frame: a 10-byte header, then the payload (`FrameHeader`, `makeFrame`,
-- `parseFrameHeader`).
use iran_remote_play.Prelude.{
  ℕ, ◌+◌, ◌*◌, ◌≤◌, ◌/◌, ◌%◌, ◌^◌, ◌<◌, ◌≡◌, refl, Option, none, some, [], ◌∷◌, ◌++◌, Bool, ◌&&◌,
  if◌then◌else◌, leb, ltb, ◌==◌, length, take, drop, get_or, arith, take-all,
}
use iran_remote_play.Prelude.Bytes.{Bytes, le_bytes, from_le}

abbrev pub frame_magic : ℕ
frame_magic = 0x5250

abbrev pub frame_version : ℕ
frame_version = 1

abbrev pub frame_header_size : ℕ
frame_header_size = 10

abbrev pub max_control_payload : ℕ
max_control_payload = 64 * 1024

pub record FrameHeader : Type 0 where
  pub magic : ℕ
  pub version : ℕ
  pub type : ℕ
  pub flags : ℕ
  pub payload_size : ℕ

unfoldable pub valid : FrameHeader → Bool
valid h =
    h.magic == frame_magic && h.version == frame_version && leb h.payload_size max_control_payload

-- `if (payload && payloadSize)`: a null pointer is `none`.
append_payload : Bytes → Option Bytes → ℕ → Bytes
append_payload out none size = out
append_payload out (some payload) size = if size == 0 then out else out ++ take size payload

unfoldable pub make_raw_frame : ℕ → ℕ → Option Bytes → ℕ → Bytes
unfolding append_payload
make_raw_frame type flags payload size =
    let out = le_bytes 2 frame_magic ++ (frame_version ∷ []) in
    let out = (out ++ le_bytes 2 type) ++ (flags ∷ []) in
    append_payload (out ++ le_bytes 4 size) payload size

-- The overload on a vector.
unfoldable pub make_frame : ℕ → Bytes → Bytes
unfolding make_raw_frame
make_frame type payload =
    make_raw_frame type 0 (if length payload == 0 then none else some payload)
      (length payload % 2 ^ 32)

unfoldable pub parse_frame_header : Bytes → Option FrameHeader
unfolding valid
parse_frame_header bytes =
    let h : FrameHeader = record {
      magic = from_le (take 2 bytes);
      version = get_or bytes 2 0;
      type = from_le (take 2 (drop 3 bytes));
      flags = get_or bytes 5 0;
      payload_size = from_le (take 4 (drop 6 bytes));
    } in
    if ltb (length bytes) frame_header_size then none else if valid h then some h else none

-- The header bytes and the payload, spelled out.
make_frame_lem :
    (type : ℕ) (payload : Bytes)
    → length payload < 2 ^ 32
    → make_frame type payload
      ≡ 0x50
        ∷ 0x52
        ∷ 1
        ∷ (type % 256)
        ∷ (type / 256 % 256)
        ∷ 0
        ∷ (le_bytes 4 (length payload) ++ payload)
unfolding make_frame le_bytes
make_frame_lem type [] h = refl
make_frame_lem type (x ∷ xs) h = ground (arith, take-all (x ∷ xs) (length (x ∷ xs)))

-- A frame's header parses back, with any bytes behind the frame, exactly when the payload is at
-- most the control channel's limit.
pub parse_frame_header-make_frame :
    (type : ℕ) (payload more : Bytes)
    → type < 2 ^ 16
    → length payload < 2 ^ 32
    → parse_frame_header (make_frame type payload ++ more) ≡ (
        if leb (length payload) max_control_payload
        then some (record {
          magic = frame_magic;
          version = frame_version;
          type = type;
          flags = 0;
          payload_size = length payload;
        })
        else none)
unfolding parse_frame_header le_bytes from_le
parse_frame_header-make_frame type payload more ht hp =
    rw (make_frame_lem type payload hp) (ground arith)

-- What is at the front of a frame, and behind its header.
pub parse_frame_header-take :
    (type : ℕ) (payload more : Bytes)
    → type < 2 ^ 16
    → length payload ≤ max_control_payload
    → parse_frame_header (take frame_header_size (make_frame type payload ++ more))
      ≡ some (record {
        magic = frame_magic;
        version = frame_version;
        type = type;
        flags = 0;
        payload_size = length payload;
      })
unfolding parse_frame_header le_bytes from_le
parse_frame_header-take type payload more ht hp =
    rw (make_frame_lem type payload (omega arith)) (ground arith)

pub drop-make_frame :
    (type : ℕ) (payload more : Bytes)
    → length payload ≤ max_control_payload
    → drop frame_header_size (make_frame type payload ++ more) ≡ payload ++ more
unfolding le_bytes
drop-make_frame type payload more hp = rw (make_frame_lem type payload (omega arith)) refl

pub length-make_frame :
    (type : ℕ) (payload more : Bytes)
    → length payload ≤ max_control_payload
    → length (make_frame type payload ++ more) ≡ frame_header_size + length (payload ++ more)
unfolding le_bytes
length-make_frame type payload more hp =
    rw (make_frame_lem type payload (omega arith)) (omega arith)
