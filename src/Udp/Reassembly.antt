-- ===== src/Udp/Reassembly.antt =====
-- `FragmentReassembler`: fragments of frames, collected by sequence number. `feed` returns `fault`
-- where the C++ code has undefined behaviour: a copy past the end of a frame's buffer, or a use of
-- the buffer that the eviction of the oldest frame has just erased.
pub mod Contents
pub mod Buffers
pub mod Safety
pub mod Faults
pub mod Order
pub mod Whole
use iran_remote_play.Prelude.{
  ℕ, zero, suc, ◌+◌, ◌-◌, ◌*◌, ◌/◌, ◌%◌, ◌^◌, ◌≤◌, ◌<◌, min, max, ◌≡◌, refl, sym, ap, ◌∙◌, subst,
  ◌≢◌, ◌⊎◌, inl, inr, Option, none, some, List, [], ◌∷◌, ◌++◌, map, Bool, true, false, ◌&&◌, ◌||◌,
  not, if◌then◌else◌, leb, ltb, ◌==◌, length, take, drop, get_or, set, replicate, arith, take-all,
  append-nil, append_assoc, Bool-cases, Option-cases, length-append, length-take, length-drop, All,
  append-eq-nil, take-append, drop-append,
}
use Prim.Native.Nat.{bit_and}
use iran_remote_play.Prelude.Bytes.{Bytes}
use iran_remote_play.Udp.Header.{UdpType, UdpHeader, max_udp_payload, flag_keyframe, type_of_raw}
use iran_remote_play.Udp.Jitter.{AssembledFrame}
use iran_remote_play.Udp.FrameMap.{find, insert, erase, erase_first}

pub record FrameBuf : Type 0 where
  pub bytes : Bytes
  pub have : List Bool
  pub received : ℕ
  pub fragment_count : ℕ
  pub total_size : ℕ
  pub timestamp_ns : ℕ
  pub keyframe : Bool

pub record Reassembler : Type 0 where
  pub frames : List (ℕ × FrameBuf)
  pub highest_started : ℕ
  pub initialized : Bool
  pub dropped_incomplete : ℕ
  pub completed : ℕ

pub data Outcome : Type 0 where
  fault : Outcome
  returns : Option AssembledFrame → Reassembler → Outcome

abbrev pub max_in_flight : ℕ
max_in_flight = 96

unfoldable pub init : Reassembler
init = record {
  frames = [];
  highest_started = 0;
  initialized = false;
  dropped_incomplete = 0;
  completed = 0;
}

abbrev pub is_keyframe : UdpHeader → Bool
is_keyframe h = not (bit_and h.flags flag_keyframe == 0)

-- The frame that `feed` writes to its output.
abbrev pub frame_of : UdpHeader → ℕ → Bool → Bytes → AssembledFrame
frame_of h timestamp keyframe payload = record {
  type = type_of_raw h.type;
  session_id = h.session_id;
  sequence = h.sequence;
  timestamp_ns = timestamp;
  keyframe = keyframe;
  payload = payload;
}

-- `frames_[h.sequence]` default-constructs a missing buffer.
abbrev pub empty_buf : FrameBuf
empty_buf = record {
  bytes = [];
  have = [];
  received = 0;
  fragment_count = 0;
  total_size = 0;
  timestamp_ns = 0;
  keyframe = false;
}

-- A new buffer, sized for all fragments of its frame.
unfoldable pub new_buf : UdpHeader → FrameBuf
new_buf h = record {
  bytes = replicate (h.fragment_count * max_udp_payload) 0;
  have = replicate h.fragment_count false;
  received = 0;
  fragment_count = h.fragment_count;
  total_size = 0;
  timestamp_ns = h.timestamp_ns;
  keyframe = is_keyframe h;
}

-- `memcpy` of `payload` to the offset `off`.
unfoldable pub write_at : ℕ → Bytes → Bytes → Bytes
write_at off payload bytes = take off bytes ++ (payload ++ drop (off + length payload) bytes)

-- A fragment copied into the buffer, with the bookkeeping; `uint16_t received` wraps.
unfoldable pub place : UdpHeader → Bytes → FrameBuf → FrameBuf
unfolding write_at
place h payload fb = record fb {
  bytes = write_at (h.fragment_index * max_udp_payload) payload fb.bytes;
  have = set fb.have h.fragment_index true;
  received = (fb.received + 1) % 2 ^ 16;
  total_size =
      if h.fragment_index + 1 == h.fragment_count
      then (h.fragment_count - 1) * max_udp_payload + h.payload_size
      else fb.total_size;
}

-- The end of `feed`: the frame is complete, or incomplete, or its size is impossible.
unfoldable pub finish : UdpHeader → FrameBuf → Reassembler → Outcome
finish h fb r =
    let r' : Reassembler = record r { frames = insert h.sequence fb r.frames } in
    if fb.received == fb.fragment_count
    then if fb.total_size == 0 || ltb (length fb.bytes) fb.total_size
      then returns none (record r' {
        frames = erase h.sequence r'.frames;
        dropped_incomplete = (r'.dropped_incomplete + 1) % 2 ^ 64;
      })
      else returns (some (frame_of h fb.timestamp_ns fb.keyframe (take fb.total_size fb.bytes)))
          (record r' {
            frames = erase h.sequence r'.frames;
            completed = (r'.completed + 1) % 2 ^ 64;
          })
    else returns none r'

-- From the duplicate check on. `fb` stands in the map under the frame's number.
unfoldable pub store : UdpHeader → Bytes → FrameBuf → Reassembler → Outcome
store h payload fb r =
    if leb fb.fragment_count h.fragment_index || get_or fb.have h.fragment_index false
    then returns none (record r { frames = insert h.sequence fb r.frames })
    else if ltb (length fb.bytes) (h.fragment_index * max_udp_payload + h.payload_size)
    then fault
    else finish h (place h (take h.payload_size payload) fb) r

-- The buffer of the new frame after the eviction of the oldest, which may have been the new one.
unfoldable pub reopen : UdpHeader → Bytes → Reassembler → Outcome
reopen h payload r = elim (find h.sequence r.frames) [
  | none ↦ fault
  | some fb ↦ store h payload (new_buf h) r
]

-- A new frame: where more than `max_in_flight` would be in flight, the oldest is dropped.
unfoldable pub start : UdpHeader → Bytes → Reassembler → Outcome
start h payload r =
    let frames = insert h.sequence empty_buf r.frames in
    if ltb max_in_flight (length frames)
    then reopen h payload (record r {
      frames = erase_first frames;
      dropped_incomplete = (r.dropped_incomplete + 1) % 2 ^ 64;
    })
    else store h payload (new_buf h) r

unfoldable pub continue : UdpHeader → Bytes → FrameBuf → Reassembler → Outcome
continue h payload fb r =
    if fb.fragment_count == 0
    then start h payload r
    else if fb.fragment_count == h.fragment_count
    then store h payload fb r
    else returns none r

unfoldable pub feed : UdpHeader → Bytes → Reassembler → Outcome
feed h payload r =
    let r' : Reassembler = record r {
      highest_started =
          if not r.initialized || ltb r.highest_started h.sequence
          then h.sequence
          else r.highest_started;
      initialized = true;
    } in
    if h.fragment_count == 1
    then returns (some (frame_of h h.timestamp_ns (is_keyframe h) (take h.payload_size payload)))
        (record r { completed = (r.completed + 1) % 2 ^ 64 })
    else elim (find h.sequence r.frames) [
      | none ↦ start h payload r'
      | some fb ↦ continue h payload fb r'
    ]

-- The loop of `gc`: frames 64 and more behind the newest one go.
unfoldable pub gc_loop : ℕ → List (ℕ × FrameBuf) → List (ℕ × FrameBuf) × ℕ
gc_loop newest [] = ([], 0)
gc_loop newest ((lowest, fb) ∷ frames) =
    let rest = gc_loop newest frames in
    if ltb ((lowest + 64) % 2 ^ 64) newest then (rest.0, rest.1 + 1) else ((lowest, fb) ∷ frames, 0)

unfoldable pub gc : Reassembler → Reassembler
unfolding gc_loop
gc r =
    let kept = gc_loop r.highest_started r.frames in
    record r { frames = kept.0; dropped_incomplete = (r.dropped_incomplete + kept.1) % 2 ^ 64 }

-- `reset` keeps the two counters.
unfoldable pub reset : Reassembler → Reassembler
reset r = record r { frames = []; highest_started = 0; initialized = false }
