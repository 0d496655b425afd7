-- ===== src/Input.antt =====
-- input/InputProtocol.h: the payloads of input datagrams. The structures are packed, so `memcpy`
-- writes the fields one after another, little-endian. A signed 16-bit field is its two's complement
-- word.
use iran_remote_play.Prelude.{
  ℕ, zero, suc, ◌+◌, ◌-◌, ◌*◌, ◌/◌, ◌%◌, ◌^◌, ◌≤◌, ◌<◌, min, max, ◌≡◌, refl, sym, ap, ◌∙◌, subst,
  ◌≢◌, ◌↔◌, ◌⊎◌, inl, inr, Option, none, some, List, [], ◌∷◌, ◌++◌, map, Bool, true, false, ◌&&◌,
  ◌||◌, not, if◌then◌else◌, leb, ltb, ◌==◌, length, take, drop, get_or, set, replicate, arith,
  take-all, append-nil, append_assoc, Bool-cases, Option-cases, length-append, length-take,
  length-drop, All, append-eq-nil, take-append, drop-append,
}
use iran_remote_play.Prelude.Bytes.{
  Bytes, le_bytes, from_le, length-le_bytes, from_le-le_bytes, from_le_bound,
}
pub mod RoundTrip

pub record GameControllerState : Type 0 where
  pub version : ℕ
  pub connected : ℕ
  pub buttons : ℕ
  pub left_trigger : ℕ
  pub right_trigger : ℕ
  pub thumb_lx : ℕ
  pub thumb_ly : ℕ
  pub thumb_rx : ℕ
  pub thumb_ry : ℕ
  pub timestamp_ns : ℕ

pub record InputEvent : Type 0 where
  pub type : ℕ
  pub code : ℕ
  pub x : ℕ
  pub y : ℕ
  pub delta : ℕ
  pub pad0 : ℕ
  pub flags : ℕ
  pub timestamp_ns : ℕ

-- The fields' widths in bytes, and a structure as its fields' values.
abbrev pub controller_widths : List ℕ
controller_widths = 1 ∷ 1 ∷ 2 ∷ 1 ∷ 1 ∷ 2 ∷ 2 ∷ 2 ∷ 2 ∷ 8 ∷ []

abbrev pub event_widths : List ℕ
event_widths = 1 ∷ 1 ∷ 2 ∷ 2 ∷ 2 ∷ 1 ∷ 1 ∷ 8 ∷ []

unfoldable pub controller_fields : GameControllerState → List ℕ
controller_fields s =
    s.version ∷ s.connected ∷ s.buttons ∷ s.left_trigger ∷ s.right_trigger ∷ s.thumb_lx ∷ s.thumb_ly
    ∷ s.thumb_rx ∷ s.thumb_ry ∷ s.timestamp_ns ∷ []

unfoldable pub event_fields : InputEvent → List ℕ
event_fields e = e.type ∷ e.code ∷ e.x ∷ e.y ∷ e.delta ∷ e.pad0 ∷ e.flags ∷ e.timestamp_ns ∷ []

-- The bytes of a structure.
unfoldable pub packed : List ℕ → List ℕ → Bytes
packed [] vs = []
packed (w ∷ ws) [] = []
packed (w ∷ ws) (v ∷ vs) = le_bytes w v ++ packed ws vs

-- The fields that stand in the bytes.
unfoldable pub unpacked : List ℕ → Bytes → List ℕ
unpacked [] bs = []
unpacked (w ∷ ws) bs = from_le (take w bs) ∷ unpacked ws (drop w bs)

unfoldable pub controller_of : List ℕ → GameControllerState
controller_of vs = record {
  version = get_or vs 0 0;
  connected = get_or vs 1 0;
  buttons = get_or vs 2 0;
  left_trigger = get_or vs 3 0;
  right_trigger = get_or vs 4 0;
  thumb_lx = get_or vs 5 0;
  thumb_ly = get_or vs 6 0;
  thumb_rx = get_or vs 7 0;
  thumb_ry = get_or vs 8 0;
  timestamp_ns = get_or vs 9 0;
}

unfoldable pub event_of : List ℕ → InputEvent
event_of vs = record {
  type = get_or vs 0 0;
  code = get_or vs 1 0;
  x = get_or vs 2 0;
  y = get_or vs 3 0;
  delta = get_or vs 4 0;
  pad0 = get_or vs 5 0;
  flags = get_or vs 6 0;
  timestamp_ns = get_or vs 7 0;
}

unfoldable pub pack_controller_state : GameControllerState → Bytes
pack_controller_state s = 0 ∷ packed controller_widths (controller_fields s)

unfoldable pub pack_input_event : InputEvent → Bytes
pack_input_event e = 1 ∷ packed event_widths (event_fields e)

-- Which of the two output parameters `unpackInput` writes.
pub data Unpacked : Type 0 where
  controller : GameControllerState → Unpacked
  event : InputEvent → Unpacked

unfoldable pub unpack_input : Bytes → Option Unpacked
unpack_input bs =
    if ltb (length bs) 1
    then none
    else if get_or bs 0 0 == 0 && length bs == 1 + 22
    then some (controller (controller_of (unpacked controller_widths (drop 1 bs))))
    else if get_or bs 0 0 == 1 && length bs == 1 + 18
    then some (event (event_of (unpacked event_widths (drop 1 bs))))
    else none

unfoldable pub pack : Unpacked → Bytes
pack (controller s) = pack_controller_state s
pack (event e) = pack_input_event e
