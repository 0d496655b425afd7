-- ===== src/Udp/Jitter.antt =====
-- `JitterBuffer`: completed frames wait here to be released in order of their sequence numbers.
pub mod Queue
pub mod Order
pub mod Release
use iran_remote_play.Prelude.{
  ℕ, zero, suc, ◌+◌, ◌-◌, ◌*◌, ◌/◌, ◌%◌, ◌^◌, ◌≤◌, ◌<◌, min, max, ◌≡◌, refl, sym, ap, ◌∙◌, subst,
  ◌≢◌, ◌⊎◌, inl, inr, Option, none, some, List, [], ◌∷◌, ◌++◌, map, Bool, true, false, ◌&&◌, ◌||◌,
  not, if◌then◌else◌, leb, ltb, ◌==◌, length, take, drop, get_or, set, replicate, arith, take-all,
  append-nil, append_assoc, Bool-cases, Option-cases, length-append, length-take, length-drop, All,
  append-eq-nil, take-append, drop-append,
}
use mathlib.Core.List.{reverse}
use iran_remote_play.Prelude.Bytes.{Bytes}
use iran_remote_play.Udp.Header.{UdpType}

pub record AssembledFrame : Type 0 where
  pub type : UdpType
  pub session_id : ℕ
  pub sequence : ℕ
  pub timestamp_ns : ℕ
  pub keyframe : Bool
  pub payload : Bytes

pub record Entry : Type 0 where
  pub frame : AssembledFrame
  pub open frame use {sequence}
  pub arrive_ns : ℕ

pub record JitterBuffer : Type 0 where
  pub queue : List Entry
  pub target_ms : ℕ
  pub reordered : ℕ
  pub overflow_dropped : ℕ
  pub last_popped_sequence : ℕ
  pub initialized : Bool

abbrev pub high_watermark : ℕ
high_watermark = 8

unfoldable pub init : ℕ → JitterBuffer
init target = record {
  queue = [];
  target_ms = target;
  reordered = 0;
  overflow_dropped = 0;
  last_popped_sequence = 0;
  initialized = false;
}

-- `while (queue_.size() >= kHighWatermark * 2) { ++overflowDropped_; queue_.pop_front(); }`: what
-- is left, and how many were dropped.
unfoldable pub drop_oldest : List Entry → List Entry × ℕ
drop_oldest [] = ([], 0)
drop_oldest (e ∷ queue) =
    let rest = drop_oldest queue in
    if leb (high_watermark * 2) (length (e ∷ queue)) then (rest.0, rest.1 + 1) else (e ∷ queue, 0)

-- The swaps that carry the entry at the back towards the front; the list is the queue from its
-- back to its front.
unfoldable pub sift : Entry → List Entry → List Entry
sift e [] = e ∷ []
sift e (x ∷ xs) = let rest = sift e xs in if ltb e.sequence x.sequence then x ∷ rest else e ∷ x ∷ xs

unfoldable pub push_sorted : Entry → List Entry → List Entry
unfolding sift
push_sorted e queue = reverse (sift e (reverse queue))

unfoldable pub push : JitterBuffer → AssembledFrame → ℕ → JitterBuffer
push j frame now =
    if j.initialized && leb frame.sequence j.last_popped_sequence && ltb 0 j.last_popped_sequence
    then record j { reordered = (j.reordered + 1) % 2 ^ 64 }
    else record j {
      queue = push_sorted (record { frame = frame; arrive_ns = now }) (drop_oldest j.queue).0;
      overflow_dropped = (j.overflow_dropped + (drop_oldest j.queue).1) % 2 ^ 64;
    }

-- Whether the front of a queue of `size` entries is released at the time `now`. The third test
-- compares nanoseconds with half the target in milliseconds.
unfoldable pub ready : JitterBuffer → Entry → ℕ → ℕ → Bool
ready j front size now =
    let waited = if ltb front.arrive_ns now then now - front.arrive_ns else 0 in
    let gap_ahead = j.initialized && ltb ((j.last_popped_sequence + 1) % 2 ^ 64) front.sequence in
    leb (j.target_ms * 1_000_000) waited
    || ltb high_watermark size
    || (gap_ahead && leb (j.target_ms / 2) waited)

-- The loop of `pop`, over the queue that is left; the frames go to the back of `out`.
unfoldable pub pop_loop : JitterBuffer → List Entry → ℕ → List AssembledFrame × JitterBuffer
pop_loop j [] now = ([], record j { queue = [] })
pop_loop j (front ∷ queue) now =
    let rest =
      pop_loop (record j { last_popped_sequence = front.sequence; initialized = true }) queue now in
    if ready j front (length (front ∷ queue)) now
    then (front.frame ∷ rest.0, rest.1)
    else ([], record j { queue = front ∷ queue })

-- The frames that `pop` appends to its argument.
unfoldable pub pop : JitterBuffer → ℕ → List AssembledFrame × JitterBuffer
unfolding pop_loop
pop j now = pop_loop j j.queue now

unfoldable pub set_target_ms : JitterBuffer → ℕ → JitterBuffer
set_target_ms j ms = record j { target_ms = ms }

-- `reset` keeps the target.
unfoldable pub reset : JitterBuffer → JitterBuffer
unfolding init
reset j = init j.target_ms
