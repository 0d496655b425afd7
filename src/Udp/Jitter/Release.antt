-- ===== src/Udp/Jitter/Release.antt =====
-- Which frames a `pop` releases.
use iran_remote_play.Prelude.{
  ℕ, ◌+◌, ◌*◌, ◌^◌, ◌≤◌, ◌<◌, ◌≡◌, refl, ap, inl, inr, List, [], ◌∷◌, ◌++◌, true, length, arith,
  Bool-cases, All,
}
use iran_remote_play.Udp.Jitter.{
  AssembledFrame, Entry, JitterBuffer, high_watermark, ready, pop_loop, pop,
}

abbrev pub frames : List Entry → List AssembledFrame
frames [] = []
frames (e ∷ queue) = e.frame ∷ frames queue

pop_loop-frames :
    (j : JitterBuffer) (queue : List Entry) (now : ℕ)
    → frames queue ≡ (pop_loop j queue now).0 ++ frames (pop_loop j queue now).1.queue
unfolding pop_loop
pop_loop-frames j [] now = refl
pop_loop-frames j (front ∷ queue) now =
    let j' : JitterBuffer = record j {
      last_popped_sequence = front.sequence;
      initialized = true;
    } in
    elim (Bool-cases (ready j front (length (front ∷ queue)) now)) [
      | inl go ↦ rw go (ap (λ t. front.frame ∷ t) (pop_loop-frames j' queue now))
      | inr stay ↦ rw stay
    ]

pop_loop_short :
    (j : JitterBuffer) (queue : List Entry) (now : ℕ)
    → length (pop_loop j queue now).1.queue ≤ high_watermark
unfolding pop_loop ready
pop_loop_short j [] now = omega arith
pop_loop_short j (front ∷ queue) now =
    let j' : JitterBuffer = record j {
      last_popped_sequence = front.sequence;
      initialized = true;
    } in
    ground (arith, pop_loop_short j' queue now)

-- `pop` neither loses nor invents a frame: what it releases and what stays, one after the other,
-- are the frames of the queue. At most eight frames stay.
pub pop-frames :
    (j : JitterBuffer) (now : ℕ)
    → (frames j.queue ≡ (pop j now).0 ++ frames (pop j now).1.queue)
      × (length (pop j now).1.queue ≤ high_watermark)
unfolding pop
pop-frames j now = (pop_loop-frames j j.queue now, pop_loop_short j j.queue now)

-- An entry has waited for the target.
abbrev Waited : JitterBuffer → ℕ → Entry → Type 0
Waited j now e = e.arrive_ns + j.target_ms * 1_000_000 ≤ now

ready-Waited :
    (j : JitterBuffer) (front : Entry) (size now : ℕ)
    → Waited j now front
    → ready j front size now ≡ true
unfolding ready
ready-Waited j front size now w = ground arith

pop_loop-All :
    (j : JitterBuffer) (queue : List Entry) (now : ℕ)
    → All (Waited j now) queue
    → (pop_loop j queue now).1.queue ≡ []
unfolding pop_loop
pop_loop-All j [] now h = refl
pop_loop-All j (front ∷ queue) now (w, h) =
    let j' : JitterBuffer = record j {
      last_popped_sequence = front.sequence;
      initialized = true;
    } in
    rw (ready-Waited j front (length (front ∷ queue)) now w) (pop_loop-All j' queue now h)

-- Every frame is released in the end: a `pop` after the target has passed for all of the queue
-- empties it.
pub pop-All : (j : JitterBuffer) (now : ℕ) → All (Waited j now) j.queue → (pop j now).1.queue ≡ []
unfolding pop
pop-All j now h = pop_loop-All j j.queue now h

ready_gap :
    (j : JitterBuffer) (front : Entry) (size now : ℕ)
    → j.initialized ≡ true
    → j.target_ms ≤ 120
    → j.last_popped_sequence + 1 < front.sequence
    → front.sequence < 2 ^ 64
    → front.arrive_ns + 60 ≤ now
    → ready j front size now ≡ true
unfolding ready
ready_gap j front size now i t gap fits w = ground arith

-- At a gap the wait is cut to half the target's number of milliseconds taken as nanoseconds: with
-- any target up to the limit of 120 ms, a front frame behind a gap is released 60 ns after it
-- arrived.
pub pop_gap :
    (j : JitterBuffer) (front : Entry) (rest : List Entry) (now : ℕ)
    → j.queue ≡ front ∷ rest
    → j.initialized ≡ true
    → j.target_ms ≤ 120
    → j.last_popped_sequence + 1 < front.sequence
    → front.sequence < 2 ^ 64
    → front.arrive_ns + 60 ≤ now
    → (more : List AssembledFrame) × ((pop j now).0 ≡ front.frame ∷ more)
unfolding pop pop_loop
pop_gap j front rest now q i t gap fits w =
    let j' : JitterBuffer = record j {
      last_popped_sequence = front.sequence;
      initialized = true;
    } in
    (
      (pop_loop j' rest now).0,
      ground (arith, ready_gap j front (length (front ∷ rest)) now i t gap fits w),
    )
