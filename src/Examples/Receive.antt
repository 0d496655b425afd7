-- ===== src/Examples/Receive.antt =====
-- The jitter buffer, messages, the channel, codes, bitrates and inputs on small values.
use iran_remote_play.Prelude.{
  ℕ, ◌*◌, ◌≤◌, ◌≡◌, refl, List, [], ◌∷◌, ◌++◌, true, false, length, arith,
}
use iran_remote_play.Udp.Header.{UdpType}
use iran_remote_play.Udp.Jitter.{AssembledFrame, Entry, JitterBuffer, pop, high_watermark}
use iran_remote_play.Udp.Jitter
use iran_remote_play.Udp.Jitter.Queue.{Sorted}
use iran_remote_play.Udp.Jitter.Order.{Op, run, InOrder, run-init-InOrder}
use iran_remote_play.Udp.Jitter.Release.{frames, pop-frames, pop_gap}

abbrev frame : ℕ → AssembledFrame
frame seq = record {
  type = UdpType.video;
  session_id = 9;
  sequence = seq;
  timestamp_ns = 0;
  keyframe = false;
  payload = 1 ∷ [];
}

-- Two frames that arrive in the wrong order, and a pop after 80 ms.
abbrev arrivals : List Op
arrivals = Op.pushes (frame 4) 10 ∷ Op.pushes (frame 3) 20 ∷ Op.pops 80_000_020 ∷ []

run-init-InOrder_example :
    InOrder 0 (run (Jitter.init 40) arrivals).0
    × Sorted (run (Jitter.init 40) arrivals).1.queue
    × (length (run (Jitter.init 40) arrivals).1.queue ≤ 2 * high_watermark)
run-init-InOrder_example = run-init-InOrder 40 arrivals

-- A buffer that released frame 1 and holds 3 and 4.
abbrev waiting : JitterBuffer
waiting = record {
  queue =
      record { frame = frame 3; arrive_ns = 20 } ∷ record { frame = frame 4; arrive_ns = 10 } ∷ [];
  target_ms = 40;
  reordered = 0;
  overflow_dropped = 0;
  last_popped_sequence = 1;
  initialized = true;
}

pop-frames_example :
    (frames waiting.queue ≡ (pop waiting 90).0 ++ frames (pop waiting 90).1.queue)
    × (length (pop waiting 90).1.queue ≤ high_watermark)
pop-frames_example = pop-frames waiting 90

pop_gap_example : (more : List AssembledFrame) × ((pop waiting 80).0 ≡ frame 3 ∷ more)
pop_gap_example =
    pop_gap waiting (record { frame = frame 3; arrive_ns = 20 })
      (record { frame = frame 4; arrive_ns = 10 } ∷ []) 80 refl refl (omega arith) (omega arith)
      (omega arith) (omega arith)
