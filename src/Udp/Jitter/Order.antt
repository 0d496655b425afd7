-- ===== src/Udp/Jitter/Order.antt =====
-- The order in which frames leave a `JitterBuffer`, and the bound on its queue.
use iran_remote_play.Prelude.{
  ℕ, ◌*◌, ◌≤◌, ◌≡◌, refl, subst, ◌⊎◌, inl, inr, List, [], ◌∷◌, ◌++◌, true, false, ◌&&◌, leb, ltb,
  length, arith, Bool-cases, All,
}
use iran_remote_play.Udp.Jitter.{
  AssembledFrame, Entry, JitterBuffer, high_watermark, init, drop_oldest, push, ready, pop_loop,
  pop, set_target_ms,
}
use iran_remote_play.Udp.Jitter.Queue.{
  Sorted, Sorted-push_sorted, All-push_sorted, length-push_sorted, length-drop_oldest,
  All-drop_oldest, Sorted-drop_oldest,
}

-- What every operation keeps: the queue is sorted and short, and nothing in it is older than the
-- frame that was released last.
pub record IsOrdered (j : JitterBuffer) : Type 0 where
  pub sorted : Sorted j.queue
  pub short : length j.queue ≤ 2 * high_watermark
  pub behind : All (λ e. j.last_popped_sequence ≤ e.sequence) j.queue
  pub unstarted : (j.initialized ≡ true) ⊎ (j.last_popped_sequence ≡ 0)

pub init-IsOrdered : (target : ℕ) → IsOrdered (init target)
unfolding init
init-IsOrdered target = record {
  sorted = tt;
  short = omega arith;
  behind = tt;
  unstarted = inr refl;
}

pub push-IsOrdered :
    (j : JitterBuffer) (frame : AssembledFrame) (now : ℕ)
    → IsOrdered j
    → IsOrdered (push j frame now)
unfolding push
push-IsOrdered j frame now v =
    elim (Bool-cases (
      j.initialized && leb frame.sequence j.last_popped_sequence && ltb 0 j.last_popped_sequence)) [
        | inl late ↦ rw late (record {
          sorted = v.sorted;
          short = v.short;
          behind = v.behind;
          unstarted = v.unstarted;
        })
        | inr taken ↦ rw taken (record {
          sorted = Sorted-push_sorted _ _ (Sorted-drop_oldest j.queue v.sorted);
          short = omega (
            arith,
            length-push_sorted (record { frame = frame; arrive_ns = now }) (drop_oldest j.queue).0,
            length-drop_oldest j.queue,
          );
          behind = All-push_sorted _ _ _ (newer taken) (All-drop_oldest _ j.queue v.behind);
          unstarted = v.unstarted;
        })
      ]
  where
    newer :
        (j.initialized && leb frame.sequence j.last_popped_sequence && ltb 0 j.last_popped_sequence)
          ≡ false
        → j.last_popped_sequence ≤ frame.sequence
    newer taken = ground (arith, v.unstarted)

-- The frames of a list are in order, and none is older than `low`.
abbrev pub InOrder : ℕ → List AssembledFrame → Type 0
InOrder low [] = Unit
InOrder low (f ∷ frames) = (low ≤ f.sequence) × InOrder f.sequence frames

-- What holds after a release: the frames are in order from the one released last, and the buffer
-- goes on from the last of them.
abbrev pub last_of : ℕ → List AssembledFrame → ℕ
last_of low [] = low
last_of low (f ∷ frames) = last_of f.sequence frames

pop_loop-IsOrdered :
    (j : JitterBuffer) (queue : List Entry) (now : ℕ)
    → IsOrdered (record j { queue = queue })
    → IsOrdered (pop_loop j queue now).1
      × InOrder j.last_popped_sequence (pop_loop j queue now).0
      × ((pop_loop j queue now).1.last_popped_sequence
          ≡ last_of j.last_popped_sequence (pop_loop j queue now).0)
unfolding pop_loop
pop_loop-IsOrdered j [] now v = (v, tt, refl)
pop_loop-IsOrdered j (front ∷ queue) now v =
    let (p, o, l) =
      pop_loop-IsOrdered (record j { last_popped_sequence = front.sequence; initialized = true })
        queue now
        (record {
          sorted = v.sorted.1;
          short = omega (arith, v.short);
          behind = v.sorted.0;
          unstarted = inl refl;
        }) in
    elim (Bool-cases (ready j front (length (front ∷ queue)) now)) [
      | inl go ↦ rw go (p, (v.behind.0, o), l)
      | inr stay ↦ rw stay (v, tt, refl)
    ]

pop-IsOrdered :
    (j : JitterBuffer) (now : ℕ)
    → IsOrdered j
    → IsOrdered (pop j now).1
      × InOrder j.last_popped_sequence (pop j now).0
      × ((pop j now).1.last_popped_sequence ≡ last_of j.last_popped_sequence (pop j now).0)
unfolding pop
pop-IsOrdered j now v = pop_loop-IsOrdered j j.queue now v

-- A use of the buffer. `pop` may be called between any two frames; the target may change.
pub data Op : Type 0 where
  pushes : AssembledFrame → ℕ → Op
  pops : ℕ → Op
  targets : ℕ → Op

unfoldable pub step : JitterBuffer → Op → List AssembledFrame × JitterBuffer
step j (pushes frame now) = ([], push j frame now)
step j (pops now) = pop j now
step j (targets ms) = ([], set_target_ms j ms)

-- All frames that a sequence of operations releases.
unfoldable pub run : JitterBuffer → List Op → List AssembledFrame × JitterBuffer
run j [] = ([], j)
run j (op ∷ ops) =
    let (first, j') = step j op in let (rest, j'') = run j' ops in (first ++ rest, j'')

step-IsOrdered :
    (j : JitterBuffer) (op : Op)
    → IsOrdered j
    → IsOrdered (step j op).1
      × InOrder j.last_popped_sequence (step j op).0
      × ((step j op).1.last_popped_sequence ≡ last_of j.last_popped_sequence (step j op).0)
unfolding step push set_target_ms
step-IsOrdered j (pushes frame now) v = (push-IsOrdered j frame now v, tt, ground arith)
step-IsOrdered j (pops now) v = pop-IsOrdered j now v
step-IsOrdered j (targets ms) v = (
  record { sorted = v.sorted; short = v.short; behind = v.behind; unstarted = v.unstarted },
  tt,
  refl,
)

InOrder-append :
    (low : ℕ) (xs ys : List AssembledFrame)
    → InOrder low xs
    → InOrder (last_of low xs) ys
    → InOrder low (xs ++ ys)
InOrder-append low [] ys h k = k
InOrder-append low (x ∷ xs) ys (le, h) k = (le, InOrder-append x.sequence xs ys h k)

run-IsOrdered :
    (j : JitterBuffer) (ops : List Op)
    → IsOrdered j
    → IsOrdered (run j ops).1 × InOrder j.last_popped_sequence (run j ops).0
unfolding run
run-IsOrdered j [] v = (v, tt)
run-IsOrdered j (op ∷ ops) v =
    let (v', o, l) = step-IsOrdered j op v in
    let (v'', o') = run-IsOrdered (step j op).1 ops v' in
    (
      v'',
      InOrder-append j.last_popped_sequence (step j op).0 _ o
          (subst (λ n. InOrder n (run (step j op).1 ops).0) l o'),
    )

-- From an empty buffer, whatever the arrivals, the times of the calls and the targets: the frames
-- that are released over its whole life have sequence numbers that never go down, and the queue
-- stays sorted and holds at most 16 frames.
pub run-init-InOrder :
    (target : ℕ) (ops : List Op)
    → InOrder 0 (run (init target) ops).0
      × Sorted (run (init target) ops).1.queue
      × (length (run (init target) ops).1.queue ≤ 2 * high_watermark)
unfolding init
run-init-InOrder target ops =
    let (v, o) = run-IsOrdered (init target) ops (init-IsOrdered target) in (o, v.sorted, v.short)
