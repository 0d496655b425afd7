-- ===== src/Udp/Reassembly/Whole.antt =====
-- All fragments of a frame, fed in any order.
use iran_remote_play.Prelude.{
  ℕ, ◌+◌, ◌<◌, ◌≡◌, refl, ◌∙◌, ◌≢◌, inl, inr, Option, none, some, List, [], ◌∷◌, map, Bool, true,
  false, length, get_or, set, replicate, arith, All,
}
use iran_remote_play.Prelude.{get_or-replicate, length-replicate, length-set, get_or-set_ne}
use iran_remote_play.Prelude.Bytes.{Bytes}
use iran_remote_play.Udp.Header.{UdpHeader}
use iran_remote_play.Udp.Send.{Outgoing, fragments, fragment_header, fragment_payload}
use iran_remote_play.Udp.Send.Split.{IsSplit, fragments_bounds}
use iran_remote_play.Udp.Jitter.{AssembledFrame}
use iran_remote_play.Udp.FrameMap.{find}
use iran_remote_play.Udp.Reassembly.{FrameBuf, Reassembler, fault, returns, max_in_flight, feed}
use iran_remote_play.Udp.Reassembly.Contents.{count_have, count_have-set, count_have_none}
use iran_remote_play.Udp.Reassembly.Order.{
  sent_frame, Stage, finish_whole, finish_part, store_lem, feed-Stage,
}

-- The frames that complete while datagrams arrive one after the other; `none` is a fault.
unfoldable pub feed_all :
    Reassembler → List (UdpHeader × Bytes) → Option (List AssembledFrame × Reassembler)
feed_all r [] = some ([], r)
feed_all r ((h, payload) ∷ rest) = elim (feed h payload r) [
  | fault ↦ none
  | returns none r' ↦ feed_all r' rest
  | returns (some frame) r' ↦ elim (feed_all r' rest) [
    | none ↦ none
    | some (frames, r'') ↦ some (frame ∷ frames, r'')
  ]
]

abbrev pub Distinct : List ℕ → Type 0
Distinct [] = Unit
Distinct (i ∷ rest) = All (λ j. i ≢ j) rest × Distinct rest

-- The numbers of all fragments, in some order.
pub record IsOrder (s : Outgoing) (order : List ℕ) : Type 0 where
  pub below : All (λ i. i < fragments s) order
  pub distinct : Distinct order
  pub complete : length order ≡ fragments s

abbrev pub datagram : Outgoing → ℕ → UdpHeader × Bytes
datagram s i = (fragment_header s i, fragment_payload s i)

still_new :
    (have : List Bool) (i : ℕ) (rest : List ℕ)
    → All (λ j. i ≢ j) rest
    → All (λ j. get_or have j false ≡ false) rest
    → All (λ j. get_or (set have i true) j false ≡ false) rest
still_new have i [] d h = tt
still_new have i (j ∷ rest) (ne, d) (new, h) =
    (get_or-set_ne have i j true false ne ∙ new, still_new have i rest d h)

All-new : (n : ℕ) (order : List ℕ) → All (λ j. get_or (replicate n false) j false ≡ false) order
All-new n [] = tt
All-new n (i ∷ order) = (get_or-replicate false n i, All-new n order)

module _ (s : Outgoing) (v : IsSplit s) (m : List (ℕ × FrameBuf))
    (absent : find s.sequence m ≡ none) where
  -- The fragments that are left, after those marked in `have`.
  feed_rest :
      (have : List Bool) (r : Reassembler) (i : ℕ) (rest : List ℕ)
      → Stage s v m absent have r
      → length have ≡ fragments s
      → count_have have + length (i ∷ rest) ≡ fragments s
      → All (λ j. j < fragments s) (i ∷ rest)
      → Distinct (i ∷ rest)
      → All (λ j. get_or have j false ≡ false) (i ∷ rest)
      → (r' : Reassembler) × (feed_all r (map (datagram s) (i ∷ rest))
          ≡ some (sent_frame s ∷ [], r'))
        × (r'.frames ≡ m)
  unfolding feed_all Stage
  feed_rest have r i [] stage len count (lt, below) d (new, h) =
      let (r1, fed, around) = feed-Stage s v m absent i have r stage in
      let (r2, done, frames) =
        finish_whole s v m absent i (set have i true) r1 around
          (omega (arith, length-set have i true))
          (omega (arith, count_have-set have i (omega arith) new)) in
      (r2, ground (arith, fed, store_lem s v m absent i have r1 lt len new, done), frames)
  feed_rest have r i (j ∷ rest) stage len count (lt, below) (ne, d) (new, h) =
      let (r1, fed, around) = feed-Stage s v m absent i have r stage in
      let (r2, done, frames) =
        finish_part s v m absent i (set have i true) r1 around
          (omega (arith, count_have-set have i (omega arith) new)) in
      let (r3, later, end) =
        feed_rest (set have i true) r2 j rest (inr frames) (omega (arith, length-set have i true))
          (omega (arith, count_have-set have i (omega arith) new)) below d
          (still_new have i (j ∷ rest) ne h) in
      (r3, ground (arith, fed, store_lem s v m absent i have r1 lt len new, done, later), end)

-- The fragments that `sendFrame` makes of a frame of 2 to 1024 fragments, fed in any order to a
-- reassembler that has no such frame in flight and room for one, complete exactly that frame,
-- with its bytes, timestamp and keyframe mark, and leave the frames in flight as they were.
pub feed_all-fragments :
    (s : Outgoing) (order : List ℕ) (r : Reassembler)
    → IsSplit s
    → IsOrder s order
    → find s.sequence r.frames ≡ none
    → length r.frames < max_in_flight
    → (r' : Reassembler) × (feed_all r (map (datagram s) order) ≡ some (sent_frame s ∷ [], r'))
      × (r'.frames ≡ r.frames)
unfolding Stage
feed_all-fragments s [] r v o absent room =
    absurd (omega (arith, (fragments_bounds s v).0, o.complete))
feed_all-fragments s (i ∷ rest) r v o absent room =
    feed_rest s v r.frames absent (replicate (fragments s) false) r i rest (inl (refl, refl, room))
      (length-replicate (fragments s) false)
      (omega (arith, count_have_none (fragments s), o.complete)) o.below o.distinct
      (All-new (fragments s) (i ∷ rest))
