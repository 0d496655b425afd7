-- ===== src/Udp/Reassembly/Safety.antt =====
-- When `feed` stays within its buffers, and what every call keeps.
use iran_remote_play.Prelude.{
  ℕ, zero, suc, ◌*◌, ◌<◌, ◌≡◌, refl, sym, ap, ◌∙◌, subst, ◌⊎◌, inl, inr, none, some, List, [], ◌∷◌,
  true, false, ltb, ◌==◌, length, arith, Bool-cases, Option-cases, All,
}
use iran_remote_play.Prelude.{length-replicate, All-imp}
use iran_remote_play.Prelude.Bytes.{Bytes}
use iran_remote_play.Udp.Header.{UdpHeader, max_udp_payload}
use iran_remote_play.Udp.FrameMap.{
  find, insert, erase_first, IsSorted, IsSorted-insert, All-insert, All-find, insert-insert,
  length-insert, length-insert_found, find-insert_self,
}
use iran_remote_play.Udp.Reassembly.{
  FrameBuf, Reassembler, max_in_flight, empty_buf, new_buf, reopen, start, continue, feed,
}
use iran_remote_play.Udp.Reassembly.Contents.{count_have_none}
use iran_remote_play.Udp.Reassembly.Buffers.{
  IsBuffer, Buffers, IsValid, IsFragment, Safe, Ready, store-Safe,
}

new_buf-IsBuffer : (h : UdpHeader) (payload : Bytes) → IsFragment h payload → IsBuffer (new_buf h)
unfolding new_buf
new_buf-IsBuffer h payload f = record {
  few = f.few;
  slots = length-replicate h.fragment_count false;
  room = length-replicate (h.fragment_count * max_udp_payload) zero;
  counted = sym (count_have_none h.fragment_count);
  waiting = omega (arith, f.index);
}

-- A place for a new frame: fewer frames than the limit are in flight, or one is older.
abbrev pub HasRoom : ℕ → List (ℕ × FrameBuf) → Type 0
HasRoom k frames = (length frames < max_in_flight) ⊎ ¬ All (λ e. k < e.0) frames

Ready-found :
    (k : ℕ) (fb : FrameBuf) (r : Reassembler)
    → IsValid r
    → find k r.frames ≡ some fb
    → Ready k r.frames
Ready-found k fb r v found = record {
  sorted = v.sorted;
  few = λ w. omega (arith, length-insert_found k w fb r.frames v.sorted found, v.few);
  buffers = λ w vw. All-insert _ k w r.frames vw v.buffers;
}

Ready-new :
    (k : ℕ) (frames : List (ℕ × FrameBuf))
    → IsSorted frames
    → Buffers frames
    → find k frames ≡ none
    → length frames < max_in_flight
    → Ready k frames
Ready-new k frames s b missing lt = record {
  sorted = s;
  few = λ w. omega (arith, length-insert k w frames missing);
  buffers = λ w vw. All-insert _ k w frames vw b;
}

-- The same map once an empty buffer stands under the key.
Ready-opened :
    (k : ℕ) (frames : List (ℕ × FrameBuf)) → Ready k frames → Ready k (insert k empty_buf frames)
Ready-opened k frames ready = record {
  sorted = IsSorted-insert k empty_buf frames ready.sorted;
  few = λ w. rw (insert-insert k w empty_buf frames) (ready.few w);
  buffers = λ w vw. rw (insert-insert k w empty_buf frames) (ready.buffers w vw);
}

-- An older frame than the new one is evicted in its place.
evicts :
    (k : ℕ) (frames : List (ℕ × FrameBuf))
    → IsSorted frames
    → find k frames ≡ none
    → ¬ All (λ e. k < e.0) frames
    → (m : List (ℕ × FrameBuf)) × (erase_first (insert k empty_buf frames) ≡ insert k empty_buf m)
      × (find k m ≡ none)
      × IsSorted m
      × (length frames ≡ suc (length m))
      × (Buffers frames → Buffers m)
unfolding erase_first insert find
evicts k [] s missing older = absurd (older tt)
evicts k ((j, w) ∷ m) (a, s) missing older = elim (Bool-cases (ltb k j)) [
  | inl below ↦ absurd (older (ground arith, All-imp _ _ (λ e h. ground arith) m a))
  | inr not_below ↦ (m, ground arith, ground arith, s, refl, λ b. b.1)
]

reopen-Safe :
    (h : UdpHeader) (payload : Bytes) (r : Reassembler) (m : List (ℕ × FrameBuf))
    → IsFragment h payload
    → r.frames ≡ insert h.sequence empty_buf m
    → Ready h.sequence m
    → Safe (reopen h payload r)
unfolding reopen
reopen-Safe h payload r m f e ready =
    rw (ap (find h.sequence) e ∙ find-insert_self h.sequence empty_buf m, Safe)
      (store-Safe h payload (new_buf h) r f
        (subst (Ready h.sequence) (sym e) (Ready-opened h.sequence m ready))
        (new_buf-IsBuffer h payload f))

start-Safe :
    (h : UdpHeader) (payload : Bytes) (r : Reassembler)
    → IsFragment h payload
    → IsValid r
    → HasRoom h.sequence r.frames
    → find h.sequence r.frames ≡ none
    → Safe (start h payload r)
unfolding start
start-Safe h payload r f v room missing =
    let k = h.sequence in
    let new = new_buf-IsBuffer h payload f in
    elim (Bool-cases (ltb max_in_flight (length (insert k empty_buf r.frames)))) [
      | inr fits ↦ rw fits (
          store-Safe h payload (new_buf h) r f
            (Ready-new k r.frames v.sorted v.buffers missing
              (ground (arith, length-insert k empty_buf r.frames missing)))
            new)
      | inl full ↦
          let (m, gone, missing', s, len, b) =
            evicts k r.frames v.sorted missing (oldest room full) in
          rw full (
            reopen-Safe h payload _ m f gone
              (Ready-new k m s (b v.buffers) missing' (omega (arith, v.few, len))))
    ]
  where
    oldest :
        HasRoom h.sequence r.frames
        → ltb max_in_flight (length (insert h.sequence empty_buf r.frames)) ≡ true
        → ¬ All (λ e. h.sequence < e.0) r.frames
    oldest (inl lt) full =
        absurd (ground (arith, length-insert h.sequence empty_buf r.frames missing))
    oldest (inr older) full = older

continue-Safe :
    (h : UdpHeader) (payload : Bytes) (fb : FrameBuf) (r : Reassembler)
    → IsFragment h payload
    → IsValid r
    → find h.sequence r.frames ≡ some fb
    → Safe (continue h payload fb r)
unfolding continue
continue-Safe h payload fb r f v found =
    let vb : IsBuffer fb = All-find _ h.sequence fb r.frames found v.buffers in
    rw (some_fragments fb vb) (elim (Bool-cases (fb.fragment_count == h.fragment_count)) [
      | inl same ↦ rw same (store-Safe h payload fb r f (Ready-found h.sequence fb r v found) vb)
      | inr other ↦ rw other v
    ])
  where
    some_fragments : (fb : FrameBuf) → IsBuffer fb → (fb.fragment_count == 0) ≡ false
    some_fragments fb v = ground (arith, v.waiting)

-- A fragment with acceptable numbers and a payload of at most `kMaxUdpPayload` bytes never makes
-- `feed` leave its buffers, as long as the frame is not a new one that is older than all of 96
-- frames in flight; and the reassembler stays valid.
pub feed-Safe :
    (h : UdpHeader) (payload : Bytes) (r : Reassembler)
    → IsFragment h payload
    → IsValid r
    → HasRoom h.sequence r.frames
    → Safe (feed h payload r)
unfolding feed
feed-Safe h payload r f v room = elim (Bool-cases (h.fragment_count == 1)) [
  | inl single ↦ rw single (record { sorted = v.sorted; few = v.few; buffers = v.buffers })
  | inr many ↦ elim (Option-cases (find h.sequence r.frames)) [
    | inl missing ↦
        rw (many, missing)
          (start-Safe h payload _ f (record { sorted = v.sorted; few = v.few; buffers = v.buffers })
            room missing)
    | inr (fb, found) ↦
        rw (many, found)
          (continue-Safe h payload fb _ f
            (record { sorted = v.sorted; few = v.few; buffers = v.buffers }) found)
  ]
]
