-- ===== src/Udp/Reassembly/Buffers.antt =====
-- A buffer in the map, and the part of `feed` from the duplicate check on.
use iran_remote_play.Prelude.{
  ℕ, ◌+◌, ◌*◌, ◌≤◌, ◌<◌, ◌≡◌, ◌∙◌, ◌≢◌, inl, inr, List, ◌++◌, true, false, ◌||◌, leb, ltb, ◌==◌,
  length, take, drop, get_or, arith, take-all, Bool-cases, length-append, length-take, length-drop,
  All,
}
use iran_remote_play.Prelude.{length-set}
use iran_remote_play.Prelude.Bytes.{Bytes}
use iran_remote_play.Udp.Header.{UdpHeader, max_udp_payload, max_fragments}
use iran_remote_play.Udp.FrameMap.{
  insert, erase, IsSorted, IsSorted-insert, IsSorted-erase, All-erase, erase-insert_any,
  length-erase-le,
}
use iran_remote_play.Udp.Reassembly.{
  FrameBuf, Reassembler, Outcome, fault, returns, max_in_flight, write_at, place, finish, store,
}
use iran_remote_play.Udp.Reassembly.Contents.{count_have, count_have-set}

-- A buffer in the map: it has room for all of its fragments, counts those that arrived, and waits
-- for at least one.
pub record IsBuffer (fb : FrameBuf) : Type 0 where
  pub few : fb.fragment_count ≤ max_fragments
  pub slots : length fb.have ≡ fb.fragment_count
  pub room : length fb.bytes ≡ fb.fragment_count * max_udp_payload
  pub counted : fb.received ≡ count_have fb.have
  pub waiting : fb.received < fb.fragment_count

abbrev pub Buffers : List (ℕ × FrameBuf) → Type 0
Buffers = All (λ e. IsBuffer e.1)

pub record IsValid (r : Reassembler) : Type 0 where
  pub sorted : IsSorted r.frames
  pub few : length r.frames ≤ max_in_flight
  pub buffers : Buffers r.frames

-- What `decodeUdpHeader` has checked, and that the payload is no longer than a sender's.
pub record IsFragment (h : UdpHeader) (payload : Bytes) : Type 0 where
  pub index : h.fragment_index < h.fragment_count
  pub few : h.fragment_count ≤ max_fragments
  pub sent : length payload ≡ h.payload_size
  pub small : h.payload_size ≤ max_udp_payload

-- The call returns, and leaves a valid reassembler.
abbrev pub Safe : Outcome → Type 0
Safe fault = ⊥
Safe (returns out r) = IsValid r

length-write_at :
    (off : ℕ) (payload bytes : Bytes)
    → off + length payload ≤ length bytes
    → length (write_at off payload bytes) ≡ length bytes
unfolding write_at
length-write_at off payload bytes h = omega (
  arith,
  length-append (take off bytes) (payload ++ drop (off + length payload) bytes),
  length-append payload (drop (off + length payload) bytes),
  length-take off bytes,
  length-drop (off + length payload) bytes,
)

-- A map that is valid once a buffer stands under the key `k`.
pub record Ready (k : ℕ) (frames : List (ℕ × FrameBuf)) : Type 0 where
  pub sorted : IsSorted frames
  pub few : (fb : FrameBuf) → length (insert k fb frames) ≤ max_in_flight
  pub buffers : (fb : FrameBuf) → IsBuffer fb → Buffers (insert k fb frames)

place_fits :
    (h : UdpHeader) (payload : Bytes) (fb : FrameBuf)
    → h.fragment_index < fb.fragment_count
    → length payload ≤ max_udp_payload
    → length fb.bytes ≡ fb.fragment_count * max_udp_payload
    → h.fragment_index * max_udp_payload + length payload ≤ length fb.bytes
place_fits h payload fb lt small room = omega arith

-- The map after the frame's buffer is gone, where some buffer `w` could have stood there.
erased :
    (k : ℕ) (fb w : FrameBuf) (frames : List (ℕ × FrameBuf))
    → Ready k frames
    → IsBuffer w
    → Buffers (erase k (insert k fb frames))
erased k fb w frames ready v =
    rw (erase-insert_any k fb w frames) (All-erase _ k (insert k w frames) (ready.buffers w v))

erased_valid :
    (k : ℕ) (fb w : FrameBuf) (r : Reassembler)
    → Ready k r.frames
    → IsBuffer w
    → IsSorted (erase k (insert k fb r.frames))
      × (length (erase k (insert k fb r.frames)) ≤ max_in_flight)
      × Buffers (erase k (insert k fb r.frames))
erased_valid k fb w r ready v = (
  IsSorted-erase k (insert k fb r.frames) (IsSorted-insert k fb r.frames ready.sorted),
  omega (arith, length-erase-le k (insert k fb r.frames), ready.few fb),
  erased k fb w r.frames ready v,
)

finish-Safe :
    (h : UdpHeader) (fb w : FrameBuf) (r : Reassembler)
    → Ready h.sequence r.frames
    → (fb.received ≢ fb.fragment_count → IsBuffer fb)
    → IsBuffer w
    → Safe (finish h fb r)
unfolding finish
finish-Safe h fb w r ready v vw =
    let (s, f, b) = erased_valid h.sequence fb w r ready vw in
    elim (Bool-cases (fb.received == fb.fragment_count)) [
      | inl whole ↦
          rw whole (elim (Bool-cases (fb.total_size == 0 || ltb (length fb.bytes) fb.total_size)) [
            | inl bad ↦ rw bad (record { sorted = s; few = f; buffers = b })
            | inr good ↦ rw good (record { sorted = s; few = f; buffers = b })
          ])
      | inr part ↦ rw part (record {
        sorted = IsSorted-insert h.sequence fb r.frames ready.sorted;
        few = ready.few fb;
        buffers = ready.buffers fb (v (ground arith));
      })
    ]

-- The buffer with one more fragment.
place-IsBuffer :
    (h : UdpHeader) (payload : Bytes) (fb : FrameBuf)
    → IsBuffer fb
    → h.fragment_index < fb.fragment_count
    → length payload ≤ max_udp_payload
    → get_or fb.have h.fragment_index false ≡ false
    → (place h payload fb).received ≢ (place h payload fb).fragment_count
    → IsBuffer (place h payload fb)
unfolding place
place-IsBuffer h payload fb v lt small absent part = record {
  few = v.few;
  slots = length-set fb.have h.fragment_index true ∙ v.slots;
  room = length-write_at _ payload fb.bytes (place_fits h payload fb lt small v.room) ∙ v.room;
  counted = omega (
    arith,
    v.counted,
    v.waiting,
    v.few,
    count_have-set fb.have h.fragment_index (omega (arith, v.slots)) absent,
  );
  waiting = omega (arith, v.waiting, v.few);
}

pub store-Safe :
    (h : UdpHeader) (payload : Bytes) (fb : FrameBuf) (r : Reassembler)
    → IsFragment h payload
    → Ready h.sequence r.frames
    → IsBuffer fb
    → Safe (store h payload fb r)
unfolding store
store-Safe h payload fb r f ready v =
    elim (Bool-cases
      (leb fb.fragment_count h.fragment_index || get_or fb.have h.fragment_index false)) [
        | inl again ↦ rw again (record {
          sorted = IsSorted-insert h.sequence fb r.frames ready.sorted;
          few = ready.few fb;
          buffers = ready.buffers fb v;
        })
        | inr first ↦
            let lt : h.fragment_index < fb.fragment_count = ground arith in
            let absent : get_or fb.have h.fragment_index false ≡ false = ground arith in
            let small : length payload ≤ max_udp_payload = omega (arith, f.sent, f.small) in
            let fits = place_fits h payload fb lt small v.room in
            rw
              (
                first,
                within (length fb.bytes) (h.fragment_index * max_udp_payload + h.payload_size)
                    (omega (arith, fits, f.sent)),
                take-all payload h.payload_size (omega (arith, f.sent)),
              )
              (finish-Safe h (place h payload fb) fb r ready
                (place-IsBuffer h payload fb v lt small absent) v)
      ]
  where
    within : (size end : ℕ) → end ≤ size → ltb size end ≡ false
    within size end h = ground arith
