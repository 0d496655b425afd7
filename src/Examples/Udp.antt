-- ===== src/Examples/Udp.antt =====
-- Datagrams, split frames and sequence numbers on small inputs.
use iran_remote_play.Prelude.{
  ℕ, zero, suc, ◌+◌, ◌%◌, ◌<◌, ◌≡◌, refl, inl, some, List, [], ◌∷◌, ◌++◌, map, true, length,
  replicate, arith, All,
}
use iran_remote_play.Prelude.Int.{pos}
use iran_remote_play.Udp.Header.{
  UdpType, UdpHeader, encode_udp_header, decode_udp_header, acceptable, fragment_count_for,
  udp_magic, udp_version, flag_fragment, decode_udp_header-encode,
}
use iran_remote_play.Udp.Send.{Outgoing, fragments}
use iran_remote_play.Udp.FrameMap.{find}
use iran_remote_play.Udp.Reassembly.{
  FrameBuf, empty_buf, Reassembler, Outcome, fault, returns, max_in_flight, feed,
}
use iran_remote_play.Udp.Reassembly
use iran_remote_play.Udp.Reassembly.Buffers.{Safe}
use iran_remote_play.Udp.Reassembly.Safety.{feed-Safe}
use iran_remote_play.Udp.Reassembly.Faults.{feed_overrun, feed_evicts_new}
use iran_remote_play.Udp.Reassembly.Order.{sent_frame}
use iran_remote_play.Udp.Reassembly.Whole.{feed_all, datagram, feed_all-fragments}
use iran_remote_play.Udp.Sequence.{SequenceTracker, fresh, track, track_all, mark, seen, u64_mod}
use iran_remote_play.Udp.Sequence.Accounting.{Balanced, track_all-Balanced}
use iran_remote_play.Udp.Sequence.Duplicates.{track_duplicate, fresh-IsWindow}

-- A frame of 1200 bytes, which takes two fragments.
abbrev two_fragments : Outgoing
two_fragments = record {
  type = UdpType.video;
  keyframe = true;
  session_id = 9;
  sequence = 5;
  timestamp_ns = 1;
  frame = replicate 1200 7;
}

feed_all-fragments_example :
    (r' : Reassembler) × (feed_all Reassembly.init (map (datagram two_fragments) (1 ∷ 0 ∷ []))
      ≡ some (sent_frame two_fragments ∷ [], r'))
    × (r'.frames ≡ [])
unfolding Reassembly.init find
feed_all-fragments_example =
    feed_all-fragments two_fragments (1 ∷ 0 ∷ []) Reassembly.init
      (record { big = omega arith; fits = omega arith })
      (record {
        below = two_below;
        distinct = ((omega arith, tt), (tt, tt));
        complete = two_complete;
      })
      refl (omega arith)
  where
    two_below : All (λ i. i < fragments two_fragments) (1 ∷ 0 ∷ [])
    two_below = unfold fragment_count_for in (omega arith, (omega arith, tt))

    two_complete : length {A = ℕ} (1 ∷ 0 ∷ []) ≡ fragments two_fragments
    two_complete = unfold fragment_count_for in refl

-- The header of the last of two fragments, with a payload of `size` bytes.
abbrev last_header : ℕ → UdpHeader
last_header size = record {
  magic = udp_magic;
  version = udp_version;
  type = 0;
  flags = flag_fragment;
  session_id = 9;
  sequence = 5;
  fragment_index = 1;
  fragment_count = 2;
  timestamp_ns = 1;
  payload_size = size;
}

feed-Safe_example : Safe (feed (last_header 2) (7 ∷ 8 ∷ []) Reassembly.init)
unfolding Reassembly.init
feed-Safe_example =
    feed-Safe (last_header 2) (7 ∷ 8 ∷ []) Reassembly.init
      (record { index = omega arith; few = omega arith; sent = refl; small = omega arith })
      (record { sorted = tt; few = omega arith; buffers = tt }) (inl (omega arith))

feed_overrun_example :
    (decode_udp_header (encode_udp_header (last_header 1101) ++ replicate 1101 0)
      ≡ some (last_header 1101))
    × (feed (last_header 1101) (replicate 1101 0) Reassembly.init ≡ fault)
unfolding Reassembly.init find acceptable
feed_overrun_example =
    feed_overrun (last_header 1101) (replicate 1101 0) Reassembly.init
      (record {
        magic = omega arith;
        version = omega arith;
        type = omega arith;
        flags = omega arith;
        session_id = omega arith;
        sequence = omega arith;
        fragment_index = omega arith;
        fragment_count = omega arith;
        timestamp_ns = omega arith;
        payload_size = omega arith;
      })
      refl (omega arith) refl (omega arith) refl (omega arith)

decode_udp_header-encode_example :
    decode_udp_header (encode_udp_header (last_header 2) ++ (7 ∷ 8 ∷ [])) ≡ some (last_header 2)
decode_udp_header-encode_example = decode_udp_header-encode (last_header 2) (7 ∷ 8 ∷ []) (record {
  magic = omega arith;
  version = omega arith;
  type = omega arith;
  flags = omega arith;
  session_id = omega arith;
  sequence = omega arith;
  fragment_index = omega arith;
  fragment_count = omega arith;
  timestamp_ns = omega arith;
  payload_size = omega arith;
})

-- A gap, a late number and a duplicate.
track_all-Balanced_example : Balanced 10 5 (track_all fresh (10 ∷ 13 ∷ 12 ∷ 12 ∷ 14 ∷ []))
track_all-Balanced_example =
    track_all-Balanced 10 (13 ∷ 12 ∷ 12 ∷ 14 ∷ []) (omega arith) (omega arith)
      (omega arith, (omega arith, (omega arith, (omega arith, tt))))

abbrev after_two : SequenceTracker
after_two = track_all (track fresh 10).1 (11 ∷ [])

track_duplicate_example :
    ((track after_two 10).0 ≡ pos 1)
    × ((track after_two 10).1.duplicates ≡ (after_two.duplicates + 1) % u64_mod)
    × ((track after_two 10).1.late ≡ after_two.late)
    × ((track after_two 10).1.lost ≡ after_two.lost)
unfolding track_all track fresh mark seen
track_duplicate_example =
    track_duplicate fresh 10 (11 ∷ []) fresh-IsWindow refl ((omega arith), tt) (omega arith) refl

-- Frames in flight with the numbers from `k` on.
abbrev in_flight : ℕ → ℕ → List (ℕ × FrameBuf)
in_flight zero k = []
in_flight (suc n) k = (k, empty_buf) ∷ in_flight n (k + 1)

All-newer : (n k seq : ℕ) → seq < k → All (λ e. seq < e.0) (in_flight n k)
All-newer zero k seq h = tt
All-newer (suc n) k seq h = (h, All-newer n (k + 1) seq (omega (arith, h)))

abbrev full : Reassembler
full = record {
  frames = in_flight 96 6;
  highest_started = 101;
  initialized = true;
  dropped_incomplete = 0;
  completed = 0;
}

feed_evicts_new_example : feed (last_header 2) (7 ∷ 8 ∷ []) full ≡ fault
feed_evicts_new_example =
    feed_evicts_new (last_header 2) (7 ∷ 8 ∷ []) full (omega arith) refl
      (All-newer 96 6 5 (omega arith))
