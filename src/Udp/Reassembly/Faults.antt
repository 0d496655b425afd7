-- ===== src/Udp/Reassembly/Faults.antt =====
-- Datagrams that `decodeUdpHeader` accepts and on which `feed` leaves its buffers.
use iran_remote_play.Prelude.{
  ℕ, zero, ◌+◌, ◌*◌, ◌<◌, ◌≡◌, refl, ◌∙◌, none, some, List, [], ◌∷◌, ◌++◌, true, false, ◌||◌, not,
  if◌then◌else◌, ltb, length, arith, All,
}
use iran_remote_play.Prelude.{get_or-replicate, length-replicate}
use iran_remote_play.Prelude.Bytes.{Bytes}
use iran_remote_play.Udp.Header.{
  UdpHeader, InRange, acceptable, udp_header_size, encode_udp_header, decode_udp_header,
  decode_udp_header_lem, max_udp_payload,
}
use iran_remote_play.Udp.FrameMap.{find, insert, erase_first, length-insert}
use iran_remote_play.Udp.Reassembly.{
  FrameBuf, Reassembler, fault, max_in_flight, empty_buf, new_buf, store, reopen, start, feed,
}

store_overrun :
    (h : UdpHeader) (payload : Bytes) (r : Reassembler)
    → h.fragment_index + 1 ≡ h.fragment_count
    → max_udp_payload < h.payload_size
    → store h payload (new_buf h) r ≡ fault
unfolding store new_buf
store_overrun h payload r last long = ground (
  arith,
  get_or-replicate false h.fragment_count h.fragment_index,
  length-replicate (h.fragment_count * max_udp_payload) zero,
)

feed_missing :
    (h : UdpHeader) (payload : Bytes) (r : Reassembler)
    → 1 < h.fragment_count
    → find h.sequence r.frames ≡ none
    → (r' : Reassembler) × (r'.frames ≡ r.frames) × (feed h payload r ≡ start h payload r')
unfolding feed
feed_missing h payload r many missing = (
  record r {
    highest_started =
        (if not r.initialized || ltb r.highest_started h.sequence
          then h.sequence
          else r.highest_started);
    initialized = true;
  },
  refl,
  ground (arith, missing),
)

-- `feed` copies the payload before it looks at its size: the last fragment of a new frame with a
-- payload longer than `kMaxUdpPayload`, in a datagram that `decodeUdpHeader` accepts, is written
-- past the end of the frame's buffer.
pub feed_overrun :
    (h : UdpHeader) (payload : Bytes) (r : Reassembler)
    → InRange h
    → acceptable h (udp_header_size + length payload) ≡ true
    → 1 < h.fragment_count
    → h.fragment_index + 1 ≡ h.fragment_count
    → max_udp_payload < h.payload_size
    → find h.sequence r.frames ≡ none
    → length r.frames < max_in_flight
    → (decode_udp_header (encode_udp_header h ++ payload) ≡ some h) × (feed h payload r ≡ fault)
unfolding start
feed_overrun h payload r range good many last long missing lt =
    let (r', same, e) = feed_missing h payload r many missing in
    (
      ground (arith, decode_udp_header_lem h payload range),
      e
          ∙ ground (
            arith,
            store_overrun h payload r' last long,
            same,
            length-insert h.sequence empty_buf r.frames missing,
          ),
    )

erases_new :
    (k : ℕ) (frames : List (ℕ × FrameBuf))
    → All (λ e. k < e.0) frames
    → (erase_first (insert k empty_buf frames) ≡ frames) × (find k frames ≡ none)
unfolding erase_first insert find
erases_new k [] h = (refl, refl)
erases_new k ((j, w) ∷ m) (lt, h) = ground (arith, erases_new k m h)

-- With 96 frames in flight, a fragment of a new frame that is older than all of them makes `feed`
-- erase the buffer that it has just made and then use it.
pub feed_evicts_new :
    (h : UdpHeader) (payload : Bytes) (r : Reassembler)
    → 1 < h.fragment_count
    → length r.frames ≡ max_in_flight
    → All (λ e. h.sequence < e.0) r.frames
    → feed h payload r ≡ fault
unfolding start reopen
feed_evicts_new h payload r many full older =
    let (gone, missing) = erases_new h.sequence r.frames older in
    let (r', same, e) = feed_missing h payload r many missing in
    e ∙ ground (arith, same, gone, missing, length-insert h.sequence empty_buf r.frames missing)
