-- ===== src/Udp/Reassembly/Order.antt =====
-- A frame comes together from its fragments in any order.
use iran_remote_play.Prelude.{
  ℕ, zero, suc, ◌+◌, ◌-◌, ◌%◌, ◌^◌, ◌<◌, ◌≡◌, refl, ap, ◌∙◌, ◌⊎◌, inl, inr, none, some, List, [],
  ◌∷◌, Bool, true, false, ◌||◌, not, if◌then◌else◌, ltb, length, get_or, set, replicate, arith,
  take-all,
}
use iran_remote_play.Prelude.{get_or-replicate, length-set, get_or-set_self, get_or-set_ne}
use iran_remote_play.Udp.Header.{UdpType, type_of_raw, raw_type}
use iran_remote_play.Udp.Send.Split.{IsSplit, fragments_bounds, fragment_size_lem, payload-fragment}
use iran_remote_play.Udp.Send.{
  Outgoing, fragments, fragment_size, fragment_header, fragment_payload,
}
use iran_remote_play.Udp.Jitter.{AssembledFrame}
use iran_remote_play.Udp.FrameMap.{
  find, insert, erase, erase-insert, insert-insert, length-insert, find-insert_self,
}
use iran_remote_play.Udp.Reassembly.{
  FrameBuf, Reassembler, returns, max_in_flight, empty_buf, is_keyframe, new_buf, place, finish,
  store, start, continue, feed,
}
use iran_remote_play.Udp.Reassembly.Contents.{
  fragment, assemble, length-assemble, assemble_none, write_at-assemble, count_have, count_have-le,
  count_have-set, count_have_none, take-assemble,
}

-- The buffer of the frame while the marked fragments have arrived.
abbrev pub collecting : Outgoing → List Bool → FrameBuf
collecting s have = record {
  bytes = assemble have s.frame;
  have = have;
  received = count_have have;
  fragment_count = fragments s;
  total_size = if get_or have (fragments s - 1) false then length s.frame else 0;
  timestamp_ns = s.timestamp_ns;
  keyframe = s.keyframe;
}

-- The frame that was sent.
abbrev pub sent_frame : Outgoing → AssembledFrame
sent_frame s = record {
  type = s.type;
  session_id = s.session_id;
  sequence = s.sequence;
  timestamp_ns = s.timestamp_ns;
  keyframe = s.keyframe;
  payload = s.frame;
}

type_of_raw-raw_type : (t : UdpType) → type_of_raw (raw_type t) ≡ t
unfolding type_of_raw raw_type
type_of_raw-raw_type UdpType.video = refl
type_of_raw-raw_type _ = refl

keyframe_flag : (s : Outgoing) (i : ℕ) → is_keyframe (fragment_header s i) ≡ s.keyframe
unfolding fragment_header
keyframe_flag s i = ground arith

new_buf-collecting :
    (s : Outgoing) (i : ℕ)
    → new_buf (fragment_header s i) ≡ collecting s (replicate (fragments s) false)
unfolding new_buf fragment_header
new_buf-collecting s i = ground (
  arith,
  assemble_none (fragments s) s.frame,
  count_have_none (fragments s),
  get_or-replicate false (fragments s) (fragments s - 1),
)

place-collecting :
    (s : Outgoing) (i : ℕ) (have : List Bool)
    → IsSplit s
    → i < fragments s
    → length have ≡ fragments s
    → get_or have i false ≡ false
    → place (fragment_header s i) (fragment i s.frame) (collecting s have)
      ≡ collecting s (set have i true)
unfolding place fragment_header
place-collecting s i have v lt len absent =
    let (many, few, below, above) = fragments_bounds s v in
    let (size, inner) = fragment_size_lem s i v lt in
    ground (
      arith,
      write_at-assemble have i s.frame (omega arith) absent,
      count_have-set have i (omega arith) absent,
      count_have-le (set have i true),
      length-set have i true,
      get_or-set_self have i true false (omega arith),
      get_or-set_ne have i (fragments s - 1) true false,
      few,
      below,
      above,
      size,
    )

have_all :
    (have : List Bool) (i : ℕ)
    → count_have have ≡ length have
    → i < length have
    → get_or have i false ≡ true
unfolding count_have
have_all [] i h lt = absurd (omega arith)
have_all (true ∷ have) zero h lt = refl
have_all (false ∷ have) zero h lt = absurd (omega (arith, count_have-le have))
have_all (true ∷ have) (suc i) h lt = have_all have i (omega arith) (omega arith)
have_all (false ∷ have) (suc i) h lt = absurd (omega (arith, count_have-le have))

module _ (s : Outgoing) (v : IsSplit s) (m : List (ℕ × FrameBuf))
    (absent : find s.sequence m ≡ none) where
  -- The map but for the frame's own buffer.
  unfoldable pub Around : Reassembler → Type 0
  Around r = (fb : FrameBuf) → insert s.sequence fb r.frames ≡ insert s.sequence fb m

  pub finish_whole :
      (i : ℕ) (have : List Bool) (r : Reassembler)
      → Around r
      → length have ≡ fragments s
      → count_have have ≡ fragments s
      → (r' : Reassembler) × (finish (fragment_header s i) (collecting s have) r
          ≡ returns (some (sent_frame s)) r')
        × (r'.frames ≡ m)
  unfolding Around finish fragment_header
  finish_whole i have r around len whole =
      let (many, few, below, above) = fragments_bounds s v in
      (
        record r {
          frames = erase s.sequence (insert s.sequence (collecting s have) r.frames);
          completed = (r.completed + 1) % 2 ^ 64;
        },
        ground (
          arith,
          have_all have (fragments s - 1) (omega arith) (omega arith),
          take-assemble have s.frame (omega arith) (omega arith),
          length-assemble have s.frame,
          type_of_raw-raw_type s.type,
          many,
          above,
          v.big,
        ),
        ap (erase s.sequence) (around (collecting s have))
            ∙ erase-insert s.sequence (collecting s have) m absent,
      )

  pub finish_part :
      (i : ℕ) (have : List Bool) (r : Reassembler)
      → Around r
      → count_have have < fragments s
      → (r' : Reassembler) × (finish (fragment_header s i) (collecting s have) r ≡ returns none r')
        × (r'.frames ≡ insert s.sequence (collecting s have) m)
  unfolding Around finish fragment_header
  finish_part i have r around part = (
    record r { frames = insert s.sequence (collecting s have) r.frames },
    ground arith,
    around (collecting s have),
  )

  -- A fragment that is new is placed.
  pub store_lem :
      (i : ℕ) (have : List Bool) (r : Reassembler)
      → i < fragments s
      → length have ≡ fragments s
      → get_or have i false ≡ false
      → store (fragment_header s i) (fragment_payload s i) (collecting s have) r
        ≡ finish (fragment_header s i) (collecting s (set have i true)) r
  unfolding store fragment_header
  store_lem i have r lt len new =
      let (same, size) = payload-fragment s i v lt in
      let (many, few, below, above) = fragments_bounds s v in
      let (min_size, inner) = fragment_size_lem s i v lt in
      ground (
        arith,
        same,
        size,
        min_size,
        take-all (fragment i s.frame) (fragment_size s i),
        length-assemble have s.frame,
        place-collecting s i have v lt len new,
      )

  -- Before any fragment, or between two of them.
  unfoldable pub Stage : List Bool → Reassembler → Type 0
  Stage have r =
      ((have ≡ replicate (fragments s) false) × (r.frames ≡ m) × (length m < max_in_flight))
      ⊎ (r.frames ≡ insert s.sequence (collecting s have) m)

  -- The bookkeeping at the head of `feed`.
  unfoldable pub started : ℕ → Reassembler → Reassembler
  started i r = record r {
    highest_started =
        if not r.initialized || ltb r.highest_started s.sequence
        then s.sequence
        else r.highest_started;
    initialized = true;
  }

  pub feed-Stage :
      (i : ℕ) (have : List Bool) (r : Reassembler)
      → Stage have r
      → (r' : Reassembler) × (feed (fragment_header s i) (fragment_payload s i) r
          ≡ store (fragment_header s i) (fragment_payload s i) (collecting s have) r')
        × Around r'
  unfolding Stage Around feed start continue started fragment_header
  feed-Stage i have r (inl (none_yet, same, lt)) =
      let (many, few, below, above) = fragments_bounds s v in
      let missing : find s.sequence r.frames ≡ none = ap (find s.sequence) same ∙ absent in
      (
        started i r,
        ground (
          arith,
          many,
          missing,
          none_yet,
          same,
          new_buf-collecting s i,
          length-insert s.sequence empty_buf m absent,
        ),
        λ fb. ap (insert s.sequence fb) same,
      )
  feed-Stage i have r (inr e) =
      let (many, few, below, above) = fragments_bounds s v in
      (
        started i r,
        ground (
          arith,
          many,
          ap (find s.sequence) e,
          find-insert_self s.sequence (collecting s have) m,
        ),
        λ fb. ap (insert s.sequence fb) e ∙ insert-insert s.sequence fb (collecting s have) m,
      )
