-- ===== src/Tcp/Stream.antt =====
-- The frames that a stream of bytes carries, read off the whole stream at once.
use iran_remote_play.Prelude.{
  ℕ, zero, suc, ◌+◌, ◌^◌, ◌≤◌, ◌<◌, ◌≡◌, refl, sym, ap, ◌∙◌, inl, inr, Option, none, some, List, [],
  ◌∷◌, ◌++◌, if◌then◌else◌, ltb, length, IsPrefix, take, drop, arith, take-append_le,
  drop-append_le, Bool-cases, Option-cases, length-append, length-take, length-drop, take-append,
  drop-append, drop-drop,
}
use iran_remote_play.Prelude.Bytes.{Bytes}
use iran_remote_play.Packet.Frame.{
  FrameHeader, parse_frame_header, make_frame, frame_header_size, max_control_payload,
  parse_frame_header-take, drop-make_frame, length-make_frame,
}
use iran_remote_play.Tcp.{Frame}

unfoldable payload_frame : Option FrameHeader → Bytes → Option Frame
payload_frame none bs = none
payload_frame (some h) bs =
    if ltb (length bs) h.payload_size
    then none
    else some (record { type = h.type; flags = h.flags; payload = take h.payload_size bs })

-- The frame at the front, when all of it is there.
unfoldable first_frame : Bytes → Option Frame
unfolding payload_frame
first_frame bs =
    if ltb (length bs) frame_header_size
    then none
    else payload_frame (parse_frame_header (take frame_header_size bs)) (drop frame_header_size bs)

unfoldable skip_frame : Option Frame → Bytes → Bytes
skip_frame none bs = []
skip_frame (some f) bs = drop (frame_header_size + length f.payload) bs

unfoldable put_frame : Option Frame → List Frame → List Frame
put_frame none fs = []
put_frame (some f) fs = f ∷ fs

unfoldable stream : ℕ → Bytes → List Frame
unfolding first_frame skip_frame put_frame
stream zero bs = []
stream (suc k) bs =
    let rest = stream k (skip_frame (first_frame bs) bs) in put_frame (first_frame bs) rest

unfoldable pub frames : Bytes → List Frame
unfolding stream
frames bs = stream (length bs) bs

payload_frame_size :
    (h : Option FrameHeader) (bs : Bytes) (f : Frame)
    → payload_frame h bs ≡ some f
    → length f.payload ≤ length bs
unfolding payload_frame
payload_frame_size none bs f e = cc
payload_frame_size (some h) bs f e = ground (arith, length-take h.payload_size bs)

first_frame_size :
    (bs : Bytes) (f : Frame) → first_frame bs ≡ some f → 10 + length f.payload ≤ length bs
unfolding first_frame
first_frame_size bs f e =
    let p = payload_frame_size (parse_frame_header (take 10 bs)) (drop 10 bs) f in
    ground (arith, p, length-drop 10 bs)

-- With enough fuel, more of it changes nothing.
skip_frame_size :
    (o : Option Frame) (bs : Bytes) (k : ℕ)
    → first_frame bs ≡ o
    → length bs ≤ suc k
    → length (skip_frame o bs) ≤ k
unfolding skip_frame
skip_frame_size none bs k e h = omega arith
skip_frame_size (some f) bs k e h =
    let s = first_frame_size bs f e in omega (arith, length-drop (10 + length f.payload) bs)

stream_more : (j k : ℕ) (bs : Bytes) → length bs ≤ j → length bs ≤ k → stream j bs ≡ stream k bs
unfolding stream first_frame put_frame
stream_more zero zero bs hj hk = refl
stream_more zero (suc k) bs hj hk = ground arith
stream_more (suc j) zero bs hj hk = ground arith
stream_more (suc j) (suc k) bs hj hk = rw (
    stream_more j k (skip_frame (first_frame bs) bs) (skip_frame_size (first_frame bs) bs j refl hj)
      (skip_frame_size (first_frame bs) bs k refl hk))

frames_next :
    (bs : Bytes) → frames bs ≡ put_frame (first_frame bs) (frames (skip_frame (first_frame bs) bs))
unfolding frames
frames_next bs =
    stream_more (length bs) (suc (length bs)) bs (omega arith) (omega arith)
    ∙ ap (put_frame (first_frame bs)) (
        stream_more (length bs) (length (skip_frame (first_frame bs) bs))
          (skip_frame (first_frame bs) bs)
          (skip_frame_size (first_frame bs) bs (length bs) refl (omega arith)) (omega arith))

-- More bytes behind it change neither the frame at the front nor what it leaves.
payload_frame-append :
    (h : Option FrameHeader) (bs zs : Bytes) (f : Frame)
    → payload_frame h bs ≡ some f
    → payload_frame h (bs ++ zs) ≡ some f
unfolding payload_frame
payload_frame-append none bs zs f e = cc
payload_frame-append (some h) bs zs f e = elim (Bool-cases (ltb (length bs) h.payload_size)) [
  | inl c ↦ absurd (ground arith)
  | inr c ↦
      let l : h.payload_size ≤ length bs = ground arith in
      rw (take-append_le bs zs h.payload_size l) (ground (arith, length-append bs zs))
]

first_frame-append :
    (bs zs : Bytes) (f : Frame) → first_frame bs ≡ some f → first_frame (bs ++ zs) ≡ some f
unfolding first_frame
first_frame-append bs zs f e = elim (Bool-cases (ltb (length bs) 10)) [
  | inl c ↦ absurd (ground arith)
  | inr c ↦
      let l : 10 ≤ length bs = ground arith in
      let p = payload_frame-append (parse_frame_header (take 10 bs)) (drop 10 bs) zs f in
      rw (take-append_le bs zs 10 l, drop-append_le bs zs 10 l)
        (ground (arith, length-append bs zs, p))
]

put-prefix : (f : Frame) (fs gs : List Frame) → IsPrefix fs gs → IsPrefix (f ∷ fs) (f ∷ gs)
put-prefix f fs gs p = (p.0, ap (λ t. f ∷ t) p.1)

stream-append : (k : ℕ) (bs zs : Bytes) → length bs ≤ k → IsPrefix (stream k bs) (frames (bs ++ zs))
unfolding stream
stream-append zero bs zs h = (frames (bs ++ zs), refl)
stream-append (suc k) bs zs h = elim (Option-cases (first_frame bs)) [
  | inl e ↦ rw (e, put_frame) (frames (bs ++ zs), refl)
  | inr (f, e) ↦
      let n = 10 + length f.payload in
      let l : n ≤ length bs = first_frame_size bs f e in
      let d : length (drop n bs) ≤ k = omega (arith, length-drop n bs) in
      rw
        (
          frames_next (bs ++ zs),
          e,
          first_frame-append bs zs f e,
          put_frame,
          skip_frame,
          drop-append_le bs zs n l,
        )
        (put-prefix f _ _ (stream-append k (drop n bs) zs d))
]

-- What a front part of the bytes carries is a front part of what all carry.
pub frames-prefix : (bs cs : Bytes) → IsPrefix bs cs → IsPrefix (frames bs) (frames cs)
unfolding frames
frames-prefix bs cs p = rw (sym p.1) (stream-append (length bs) bs p.0 (omega arith))

first_frame-make_frame :
    (type : ℕ) (payload more : Bytes)
    → type < 2 ^ 16
    → length payload ≤ max_control_payload
    → first_frame (make_frame type payload ++ more)
      ≡ some (record { type = type; flags = 0; payload = payload })
unfolding first_frame payload_frame
first_frame-make_frame type payload more ht hp =
    rw
      (
        parse_frame_header-take type payload more ht hp,
        drop-make_frame type payload more hp,
        length-make_frame type payload more hp,
        take-append payload more (length payload) refl,
      )
      (ground (arith, length-append payload more))

-- A frame that `makeFrame` builds is read back, and the rest after it.
pub frames-make_frame :
    (type : ℕ) (payload more : Bytes)
    → type < 2 ^ 16
    → length payload ≤ max_control_payload
    → frames (make_frame type payload ++ more)
      ≡ record { type = type; flags = 0; payload = payload } ∷ frames more
unfolding put_frame skip_frame
frames-make_frame type payload more ht hp =
    rw
      (
        frames_next (make_frame type payload ++ more),
        first_frame-make_frame type payload more ht hp,
        put_frame,
        skip_frame,
        sym (
            drop-drop (length payload) 10 (10 + length payload) (make_frame type payload ++ more)
              (omega arith)),
        drop-make_frame type payload more hp,
        drop-append payload more (length payload) refl,
      )
      refl

-- The frames of a stream, by the header at its front.
pub frames_short : (bs : Bytes) → length bs < frame_header_size → frames bs ≡ []
unfolding first_frame put_frame
frames_short bs h = rw (frames_next bs) (ground arith)

pub frames_bad :
    (bs : Bytes) → parse_frame_header (take frame_header_size bs) ≡ none → frames bs ≡ []
unfolding first_frame put_frame payload_frame
frames_bad bs e = rw (frames_next bs, e) (ground arith)

pub frames_header :
    (bs : Bytes) (h : FrameHeader)
    → frame_header_size ≤ length bs
    → parse_frame_header (take frame_header_size bs) ≡ some h
    → frames bs ≡ (
        let rest = drop frame_header_size bs in
        if ltb (length rest) h.payload_size
        then []
        else record { type = h.type; flags = h.flags; payload = take h.payload_size rest }
          ∷ frames (drop h.payload_size rest))
unfolding first_frame put_frame payload_frame skip_frame
frames_header bs h l e =
    let rest = drop 10 bs in
    let d = drop-drop h.payload_size 10 (10 + h.payload_size) bs (omega arith) in
    rw (frames_next bs, e) (ground (arith, length-take h.payload_size rest, d))
