-- ===== src/Tcp/Reader.antt =====
-- The reading half of a connection delivers the frames that the bytes it took carry.
use iran_remote_play.Prelude.{
  ◌≤◌, ℕ, ◌≤◌, ◌<◌, ◌≡◌, refl, sym, ap, ◌∙◌, subst, inl, inr, Option, none, some, List, [], ◌∷◌,
  ◌++◌, true, false, ltb, ◌==◌, length, IsPrefix, take, drop, arith, append-nil, append_assoc,
  take-append_le, drop-append_le, length-append, Bool-cases, length-append,
}
use iran_remote_play.Prelude.Bytes.{Bytes}
use iran_remote_play.Packet.Frame.{FrameHeader, parse_frame_header, make_frame, frame_header_size}
use iran_remote_play.Tcp.{
  Frame, Reading, idle, header, body, Connection, Event, Code, send, send_and_close, close, arrive,
  read_complete, read_fail, write_complete, adopted, shutdown, async_read, read_header, on_frame,
  read_body, header_read, taken, complete_read, fail_read, start, step, run, success,
  invalid_argument,
}
use iran_remote_play.Tcp.Stream.{frames, frames_short, frames_header}
use iran_remote_play.Tcp.View.{
  expected, Fits, arrived, accepted, FitsView, view, view-shutdown, view-write_done, view-enqueue,
  view-enqueue_last,
}

-- A read that ends without a frame leaves a front part.
pub Fits-IsPrefix :
    (r : Reading) (bs : Bytes) (done all : List Frame) → Fits r bs done all → IsPrefix done all
unfolding Fits
Fits-IsPrefix idle bs done all p = p
Fits-IsPrefix header bs done all e = (frames bs, sym e)
Fits-IsPrefix (body type flags size) bs done all e = (expected (body type flags size) bs, sym e)

ended :
    (ec : Code) (c : Connection) (total : Bytes)
    → ((more : Bytes) → IsPrefix c.delivered (frames (total ++ more)))
    → FitsView (view (shutdown ec (record c { reading = idle }))) total
unfolding Fits
ended ec c total h =
    subst (λ v. FitsView v total) (sym (view-shutdown ec (record c { reading = idle }))) h

fail_read-FitsView :
    (ec : Code) (r : Reading) (c : Connection) (total : Bytes)
    → c.reading ≡ r
    → FitsView (view c) total
    → FitsView (view (fail_read ec r c)) total
unfolding fail_read
fail_read-FitsView ec idle c total e h = h
fail_read-FitsView ec header c total e h =
    ended ec c total (λ more. Fits-IsPrefix c.reading (c.incoming ++ more) c.delivered _ (h more))
fail_read-FitsView ec (body type flags size) c total e h =
    ended ec c total (λ more. Fits-IsPrefix c.reading (c.incoming ++ more) c.delivered _ (h more))

-- A frame is delivered, and the header after it is read next.
on_frame-FitsView :
    (f : Frame) (c : Connection) (total : Bytes)
    → c.reading ≡ idle
    → ((more : Bytes) → frames (total ++ more) ≡ c.delivered ++ (f ∷ frames (c.incoming ++ more)))
    → FitsView (view (on_frame f c)) total
unfolding on_frame Fits
on_frame-FitsView f c total i h more =
    let later = frames (c.incoming ++ more) in
    let e = h more ∙ sym (append_assoc c.delivered (f ∷ []) later) in
    elim (Bool-cases c.closed) [ inl b ↦ rw (b, i) (later, sym e) | inr b ↦ rw (async_read, b) e ]

expected-empty :
    (type flags size : ℕ) (bs : Bytes)
    → (size == 0) ≡ true
    → expected (body type flags size) bs
      ≡ record { type = type; flags = flags; payload = [] } ∷ frames bs
unfolding expected
expected-empty type flags size bs z = let e : size ≡ 0 = ground arith in rw e (ground arith)

async_read-FitsView :
    (type flags size : ℕ) (c : Connection) (total : Bytes)
    → ((more : Bytes)
        → frames (total ++ more)
          ≡ c.delivered ++ expected (body type flags size) (c.incoming ++ more))
    → FitsView (view (async_read (body type flags size) c)) total
unfolding async_read Fits
async_read-FitsView type flags size c total h more = elim (Bool-cases c.closed) [
  | inl b ↦ rw b (expected (body type flags size) (c.incoming ++ more), sym (h more))
  | inr b ↦ rw b (h more)
]

read_body-FitsView :
    (type flags size : ℕ) (c : Connection) (total : Bytes)
    → c.reading ≡ idle
    → ((more : Bytes)
        → frames (total ++ more)
          ≡ c.delivered ++ expected (body type flags size) (c.incoming ++ more))
    → FitsView (view (read_body type flags size c)) total
unfolding read_body
read_body-FitsView type flags size c total i h = elim (Bool-cases (size == 0)) [
  | inl z ↦
      rw (read_body, z)
        (on_frame-FitsView _ c total i (λ rest.
          h rest
          ∙ ap (λ t. c.delivered ++ t) (expected-empty type flags size (c.incoming ++ rest) z)))
  | inr z ↦ rw (read_body, z) (async_read-FitsView type flags size c total h)
]

header_expected :
    (h : FrameHeader) (bs more : Bytes)
    → frame_header_size ≤ length bs
    → parse_frame_header (take frame_header_size bs) ≡ some h
    → frames (bs ++ more)
      ≡ expected (body h.type h.flags h.payload_size) (drop frame_header_size bs ++ more)
unfolding expected
header_expected h bs more l e =
    rw
      (
        frames_header (bs ++ more) h (ground (arith, length-append bs more))
            (ap parse_frame_header (take-append_le bs more frame_header_size l) ∙ e),
        drop-append_le bs more frame_header_size l,
      )
      refl

-- The header that was waited for is there.
header_read-FitsView :
    (o : Option FrameHeader) (c : Connection) (total : Bytes)
    → frame_header_size ≤ length c.incoming
    → parse_frame_header (take frame_header_size c.incoming) ≡ o
    → ((more : Bytes) → frames (total ++ more) ≡ c.delivered ++ frames (c.incoming ++ more))
    → FitsView (view (header_read o (taken frame_header_size c))) total
unfolding header_read taken
header_read-FitsView none c total l e h =
    ended invalid_argument (taken frame_header_size c) total
      (λ more. (frames (c.incoming ++ more), sym (h more)))
header_read-FitsView (some hd) c total l e h =
    read_body-FitsView hd.type hd.flags hd.payload_size (taken frame_header_size c) total refl
      (λ more. h more ∙ ap (λ t. c.delivered ++ t) (header_expected hd c.incoming more l e))

body_expected :
    (type flags size : ℕ) (bs more : Bytes)
    → ltb (length bs) size ≡ false
    → expected (body type flags size) (bs ++ more)
      ≡ record { type = type; flags = flags; payload = take size bs }
        ∷ frames (drop size bs ++ more)
unfolding expected
body_expected type flags size bs more b =
    let l : size ≤ length bs = ground arith in
    rw (sym (drop-append_le bs more size l), sym (take-append_le bs more size l))
      (ground (arith, length-append bs more))

-- The header or the body that was waited for is there.
complete_read-FitsView :
    (r : Reading) (c : Connection) (total : Bytes)
    → c.reading ≡ r
    → FitsView (view c) total
    → FitsView (view (complete_read r c)) total
unfolding complete_read Fits
complete_read-FitsView idle c total e h = h
complete_read-FitsView header c total e h =
    elim (Bool-cases (ltb (length c.incoming) frame_header_size)) [
      | inl b ↦ rw b h
      | inr b ↦ rw b (
          header_read-FitsView _ c total (ground arith) refl (
            subst
              (λ r.
                (more : Bytes) → Fits r (c.incoming ++ more) c.delivered (frames (total ++ more)))
              e h))
    ]
complete_read-FitsView (body type flags size) c total e h =
    elim (Bool-cases (ltb (length c.incoming) size)) [
      | inl b ↦ rw b h
      | inr b ↦ rw b (
          on_frame-FitsView _ (taken size c) total refl (λ more.
            subst (λ r. Fits r (c.incoming ++ more) c.delivered (frames (total ++ more))) e (h more)
            ∙ ap (λ t. c.delivered ++ t) (body_expected type flags size c.incoming more b)))
    ]

-- Nothing arrived.
FitsView-same :
    (v : Reading × Bytes × List Frame) (total : Bytes) → FitsView v total → FitsView v (total ++ [])
FitsView-same v total h = rw (append-nil total) h

FitsView-arrive :
    (bytes : Bytes) (c : Connection) (total : Bytes)
    → FitsView (view c) total
    → FitsView (view (step (arrive bytes) c)) (total ++ arrived (arrive bytes) c)
unfolding step arrived
FitsView-arrive bytes c total h = elim (Bool-cases c.closed) [
  | inl b ↦ rw b (FitsView-same (view c) total h)
  | inr b ↦ rw b λ more.
      rw (append_assoc c.incoming bytes more, append_assoc total bytes more) (h (bytes ++ more))
]

step-FitsView :
    (e : Event) (c : Connection) (total : Bytes)
    → FitsView (view c) total
    → FitsView (view (step e c)) (total ++ arrived e c)
unfolding step arrived
step-FitsView (send type payload) c total h =
    FitsView-same _ total
      (subst (λ v. FitsView v total) (sym (view-enqueue (make_frame type payload) c)) h)
step-FitsView (send_and_close type payload) c total h =
    FitsView-same _ total
      (subst (λ v. FitsView v total) (sym (view-enqueue_last (make_frame type payload) c)) h)
step-FitsView close c total h =
    FitsView-same _ total (subst (λ v. FitsView v total) (sym (view-shutdown success c)) h)
step-FitsView (arrive bytes) c total h = FitsView-arrive bytes c total h
step-FitsView read_complete c total h =
    FitsView-same _ total (complete_read-FitsView c.reading c total refl h)
step-FitsView (read_fail ec) c total h =
    FitsView-same _ total (fail_read-FitsView ec c.reading c total refl h)
step-FitsView (write_complete ec) c total h =
    FitsView-same _ total (subst (λ v. FitsView v total) (sym (view-write_done ec c)) h)

pub run-FitsView :
    (es : List Event) (c : Connection) (total : Bytes)
    → FitsView (view c) total
    → FitsView (view (run es c)) (total ++ accepted es c)
unfolding run accepted
run-FitsView [] c total h = FitsView-same (view c) total h
run-FitsView (e ∷ es) c total h =
    rw (sym (append_assoc total (arrived e c) (accepted es (step e c))))
      (run-FitsView es (step e c) (total ++ arrived e c) (step-FitsView e c total h))

-- How many bytes a read waits for.
unfoldable pub wanted : Reading → ℕ
wanted idle = 0
wanted header = frame_header_size
wanted (body type flags size) = size

pub Fits-all :
    (r : Reading) (bs : Bytes) (done all : List Frame)
    → length bs < wanted r
    → Fits r bs done all
    → done ≡ all
unfolding Fits wanted expected
Fits-all idle bs done all l h = absurd (omega arith)
Fits-all header bs done all l h = rw (h, frames_short bs l) (sym (append-nil done))
Fits-all (body type flags size) bs done all l h =
    let b : ltb (length bs) size ≡ true = ground arith in rw (h, b) (sym (append-nil done))

pub run-Fits :
    (es : List Event) (c : Connection) (total : Bytes)
    → FitsView (view c) total
    → Fits
        (run es c).reading
        (run es c).incoming
        (run es c).delivered
        (frames (total ++ accepted es c))
run-Fits es c total h =
    let f = run-FitsView es c total h [] in
    subst (λ bs. Fits (run es c).reading bs (run es c).delivered (frames (total ++ accepted es c)))
      (append-nil (run es c).incoming)
      (subst
        (λ bs. Fits (run es c).reading ((run es c).incoming ++ []) (run es c).delivered (frames bs))
        (append-nil (total ++ accepted es c)) f)

-- What a started connection has delivered.
pub delivered-prefix :
    (es : List Event)
    → IsPrefix (run es (start adopted)).delivered (frames (accepted es (start adopted)))
unfolding start read_header async_read Fits
delivered-prefix es =
    let c = run es (start adopted) in
    Fits-IsPrefix c.reading c.incoming c.delivered (frames (accepted es (start adopted)))
      (run-Fits es (start adopted) [] (λ more. refl))

-- How a started connection fits the bytes it took.
pub start-FitsView :
    (es : List Event) → FitsView (view (run es (start adopted))) (accepted es (start adopted))
unfolding start read_header async_read Fits
start-FitsView es = run-FitsView es (start adopted) [] (λ more. refl)
