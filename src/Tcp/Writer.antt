-- ===== src/Tcp/Writer.antt =====
-- The writing half of a connection: what is on the wire, what waits, and how it closes.
use iran_remote_play.Prelude.{
  take, ltb, if◌then◌else◌, ◌==◌, Option, none, some, ◌≡◌, refl, sym, ap, ◌∙◌, subst, ◌⊎◌, inl, inr,
  Option, none, some, List, [], ◌∷◌, ◌++◌, Bool, true, false, ◌&&◌, not, ltb, ◌==◌, length,
  is_empty, IsPrefix, take, arith, append-nil, append_assoc, Bool-cases,
}
use iran_remote_play.Prelude.Bytes.{Bytes}
use iran_remote_play.Packet.Frame.{
  parse_frame_header, FrameHeader, frame_header_size, FrameHeader, parse_frame_header, make_frame,
  frame_header_size,
}
use iran_remote_play.Tcp.{
  start, adopted, read_header, Frame, Reading, idle, header, body, Connection, Event, Code, send,
  send_and_close, close, arrive, read_complete, read_fail, write_complete, adopted, shutdown,
  async_read, read_header, on_frame, read_body, header_read, taken, complete_read, fail_read,
  pump_write, pop_front, after_write, write_done, enqueue, enqueue_last, start, step, run, failed,
  Frame, Reading, idle, header, body, on_frame, header_read, taken, complete_read, fail_read,
  invalid_argument, read_body, async_read, success, invalid_argument,
}
use iran_remote_play.Tcp.Sound.{
  joined, joined-append, queued, requested, SoundWith, IsSound, make_closed, make_open,
  closed_sound, open_sound, IsSound-later, shutdown_open, shutdown-IsSound,
}

-- `pumpWrite` starts a write when one is due.
pump_write-IsSound :
    (c : Connection) (bytes : Bytes)
    → c.closed ≡ false
    → c.written ++ joined c.outbox ≡ bytes
    → c.closes ≡ []
    → (c.writing ≡ true → is_empty c.outbox ≡ false)
    → IsSound (pump_write c) bytes
unfolding pump_write
pump_write-IsSound c bytes b p o w = elim (Bool-cases c.writing) [
  | inl y ↦
      subst (λ d. IsSound d bytes) (ground arith) (make_open c bytes b p (ground (arith, w y)) o)
  | inr n ↦ elim (Bool-cases (is_empty c.outbox)) [
    | inl y ↦ subst (λ d. IsSound d bytes) (ground arith) (make_open c bytes b p (ground arith) o)
    | inr m ↦
        subst (λ d. IsSound d bytes) (ground arith)
          (make_open (record c { writing = true }) bytes b p (ground arith) o)
  ]
]

is_empty-append : (xs : List Bytes) (x : Bytes) → is_empty (xs ++ (x ∷ [])) ≡ false
is_empty-append [] x = refl
is_empty-append (y ∷ xs) x = refl

-- The outbox got one more frame.
enqueued-IsSound :
    (frame : Bytes) (last : Bool) (c : Connection) (bytes : Bytes)
    → c.closed ≡ false
    → IsSound c bytes
    → IsSound
        (pump_write (record c { outbox = c.outbox ++ (frame ∷ []); close_after_write = last }))
        (bytes ++ frame)
unfolding SoundWith
enqueued-IsSound frame last c bytes b h =
    let s = open_sound c bytes b h in
    pump_write-IsSound (record c { outbox = c.outbox ++ (frame ∷ []); close_after_write = last })
      (bytes ++ frame) b
      (ap (λ t. c.written ++ t) (joined-append c.outbox frame)
        ∙ (sym (append_assoc c.written (joined c.outbox) frame) ∙ ap (λ t. t ++ frame) s.0))
      s.2 (λ y. is_empty-append c.outbox frame)

enqueue-IsSound :
    (frame : Bytes) (c : Connection) (bytes : Bytes)
    → IsSound c bytes
    → IsSound (enqueue frame c) (bytes ++ frame)
unfolding enqueue
enqueue-IsSound frame c bytes h = elim (Bool-cases c.closed) [
  | inl b ↦ subst (λ d. IsSound d (bytes ++ frame)) (ground arith) (IsSound-later c bytes frame b h)
  | inr b ↦
      subst (λ d. IsSound d (bytes ++ frame)) (ground arith)
        (enqueued-IsSound frame c.close_after_write c bytes b h)
]

enqueue_last-IsSound :
    (frame : Bytes) (c : Connection) (bytes : Bytes)
    → IsSound c bytes
    → IsSound (enqueue_last frame c) (bytes ++ frame)
unfolding enqueue_last
enqueue_last-IsSound frame c bytes h = elim (Bool-cases c.closed) [
  | inl b ↦ subst (λ d. IsSound d (bytes ++ frame)) (ground arith) (IsSound-later c bytes frame b h)
  | inr b ↦
      subst (λ d. IsSound d (bytes ++ frame)) (ground arith)
        (enqueued-IsSound frame true c bytes b h)
]

-- The write at the front of the outbox is done.
after_write-IsSound :
    (c : Connection) (bytes : Bytes)
    → c.closed ≡ false
    → c.writing ≡ false
    → c.written ++ joined c.outbox ≡ bytes
    → c.closes ≡ []
    → IsSound (after_write c) bytes
unfolding after_write
after_write-IsSound c bytes b w p o = elim (Bool-cases (c.close_after_write && is_empty c.outbox)) [
  | inl y ↦ subst (λ d. IsSound d bytes) (ground arith) (shutdown_open success c bytes b p o)
  | inr n ↦
      subst (λ d. IsSound d bytes) (ground arith)
        (pump_write-IsSound c bytes b p o (λ y. ground arith))
]

popped-IsSound :
    (outbox : List Bytes) (c : Connection) (bytes : Bytes)
    → c.outbox ≡ outbox
    → c.closed ≡ false
    → c.writing ≡ false
    → c.written ++ joined outbox ≡ bytes
    → c.closes ≡ []
    → IsSound (after_write (pop_front outbox c)) bytes
unfolding pop_front joined
popped-IsSound [] c bytes e b w p o = after_write-IsSound c bytes b w (rw e p) o
popped-IsSound (x ∷ xs) c bytes e b w p o =
    after_write-IsSound (record c { outbox = xs; written = c.written ++ x }) bytes b w
      (append_assoc c.written x (joined xs) ∙ p) o

-- A write that ends on a closed connection starts nothing.
closed_write :
    (ec : Code) (c : Connection)
    → c.writing ≡ true
    → c.closed ≡ true
    → c.outbox ≡ []
    → record c { writing = false } ≡ write_done ec c
unfolding write_done pop_front after_write shutdown pump_write
closed_write ec c w b o = ground arith

write_done-IsSound :
    (ec : Code) (c : Connection) (bytes : Bytes) → IsSound c bytes → IsSound (write_done ec c) bytes
unfolding write_done SoundWith
write_done-IsSound ec c bytes h =
    let d : Connection = record c { writing = false } in
    elim (Bool-cases c.writing) [
      | inl w ↦ elim (Bool-cases c.closed) [
        | inl b ↦
            let s = closed_sound c bytes b h in
            subst (λ d. IsSound d bytes) (closed_write ec c w b s.1)
              (make_closed d bytes b s.0 s.1 s.2)
        | inr b ↦
            let s = open_sound c bytes b h in
            elim (Bool-cases (failed ec)) [
              | inl f ↦
                  subst (λ d. IsSound d bytes) (ground arith) (shutdown_open ec d bytes b s.0 s.2)
              | inr f ↦
                  subst (λ d. IsSound d bytes) (ground arith)
                    (popped-IsSound c.outbox d bytes refl b refl s.0 s.2)
            ]
      ]
      | inr n ↦ subst (λ d. IsSound d bytes) (ground arith) h
    ]

-- The reading half leaves all this alone, but may close the connection.
if-IsSound :
    (b : Bool) (c d : Connection) (bytes : Bytes)
    → IsSound c bytes
    → IsSound d bytes
    → IsSound (if b then c else d) bytes
if-IsSound true c d bytes h k = h
if-IsSound false c d bytes h k = k

on_frame-IsSound :
    (f : Frame) (c : Connection) (bytes : Bytes) → IsSound c bytes → IsSound (on_frame f c) bytes
unfolding on_frame IsSound
on_frame-IsSound f c bytes h = if-IsSound c.closed _ _ bytes h h

header_read-IsSound :
    (o : Option FrameHeader) (c : Connection) (bytes : Bytes)
    → IsSound c bytes
    → IsSound (header_read o c) bytes
unfolding header_read read_body async_read IsSound
header_read-IsSound none c bytes h = shutdown-IsSound invalid_argument c bytes h
header_read-IsSound (some hd) c bytes h =
    if-IsSound (hd.payload_size == 0) _ _ bytes (on_frame-IsSound _ c bytes h) h

complete_read-IsSound :
    (r : Reading) (c : Connection) (bytes : Bytes)
    → IsSound c bytes
    → IsSound (complete_read r c) bytes
unfolding complete_read taken IsSound
complete_read-IsSound idle c bytes h = h
complete_read-IsSound header c bytes h =
    if-IsSound (ltb (length c.incoming) frame_header_size) _ _ bytes h (
      header_read-IsSound (parse_frame_header (take frame_header_size c.incoming))
        (taken frame_header_size c) bytes h)
complete_read-IsSound (body type flags size) c bytes h =
    if-IsSound (ltb (length c.incoming) size) _ _ bytes h
      (on_frame-IsSound _ (taken size c) bytes h)

fail_read-IsSound :
    (ec : Code) (r : Reading) (c : Connection) (bytes : Bytes)
    → IsSound c bytes
    → IsSound (fail_read ec r c) bytes
unfolding fail_read IsSound
fail_read-IsSound ec idle c bytes h = h
fail_read-IsSound ec header c bytes h = shutdown-IsSound ec (record c { reading = idle }) bytes h
fail_read-IsSound ec (body type flags size) c bytes h =
    shutdown-IsSound ec (record c { reading = idle }) bytes h

step-IsSound :
    (e : Event) (c : Connection) (bytes : Bytes)
    → IsSound c bytes
    → IsSound (step e c) (bytes ++ queued e)
unfolding step queued IsSound
step-IsSound (send type payload) c bytes h = enqueue-IsSound (make_frame type payload) c bytes h
step-IsSound (send_and_close type payload) c bytes h =
    enqueue_last-IsSound (make_frame type payload) c bytes h
step-IsSound close c bytes h = rw (append-nil bytes) (shutdown-IsSound success c bytes h)
step-IsSound (arrive more) c bytes h = rw (append-nil bytes) (if-IsSound c.closed _ _ bytes h h)
step-IsSound read_complete c bytes h =
    rw (append-nil bytes) (complete_read-IsSound c.reading c bytes h)
step-IsSound (read_fail ec) c bytes h =
    rw (append-nil bytes) (fail_read-IsSound ec c.reading c bytes h)
step-IsSound (write_complete ec) c bytes h = rw (append-nil bytes) (write_done-IsSound ec c bytes h)

run-IsSound :
    (es : List Event) (c : Connection) (bytes : Bytes)
    → IsSound c bytes
    → IsSound (run es c) (bytes ++ requested es)
unfolding run requested
run-IsSound [] c bytes h = rw (append-nil bytes) h
run-IsSound (e ∷ es) c bytes h =
    rw (sym (append_assoc bytes (queued e) (requested es)))
      (run-IsSound es (step e c) (bytes ++ queued e) (step-IsSound e c bytes h))

-- Whatever happens to a started connection in whatever order: while it is open, the bytes that it
-- wrote and those that wait in the outbox are the frames it was asked to send, one after the other,
-- a write is outstanding exactly when the outbox is not empty, and the owner was not told that it
-- closed; when it is closed, the bytes that it wrote are a front part of those frames, and the owner
-- was told once.
pub run-written :
    (es : List Event)
    → let c = run es (start adopted) in
      ((c.closed ≡ true) × IsPrefix c.written (requested es) × (length c.closes ≡ 1))
      ⊎ ((c.closed ≡ false)
          × (c.written ++ joined c.outbox ≡ requested es)
          × (c.writing ≡ not (is_empty c.outbox))
          × (c.closes ≡ []))
unfolding SoundWith IsSound start read_header async_read joined
run-written es =
    let c = run es (start adopted) in
    let h = run-IsSound es (start adopted) [] (refl, refl, refl) in
    elim (Bool-cases c.closed) [
      | inl b ↦ let s = closed_sound c (requested es) b h in inl (b, s.0, s.2)
      | inr b ↦ let s = open_sound c (requested es) b h in inr (b, s.0, s.1, s.2)
    ]

pub written-prefix : (es : List Event) → IsPrefix (run es (start adopted)).written (requested es)
written-prefix es = elim (run-written es) [
  | inl s ↦ s.1
  | inr s ↦ (joined (run es (start adopted)).outbox, s.1)
]
