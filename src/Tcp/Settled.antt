-- ===== src/Tcp/Settled.antt =====
-- The reading half of a connection always waits for something, and comes to rest.
use iran_remote_play.Prelude.{
  ℕ, zero, suc, ◌≤◌, ◌<◌, ◌≡◌, refl, ap, ◌∙◌, subst, ◌⊎◌, inl, inr, Option, none, some, List, [],
  ◌∷◌, ◌++◌, Bool, true, false, ◌||◌, ltb, length, IsPrefix, take, drop, replicate, arith,
  append-nil, Bool-cases, length-drop,
}
use iran_remote_play.Prelude.Bytes.{Bytes}
use iran_remote_play.Packet.Frame.{FrameHeader, parse_frame_header, make_frame, frame_header_size}
use iran_remote_play.Tcp.{
  Frame, Reading, idle, header, body, Connection, Event, Code, send, send_and_close, close, arrive,
  read_complete, read_fail, write_complete, adopted, shutdown, async_read, read_header, on_frame,
  read_body, header_read, taken, complete_read, fail_read, pump_write, pop_front, after_write,
  write_done, enqueue, enqueue_last, start, step, run, success, invalid_argument,
}
use iran_remote_play.Tcp.Stream.{frames}
use iran_remote_play.Tcp.View.{accepted, arrived, Fits}
use iran_remote_play.Tcp.Reader.{Fits-all, run-Fits, delivered-prefix, start-FitsView, wanted}

-- An open connection has a read outstanding, of one byte at least.
awake : Connection → Bool
unfolding wanted
awake c = c.closed || ltb 0 (wanted c.reading)

shutdown-awake : (ec : Code) (c : Connection) → awake (shutdown ec c) ≡ true
unfolding awake shutdown
shutdown-awake ec c = ground arith

pump_write-awake : (c : Connection) → awake (pump_write c) ≡ awake c
unfolding awake pump_write
pump_write-awake c = ground arith

pop_front-awake : (o : List Bytes) (c : Connection) → awake (pop_front o c) ≡ awake c
unfolding awake pop_front
pop_front-awake [] c = refl
pop_front-awake (x ∷ o) c = refl

after_write-awake : (c : Connection) → awake c ≡ true → awake (after_write c) ≡ true
unfolding after_write
after_write-awake c h = ground (arith, shutdown-awake success c, pump_write-awake c)

write_done-awake : (ec : Code) (c : Connection) → awake c ≡ true → awake (write_done ec c) ≡ true
unfolding write_done awake
write_done-awake ec c h =
    let d : Connection = record c { writing = false } in
    let p = pop_front-awake d.outbox d in
    ground (arith, shutdown-awake ec d, after_write-awake (pop_front d.outbox d), p)

enqueue-awake : (frame : Bytes) (c : Connection) → awake c ≡ true → awake (enqueue frame c) ≡ true
unfolding enqueue awake
enqueue-awake frame c h =
    ground (arith, pump_write-awake (record c { outbox = c.outbox ++ (frame ∷ []) }))

enqueue_last-awake :
    (frame : Bytes) (c : Connection) → awake c ≡ true → awake (enqueue_last frame c) ≡ true
unfolding enqueue_last awake
enqueue_last-awake frame c h = ground (
  arith,
  pump_write-awake (record c { outbox = c.outbox ++ (frame ∷ []); close_after_write = true }),
)

on_frame-awake : (f : Frame) (c : Connection) → awake (on_frame f c) ≡ true
unfolding on_frame read_header async_read awake wanted
on_frame-awake f c = ground arith

read_body-awake :
    (type flags size : ℕ) (c : Connection) → awake (read_body type flags size c) ≡ true
unfolding read_body async_read awake wanted
read_body-awake type flags size c =
    ground (arith, on_frame-awake (record { type = type; flags = flags; payload = [] }) c)

header_read-awake : (o : Option FrameHeader) (c : Connection) → awake (header_read o c) ≡ true
unfolding header_read
header_read-awake none c = shutdown-awake invalid_argument c
header_read-awake (some h) c = read_body-awake h.type h.flags h.payload_size c

complete_read-awake :
    (r : Reading) (c : Connection) → awake c ≡ true → awake (complete_read r c) ≡ true
unfolding complete_read
complete_read-awake idle c h = h
complete_read-awake header c h = ground (
  arith,
  header_read-awake (parse_frame_header (take frame_header_size c.incoming))
      (taken frame_header_size c),
)
complete_read-awake (body type flags size) c h = ground (
  arith,
  on_frame-awake (record { type = type; flags = flags; payload = take size c.incoming })
      (taken size c),
)

fail_read-awake :
    (ec : Code) (r : Reading) (c : Connection) → awake c ≡ true → awake (fail_read ec r c) ≡ true
unfolding fail_read
fail_read-awake ec idle c h = h
fail_read-awake ec header c h = shutdown-awake ec (record c { reading = idle })
fail_read-awake ec (body type flags size) c h = shutdown-awake ec (record c { reading = idle })

step-awake : (e : Event) (c : Connection) → awake c ≡ true → awake (step e c) ≡ true
unfolding step awake
step-awake (send type payload) c h = enqueue-awake (make_frame type payload) c h
step-awake (send_and_close type payload) c h = enqueue_last-awake (make_frame type payload) c h
step-awake close c h = shutdown-awake success c
step-awake (arrive bytes) c h = ground arith
step-awake read_complete c h = complete_read-awake c.reading c h
step-awake (read_fail ec) c h = fail_read-awake ec c.reading c h
step-awake (write_complete ec) c h = write_done-awake ec c h

run-awake : (es : List Event) (c : Connection) → awake c ≡ true → awake (run es c) ≡ true
unfolding run
run-awake [] c h = h
run-awake (e ∷ es) c h = run-awake es (step e c) (step-awake e c h)

-- What a completed read leaves in the socket.
on_frame-incoming : (f : Frame) (c : Connection) → (on_frame f c).incoming ≡ c.incoming
unfolding on_frame read_header async_read
on_frame-incoming f c = ground arith

header_read-incoming :
    (o : Option FrameHeader) (c : Connection) → (header_read o c).incoming ≡ c.incoming
unfolding header_read shutdown read_body async_read
header_read-incoming none c = ground arith
header_read-incoming (some h) c =
    ground (arith, on_frame-incoming (record { type = h.type; flags = h.flags; payload = [] }) c)

complete_read-incoming :
    (r : Reading) (c : Connection)
    → wanted r ≤ length c.incoming
    → (complete_read r c).incoming ≡ drop (wanted r) c.incoming
unfolding complete_read wanted taken
complete_read-incoming idle c h = refl
complete_read-incoming header c h = ground (
  arith,
  header_read-incoming (parse_frame_header (take frame_header_size c.incoming))
      (taken frame_header_size c),
)
complete_read-incoming (body type flags size) c h = ground (
  arith,
  on_frame-incoming (record { type = type; flags = flags; payload = take size c.incoming })
      (taken size c),
)

complete_read-waits :
    (r : Reading) (c : Connection) → length c.incoming < wanted r → complete_read r c ≡ c
unfolding complete_read wanted
complete_read-waits idle c h = absurd (omega arith)
complete_read-waits header c h = ground arith
complete_read-waits (body type flags size) c h = ground arith

on_frame-closed : (f : Frame) (c : Connection) → c.closed ≡ true → (on_frame f c).closed ≡ true
unfolding on_frame read_header async_read
on_frame-closed f c h = ground arith

header_read-closed :
    (o : Option FrameHeader) (c : Connection) → c.closed ≡ true → (header_read o c).closed ≡ true
unfolding header_read shutdown read_body async_read
header_read-closed none c h = ground arith
header_read-closed (some hd) c h =
    ground (arith, on_frame-closed (record { type = hd.type; flags = hd.flags; payload = [] }) c h)

complete_read-closed :
    (r : Reading) (c : Connection) → c.closed ≡ true → (complete_read r c).closed ≡ true
unfolding complete_read taken
complete_read-closed idle c h = h
complete_read-closed header c h = ground (
  arith,
  header_read-closed (parse_frame_header (take frame_header_size c.incoming))
      (taken frame_header_size c) h,
)
complete_read-closed (body type flags size) c h = ground (
  arith,
  on_frame-closed (record { type = type; flags = flags; payload = take size c.incoming })
      (taken size c) h,
)

-- `n` reads complete, one after the other.
abbrev pub reads : ℕ → List Event
reads n = replicate n read_complete

reads-closed : (n : ℕ) (c : Connection) → c.closed ≡ true → (run (reads n) c).closed ≡ true
unfolding run step
reads-closed zero c h = h
reads-closed (suc n) c h =
    reads-closed n (complete_read c.reading c) (complete_read-closed c.reading c h)

reads-wait : (n : ℕ) (c : Connection) → length c.incoming < wanted c.reading → run (reads n) c ≡ c
unfolding run step
reads-wait zero c h = refl
reads-wait (suc n) c h = ap (run (reads n)) (complete_read-waits c.reading c h) ∙ reads-wait n c h

reads-settle :
    (n : ℕ) (c : Connection)
    → awake c ≡ true
    → length c.incoming ≤ n
    → ((run (reads n) c).closed ≡ true)
      ⊎ (length (run (reads n) c).incoming < wanted (run (reads n) c).reading)
unfolding run step awake
reads-settle zero c h l = ground arith
reads-settle (suc n) c h l = elim (Bool-cases c.closed) [
  | inl b ↦ inl (reads-closed (suc n) c b)
  | inr b ↦ elim (Bool-cases (ltb (length c.incoming) (wanted c.reading))) [
    | inl w ↦ inr (rw (reads-wait (suc n) c (ground arith)) (ground arith))
    | inr w ↦
        let e = complete_read-incoming c.reading c (ground arith) in
        reads-settle n (complete_read c.reading c) (complete_read-awake c.reading c h)
          (ground (arith, e, length-drop (wanted c.reading) c.incoming))
  ]
]

reads-accepted : (n : ℕ) (c : Connection) → accepted (reads n) c ≡ []
unfolding accepted arrived
reads-accepted zero c = refl
reads-accepted (suc n) c = reads-accepted n (step read_complete c)

-- A started connection has handed to its owner, whatever happened to it in whatever order, a front
-- part of the frames that the bytes it took from the socket carry, as one reads them off the whole
-- stream at once. Once as many reads complete as there are bytes left in the socket, it is closed, or
-- it has handed over all of those frames.
pub reads-frames :
    (es : List Event)
    → let c = run es (start adopted) in
      let all = frames (accepted es (start adopted)) in
      let d = run (reads (length c.incoming)) c in
      IsPrefix c.delivered all × ((d.closed ≡ true) ⊎ (d.delivered ≡ all))
unfolding start read_header async_read awake wanted
reads-frames es =
    let c = run es (start adopted) in
    let got = accepted es (start adopted) in
    let n = length c.incoming in
    let d = run (reads n) c in
    let f = run-Fits (reads n) c got (start-FitsView es) in
    (
      delivered-prefix es,
      elim (reads-settle n c (run-awake es (start adopted) refl) (omega arith)) [
        | inl shut ↦ inl shut
        | inr rest ↦ inr (
            Fits-all d.reading d.incoming d.delivered (frames got) rest (
              subst (λ bs. Fits d.reading d.incoming d.delivered (frames bs))
                (ap (λ bs. got ++ bs) (reads-accepted n c) ∙ append-nil got) f))
      ],
    )
