-- ===== src/Tcp/View.antt =====
-- What the reading half has delivered, and what is still to come of the bytes that it holds.
use iran_remote_play.Prelude.{
  ◌≡◌, refl, List, [], ◌∷◌, ◌++◌, true, false, if◌then◌else◌, ltb, length, IsPrefix, take, drop,
  arith,
}
use iran_remote_play.Prelude.Bytes.{Bytes}
use iran_remote_play.Tcp.{
  Frame, Reading, idle, header, body, Connection, Event, Code, send, send_and_close, close, arrive,
  read_complete, read_fail, write_complete, shutdown, pump_write, pop_front, after_write,
  write_done, enqueue, enqueue_last, step, success,
}
use iran_remote_play.Tcp.Stream.{frames}

-- The frames that are still to come of the bytes `bs`, with the read `r` outstanding.
unfoldable pub expected : Reading → Bytes → List Frame
expected idle bs = []
expected header bs = frames bs
expected (body type flags size) bs =
    if ltb (length bs) size
    then []
    else record { type = type; flags = flags; payload = take size bs } ∷ frames (drop size bs)

-- `done` have been delivered of `all`, when the bytes `bs` are not read yet.
unfoldable pub Fits : Reading → Bytes → List Frame → List Frame → Type 0
Fits idle bs done all = IsPrefix done all
Fits header bs done all = all ≡ done ++ frames bs
Fits (body type flags size) bs done all = all ≡ done ++ expected (body type flags size) bs

-- The bytes that the socket took.
unfoldable pub arrived : Event → Connection → Bytes
arrived (arrive bytes) c = if c.closed then [] else bytes
arrived (send type payload) c = []
arrived (send_and_close type payload) c = []
arrived close c = []
arrived read_complete c = []
arrived (read_fail ec) c = []
arrived (write_complete ec) c = []

unfoldable pub accepted : List Event → Connection → Bytes
unfolding arrived
accepted [] c = []
accepted (e ∷ es) c = arrived e c ++ accepted es (step e c)

-- What the connection delivered fits what it took, whatever comes next.
abbrev pub FitsView : Reading × Bytes × List Frame → Bytes → Type 0
FitsView v total = (more : Bytes) → Fits v.0 (v.1 ++ more) v.2 (frames (total ++ more))

abbrev pub view : Connection → Reading × Bytes × List Frame
view c = (c.reading, c.incoming, c.delivered)

pub view-shutdown : (ec : Code) (c : Connection) → view (shutdown ec c) ≡ view c
unfolding shutdown
view-shutdown ec c = ground arith

pub view-pump_write : (c : Connection) → view (pump_write c) ≡ view c
unfolding pump_write
view-pump_write c = ground arith

pub view-pop_front : (o : List Bytes) (c : Connection) → view (pop_front o c) ≡ view c
unfolding pop_front
view-pop_front [] c = refl
view-pop_front (x ∷ o) c = refl

pub view-after_write : (c : Connection) → view (after_write c) ≡ view c
unfolding after_write
view-after_write c = ground (arith, view-shutdown success c, view-pump_write c)

pub view-write_done : (ec : Code) (c : Connection) → view (write_done ec c) ≡ view c
unfolding write_done
view-write_done ec c =
    let d : Connection = record c { writing = false } in
    ground (
      arith,
      view-shutdown ec d,
      view-after_write (pop_front d.outbox d),
      view-pop_front d.outbox d,
    )

pub view-enqueue : (frame : Bytes) (c : Connection) → view (enqueue frame c) ≡ view c
unfolding enqueue
view-enqueue frame c =
    ground (arith, view-pump_write (record c { outbox = c.outbox ++ (frame ∷ []) }))

pub view-enqueue_last : (frame : Bytes) (c : Connection) → view (enqueue_last frame c) ≡ view c
unfolding enqueue_last
view-enqueue_last frame c = ground (
  arith,
  view-pump_write (record c { outbox = c.outbox ++ (frame ∷ []); close_after_write = true }),
)
