-- ===== src/Tcp.antt =====
-- A TCP connection (networking/TcpTransport.h, .cpp: `TcpConnection`) as a state machine: frames are
-- written one at a time from an outbox, and read as a header and a body.
pub mod Stream
pub mod View
pub mod Reader
pub mod Settled
pub mod Sound
pub mod Writer
pub mod Transfer
pub mod Attempt
pub mod Server
pub mod Served
use iran_remote_play.Prelude.{
  ℕ, Option, none, some, List, [], ◌∷◌, ◌++◌, Bool, true, false, ◌&&◌, ◌||◌, not, if◌then◌else◌,
  ltb, ◌==◌, length, is_empty, take, drop,
}
use iran_remote_play.Prelude.Bytes.{Bytes}
use iran_remote_play.Packet.Frame.{FrameHeader, parse_frame_header, make_frame, frame_header_size}

-- The error codes the connection tells apart; `code` is any other one.
pub data Code : Type 0 where
  success : Code
  invalid_argument : Code
  timed_out : Code
  connection_refused : Code
  code : ℕ → Code

unfoldable pub failed : Code → Bool
failed success = false
failed invalid_argument = true
failed timed_out = true
failed connection_refused = true
failed (code n) = true

-- The arguments of a call of `onFrame_`.
pub record Frame : Type 0 where
  pub type : ℕ
  pub flags : ℕ
  pub payload : Bytes

-- The read that is outstanding.
pub data Reading : Type 0 where
  idle : Reading
  header : Reading
  body : ℕ → ℕ → ℕ → Reading

-- `incoming` holds the bytes that the socket has received and no read has taken, `written` those of
-- the writes that succeeded; `delivered` and `closes` are the calls of `onFrame_` and `onClose_`.
pub record Connection : Type 0 where
  pub outbox : List Bytes
  pub writing : Bool
  pub close_after_write : Bool
  pub closed : Bool
  pub reading : Reading
  pub incoming : Bytes
  pub written : Bytes
  pub delivered : List Frame
  pub closes : List Code

abbrev pub adopted : Connection
adopted = record {
  outbox = [];
  writing = false;
  close_after_write = false;
  closed = false;
  reading = idle;
  incoming = [];
  written = [];
  delivered = [];
  closes = [];
}

unfoldable pub shutdown : Code → Connection → Connection
shutdown ec c =
    if c.closed then c else record c { closed = true; outbox = []; closes = c.closes ++ (ec ∷ []) }

-- A read that is started on a closed socket fails, and then `shutdown` does nothing.
unfoldable pub async_read : Reading → Connection → Connection
async_read r c = record c { reading = if c.closed then idle else r }

unfoldable pub read_header : Connection → Connection
unfolding async_read
read_header c = async_read header c

-- `onFrame_`, then the next header. What the handler does to this connection is posted, so it comes
-- as a later event.
unfoldable pub on_frame : Frame → Connection → Connection
unfolding read_header
on_frame f c =
    let c : Connection = record c { delivered = c.delivered ++ (f ∷ []) } in
    if c.closed then c else read_header c

unfoldable pub read_body : ℕ → ℕ → ℕ → Connection → Connection
unfolding on_frame async_read
read_body type flags size c =
    if size == 0
    then on_frame (record { type = type; flags = flags; payload = [] }) c
    else async_read (body type flags size) c

unfoldable pub header_read : Option FrameHeader → Connection → Connection
unfolding shutdown read_body
header_read none c = shutdown invalid_argument c
header_read (some h) c = read_body h.type h.flags h.payload_size c

-- The outstanding read is over, and takes `n` bytes off the socket.
unfoldable pub taken : ℕ → Connection → Connection
taken n c = record c { reading = idle; incoming = drop n c.incoming }

-- A read completes when the bytes it waits for are there.
unfoldable pub complete_read : Reading → Connection → Connection
unfolding header_read on_frame taken
complete_read idle c = c
complete_read header c =
    if ltb (length c.incoming) frame_header_size
    then c
    else header_read (parse_frame_header (take frame_header_size c.incoming))
        (taken frame_header_size c)
complete_read (body type flags size) c =
    if ltb (length c.incoming) size
    then c
    else on_frame (record { type = type; flags = flags; payload = take size c.incoming })
        (taken size c)

unfoldable pub fail_read : Code → Reading → Connection → Connection
unfolding shutdown
fail_read ec idle c = c
fail_read ec header c = shutdown ec (record c { reading = idle })
fail_read ec (body type flags size) c = shutdown ec (record c { reading = idle })

unfoldable pub pump_write : Connection → Connection
pump_write c =
    if c.writing || (is_empty c.outbox || c.closed) then c else record c { writing = true }

-- `if (!outbox_.empty()) outbox_.pop_front()`, and the front's bytes are on the wire.
unfoldable pub pop_front : List Bytes → Connection → Connection
pop_front [] c = c
pop_front (front ∷ rest) c = record c { outbox = rest; written = c.written ++ front }

unfoldable pub after_write : Connection → Connection
unfolding shutdown pump_write
after_write c =
    if c.close_after_write && is_empty c.outbox then shutdown success c else pump_write c

-- The handler of `async_write`, when one is outstanding.
unfoldable pub write_done : Code → Connection → Connection
unfolding failed shutdown pop_front after_write
write_done ec c =
    let d : Connection = record c { writing = false } in
    if not c.writing
    then c
    else if failed ec
    then shutdown ec d
    else after_write (pop_front d.outbox d)

unfoldable pub enqueue : Bytes → Connection → Connection
unfolding pump_write
enqueue frame c =
    if c.closed then c else pump_write (record c { outbox = c.outbox ++ (frame ∷ []) })

unfoldable pub enqueue_last : Bytes → Connection → Connection
unfolding pump_write
enqueue_last frame c =
    if c.closed
    then c
    else pump_write (record c { outbox = c.outbox ++ (frame ∷ []); close_after_write = true })

unfoldable pub start : Connection → Connection
unfolding read_header
start c = if c.closed then c else read_header c

-- What happens to a connection, in the order of its io thread: the tasks that the public methods
-- post, bytes that arrive, and the ends of the reads and writes.
pub data Event : Type 0 where
  send : ℕ → Bytes → Event
  send_and_close : ℕ → Bytes → Event
  close : Event
  arrive : Bytes → Event
  read_complete : Event
  read_fail : Code → Event
  write_complete : Code → Event

unfoldable pub step : Event → Connection → Connection
unfolding enqueue enqueue_last shutdown complete_read fail_read write_done make_frame
step (send type payload) c = enqueue (make_frame type payload) c
step (send_and_close type payload) c = enqueue_last (make_frame type payload) c
step close c = shutdown success c
step (arrive bytes) c = if c.closed then c else record c { incoming = c.incoming ++ bytes }
step read_complete c = complete_read c.reading c
step (read_fail ec) c = fail_read ec c.reading c
step (write_complete ec) c = write_done ec c

unfoldable pub run : List Event → Connection → Connection
unfolding step
run [] c = c
run (e ∷ es) c = run es (step e c)
