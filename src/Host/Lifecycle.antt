-- ===== src/Host/Lifecycle.antt =====
-- The beginning and the end of the host's session, and the application's messages. Whether a listener
-- can be bound, on the wanted port or on another, is an argument, and so is the session code that
-- `start` generates. The network thread, the log and the report of the port are left out.
use iran_remote_play.Prelude.{
  ℕ, none, some, List, [], ◌∷◌, ◌++◌, Bool, true, false, if◌then◌else◌, ltb,
}
use iran_remote_play.Prelude.Bytes.{Bytes}
use iran_remote_play.Udp.FrameMap.{find}
use iran_remote_play.Clients.{
  ClientRecord, Event, Handled, HostSession, Params, closes, sent_raw, stopped,
}

-- `start`: the result, and the session after it.
unfoldable pub start : Params → Bytes → Bool → HostSession → Bool × HostSession
start params code binds s =
    let begun : HostSession = record s {
      running = true;
      stopping = false;
      params = params;
      session_code = code;
    } in
    if s.running
    then (true, s)
    else if binds
    then (true, begun)
    else (false, record begun { running = false })

unfoldable pub close_all : List (ℕ × ClientRecord) → List Event
close_all [] = []
close_all ((id, rec) ∷ clients) = closes id ∷ close_all clients

-- `stop`; the closes are posted before the loop stops, and the connections end with the table at the
-- latest.
unfoldable pub stop : HostSession → Handled
unfolding close_all
stop s =
    if s.running
    then (
      close_all s.clients ++ (stopped ∷ []),
      record s { running = false; stopping = true; clients = []; snapshot = [] },
    )
    else ([], s)

-- `sendAppMessage`, as it runs on the network thread.
unfoldable pub send_app_message : ℕ → ℕ → Bytes → HostSession → Handled
send_app_message id raw payload s = elim (find id s.clients) [
  | none ↦ ([], s)
  | some rec ↦ if ltb raw 0x0010 then ([], s) else (sent_raw id raw payload ∷ [], s)
]
