-- ===== src/ClientSession/Handlers.antt =====
-- The handlers of the client's session: frames, the heartbeat, the end.
use iran_remote_play.Prelude.{
  ℕ, ◌+◌, ◌-◌, ◌*◌, ◌/◌, ◌%◌, ◌^◌, Option, none, some, [], ◌∷◌, ◌++◌, Bool, true, false, ◌&&◌, ◌||◌,
  not, if◌then◌else◌, leb, ltb, ◌==◌,
}
use iran_remote_play.Prelude.Bytes.{Bytes}
use iran_remote_play.Protocol.Ids.{MsgId, raw_id, known_id}
use iran_remote_play.Protocol.Messages.{
  Body, Envelope, HostReject, HostCapabilities, NegotiationResult, InputPermission,
}
use iran_remote_play.Protocol.Write.{encode_message}
use iran_remote_play.Protocol.Read.{decode_message}
use iran_remote_play.Clients.{ConnectionState, authenticating, connected, streaming, disconnected}
use iran_remote_play.ClientSession.{
  ClientStatus, ClientSession, Handled, ◌>>>◌, with_status, set_state, send, finish, disconnect,
  calls, unknown_message, malformed, timed_out, host_closed, closed_by_host, connection_lost,
  rejected, kicked, negotiation_failed, by_user, sends, sends_last, session_connected,
  session_ended, failed, permitted, app_message, rearms_heartbeat,
}

unfoldable pub send_hello : ClientSession → Handled
unfolding send
send_hello s =
    send
      (record {
        type = MsgId.client_hello;
        body = Body.client_hello (record {
          client_name = s.params.client_name;
          session_code = s.params.session_code;
          app_version = s.params.app_version;
        });
      })
      s

unfoldable pub handle_connected : ℕ → ClientSession → Handled
unfolding ◌>>>◌ send_hello set_state with_status
handle_connected now s =
    send_hello (record (with_status (record (s.status) { bytes_in = 0; bytes_out = 0 }) s) {
      has_connection = true;
      last_activity = now;
    })
    >>> set_state authenticating

unfoldable pub handle_host_capabilities : HostCapabilities → ClientSession → Handled
unfolding send with_status
handle_host_capabilities caps s =
    send
      (record {
        type = MsgId.client_capabilities;
        body = Body.client_capabilities s.params.supported_codecs;
      })
      (with_status
        (record (s.status) {
          host_name = caps.host_name;
          game_name = caps.game_name;
          width = caps.width;
          height = caps.height;
          fps = caps.fps;
          bitrate_kbps = caps.bitrate_kbps;
        })
        s)

unfoldable pub negotiated : NegotiationResult → ClientStatus → ClientStatus
negotiated result status = record status {
  codec = result.codec;
  width = result.width;
  height = result.height;
  fps = result.fps;
  bitrate_kbps = result.bitrate_kbps;
  state = connected;
}

unfoldable pub handle_negotiation : NegotiationResult → ClientSession → Handled
unfolding ◌>>>◌ finish calls set_state with_status negotiated
handle_negotiation result s =
    let reason = negotiation_failed result.note in
    if result.accepted
    then set_state connected (with_status (negotiated result s.status) s)
      >>> (λ t. calls (session_connected t.status) t)
    else disconnect reason s >>> calls (failed reason)

unfoldable pub handle_host_reject : HostReject → ClientSession → Handled
unfolding ◌>>>◌ finish calls
handle_host_reject reject s =
    disconnect (rejected reject.reason_text) s >>> calls (failed (rejected reject.reason_text))

unfoldable pub handle_ping : ℕ → ClientSession → Handled
unfolding send
handle_ping epoch_ms = send (record { type = MsgId.pong; body = Body.pong epoch_ms })

unfoldable pub handle_pong : ℕ → ℕ → ClientSession → Handled
unfolding with_status
handle_pong echo now s =
    let now_ms = now / 1_000_000 in
    let sample = if ltb echo now_ms then (now_ms - echo) % 2 ^ 32 else 0 in
    let old = s.status.rtt_ms in
    let rtt = if old == 0 then sample else (old * 7 + sample) % 2 ^ 32 / 8 in
    ([], with_status (record (s.status) { rtt_ms = rtt }) s)

unfoldable pub handle_input_permission : InputPermission → ClientSession → Handled
unfolding with_status
handle_input_permission p s = (permitted p ∷ [], with_status (record (s.status) { input = p }) s)

unfoldable pub is_connected : ConnectionState → Bool
is_connected connected = true
is_connected _ = false

-- The `default` case.
unfoldable pub handle_other : ℕ → Bytes → ClientSession → Handled
unfolding is_connected
handle_other raw payload s =
    if leb 0x0010 raw && (is_connected s.status.state && s.has_app_message)
    then (app_message raw payload ∷ [], s)
    else ([], s)

unfoldable pub dispatch : ℕ → Bytes → ℕ → Body → ClientSession → Handled
unfolding handle_host_reject handle_host_capabilities handle_negotiation handle_ping handle_pong
    handle_input_permission finish handle_other
dispatch raw payload now (Body.host_reject m) s = handle_host_reject m s
dispatch raw payload now Body.host_approved s = ([], s)
dispatch raw payload now (Body.host_capabilities m) s = handle_host_capabilities m s
dispatch raw payload now (Body.negotiation_result m) s = handle_negotiation m s
dispatch raw payload now (Body.ping m) s = handle_ping m s
dispatch raw payload now (Body.pong m) s = handle_pong m now s
dispatch raw payload now (Body.input_permission m) s = handle_input_permission m s
dispatch raw payload now (Body.kick m) s = disconnect (kicked m) s
dispatch raw payload now (Body.bye m) s = disconnect host_closed s
dispatch raw payload now _ s = handle_other raw payload s

unfoldable pub handle_message : ℕ → Bytes → ℕ → Option Envelope → ClientSession → Handled
unfolding ◌>>>◌ calls finish dispatch
handle_message raw payload now none s = calls (failed malformed) s >>> disconnect malformed
handle_message raw payload now (some env) s = dispatch raw payload now env.body s

unfoldable pub handle_frame : ℕ → Bytes → ℕ → ClientSession → Handled
unfolding ◌>>>◌ calls finish handle_message
handle_frame raw payload now s =
    let active : ClientSession = record s { last_activity = now } in
    if s.stopping
    then ([], s)
    else if not (known_id raw)
    then calls (failed (unknown_message raw)) active >>> disconnect (unknown_message raw)
    else handle_message raw payload now (decode_message raw payload) active

-- `sendAppMessage`, as it runs on the network thread.
unfoldable pub send_app_message : ℕ → Bytes → ClientSession → Handled
send_app_message raw payload s =
    if ltb raw 0x0010 || not s.has_connection then ([], s) else (sends raw payload ∷ [], s)

abbrev pub heartbeat_timeout : ℕ
heartbeat_timeout = 12_000_000_000

unfoldable pub pings : ConnectionState → Bool
pings connected = true
pings streaming = true
pings _ = false

unfoldable pub start_heartbeat : ℕ → ClientSession → Handled
unfolding ◌>>>◌ calls finish send pings
start_heartbeat now s =
    let ping : Envelope = record { type = MsgId.ping; body = Body.ping (now / 1_000_000) } in
    if s.stopping
    then ([], s)
    else if ltb heartbeat_timeout (now - s.last_activity)
    then disconnect timed_out s
    else (if pings s.status.state then send ping s else ([], s)) >>> calls rearms_heartbeat

-- The end of the connection: `none` for a clean one (no error, end of file or a cancelled
-- operation).
unfoldable pub handle_closed : Option ℕ → ClientSession → Handled
unfolding finish
handle_closed none s = if s.stopping then ([], s) else disconnect closed_by_host s
handle_closed (some ec) s = if s.stopping then ([], s) else disconnect (connection_lost ec) s

-- `stop`, with the wait for the thread; `is_open` says that the connection is open. The text of the
-- goodbye is an argument.
unfoldable pub stop : Bytes → Bool → ClientSession → Handled
unfolding with_status
stop goodbye is_open s =
    let bye = encode_message (record { type = MsgId.bye; body = Body.bye goodbye }) in
    if not s.running then ([], record s { has_connection = false }) else (
      (if s.has_connection && is_open then sends_last (raw_id MsgId.bye) bye ∷ [] else [])
          ++ (session_ended by_user ∷ []),
      record (with_status (record (s.status) { state = disconnected }) s) {
        has_connection = false;
        running = false;
        stopping = true;
      },
    )
