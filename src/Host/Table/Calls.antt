-- ===== src/Host/Table/Calls.antt =====
-- Everything that can happen to the host's session, in any order.
use iran_remote_play.Prelude.{
  ltb, if◌then◌else◌, ℕ, ◌≡◌, refl, sym, ap, ◌∙◌, inl, inr, Option, none, some, List, [], ◌∷◌, map,
  Bool, true, false, not, Bool-cases, Option-cases, All,
}
use iran_remote_play.Prelude.Bytes.{Bytes}
use iran_remote_play.Udp.FrameMap.{find, erase, IsSorted-erase}
use iran_remote_play.Protocol.Ids.{MsgId, Reason, known_id}
use iran_remote_play.Protocol.Messages.{Body, Envelope}
use iran_remote_play.Protocol.Read.{decode_message}
use iran_remote_play.Clients.{
  client_updated, Text, disconnected, ClientRecord, ClientRow, HostSession, Handled, ◌>>>◌, row_of,
  rebuild_snapshot, with_client,
}
use iran_remote_play.Host.{
  handle_new_connection, approve_client, kick_client, set_client_input, dispatch, handle_message,
  handle_frame, handle_client_closed,
}
use iran_remote_play.Host.Handshake.{send_to_keeps}
use iran_remote_play.Host.Housekeeping.{pinged, ping_due, ping_all, to_drop, drop_all, housekeeping}
use iran_remote_play.Host.Housekeeping.Dropped.{ping_all-IsSorted}
use iran_remote_play.Host.Lifecycle.{start, stop, send_app_message}
use iran_remote_play.Clients.{Params}
use iran_remote_play.Host.Table.{
  IsCoherent, IsKept, keep, kept-IsCoherent, if-IsCoherent, with_client-IsCoherent, rebuilt,
  drop_client-IsCoherent, handle_new_connection-IsCoherent, approve_client-IsCoherent,
  kick_client-IsCoherent, handle_client_hello-IsCoherent, handle_client_capabilities-IsCoherent,
  handle_pong-IsCoherent, handle_other-IsCoherent,
}

-- The tasks of the host's thread, each with the time it runs at.
pub data Call : Type 0 where
  connects : Bytes → ℕ → Call
  frame : ℕ → ℕ → Bytes → ℕ → Call
  closed : ℕ → Call
  approves : ℕ → Bool → ℕ → Call
  kicks : ℕ → Bytes → Call
  allows_input : ℕ → Bool → Call
  tick : ℕ → Call
  starts : Params → Bytes → Bool → Call
  sends : ℕ → ℕ → Bytes → Call
  stops : Call

module _ (text : Text → Bytes) where
  unfoldable pub run_call : Call → HostSession → Handled
  unfolding start stop send_app_message handle_frame handle_client_closed approve_client kick_client
      set_client_input housekeeping handle_new_connection
  run_call (connects address now) s = handle_new_connection text address now s
  run_call (frame id raw payload now) s = handle_frame text id raw payload now s
  run_call (closed id) s = handle_client_closed text id s
  run_call (approves id accept now) s = approve_client text id accept now s
  run_call (kicks id reason) s = kick_client text id reason s
  run_call (allows_input id enable) s = set_client_input text id enable s
  run_call (tick now) s = housekeeping text now s
  run_call (starts params code binds) s = ([], (start params code binds s).1)
  run_call (sends id raw payload) s = send_app_message id raw payload s
  run_call stops s = stop s

  unfoldable pub run_calls : List Call → HostSession → HostSession
  unfolding run_call
  run_calls [] s = s
  run_calls (c ∷ cs) s = run_calls cs (run_call c s).1

  dispatch-IsCoherent :
      (id raw : ℕ) (payload : Bytes) (now : ℕ) (rec : ClientRecord) (m : Body) (s : HostSession)
      → IsCoherent s
      → IsKept (dispatch text id raw payload now rec m s)
  unfolding dispatch
  dispatch-IsCoherent id raw payload now rec (Body.client_hello m) s h =
      handle_client_hello-IsCoherent text id m s h
  dispatch-IsCoherent id raw payload now rec (Body.client_capabilities m) s h =
      handle_client_capabilities-IsCoherent text id m s h
  dispatch-IsCoherent id raw payload now rec (Body.ping m) s h =
      keep _ (rw (send_to_keeps id (record { type = MsgId.pong; body = Body.pong m }) s) h)
  dispatch-IsCoherent id raw payload now rec (Body.pong m) s h =
      handle_pong-IsCoherent text id m now s h
  dispatch-IsCoherent id raw payload now rec (Body.bye m) s h =
      drop_client-IsCoherent text id false Reason.ok m s h
  dispatch-IsCoherent id raw payload now rec _ s h =
      handle_other-IsCoherent text id raw payload rec s h

  handle_message-IsCoherent :
      (id raw : ℕ) (payload : Bytes) (now : ℕ) (rec : ClientRecord) (o : Option Envelope)
      (s : HostSession)
      → IsCoherent s
      → IsKept (handle_message text id raw payload now rec o s)
  unfolding handle_message
  handle_message-IsCoherent id raw payload now rec none s h =
      drop_client-IsCoherent text id true Reason.protocol_error _ s h
  handle_message-IsCoherent id raw payload now rec (some env) s h =
      dispatch-IsCoherent id raw payload now rec env.body s h

  known_frame : ℕ → ℕ → Bytes → ℕ → HostSession → Handled
  known_frame id raw payload now s = elim (find id s.clients) [
    | none ↦ ([], s)
    | some rec ↦
        let active : ClientRecord = record rec { last_activity = now } in
        handle_message text id raw payload now active (decode_message raw payload)
          (with_client s id active)
  ]

  known_frame-IsCoherent :
      (id raw : ℕ) (payload : Bytes) (now : ℕ) (s : HostSession)
      → IsCoherent s
      → IsKept (known_frame id raw payload now s)
  unfolding known_frame row_of
  known_frame-IsCoherent id raw payload now s h = elim (Option-cases (find id s.clients)) [
    | inl missing ↦ rw (known_frame, missing) (keep _ h)
    | inr (rec, present) ↦
        rw (known_frame, present)
          (handle_message-IsCoherent id raw payload now (record rec { last_activity = now })
            (decode_message raw payload) _
            (with_client-IsCoherent id rec (record rec { last_activity = now }) s present refl h))
  ]

  handle_frame-IsCoherent :
      (id raw : ℕ) (payload : Bytes) (now : ℕ) (s : HostSession)
      → IsCoherent s
      → IsKept (handle_frame text id raw payload now s)
  unfolding handle_frame known_frame
  handle_frame-IsCoherent id raw payload now s h =
      if-IsCoherent text s.stopping _ _ (λ b. keep _ h)
        (λ b.
          if-IsCoherent text (not (known_id raw)) _ _
            (λ c. drop_client-IsCoherent text id true Reason.protocol_error _ s h)
            (λ c. known_frame-IsCoherent id raw payload now s h))

  known_closed : ℕ → HostSession → Handled
  unfolding rebuild_snapshot
  known_closed id s = elim (find id s.clients) [
    | none ↦ ([], s)
    | some rec ↦
        let row : ClientRow = record (row_of (id, rec)) { state = disconnected; rtt_ms = 0 } in
        (client_updated row ∷ [], rebuild_snapshot (record s { clients = erase id s.clients }))
  ]

  known_closed-IsCoherent : (id : ℕ) (s : HostSession) → IsCoherent s → IsKept (known_closed id s)
  unfolding known_closed
  known_closed-IsCoherent id s h = elim (Option-cases (find id s.clients)) [
    | inl missing ↦ rw (known_closed, missing) (keep _ h)
    | inr (rec, present) ↦
        rw (known_closed, present)
          (keep _
            (rebuilt (record s { clients = erase id s.clients }) (IsSorted-erase id s.clients h.0)))
  ]

  handle_client_closed-IsCoherent :
      (id : ℕ) (s : HostSession) → IsCoherent s → IsKept (handle_client_closed text id s)
  unfolding handle_client_closed known_closed
  handle_client_closed-IsCoherent id s h =
      if-IsCoherent text s.stopping _ _ (λ b. keep _ h) (λ b. known_closed-IsCoherent id s h)

  ping_all-rows :
      (now : ℕ) (m : List (ℕ × ClientRecord)) → map row_of (ping_all now m) ≡ map row_of m
  unfolding ping_all pinged row_of
  ping_all-rows now [] = refl
  ping_all-rows now ((id, rec) ∷ m) = elim (Bool-cases (ping_due now rec)) [
    | inl due ↦ rw (pinged, due) (ap (λ rows. row_of (id, rec) ∷ rows) (ping_all-rows now m))
    | inr not_due ↦
        rw (pinged, not_due) (ap (λ rows. row_of (id, rec) ∷ rows) (ping_all-rows now m))
  ]

  drop_all-IsCoherent :
      (ids : List ℕ) (s : HostSession) → IsCoherent s → IsKept (drop_all text ids s)
  unfolding drop_all ◌>>>◌
  drop_all-IsCoherent [] s h = keep _ h
  drop_all-IsCoherent (id ∷ ids) s h = keep _ (
      kept-IsCoherent _ (
        drop_all-IsCoherent ids _ (
          kept-IsCoherent _ (
            drop_client-IsCoherent text id true Reason.inactivity_timeout (text Text.timed_out) s
              h))))

  housekeeping-IsCoherent :
      (now : ℕ) (s : HostSession) → IsCoherent s → IsKept (housekeeping text now s)
  unfolding housekeeping ◌>>>◌
  housekeeping-IsCoherent now s h = keep _ (
      kept-IsCoherent _ (
        drop_all-IsCoherent (to_drop now s.clients) (record s { clients = ping_all now s.clients })
          (ping_all-IsSorted now s.clients h.0, h.1 ∙ sym (ping_all-rows now s.clients))))

  -- The calls after which the snapshot is right.
  unfoldable pub shows : Call → Bool
  shows (connects address now) = true
  shows (frame id raw payload now) = true
  shows (closed id) = true
  shows (approves id accept now) = true
  shows (kicks id reason) = true
  shows (allows_input id enable) = false
  shows (tick now) = true
  shows (starts params code binds) = true
  shows (sends id raw payload) = true
  shows stops = true

  branch-IsCoherent :
      (b : Bool) (x y : Bool × HostSession)
      → IsCoherent x.1
      → IsCoherent y.1
      → IsCoherent (if b then x else y).1
  branch-IsCoherent true x y left right = left
  branch-IsCoherent false x y left right = right

  start-IsCoherent :
      (params : Params) (code : Bytes) (binds : Bool) (s : HostSession)
      → IsCoherent s
      → IsCoherent (start params code binds s).1
  unfolding start
  start-IsCoherent params code binds s h =
      branch-IsCoherent s.running _ _ h (branch-IsCoherent binds _ _ h h)

  stop-IsCoherent : (s : HostSession) → IsCoherent s → IsKept (stop s)
  unfolding stop
  stop-IsCoherent s h = if-IsCoherent text s.running _ _ (λ b. keep _ (tt, refl)) (λ b. keep _ h)

  send_app_message-IsCoherent :
      (id raw : ℕ) (payload : Bytes) (s : HostSession)
      → IsCoherent s
      → IsKept (send_app_message id raw payload s)
  unfolding send_app_message
  send_app_message-IsCoherent id raw payload s h = elim (Option-cases (find id s.clients)) [
    | inl missing ↦ rw (send_app_message, missing) (keep _ h)
    | inr (rec, present) ↦
        rw (send_app_message, present)
          (if-IsCoherent text (ltb raw 0x0010) _ _ (λ b. keep _ h) (λ b. keep _ h))
  ]

  run_call-IsCoherent :
      (c : Call) (s : HostSession) → shows c ≡ true → IsCoherent s → IsKept (run_call c s)
  unfolding run_call shows
  run_call-IsCoherent (connects address now) s e h =
      handle_new_connection-IsCoherent text address now s h
  run_call-IsCoherent (frame id raw payload now) s e h =
      handle_frame-IsCoherent id raw payload now s h
  run_call-IsCoherent (closed id) s e h = handle_client_closed-IsCoherent id s h
  run_call-IsCoherent (approves id accept now) s e h =
      approve_client-IsCoherent text id accept now s h
  run_call-IsCoherent (kicks id reason) s e h = kick_client-IsCoherent text id reason s h
  run_call-IsCoherent (allows_input id enable) s e h = absurd cc
  run_call-IsCoherent (tick now) s e h = housekeeping-IsCoherent now s h
  run_call-IsCoherent (starts params code binds) s e h =
      keep _ (start-IsCoherent params code binds s h)
  run_call-IsCoherent (sends id raw payload) s e h = send_app_message-IsCoherent id raw payload s h
  run_call-IsCoherent stops s e h = stop-IsCoherent s h

  -- Whatever connects, arrives, closes or times out, whomever the host approves of or kicks, and
  -- however often the session is started and stopped and sends messages of the application, in any
  -- order: the table stays sorted by id, one record for an id, and the snapshot that the user
  -- interface reads is the row of every record of the table, if it was so at the beginning and no
  -- call changes the input that a client is allowed.
  pub run_calls-IsCoherent :
      (calls : List Call) (s : HostSession)
      → All (λ c. shows c ≡ true) calls
      → IsCoherent s
      → IsCoherent (run_calls calls s)
  unfolding run_calls
  run_calls-IsCoherent [] s e h = h
  run_calls-IsCoherent (c ∷ calls) s e h =
      run_calls-IsCoherent calls (run_call c s).1 e.1
        (kept-IsCoherent _ (run_call-IsCoherent c s e.0 h))
