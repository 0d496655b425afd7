-- ===== src/Host.antt =====
-- host/HostSession.cpp: the host's side of the handshake, over the table of clients. The fixed texts
-- of the messages are the argument `text`.
use iran_remote_play.Prelude.{
  ℕ, zero, suc, ◌+◌, ◌-◌, ◌*◌, ◌/◌, ◌%◌, ◌^◌, ◌≤◌, ◌<◌, min, max, ◌≡◌, refl, sym, ap, ◌∙◌, subst,
  ◌≢◌, ◌↔◌, ◌⊎◌, inl, inr, Option, none, some, List, [], ◌∷◌, ◌++◌, map, Bool, true, false, ◌&&◌,
  ◌||◌, not, if◌then◌else◌, leb, ltb, ◌==◌, length, take, drop, get_or, set, replicate, arith,
  take-all, append-nil, append_assoc, Bool-cases, Option-cases, length-append, length-take,
  length-drop, All, append-eq-nil, take-append, drop-append,
}
use iran_remote_play.Prelude.Bytes.{Bytes}
use iran_remote_play.Udp.FrameMap.{find, insert, erase}
use iran_remote_play.Protocol.Ids.{MsgId, Reason, raw_reason, known_id}
use iran_remote_play.Protocol.Messages.{
  Body, Envelope, ClientHello, HostCapabilities, NegotiationResult, InputPermission,
}
use iran_remote_play.Protocol.Read.{decode_message}
use iran_remote_play.Protocol.Negotiate.{negotiate_codec}
use iran_remote_play.Codes.{verify_session_code}
pub mod Handshake
pub mod Housekeeping
pub mod Lifecycle
pub mod Table
use iran_remote_play.Clients.{
  bad_code, timed_out, player, pending, codec_name, no_common_codec, rejected, full, no_codec,
  unexpected, malformed, unknown_message, ClientRecord, ClientRow, ConnectionState, Event, Handled,
  HostSession, Params, Text, all_disabled, app_message, approval_requested, approved,
  authenticating, capabilities_of, client_updated, closes, closes_new, closes_with, connected,
  connecting, disconnected, forget, host_codecs, offered_codecs, permissions, posts_approval,
  push_input_permissions, rebuild_snapshot, row_of, send_to, sent, set_state, streaming,
  with_client, ◌>>>◌,
}

module _ (text : Text → Bytes) where
  unfoldable pub negotiation : Params → Option ℕ → NegotiationResult
  negotiation p none = record {
    accepted = false;
    codec = 0;
    width = 1920;
    height = 1080;
    fps = 60;
    bitrate_kbps = 8000;
    note = text no_common_codec;
  }
  negotiation p (some c) = record {
    accepted = true;
    codec = c;
    width = p.width % 2 ^ 16;
    height = p.height % 2 ^ 16;
    fps = min p.fps 255;
    bitrate_kbps = p.bitrate_kbps;
    note = text (codec_name c);
  }

  -- What `dropClient` does to the connection.
  unfoldable pub hang_up : ℕ → Bool → Reason → Bytes → HostSession → Handled
  hang_up id send_reject reason note s =
      let reject : Envelope = record {
        type = MsgId.host_reject;
        body = Body.host_reject (record { reason_code = raw_reason reason; reason_text = note });
      } in
      (if send_reject then closes_with id reject ∷ [] else closes id ∷ [], s)

  unfoldable pub drop_client : ℕ → Bool → Reason → Bytes → HostSession → Handled
  drop_client id send_reject reason note s = elim (find id s.clients) [
    | none ↦ ([], s)
    | some rec ↦ hang_up id send_reject reason note s >>> set_state id disconnected >>> forget id
  ]

  unfoldable pub handle_new_connection : Bytes → ℕ → HostSession → Handled
  handle_new_connection address now s =
      let rec : ClientRecord = record {
        name = text pending;
        state = connecting;
        last_activity = now;
        last_host_ping = 0;
        input = record { controller = true; keyboard = false; mouse = false; vibration = true };
        rtt_ms = 0;
        address = address;
      } in
      if s.stopping then (closes_new ∷ [], s) else (
        [],
        rebuild_snapshot (record (with_client s s.next_client_id rec) {
          next_client_id = (s.next_client_id + 1) % 2 ^ 32;
        }),
      )

  -- `approveClient`, on the network thread.
  unfoldable pub approve_client : ℕ → Bool → ℕ → HostSession → Handled
  approve_client id accept now s = elim (find id s.clients) [
    | none ↦ ([], s)
    | some rec ↦ elim rec.state [
      | authenticating ↦
          if accept
          then (approved id s.params, with_client s id (record rec { last_activity = now }))
          else drop_client id true Reason.rejected_by_host (text rejected) s
      | _ ↦ ([], s)
    ]
  ]

  unfoldable pub kick_client : ℕ → Bytes → HostSession → Handled
  kick_client id reason s = elim (find id s.clients) [
    | none ↦ ([], s)
    | some rec ↦
        (closes_with id (record { type = MsgId.kick; body = Body.kick reason }) ∷ [], s)
        >>> set_state id disconnected
  ]

  unfoldable pub set_client_input : ℕ → Bool → HostSession → Handled
  set_client_input id enable_all s = elim (find id s.clients) [
    | none ↦ ([], s)
    | some rec ↦
        let allowed : InputPermission =
          if enable_all
          then s.params.input_defaults
          else record { controller = false; keyboard = false; mouse = false; vibration = false } in
        ([], with_client s id (record rec { input = allowed })) >>> push_input_permissions id
  ]

  -- `handleClientHello` for a client that is `connecting`.
  unfoldable pub greet : ℕ → ClientRecord → ClientHello → HostSession → Handled
  greet id rec hello s =
      let name = if length hello.client_name == 0 then text player else hello.client_name in
      let named = with_client s id (record rec { name = name }) in
      if ltb s.params.max_clients (length named.clients)
      then drop_client id true Reason.server_full (text full) named
      else if not (verify_session_code hello.session_code s.session_code)
      then drop_client id true Reason.bad_session_code (text bad_code) named
      else (
        (if s.params.auto_approve
            then posts_approval id true ∷ []
            else approval_requested id name ∷ []),
        rebuild_snapshot (
            with_client s id (record rec {
              name = name;
              state = authenticating;
              input = s.params.input_defaults;
            })),
      )

  unfoldable pub handle_client_hello : ℕ → ClientHello → HostSession → Handled
  handle_client_hello id hello s = elim (find id s.clients) [
    | none ↦ ([], s)
    | some rec ↦ elim rec.state [ connecting ↦ greet id rec hello s | _ ↦ ([], s) ]
  ]

  unfoldable pub after_negotiation : ℕ → Option ℕ → HostSession → Handled
  after_negotiation id none s = drop_client id true Reason.no_common_codec (text no_codec) s
  after_negotiation id (some c) s = set_state id connected s >>> push_input_permissions id

  unfoldable pub handle_client_capabilities : ℕ → List ℕ → HostSession → Handled
  handle_client_capabilities id supported s = elim (find id s.clients) [
    | none ↦ ([], s)
    | some rec ↦ elim rec.state [
      | authenticating ↦
          let negotiated = negotiate_codec (host_codecs s.params) supported in
          send_to id
            (record {
              type = MsgId.negotiation_result;
              body = Body.negotiation_result (negotiation s.params negotiated);
            })
            s
          >>> after_negotiation id negotiated
      | _ ↦ ([], s)
    ]
  ]

  unfoldable pub handle_pong : ℕ → ℕ → ℕ → HostSession → Handled
  handle_pong id echo now s = elim (find id s.clients) [
    | none ↦ ([], s)
    | some rec ↦
        let sample = (now / 1_000_000 % 2 ^ 32 + 2 ^ 32 - echo % 2 ^ 32) % 2 ^ 32 in
        let rtt = if rec.rtt_ms == 0 then sample else (rec.rtt_ms * 7 + sample) % 2 ^ 32 / 8 in
        ([], rebuild_snapshot (with_client s id (record rec { rtt_ms = rtt })))
  ]

  -- The `default` case: messages for the application.
  unfoldable pub handle_other : ℕ → ℕ → Bytes → ClientRecord → HostSession → Handled
  handle_other id raw payload rec s =
      let refuse = drop_client id true Reason.protocol_error (text unexpected) s in
      elim rec.state [
        | connected ↦
            if leb 0x0010 raw && s.has_app_message
            then (app_message id raw payload ∷ [], s)
            else refuse
        | _ ↦ refuse
      ]

  unfoldable pub dispatch : ℕ → ℕ → Bytes → ℕ → ClientRecord → Body → HostSession → Handled
  dispatch id raw payload now rec (Body.client_hello m) s = handle_client_hello id m s
  dispatch id raw payload now rec (Body.client_capabilities m) s = handle_client_capabilities id m s
  dispatch id raw payload now rec (Body.ping m) s =
      send_to id (record { type = MsgId.pong; body = Body.pong m }) s
  dispatch id raw payload now rec (Body.pong m) s = handle_pong id m now s
  dispatch id raw payload now rec (Body.bye m) s = drop_client id false Reason.ok m s
  dispatch id raw payload now rec _ s = handle_other id raw payload rec s

  -- The decoded message of a client whose activity is noted.
  unfoldable pub handle_message :
      ℕ → ℕ → Bytes → ℕ → ClientRecord → Option Envelope → HostSession → Handled
  handle_message id raw payload now rec none s =
      drop_client id true Reason.protocol_error (text malformed) s
  handle_message id raw payload now rec (some env) s = dispatch id raw payload now rec env.body s

  unfoldable pub handle_frame : ℕ → ℕ → Bytes → ℕ → HostSession → Handled
  handle_frame id raw payload now s =
      if s.stopping
      then ([], s)
      else if not (known_id raw)
      then drop_client id true Reason.protocol_error (text unknown_message) s
      else elim (find id s.clients) [
        | none ↦ ([], s)
        | some rec ↦
            let active : ClientRecord = record rec { last_activity = now } in
            handle_message id raw payload now active (decode_message raw payload)
              (with_client s id active)
      ]

  unfoldable pub handle_client_closed : ℕ → HostSession → Handled
  handle_client_closed id s = if s.stopping then ([], s) else elim (find id s.clients) [
    | none ↦ ([], s)
    | some rec ↦
        let row : ClientRow = record (row_of (id, rec)) { state = disconnected; rtt_ms = 0 } in
        (client_updated row ∷ [], rebuild_snapshot (record s { clients = erase id s.clients }))
  ]
