-- ===== src/ClientSession.antt =====
-- client/ClientSession.h and client/ClientSession.cpp: the client's side of a session. A handler
-- maps the session to the events it causes and the session after it. Times are nanoseconds. The log
-- is left out, and every callback but that for application messages is set.
pub mod Handlers
use iran_remote_play.Prelude.{
  ℕ, zero, suc, ◌+◌, ◌-◌, ◌*◌, ◌/◌, ◌%◌, ◌^◌, ◌≤◌, ◌<◌, min, max, ◌≡◌, refl, sym, ap, ◌∙◌, subst,
  ◌≢◌, ◌↔◌, ◌⊎◌, inl, inr, Option, none, some, List, [], ◌∷◌, ◌++◌, map, Bool, true, false, ◌&&◌,
  ◌||◌, not, if◌then◌else◌, leb, ltb, ◌==◌, length, is_empty, IsPrefix, take, drop, get_or, set,
  replicate, arith, take-all, append-nil, append_assoc, Bool-cases, Option-cases, length-append,
  length-take, length-drop, All, append-eq-nil, take-append, drop-append,
}
use iran_remote_play.Prelude.Bytes.{Bytes}
use iran_remote_play.Protocol.Ids.{MsgId, raw_id, known_id}
use iran_remote_play.Protocol.Messages.{
  Body, Envelope, ClientHello, HostReject, HostCapabilities, NegotiationResult, InputPermission,
}
use iran_remote_play.Protocol.Write.{encode_message}
use iran_remote_play.Protocol.Read.{decode_message}
use iran_remote_play.Clients.{
  ConnectionState, connecting, authenticating, connected, streaming, disconnected,
}

-- The reasons of an end, with what they quote.
pub data Note : Type 0 where
  unknown_message : ℕ → Note
  malformed timed_out host_closed closed_by_host : Note
  connection_failed connection_lost : ℕ → Note
  rejected kicked negotiation_failed : Bytes → Note
  by_user : Note

-- Less the address, the port and the timeout, which only the connector reads.
pub record ClientSessionParams : Type 0 where
  pub client_name : Bytes
  pub session_code : Bytes
  pub app_version : Bytes
  pub supported_codecs : List ℕ

pub record ClientStatus : Type 0 where
  pub state : ConnectionState
  pub host_name : Bytes
  pub game_name : Bytes
  pub codec : ℕ
  pub width : ℕ
  pub height : ℕ
  pub fps : ℕ
  pub bitrate_kbps : ℕ
  pub rtt_ms : ℕ
  pub input : InputPermission
  pub last_error : Option Note
  pub bytes_in : ℕ
  pub bytes_out : ℕ

pub record ClientSession : Type 0 where
  pub params : ClientSessionParams
  pub status : ClientStatus
  pub has_connection : Bool
  pub running : Bool
  pub stopping : Bool
  pub last_activity : ℕ
  pub has_app_message : Bool

-- What a handler does to the connection, and the callbacks it calls.
pub data Action : Type 0 where
  sends : ℕ → Bytes → Action
  sends_last : ℕ → Bytes → Action
  closes : Action
  stops_loop : Action
  state_changed : ConnectionState → Action
  session_connected : ClientStatus → Action
  session_ended : Note → Action
  failed : Note → Action
  permitted : InputPermission → Action
  app_message : ℕ → Bytes → Action
  rearms_heartbeat : Action

abbrev pub Handled : Type 0
Handled = List Action × ClientSession

-- One part of a handler after another.
infixl 20 ◌>>>◌
unfoldable pub ◌>>>◌ : Handled → (ClientSession → Handled) → Handled
h >>> next = let after = next h.1 in (h.0 ++ after.0, after.1)

unfoldable pub with_status : ClientStatus → ClientSession → ClientSession
with_status status s = record s { status = status }

unfoldable pub set_state : ConnectionState → ClientSession → Handled
unfolding with_status
set_state state s = (state_changed state ∷ [], with_status (record (s.status) { state = state }) s)

unfoldable pub send : Envelope → ClientSession → Handled
unfolding with_status
send msg s =
    let payload = encode_message msg in
    let out = (s.status.bytes_out + length payload) % 2 ^ 64 in
    if s.has_connection
    then (
      sends (raw_id msg.type) payload ∷ [],
      with_status (record (s.status) { bytes_out = out }) s,
    )
    else ([], s)

-- `finish`: the close of the connection is posted, and then the loop is stopped.
unfoldable pub finish : ConnectionState → Note → ClientSession → Handled
unfolding with_status
finish final_state reason s = (
  (state_changed final_state ∷ [])
      ++ ((if s.has_connection then closes ∷ [] else [])
          ++ (stops_loop ∷ session_ended reason ∷ [])),
  record (with_status (record (s.status) { state = final_state; last_error = some reason }) s) {
    has_connection = false;
    running = false;
  },
)

abbrev pub disconnect : Note → ClientSession → Handled
disconnect = finish disconnected

-- One callback more.
unfoldable pub calls : Action → ClientSession → Handled
calls action s = (action ∷ [], s)

-- `start`, `startViaRelay` and `attachConnection`, up to the thread they start; only `start` resets
-- the byte counts.
unfoldable pub start : ClientSessionParams → Bool → ClientSession → Handled
unfolding set_state with_status
start params direct s =
    let reaped : ClientSession = record s { has_connection = false } in
    let status : ClientStatus = record (s.status) {
      state = connecting;
      host_name = [];
      game_name = [];
      last_error = none;
      rtt_ms = 0;
      bytes_in = if direct then 0 else s.status.bytes_in;
      bytes_out = if direct then 0 else s.status.bytes_out;
    } in
    if s.running
    then ([], reaped)
    else set_state connecting
        (with_status status (record reaped { running = true; stopping = false; params = params }))

unfoldable pub connect_failed : ℕ → ClientSession → Handled
unfolding ◌>>>◌ calls finish
connect_failed ec s = calls (failed (connection_failed ec)) s >>> disconnect (connection_failed ec)
