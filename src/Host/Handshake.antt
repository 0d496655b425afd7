-- ===== src/Host/Handshake.antt =====
-- The handshake of one client.
use iran_remote_play.Prelude.{
  ℕ, ◌<◌, ◌≡◌, refl, inl, inr, none, some, List, [], ◌∷◌, Bool, true, false, ◌&&◌, if◌then◌else◌,
  leb, ltb, ◌==◌, length, arith, Bool-cases, Option-cases, All,
}
use iran_remote_play.Prelude.Bytes.{Bytes}
use iran_remote_play.Udp.FrameMap.{
  find, insert, erase, find-insert_self, IsSorted, IsSorted-insert, length-insert_found,
}
use iran_remote_play.Protocol.Ids.{MsgId, Reason, known_id}
use iran_remote_play.Protocol.Messages.{Body, Envelope, ClientHello}
use iran_remote_play.Protocol.Read.{decode_message}
use iran_remote_play.Protocol.Negotiate.{negotiate_codec}
use iran_remote_play.Codes.{verify_session_code}
use iran_remote_play.Clients.{
  Text, ConnectionState, ClientRecord, HostSession, host_codecs, ◌>>>◌, rebuild_snapshot,
  with_client, send_to, set_state, push_input_permissions, forget,
}
use iran_remote_play.Host.{
  hang_up, drop_client, greet, handle_client_hello, after_negotiation, handle_client_capabilities,
  dispatch, handle_message, handle_frame,
}

pub find-erase : (k : ℕ) (m : List (ℕ × ClientRecord)) → IsSorted m → find k (erase k m) ≡ none
unfolding find erase
find-erase k [] sorted = refl
find-erase k ((j, v) ∷ m) (first, sorted) = elim (Bool-cases (j == k)) [
  | inl here ↦ rw here (absent k j m first (ground (arith, here)))
  | inr there ↦ rw (there, there) (find-erase k m sorted)
]
  where
    absent :
        (k j : ℕ) (m : List (ℕ × ClientRecord)) → All (λ e. j < e.0) m → j ≡ k → find k m ≡ none
    absent k j [] h same = refl
    absent k j ((i, v) ∷ m) (lt, h) same =
        let rest = absent k j m h same in ground (arith, rest, lt, same)

pub set_state-IsSorted :
    (id : ℕ) (state : ConnectionState) (s : HostSession)
    → IsSorted s.clients
    → IsSorted (set_state id state s).1.clients
unfolding set_state with_client rebuild_snapshot
set_state-IsSorted id state s sorted = elim (Option-cases (find id s.clients)) [
  | inl missing ↦ rw (set_state, missing) sorted
  | inr (rec, present) ↦ rw (set_state, present) (IsSorted-insert id _ s.clients sorted)
]

pub drop_client_gone :
    (text : Text → Bytes) (id : ℕ) (send_reject : Bool) (reason : Reason) (note : Bytes)
    (s : HostSession)
    → IsSorted s.clients
    → find id (drop_client text id send_reject reason note s).1.clients ≡ none
unfolding drop_client ◌>>>◌ hang_up set_state forget rebuild_snapshot with_client
drop_client_gone text id send_reject reason note s sorted =
    elim (Option-cases (find id s.clients)) [
      | inl missing ↦ rw (drop_client, missing) missing
      | inr (rec, present) ↦
          rw (drop_client, present)
            (find-erase id _ (set_state-IsSorted id ConnectionState.disconnected s sorted))
    ]

-- A hello of a client that is connecting: the client goes on to wait for the host's decision
-- exactly if there is room and its session code verifies; otherwise it is removed.
pub handle_client_hello_lem :
    (text : Text → Bytes) (id : ℕ) (hello : ClientHello) (rec : ClientRecord) (s : HostSession)
    → IsSorted s.clients
    → find id s.clients ≡ some rec
    → rec.state ≡ ConnectionState.connecting
    → find id (handle_client_hello text id hello s).1.clients ≡ (
        if leb (length s.clients) s.params.max_clients
          && verify_session_code hello.session_code s.session_code
        then some (record rec {
          name = if length hello.client_name == 0 then text Text.player else hello.client_name;
          state = ConnectionState.authenticating;
          input = s.params.input_defaults;
        })
        else none)
unfolding handle_client_hello greet with_client rebuild_snapshot
handle_client_hello_lem text id hello rec s sorted present starts =
    let name = if length hello.client_name == 0 then text Text.player else hello.client_name in
    let size = length-insert_found id (record rec { name = name }) rec s.clients sorted present in
    let kept = IsSorted-insert id (record rec { name = name }) s.clients sorted in
    elim (Bool-cases (leb (length s.clients) s.params.max_clients)) [
      | inr over ↦
          let test : ltb s.params.max_clients
                (length (insert id (record rec { name = name }) s.clients))
              ≡ true =
            ground (arith, over, size) in
          rw (over, handle_client_hello, present, starts, test)
            (drop_client_gone text id true _ _ _ kept)
      | inl room ↦
          let test : ltb s.params.max_clients
                (length (insert id (record rec { name = name }) s.clients))
              ≡ false =
            ground (arith, room, size) in
          elim (Bool-cases (verify_session_code hello.session_code s.session_code)) [
            | inr wrong ↦
                rw (room, handle_client_hello, present, starts, test, wrong)
                  (drop_client_gone text id true _ _ _ kept)
            | inl right ↦
                rw (room, handle_client_hello, present, starts, test, right)
                  (find-insert_self id _ s.clients)
          ]
    ]

pub send_to_keeps : (id : ℕ) (env : Envelope) (s : HostSession) → (send_to id env s).1 ≡ s
unfolding send_to
send_to_keeps id env s = elim (Option-cases (find id s.clients)) [
  | inl missing ↦ rw (send_to, missing) refl
  | inr (rec, present) ↦ rw (send_to, present) refl
]

pub push_keeps : (id : ℕ) (s : HostSession) → (push_input_permissions id s).1 ≡ s
unfolding push_input_permissions
push_keeps id s = elim (Option-cases (find id s.clients)) [
  | inl missing ↦ rw (push_input_permissions, missing) refl
  | inr (rec, present) ↦ rw (push_input_permissions, present) refl
]

set_state_found :
    (id : ℕ) (state : ConnectionState) (rec : ClientRecord) (s : HostSession)
    → find id s.clients ≡ some rec
    → find id (set_state id state s).1.clients ≡ some (record rec { state = state })
unfolding set_state with_client rebuild_snapshot
set_state_found id state rec s present = rw (set_state, present) (find-insert_self id _ s.clients)

capabilities_connect :
    (text : Text → Bytes) (id codec : ℕ) (supported : List ℕ) (rec : ClientRecord) (s : HostSession)
    → find id s.clients ≡ some rec
    → rec.state ≡ ConnectionState.authenticating
    → negotiate_codec (host_codecs s.params) supported ≡ some codec
    → find id (handle_client_capabilities text id supported s).1.clients
      ≡ some (record rec { state = ConnectionState.connected })
unfolding handle_client_capabilities ◌>>>◌ after_negotiation
capabilities_connect text id codec supported rec s present waits shared =
    rw (handle_client_capabilities, present, waits, shared, push_keeps id _, send_to_keeps id _ s)
      (set_state_found id ConnectionState.connected rec s present)

-- A client that waits for the host's decision becomes connected by sending its capabilities, if
-- they share a codec with the host: no decision of the host is asked for.
pub handle_frame_connects :
    (text : Text → Bytes) (id now codec : ℕ) (payload : Bytes) (supported : List ℕ)
    (rec : ClientRecord) (s : HostSession)
    → s.stopping ≡ false
    → find id s.clients ≡ some rec
    → rec.state ≡ ConnectionState.authenticating
    → decode_message 0x0005 payload
      ≡ some
          (record { type = MsgId.client_capabilities; body = Body.client_capabilities supported })
    → negotiate_codec (host_codecs s.params) supported ≡ some codec
    → find id (handle_frame text id 0x0005 payload now s).1.clients
      ≡ some (record rec { last_activity = now; state = ConnectionState.connected })
unfolding handle_frame known_id handle_message dispatch with_client
handle_frame_connects text id now codec payload supported rec s runs present waits read shared =
    rw (handle_frame, runs, present, read)
      (capabilities_connect text id codec supported (record rec { last_activity = now })
        (with_client s id (record rec { last_activity = now })) (find-insert_self id _ s.clients)
        waits shared)
