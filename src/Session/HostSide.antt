-- ===== src/Session/HostSide.antt =====
-- How the host handles the frames of a client of its table, and what one step of the pair does.
use iran_remote_play.Prelude.{
  ℕ, ◌≤◌, ◌≡◌, refl, sym, ap, ◌∙◌, subst, Option, some, List, [], ◌∷◌, ◌++◌, Bool, true, false, not,
  if◌then◌else◌, leb, ltb, ◌==◌, length, take, arith, take-all, All,
}
use iran_remote_play.Prelude.Bytes.{Bytes}
use iran_remote_play.Packet.Writer.{max_string}
use iran_remote_play.Udp.FrameMap.{
  find, insert, find-insert_self, IsSorted, IsSorted-insert, length-insert_found,
}
use iran_remote_play.Protocol.Ids.{MsgId, raw_id}
use iran_remote_play.Protocol.Messages.{Body, Envelope, id_of, IsU8, ClientHello}
use iran_remote_play.Protocol.Write.{encode_message}
use iran_remote_play.Protocol.RoundTrip.{envelope}
use iran_remote_play.Protocol.Negotiate.{negotiate_codec}
use iran_remote_play.Codes.{verify_session_code}
use iran_remote_play.Clients
use iran_remote_play.Clients.{
  ◌>>>◌, HostSession, ClientRecord, Text, Event, ConnectionState, with_client, rebuild_snapshot,
  host_codecs, capabilities_of, set_state, push_input_permissions, send_to, approved,
}
use iran_remote_play.Host
use iran_remote_play.Host.{
  approve_client, greet, handle_client_hello, negotiation, handle_client_capabilities,
  after_negotiation,
}
use iran_remote_play.ClientSession
use iran_remote_play.ClientSession.{ClientSession, Action, ClientSessionParams, ClientStatus}
use iran_remote_play.ClientSession.Handlers
use iran_remote_play.Session.{
  sent_by_host, sent_by_client, approvals, host_did, client_did, next, step,
}
use iran_remote_play.Session.Hearing.{if_yes, host_receives, link}

module _ (text : Text → Bytes) (now : ℕ) where
  -- One step, when what the handler sends is known.
  pub approval_step :
      (id : ℕ) (s : HostSession) (c : ClientSession) (th tc : List (ℕ × Bytes)) (accept : Bool)
      (es : List Event)
      → (approve_client text id accept now s).0 ≡ es
      → step text now (link id s c (accept ∷ []) th tc)
        ≡ link id
            (approve_client text id accept now s).1
            c
            (approvals id es)
            th
            (tc ++ sent_by_host id es)
  unfolding step next host_did
  approval_step id s c th tc accept es e = rw e refl

  pub host_step :
      (id : ℕ) (s : HostSession) (c : ClientSession) (f : ℕ × Bytes) (th tc : List (ℕ × Bytes))
      (es : List Event)
      → (Host.handle_frame text id f.0 f.1 now s).0 ≡ es
      → step text now (link id s c [] (f ∷ th) tc)
        ≡ link id
            (Host.handle_frame text id f.0 f.1 now s).1
            c
            (approvals id es)
            th
            (tc ++ sent_by_host id es)
  unfolding step next host_did
  host_step id s c f th tc es e = rw e refl

  pub client_step :
      (id : ℕ) (s : HostSession) (c : ClientSession) (f : ℕ × Bytes) (tc : List (ℕ × Bytes))
      (h : ClientSession.Handled)
      → Handlers.handle_frame f.0 f.1 now c ≡ h
      → step text now (link id s c [] [] (f ∷ tc)) ≡ link id s h.1 [] (sent_by_client h.0) tc
  unfolding step next client_did
  client_step id s c f tc h e = rw e refl

  -- What the host's handlers do for a client that is `rec` in its table.
  abbrev pub HostDid : ℕ → HostSession → Clients.Handled → List Event → ClientRecord → Type 0
  HostDid id s h es rec =
      (h.0 ≡ es)
      × (find id h.1.clients ≡ some rec)
      × (h.1.params ≡ s.params)
      × (h.1.stopping ≡ s.stopping)

  did_no :
      (id : ℕ) (s : HostSession) (b : Bool) (x y : Clients.Handled) (es : List Event)
      (rec : ClientRecord)
      → b ≡ false
      → HostDid id s y es rec
      → HostDid id s (if b then x else y) es rec
  did_no id s true x y es rec e h = cc
  did_no id s false x y es rec e h = h

  at_authenticating :
      (state : ConnectionState) (x y : Clients.Handled)
      → state ≡ ConnectionState.authenticating
      → elim state [ Clients.authenticating ↦ x | _ ↦ y ] ≡ x
  at_authenticating state x y e = rw e refl

  at_connecting :
      (state : ConnectionState) (x y : Clients.Handled)
      → state ≡ ConnectionState.connecting
      → elim state [ Clients.connecting ↦ x | _ ↦ y ] ≡ x
  at_connecting state x y e = rw e refl

  pub approve_did :
      (id : ℕ) (rec : ClientRecord) (s : HostSession)
      → find id s.clients ≡ some rec
      → rec.state ≡ ConnectionState.authenticating
      → HostDid id s
          (approve_client text id true now s)
          (approved id s.params)
          (record rec { last_activity = now })
  unfolding approve_client with_client
  approve_did id rec s present waits =
      let e : approve_client text id true now s
          ≡ (approved id s.params, with_client s id (record rec { last_activity = now })) =
        rw (approve_client, present) (at_authenticating rec.state _ _ waits) in
      rw e (refl, find-insert_self id _ s.clients, refl, refl)

  greet_did :
      (id : ℕ) (hello : ClientHello) (rec : ClientRecord) (s : HostSession)
      → IsSorted s.clients
      → find id s.clients ≡ some rec
      → leb (length s.clients) s.params.max_clients ≡ true
      → verify_session_code hello.session_code s.session_code ≡ true
      → s.params.auto_approve ≡ true
      → HostDid id s (greet text id rec hello s) (Clients.posts_approval id true ∷ []) (record rec {
        name = if length hello.client_name == 0 then text Text.player else hello.client_name;
        state = ConnectionState.authenticating;
        input = s.params.input_defaults;
      })
  unfolding greet with_client rebuild_snapshot
  greet_did id hello rec s sorted present room right auto =
      let name = if length hello.client_name == 0 then text Text.player else hello.client_name in
      let named : ClientRecord = record rec { name = name } in
      let size = length-insert_found id named rec s.clients sorted present in
      let full : ltb s.params.max_clients (length (insert id named s.clients)) ≡ false =
        ground (arith, room, size) in
      let good : not (verify_session_code hello.session_code s.session_code) ≡ false =
        rw right refl in
      did_no id s _ _ _ _ _ full (
        did_no id s _ _ _ _ _ good (if_yes _ _ _ auto, find-insert_self id _ s.clients, refl, refl))

  pub hello_did :
      (id : ℕ) (rec : ClientRecord) (hello : ClientHello) (s : HostSession)
      → IsSorted s.clients
      → find id s.clients ≡ some rec
      → rec.state ≡ ConnectionState.connecting
      → s.stopping ≡ false
      → leb (length s.clients) s.params.max_clients ≡ true
      → verify_session_code (take max_string hello.session_code) s.session_code ≡ true
      → s.params.auto_approve ≡ true
      → (r : ClientRecord) × HostDid id s
          (Host.handle_frame text id
            (raw_id MsgId.client_hello)
            (encode_message (envelope (Body.client_hello hello)))
            now
            s)
          (Clients.posts_approval id true ∷ [])
          r
        × (r.state ≡ ConnectionState.authenticating)
        × (r.input ≡ s.params.input_defaults)
  unfolding with_client Host.dispatch handle_client_hello id_of
  hello_did id rec hello s sorted present waits runs room right auto =
      let active : ClientRecord = record rec { last_activity = now } in
      let t = with_client s id active in
      let there = find-insert_self id active s.clients in
      let heard : ClientHello = record {
        client_name = take max_string hello.client_name;
        session_code = take max_string hello.session_code;
        app_version = take max_string hello.app_version;
      } in
      let received = host_receives text id now (Body.client_hello hello) rec s tt runs present in
      let greeted : handle_client_hello text id heard t ≡ greet text id active heard t =
        rw (handle_client_hello, there) (at_connecting rec.state _ _ waits) in
      let size = length-insert_found id active rec s.clients sorted present in
      let did =
        greet_did id heard active t (IsSorted-insert id active s.clients sorted) there
          (ground (arith, room, size)) right auto in
      let r : ClientRecord = record active {
        name = if length heard.client_name == 0 then text Text.player else heard.client_name;
        state = ConnectionState.authenticating;
        input = s.params.input_defaults;
      } in
      (
        r,
        subst (λ h. HostDid id s h (Clients.posts_approval id true ∷ []) r)
            (sym (received ∙ greeted)) did,
        refl,
        refl,
      )

  -- The answer to a client with which the host shares a codec.
  answers : ℕ → Option ℕ → HostSession → Clients.Handled
  answers id o s =
      send_to id (envelope (Body.negotiation_result (negotiation text s.params o))) s
      >>> after_negotiation text id o

  sent_lem :
      (id : ℕ) (env : Envelope) (rec : ClientRecord) (s : HostSession)
      → find id s.clients ≡ some rec
      → send_to id env s ≡ (Clients.sent id env ∷ [], s)
  unfolding send_to
  sent_lem id env rec s present = rw (send_to, present) refl

  set_lem :
      (id : ℕ) (state : ConnectionState) (rec : ClientRecord) (s : HostSession)
      → find id s.clients ≡ some rec
      → set_state id state s ≡ (
        Clients.client_updated (Clients.row_of (id, record rec { state = state })) ∷ [],
        rebuild_snapshot (with_client s id (record rec { state = state })),
      )
  unfolding set_state
  set_lem id state rec s present = rw (set_state, present) refl

  push_lem :
      (id : ℕ) (rec : ClientRecord) (s : HostSession)
      → find id s.clients ≡ some rec
      → push_input_permissions id s ≡ (
        Clients.sent id (envelope (Body.input_permission rec.input))
            ∷ Clients.permissions id rec.input
            ∷ [],
        s,
      )
  unfolding push_input_permissions id_of
  push_lem id rec s present = rw (push_input_permissions, present) refl

  answers_lem :
      (id codec : ℕ) (rec : ClientRecord) (s : HostSession)
      → find id s.clients ≡ some rec
      → answers id (some codec) s ≡ (
        Clients.sent id
              (envelope (Body.negotiation_result (negotiation text s.params (some codec))))
            ∷ Clients.client_updated
                (Clients.row_of (id, record rec { state = ConnectionState.connected }))
            ∷ Clients.sent id (envelope (Body.input_permission rec.input))
            ∷ Clients.permissions id rec.input
            ∷ [],
        rebuild_snapshot (with_client s id (record rec { state = ConnectionState.connected })),
      )
  unfolding answers after_negotiation ◌>>>◌ with_client rebuild_snapshot
  answers_lem id codec rec s present =
      let r : ClientRecord = record rec { state = ConnectionState.connected } in
      rw
        (
          sent_lem id (envelope (Body.negotiation_result (negotiation text s.params (some codec))))
              rec s present,
          set_lem id ConnectionState.connected rec s present,
          push_lem id r (rebuild_snapshot (with_client s id r)) (find-insert_self id r s.clients),
        )
        refl

  -- The host's answer to the capabilities.
  pub answer_did :
      (id codec : ℕ) (rec : ClientRecord) (supported : List ℕ) (s : HostSession)
      → All IsU8 supported
      → length supported ≤ 32
      → find id s.clients ≡ some rec
      → rec.state ≡ ConnectionState.authenticating
      → s.stopping ≡ false
      → negotiate_codec (host_codecs s.params) supported ≡ some codec
      → (r : ClientRecord) × HostDid id s
          (Host.handle_frame text id
            (raw_id MsgId.client_capabilities)
            (encode_message (envelope (Body.client_capabilities supported)))
            now
            s)
          (Clients.sent id
              (envelope (Body.negotiation_result (negotiation text s.params (some codec))))
            ∷ Clients.client_updated (Clients.row_of (id, r))
            ∷ Clients.sent id (envelope (Body.input_permission rec.input))
            ∷ Clients.permissions id rec.input
            ∷ [])
          r
        × (r.state ≡ ConnectionState.connected)
        × (r.input ≡ rec.input)
  unfolding with_client Host.dispatch handle_client_capabilities after_negotiation ◌>>>◌ answers
      id_of rebuild_snapshot
  answer_did id codec rec supported s bytes few present waits runs shared =
      let active : ClientRecord = record rec { last_activity = now } in
      let t = with_client s id active in
      let there = find-insert_self id active s.clients in
      let received =
        host_receives text id now (Body.client_capabilities supported) rec s bytes runs present in
      let reads : negotiate_codec (host_codecs s.params) (take 32 supported) ≡ some codec =
        rw (take-all supported 32 few) shared in
      let answered : handle_client_capabilities text id (take 32 supported) t
          ≡ answers id (some codec) t =
        rw (handle_client_capabilities, there)
          (at_authenticating rec.state _ _ waits ∙ ap (λ o. answers id o t) reads) in
      let r : ClientRecord = record active { state = ConnectionState.connected } in
      (
        r,
        rw (received ∙ (answered ∙ answers_lem id codec active t there))
            (refl, find-insert_self id r t.clients, refl, refl),
        refl,
        refl,
      )
