-- ===== src/Session/Joined.antt =====
-- The handshake of the two ends with both connected.
use iran_remote_play.Prelude.{
  ℕ, ◌%◌, ◌^◌, ◌≤◌, ◌<◌, min, ◌≡◌, refl, sym, ap, ◌∙◌, subst, inl, inr, some, List, [], ◌∷◌, true,
  false, leb, ◌==◌, length, take, arith, take-all, Bool-cases, All,
}
use iran_remote_play.Prelude.Bytes.{Bytes}
use iran_remote_play.Packet.Writer.{max_string}
use iran_remote_play.Udp.FrameMap.{find, IsSorted}
use iran_remote_play.Protocol.Ids.{raw_id}
use iran_remote_play.Protocol.Messages.{Body, InputPermission, id_of, InRange, IsU8, ClientHello}
use iran_remote_play.Protocol.Write.{encode_message}
use iran_remote_play.Protocol.RoundTrip.{envelope, canonical}
use iran_remote_play.Protocol.Negotiate.{negotiate_codec}
use iran_remote_play.Codes.{verify_session_code}
use iran_remote_play.Clients
use iran_remote_play.Clients.{
  ◌>>>◌, HostSession, ClientRecord, Text, Event, ConnectionState, with_client, rebuild_snapshot,
  host_codecs, capabilities_of, set_state, push_input_permissions, send_to, approved,
}
use iran_remote_play.Host
use iran_remote_play.Host.{
  approve_client, greet, handle_client_hello, negotiation, handle_client_capabilities,
  after_negotiation,
}
use iran_remote_play.ClientSession
use iran_remote_play.ClientSession.{ClientSession, Action, ClientSessionParams, ClientStatus}
use iran_remote_play.ClientSession.Handlers
use iran_remote_play.Session.{
  Link, frame_of, sent_by_host, sent_by_client, approvals, client_did, step, steps,
}
use iran_remote_play.Session.Hearing.{link, client_receives}
use iran_remote_play.Session.HostSide.{
  approval_step, host_step, client_step, approve_did, hello_did, answer_did,
}

module _ (text : Text → Bytes) (now : ℕ) where
  same : (n : ℕ) → (n == n) ≡ true
  same n = ground arith

  abbrev capable : HostSession → Body
  capable s = Body.host_capabilities (capabilities_of s.params)

  posted_approval : (id : ℕ) → approvals id (Clients.posts_approval id true ∷ []) ≡ true ∷ []
  unfolding approvals
  posted_approval id = rw (approvals, same id) refl

  sent_approved :
      (id : ℕ) (s : HostSession)
      → sent_by_host id (approved id s.params)
        ≡ frame_of (envelope Body.host_approved) ∷ frame_of (envelope (capable s)) ∷ []
  unfolding sent_by_host approved id_of
  sent_approved id s = rw (sent_by_host, same id) refl

  sent_answer :
      (id : ℕ) (m p : Body) (row : Clients.ClientRow) (perms : InputPermission)
      → sent_by_host id (
          Clients.sent id (envelope m)
          ∷ Clients.client_updated row
          ∷ Clients.sent id (envelope p)
          ∷ Clients.permissions id perms
          ∷ [])
        ≡ frame_of (envelope m) ∷ frame_of (envelope p) ∷ []
  unfolding sent_by_host
  sent_answer id m p row perms = rw (sent_by_host, same id) refl

  -- The client connects to the host, which has it in its table.
  unfoldable pub joined : ℕ → HostSession → ClientSession → Link
  unfolding client_did Handlers.handle_connected
  joined id s c = client_did (Handlers.handle_connected now c) (link id s c [] [] [])

  abbrev hello_of : ClientSession → Body
  hello_of c = Body.client_hello (record {
    client_name = c.params.client_name;
    session_code = c.params.session_code;
    app_version = c.params.app_version;
  })

  joined_lem :
      (id : ℕ) (s : HostSession) (c : ClientSession)
      → joined id s c
        ≡ link id s
            (Handlers.handle_connected now c).1
            []
            (frame_of (envelope (hello_of c)) ∷ [])
            []
  unfolding joined client_did sent_by_client Handlers.handle_connected Handlers.send_hello
      ClientSession.send ClientSession.◌>>>◌ ClientSession.set_state frame_of id_of
  joined_lem id s c = refl

  -- The client after the frame of a message.
  client_after : Body → ClientSession → ClientSession.Handled
  client_after m c =
      Handlers.dispatch (raw_id (id_of m)) (encode_message (envelope m)) now (canonical m)
        (record c { last_activity = now })

  client_hears :
      (id : ℕ) (s : HostSession) (c : ClientSession) (m : Body) (tc : List (ℕ × Bytes))
      → InRange m
      → c.stopping ≡ false
      → step text now (link id s c [] [] (frame_of (envelope m) ∷ tc))
        ≡ link id s (client_after m c).1 [] (sent_by_client (client_after m c).0) tc
  unfolding frame_of client_after
  client_hears id s c m tc range runs =
      client_step text now id s c (frame_of (envelope m)) tc (client_after m c)
        (client_receives now m c range runs)

  client_hears_approval :
      (id : ℕ) (s : HostSession) (c : ClientSession) (m : Body)
      → InRange m
      → c.stopping ≡ false
      → steps text now 2
          (link id s c [] [] (frame_of (envelope Body.host_approved) ∷ frame_of (envelope m) ∷ []))
        ≡ (let d = client_after m (record c { last_activity = now }) in
            link id s d.1 [] (sent_by_client d.0) [])
  unfolding steps client_after Handlers.dispatch sent_by_client
  client_hears_approval id s c m range runs =
      ap (step text now)
        (client_hears id s c Body.host_approved (frame_of (envelope m) ∷ []) tt runs)
      ∙ client_hears id s (record c { last_activity = now }) m [] range runs

  -- The host greets the client and approves of it: two steps.
  welcomed :
      (id : ℕ) (rec : ClientRecord) (hello : ClientHello) (s : HostSession) (c : ClientSession)
      → IsSorted s.clients
      → find id s.clients ≡ some rec
      → rec.state ≡ ConnectionState.connecting
      → s.stopping ≡ false
      → leb (length s.clients) s.params.max_clients ≡ true
      → verify_session_code (take max_string hello.session_code) s.session_code ≡ true
      → s.params.auto_approve ≡ true
      → (t : HostSession) × (r : ClientRecord) × (steps text now 2
            (link id s c [] (frame_of (envelope (Body.client_hello hello)) ∷ []) [])
          ≡ link id t c [] []
              (frame_of (envelope Body.host_approved) ∷ frame_of (envelope (capable s)) ∷ []))
        × (find id t.clients ≡ some r)
        × (r.state ≡ ConnectionState.authenticating)
        × (r.input ≡ s.params.input_defaults)
        × (t.params ≡ s.params)
        × (t.stopping ≡ false)
  unfolding steps sent_by_host frame_of approvals approved id_of
  welcomed id rec hello s c sorted present waits runs room right auto =
      let (r, did, st, inp) =
        hello_did text now id rec hello s sorted present waits runs room right auto in
      let f = frame_of (envelope (Body.client_hello hello)) in
      let s1 = (Host.handle_frame text id f.0 f.1 now s).1 in
      let did2 = approve_did text now id r s1 did.1 st in
      let t = (approve_client text id true now s1).1 in
      let e1 = host_step text now id s c f [] [] (Clients.posts_approval id true ∷ []) did.0 in
      let e2 = approval_step text now id s1 c [] [] true (approved id s1.params) did2.0 in
      let e3 : step text now (link id s c [] (f ∷ []) []) ≡ link id s1 c (true ∷ []) [] [] =
        e1 ∙ ap (λ q. link id s1 c q [] []) (posted_approval id) in
      let e4 : link id t c [] [] (sent_by_host id (approved id s1.params))
          ≡ link id t c [] []
              (frame_of (envelope Body.host_approved) ∷ frame_of (envelope (capable s)) ∷ []) =
        ap (link id t c [] []) (
          sent_approved id s1
          ∙ ap
              (λ p.
                frame_of (envelope Body.host_approved)
                ∷ frame_of (envelope (Body.host_capabilities (capabilities_of p)))
                ∷ [])
              did.2) in
      (
        t,
        record r { last_activity = now },
        ap (step text now) e3 ∙ (e2 ∙ e4),
        did2.1,
        st,
        inp,
        did2.2 ∙ did.2,
        did2.3 ∙ (did.3 ∙ runs),
      )

  -- The host answers the capabilities, and the client hears the answer: three steps.
  answered :
      (id codec : ℕ) (rec : ClientRecord) (supported : List ℕ) (s : HostSession) (c : ClientSession)
      → All IsU8 supported
      → length supported ≤ 32
      → find id s.clients ≡ some rec
      → rec.state ≡ ConnectionState.authenticating
      → s.stopping ≡ false
      → negotiate_codec (host_codecs s.params) supported ≡ some codec
      → InRange (Body.negotiation_result (negotiation text s.params (some codec)))
      → c.stopping ≡ false
      → (t : HostSession) × (r : ClientRecord) × (let d =
            client_after (Body.negotiation_result (negotiation text s.params (some codec))) c in
          steps text now 3
            (link id s c [] (frame_of (envelope (Body.client_capabilities supported)) ∷ []) [])
          ≡ link id t (client_after (Body.input_permission rec.input) d.1).1 [] [] [])
        × (find id t.clients ≡ some r)
        × (r.state ≡ ConnectionState.connected)
        × (r.input ≡ rec.input)
  unfolding steps frame_of approvals id_of sent_by_client client_after Handlers.dispatch
      Handlers.handle_negotiation Handlers.handle_input_permission negotiation
      ClientSession.set_state ClientSession.calls ClientSession.◌>>>◌ ClientSession.with_status
  answered id codec rec supported s c bytes few present waits runs shared range hears =
      let (r, did, st, inp) =
        answer_did text now id codec rec supported s bytes few present waits runs shared in
      let f = frame_of (envelope (Body.client_capabilities supported)) in
      let t = (Host.handle_frame text id f.0 f.1 now s).1 in
      let m = Body.negotiation_result (negotiation text s.params (some codec)) in
      let p = Body.input_permission rec.input in
      let e1 = host_step text now id s c f [] [] _ did.0 in
      let e2 : step text now (link id s c [] (f ∷ []) [])
          ≡ link id t c [] [] (frame_of (envelope m) ∷ frame_of (envelope p) ∷ []) =
        e1 ∙ ap (link id t c [] []) (sent_answer id m p (Clients.row_of (id, r)) rec.input) in
      let d = client_after m c in
      let e3 = client_hears id t c m (frame_of (envelope p) ∷ []) range hears in
      let e4 = client_hears id t d.1 p [] tt hears in
      (
        t,
        r,
        ap (λ l. step text now (step text now l)) e2 ∙ (ap (step text now) e3 ∙ e4),
        did.1,
        st,
        inp,
      )

  capable-InRange :
      (p : Clients.Params)
      → IsU8 p.capture_mode
      → p.bitrate_kbps < 2 ^ 32
      → IsU8 p.preferred_codec
      → InRange (Body.host_capabilities (capabilities_of p))
  unfolding capabilities_of Clients.offered_codecs
  capable-InRange p hm hb hc = (
    hm,
    omega arith,
    omega arith,
    omega arith,
    hb,
    elim (Bool-cases (p.preferred_codec == 0)) [
      | inl z ↦ rw z (omega arith, tt)
      | inr n ↦ rw n (hc, (omega arith, tt))
    ],
  )

  answer-InRange :
      (p : Clients.Params) (supported : List ℕ) (codec : ℕ)
      → p.bitrate_kbps < 2 ^ 32
      → IsU8 p.preferred_codec
      → negotiate_codec (host_codecs p) supported ≡ some codec
      → InRange (Body.negotiation_result (negotiation text p (some codec)))
  unfolding negotiation negotiate_codec
  answer-InRange p supported codec hb hc e =
      (ground arith, omega arith, omega arith, omega arith, hb)

  -- A host that approves of everyone has the client in its table, in the state of a new connection,
  -- with room for it, and the client connects with a code that verifies; they share a codec, and
  -- the fields are in the ranges of their types, the code and the codec list within the caps of the
  -- wire. Then seven steps of the handlers, each on what the channels carry next, end with both
  -- connected and the channels empty: the client has the negotiated codec, the size, the rate and
  -- the bitrate of the host, and the permissions that the host noted for it.
  pub steps-connected :
      (id codec : ℕ) (rec : ClientRecord) (s : HostSession) (c : ClientSession)
      → IsSorted s.clients
      → find id s.clients ≡ some rec
      → rec.state ≡ ConnectionState.connecting
      → s.stopping ≡ false
      → leb (length s.clients) s.params.max_clients ≡ true
      → s.params.auto_approve ≡ true
      → IsU8 s.params.capture_mode
      → s.params.bitrate_kbps < 2 ^ 32
      → IsU8 s.params.preferred_codec
      → c.stopping ≡ false
      → length c.params.session_code ≤ max_string
      → verify_session_code c.params.session_code s.session_code ≡ true
      → All IsU8 c.params.supported_codecs
      → length c.params.supported_codecs ≤ 32
      → negotiate_codec (host_codecs s.params) c.params.supported_codecs ≡ some codec
      → (t : HostSession) × (r : ClientRecord) × (d : ClientSession) × (steps text now 7
            (joined id s c)
          ≡ link id t d [] [] [])
        × (find id t.clients ≡ some r)
        × (r.state ≡ ConnectionState.connected)
        × (d.status.state ≡ ConnectionState.connected)
        × (d.status.codec ≡ codec)
        × (d.status.width ≡ s.params.width % 2 ^ 16)
        × (d.status.height ≡ s.params.height % 2 ^ 16)
        × (d.status.fps ≡ min s.params.fps 255)
        × (d.status.bitrate_kbps ≡ s.params.bitrate_kbps)
        × (d.status.input ≡ r.input)
        × (r.input ≡ s.params.input_defaults)
  unfolding steps sent_by_client client_after Handlers.dispatch Handlers.handle_connected
      Handlers.send_hello Handlers.handle_host_capabilities Handlers.handle_negotiation
      Handlers.negotiated Handlers.handle_input_permission negotiation ClientSession.send
      ClientSession.set_state ClientSession.calls ClientSession.◌>>>◌ ClientSession.with_status
      frame_of id_of
  steps-connected id codec rec s c sorted present waits runs room auto hm hb hc hears short right
        bytes few shared =
      let c1 = (Handlers.handle_connected now c).1 in
      let hello : ClientHello = record {
        client_name = c.params.client_name;
        session_code = c.params.session_code;
        app_version = c.params.app_version;
      } in
      let (t, r, e1, there, st, inp, ps, live) =
        welcomed id rec hello s c1 sorted present waits runs room
          (rw (take-all c.params.session_code max_string short) right) auto in
      let caps = capable s in
      let e2 = client_hears_approval id t c1 caps (capable-InRange s.params hm hb hc) hears in
      let c3 = (client_after caps (record c1 { last_activity = now })).1 in
      let met = ap (λ p. negotiate_codec (host_codecs p) c.params.supported_codecs) ps ∙ shared in
      let range =
        subst (λ p. InRange (Body.negotiation_result (negotiation text p (some codec)))) (sym ps)
          (answer-InRange s.params c.params.supported_codecs codec hb hc shared) in
      let (u, q, e3, here, su, iu) =
        answered id codec r c.params.supported_codecs t c3 bytes few there st live met range
          hears in
      let answer = Body.negotiation_result (negotiation text t.params (some codec)) in
      let d = (client_after (Body.input_permission r.input) (client_after answer c3).1).1 in
      let e =
        ap (steps text now 7) (joined_lem id s c)
        ∙ (ap (steps text now 5) e1 ∙ (ap (steps text now 3) e2 ∙ e3)) in
      (
        u,
        q,
        d,
        e,
        here,
        su,
        refl,
        refl,
        ap (λ (p : Clients.Params). p.width % 2 ^ 16) ps,
        ap (λ (p : Clients.Params). p.height % 2 ^ 16) ps,
        ap (λ (p : Clients.Params). min p.fps 255) ps,
        ap (λ (p : Clients.Params). p.bitrate_kbps) ps,
        sym iu,
        iu ∙ inp,
      )
