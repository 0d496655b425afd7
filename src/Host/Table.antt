-- ===== src/Host/Table.antt =====
-- The host's table of clients and its snapshot, under everything that can happen to the session.
pub mod Calls
use iran_remote_play.Prelude.{
  ℕ, zero, suc, ◌+◌, ◌-◌, ◌*◌, ◌/◌, ◌%◌, ◌^◌, ◌≤◌, ◌<◌, min, max, ◌≡◌, refl, sym, ap, ◌∙◌, subst,
  ◌≢◌, ◌↔◌, ◌⊎◌, inl, inr, Option, none, some, List, [], ◌∷◌, ◌++◌, map, Bool, true, false, ◌&&◌,
  ◌||◌, not, if◌then◌else◌, leb, ltb, ◌==◌, length, is_empty, IsPrefix, take, drop, get_or, set,
  replicate, arith, take-all, append-nil, append_assoc, Bool-cases, Option-cases, length-append,
  length-take, length-drop, All, append-eq-nil, take-append, drop-append,
}
use iran_remote_play.Prelude.Bytes.{Bytes}
use iran_remote_play.Udp.FrameMap.{
  find_below, find, insert, erase, find-insert_self, IsSorted, IsSorted-insert, IsSorted-erase,
}
use iran_remote_play.Protocol.Ids.{MsgId, Reason, known_id}
use iran_remote_play.Protocol.Messages.{Body, Envelope, ClientHello}
use iran_remote_play.Protocol.Read.{decode_message}
use iran_remote_play.Protocol.Negotiate.{negotiate_codec}
use iran_remote_play.Codes.{verify_session_code}
use iran_remote_play.Clients.{
  app_message, Text, ConnectionState, connecting, authenticating, connected, streaming,
  disconnected, ClientRecord, ClientRow, HostSession, Handled, ◌>>>◌, row_of, rebuild_snapshot,
  with_client, send_to, set_state, push_input_permissions, forget, host_codecs,
}
use iran_remote_play.Host.{
  hang_up, drop_client, handle_new_connection, approve_client, kick_client, set_client_input, greet,
  handle_client_hello, after_negotiation, handle_client_capabilities, handle_pong, handle_other,
  dispatch, handle_message, handle_frame, handle_client_closed, negotiation,
}
use iran_remote_play.Host.Handshake.{set_state-IsSorted, send_to_keeps, push_keeps}
use iran_remote_play.Host.Housekeeping.{pinged, ping_due, ping_all, to_drop, drop_all, housekeeping}

-- The table is sorted, and the snapshot for the user interface shows it.
abbrev pub IsCoherent : HostSession → Type 0
IsCoherent s = IsSorted s.clients × (s.snapshot ≡ map row_of s.clients)

pub rebuilt : (s : HostSession) → IsSorted s.clients → IsCoherent (rebuild_snapshot s)
unfolding rebuild_snapshot
rebuilt s sorted = (sorted, refl)

-- A new record with the same row.
insert-rows :
    (id : ℕ) (old new : ClientRecord) (m : List (ℕ × ClientRecord))
    → IsSorted m
    → find id m ≡ some old
    → row_of (id, new) ≡ row_of (id, old)
    → map row_of (insert id new m) ≡ map row_of m
unfolding find insert
insert-rows id old new [] sorted present same = cc
insert-rows id old new ((j, rec) ∷ m) (above, sorted) present same = elim (Bool-cases (j == id)) [
  | inl here ↦
      let k : j ≡ id = ground arith in
      let r : rec ≡ old = ground (arith, here) in
      let not_below : ltb id j ≡ false = ground arith in
      rw (not_below, here, k, r) (ap (λ row. row ∷ map row_of m) same)
  | inr there ↦
      let none_below = find_below id j m in
      let rest = insert-rows id old new m sorted (ground (arith, there)) same in
      elim (Bool-cases (ltb id j)) [
        | inl below ↦ absurd (ground (arith, none_below (ground arith) above))
        | inr not_below ↦ rw (not_below, there) (ap (λ rows. row_of (j, rec) ∷ rows) rest)
      ]
]

pub with_client-IsCoherent :
    (id : ℕ) (old new : ClientRecord) (s : HostSession)
    → find id s.clients ≡ some old
    → row_of (id, new) ≡ row_of (id, old)
    → IsCoherent s
    → IsCoherent (with_client s id new)
unfolding with_client
with_client-IsCoherent id old new s present same (sorted, shown) = (
  IsSorted-insert id new s.clients sorted,
  shown ∙ sym (insert-rows id old new s.clients sorted present same),
)

-- A handler left the table so.
unfoldable pub IsKept : Handled → Type 0
IsKept h = IsCoherent h.1

pub keep : (h : Handled) → IsCoherent h.1 → IsKept h
unfolding IsKept
keep h c = c

pub kept-IsCoherent : (h : Handled) → IsKept h → IsCoherent h.1
unfolding IsKept
kept-IsCoherent h c = c

set_state-IsCoherent :
    (id : ℕ) (state : ConnectionState) (s : HostSession)
    → IsCoherent s
    → IsKept (set_state id state s)
unfolding set_state with_client
set_state-IsCoherent id state s h = elim (Option-cases (find id s.clients)) [
  | inl missing ↦ rw (set_state, missing) (keep _ h)
  | inr (rec, present) ↦
      rw (set_state, present) (keep _ (rebuilt _ (IsSorted-insert id _ s.clients h.0)))
]

module _ (text : Text → Bytes) where
  -- A client of the table is dropped, whatever the snapshot was.
  drop_client_found :
      (id : ℕ) (send_reject : Bool) (reason : Reason) (note : Bytes) (rec : ClientRecord)
      (s : HostSession)
      → IsSorted s.clients
      → find id s.clients ≡ some rec
      → IsKept (drop_client text id send_reject reason note s)
  unfolding drop_client ◌>>>◌ hang_up forget
  drop_client_found id send_reject reason note rec s sorted present =
      rw (drop_client, present)
        (keep _ (rebuilt _ (IsSorted-erase id _ (set_state-IsSorted id disconnected s sorted))))

  pub drop_client-IsCoherent :
      (id : ℕ) (send_reject : Bool) (reason : Reason) (note : Bytes) (s : HostSession)
      → IsCoherent s
      → IsKept (drop_client text id send_reject reason note s)
  unfolding drop_client
  drop_client-IsCoherent id send_reject reason note s h = elim (Option-cases (find id s.clients)) [
    | inl missing ↦ rw (drop_client, missing) (keep _ h)
    | inr (rec, present) ↦ drop_client_found id send_reject reason note rec s h.0 present
  ]

  pub if-IsCoherent :
      (b : Bool) (x y : Handled)
      → (b ≡ true → IsKept x)
      → (b ≡ false → IsKept y)
      → IsKept (if b then x else y)
  if-IsCoherent true x y h k = h refl
  if-IsCoherent false x y h k = k refl

  authenticating-IsCoherent :
      (state : ConnectionState) (x y : Handled)
      → IsKept x
      → IsKept y
      → IsKept (elim state [ authenticating ↦ x | _ ↦ y ])
  authenticating-IsCoherent authenticating x y h k = h
  authenticating-IsCoherent _ x y h k = k

  connecting-IsCoherent :
      (state : ConnectionState) (x y : Handled)
      → IsKept x
      → IsKept y
      → IsKept (elim state [ connecting ↦ x | _ ↦ y ])
  connecting-IsCoherent connecting x y h k = h
  connecting-IsCoherent _ x y h k = k

  connected-IsCoherent :
      (state : ConnectionState) (x y : Handled)
      → IsKept x
      → IsKept y
      → IsKept (elim state [ connected ↦ x | _ ↦ y ])
  connected-IsCoherent connected x y h k = h
  connected-IsCoherent _ x y h k = k

  pub handle_new_connection-IsCoherent :
      (address : Bytes) (now : ℕ) (s : HostSession)
      → IsCoherent s
      → IsKept (handle_new_connection text address now s)
  unfolding handle_new_connection with_client
  handle_new_connection-IsCoherent address now s h =
      if-IsCoherent s.stopping _ _ (λ b. keep _ h)
        (λ b. keep _ (rebuilt _ (IsSorted-insert s.next_client_id _ s.clients h.0)))

  pub approve_client-IsCoherent :
      (id : ℕ) (accept : Bool) (now : ℕ) (s : HostSession)
      → IsCoherent s
      → IsKept (approve_client text id accept now s)
  unfolding approve_client row_of
  approve_client-IsCoherent id accept now s h = elim (Option-cases (find id s.clients)) [
    | inl missing ↦ rw (approve_client, missing) (keep _ h)
    | inr (rec, present) ↦
        rw (approve_client, present)
          (authenticating-IsCoherent rec.state _ _
            (if-IsCoherent accept _ _
              (λ b. keep _ (
                with_client-IsCoherent id rec (record rec { last_activity = now }) s present refl
                  h))
              (λ b. drop_client-IsCoherent id true _ _ s h))
            (keep _ h))
  ]

  pub kick_client-IsCoherent :
      (id : ℕ) (reason : Bytes) (s : HostSession)
      → IsCoherent s
      → IsKept (kick_client text id reason s)
  unfolding kick_client ◌>>>◌
  kick_client-IsCoherent id reason s h = elim (Option-cases (find id s.clients)) [
    | inl missing ↦ rw (kick_client, missing) (keep _ h)
    | inr (rec, present) ↦
        rw (kick_client, present)
          (keep _ (kept-IsCoherent _ (set_state-IsCoherent id disconnected s h)))
  ]

  greet-IsCoherent :
      (id : ℕ) (rec : ClientRecord) (hello : ClientHello) (s : HostSession)
      → IsSorted s.clients
      → IsKept (greet text id rec hello s)
  unfolding greet with_client
  greet-IsCoherent id rec hello s sorted =
      let name = if length hello.client_name == 0 then text Text.player else hello.client_name in
      let named : ClientRecord = record rec { name = name } in
      let t = with_client s id named in
      let there = find-insert_self id named s.clients in
      let fine = IsSorted-insert id named s.clients sorted in
      let gone = λ (reason : Reason) (note : Bytes).
        drop_client_found id true reason note named t fine there in
      elim (Bool-cases (ltb s.params.max_clients (length (insert id named s.clients)))) [
        | inl full ↦ rw (greet, full) (gone Reason.server_full (text Text.full))
        | inr room ↦ elim (Bool-cases (verify_session_code hello.session_code s.session_code)) [
          | inr wrong ↦ rw (greet, room, wrong) (gone Reason.bad_session_code (text Text.bad_code))
          | inl right ↦
              rw (greet, room, right) (keep _ (rebuilt _ (IsSorted-insert id _ s.clients sorted)))
        ]
      ]

  pub handle_client_hello-IsCoherent :
      (id : ℕ) (hello : ClientHello) (s : HostSession)
      → IsCoherent s
      → IsKept (handle_client_hello text id hello s)
  unfolding handle_client_hello
  handle_client_hello-IsCoherent id hello s h = elim (Option-cases (find id s.clients)) [
    | inl missing ↦ rw (handle_client_hello, missing) (keep _ h)
    | inr (rec, present) ↦
        rw (handle_client_hello, present)
          (connecting-IsCoherent rec.state _ _ (greet-IsCoherent id rec hello s h.0) (keep _ h))
  ]

  after_negotiation-IsCoherent :
      (id : ℕ) (o : Option ℕ) (s : HostSession)
      → IsCoherent s
      → IsKept (after_negotiation text id o s)
  unfolding after_negotiation ◌>>>◌
  after_negotiation-IsCoherent id none s h = drop_client-IsCoherent id true _ _ s h
  after_negotiation-IsCoherent id (some c) s h =
      rw (push_keeps id (set_state id connected s).1)
        (keep _ (kept-IsCoherent _ (set_state-IsCoherent id connected s h)))

  pub handle_client_capabilities-IsCoherent :
      (id : ℕ) (supported : List ℕ) (s : HostSession)
      → IsCoherent s
      → IsKept (handle_client_capabilities text id supported s)
  unfolding handle_client_capabilities ◌>>>◌
  handle_client_capabilities-IsCoherent id supported s h = elim (Option-cases (find id s.clients)) [
    | inl missing ↦ rw (handle_client_capabilities, missing) (keep _ h)
    | inr (rec, present) ↦
        let o = negotiate_codec (host_codecs s.params) supported in
        rw (handle_client_capabilities, present)
          (authenticating-IsCoherent rec.state _ _
            (keep _ (
              rw (send_to_keeps id _ s)
                (kept-IsCoherent _ (after_negotiation-IsCoherent id o s h))))
            (keep _ h))
  ]

  pub handle_pong-IsCoherent :
      (id echo now : ℕ) (s : HostSession) → IsCoherent s → IsKept (handle_pong text id echo now s)
  unfolding handle_pong with_client
  handle_pong-IsCoherent id echo now s h = elim (Option-cases (find id s.clients)) [
    | inl missing ↦ rw (handle_pong, missing) (keep _ h)
    | inr (rec, present) ↦
        rw (handle_pong, present) (keep _ (rebuilt _ (IsSorted-insert id _ s.clients h.0)))
  ]

  pub handle_other-IsCoherent :
      (id raw : ℕ) (payload : Bytes) (rec : ClientRecord) (s : HostSession)
      → IsCoherent s
      → IsKept (handle_other text id raw payload rec s)
  unfolding handle_other
  handle_other-IsCoherent id raw payload rec s h =
      let refuse = drop_client text id true Reason.protocol_error (text Text.unexpected) s in
      let dropped =
        drop_client-IsCoherent id true Reason.protocol_error (text Text.unexpected) s h in
      connected-IsCoherent rec.state _ refuse
        (if-IsCoherent (leb 0x0010 raw && s.has_app_message) (app_message id raw payload ∷ [], s)
          refuse (λ b. keep _ h) (λ b. dropped))
        dropped
