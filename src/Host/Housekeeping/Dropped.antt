-- ===== src/Host/Housekeeping/Dropped.antt =====
-- Whom the housekeeping drops, and whom it keeps.
use iran_remote_play.Prelude.{
  ℕ, ◌+◌, ◌-◌, ◌<◌, ltb, leb, ◌&&◌, ap, ◌≡◌, refl, ◌∙◌, subst, ◌≢◌, inl, inr, Option, none, some,
  List, [], ◌∷◌, Bool, true, false, ◌||◌, if◌then◌else◌, ◌==◌, arith, Bool-cases, Option-cases, All,
}
use iran_remote_play.Prelude.Bytes.{Bytes}
use iran_remote_play.Udp.FrameMap.{find, erase, find-insert_ne, IsSorted, IsSorted-erase}
use iran_remote_play.Protocol.Ids.{Reason}
use iran_remote_play.Clients.{
  Text, ConnectionState, connecting, authenticating, connected, streaming, disconnected,
  ClientRecord, HostSession, ◌>>>◌, rebuild_snapshot, with_client, set_state, forget,
}
use iran_remote_play.Host.{drop_client, hang_up}
use iran_remote_play.Host.Handshake.{set_state-IsSorted, drop_client_gone}
use iran_remote_play.Host.Housekeeping.{
  is_late, to_drop, is_pinged, ping_due, pinged, ping_all, drop_all, housekeeping,
}

find-erase_ne : {V : Type 0} (k j : ℕ) (m : List (ℕ × V)) → k ≢ j → find j (erase k m) ≡ find j m
unfolding find erase
find-erase_ne k j [] ne = refl
find-erase_ne k j ((i, v) ∷ m) ne = ground (arith, find-erase_ne k j m ne)

-- A client that stays is found as before.
set_state-others :
    (id j : ℕ) (state : ConnectionState) (s : HostSession)
    → id ≢ j
    → find j (set_state id state s).1.clients ≡ find j s.clients
unfolding set_state with_client rebuild_snapshot
set_state-others id j state s ne = elim (Option-cases (find id s.clients)) [
  | inl missing ↦ rw (set_state, missing) refl
  | inr (rec, present) ↦ rw (set_state, present) (find-insert_ne id j _ s.clients ne)
]

member : ℕ → List ℕ → Bool
member j [] = false
member j (id ∷ ids) = id == j || member j ids

module _ (text : Text → Bytes) where
  drop_client-others :
      (id j : ℕ) (send_reject : Bool) (reason : Reason) (note : Bytes) (s : HostSession)
      → id ≢ j
      → find j (drop_client text id send_reject reason note s).1.clients ≡ find j s.clients
  unfolding drop_client ◌>>>◌ hang_up forget rebuild_snapshot
  drop_client-others id j send_reject reason note s ne = elim (Option-cases (find id s.clients)) [
    | inl missing ↦ rw (drop_client, missing) refl
    | inr (rec, present) ↦
        rw (drop_client, present)
          (find-erase_ne id j (set_state id disconnected s).1.clients ne
            ∙ set_state-others id j disconnected s ne)
  ]

  drop_client-IsSorted :
      (id : ℕ) (send_reject : Bool) (reason : Reason) (note : Bytes) (s : HostSession)
      → IsSorted s.clients
      → IsSorted (drop_client text id send_reject reason note s).1.clients
  unfolding drop_client ◌>>>◌ hang_up forget rebuild_snapshot
  drop_client-IsSorted id send_reject reason note s sorted =
      elim (Option-cases (find id s.clients)) [
        | inl missing ↦ rw (drop_client, missing) sorted
        | inr (rec, present) ↦
            rw (drop_client, present)
              (IsSorted-erase id _ (set_state-IsSorted id disconnected s sorted))
      ]

  drop_all-find :
      (ids : List ℕ) (j : ℕ) (s : HostSession)
      → IsSorted s.clients
      → find j (drop_all text ids s).1.clients ≡ (if member j ids then none else find j s.clients)
  unfolding drop_all ◌>>>◌ member
  drop_all-find [] j s sorted = refl
  drop_all-find (id ∷ ids) j s sorted =
      let t = (drop_client text id true Reason.inactivity_timeout (text Text.timed_out) s).1 in
      let rest = drop_all-find ids j t (drop_client-IsSorted id true _ _ s sorted) in
      elim (Bool-cases (id == j)) [
        | inl same ↦
            let gone : find j t.clients ≡ none =
              subst (λ (k : ℕ). find k t.clients ≡ none) (ground arith)
                (drop_client_gone text id true Reason.inactivity_timeout (text Text.timed_out) s
                  sorted) in
            ground (arith, rest, gone)
        | inr other ↦
            let kept =
              drop_client-others id j true Reason.inactivity_timeout (text Text.timed_out) s
                (λ e. ground arith) in
            ground (arith, rest, kept)
      ]

-- How long, in nanoseconds, a client may be silent in a state; a record that is disconnected is kept
-- for any time.
unfoldable pub patience : ConnectionState → Option ℕ
patience connecting = some 10_000_000_000
patience authenticating = some 75_000_000_000
patience connected = some 15_000_000_000
patience streaming = some 15_000_000_000
patience disconnected = none

-- Whether `last` is further back than the limit.
unfoldable pub is_past : Option ℕ → ℕ → ℕ → Bool
is_past none last now = false
is_past (some limit) last now = ltb (last + limit) now

-- The time of the last ping after the round: a client that is connected or streams and has had no
-- ping, or none for two seconds, is pinged now.
unfoldable pub ping_time : ConnectionState → ℕ → ℕ → ℕ
ping_time connecting last now = last
ping_time authenticating last now = last
ping_time connected last now = if last == 0 || leb (last + 2_000_000_000) now then now else last
ping_time streaming last now = if last == 0 || leb (last + 2_000_000_000) now then now else last
ping_time disconnected last now = last

-- What becomes of a client's record.
unfoldable pub kept : ℕ → Option ClientRecord → Option ClientRecord
unfolding patience is_past ping_time
kept now none = none
kept now (some rec) =
    if is_past (patience rec.state) rec.last_activity now
    then none
    else some (record rec { last_host_ping = ping_time rec.state rec.last_host_ping now })

is_late-past :
    (state : ConnectionState) (last now : ℕ)
    → is_late state (now - last) ≡ is_past (patience state) last now
unfolding is_late is_past patience
is_late-past connecting last now = ground arith
is_late-past authenticating last now = ground arith
is_late-past connected last now = ground arith
is_late-past streaming last now = ground arith
is_late-past disconnected last now = refl

-- The time that `pinged` sets, as a function of the state.
set_time : ConnectionState → ℕ → ℕ → ℕ
set_time state last now =
    if is_pinged state && (last == 0 || leb 2_000_000_000 (now - last)) then now else last

set_time-ping_time :
    (state : ConnectionState) (last now : ℕ) → set_time state last now ≡ ping_time state last now
unfolding set_time ping_time is_pinged
set_time-ping_time connecting last now = refl
set_time-ping_time authenticating last now = refl
set_time-ping_time connected last now = ground arith
set_time-ping_time streaming last now = ground arith
set_time-ping_time disconnected last now = refl

if-record :
    (b : Bool) (now : ℕ) (rec : ClientRecord)
    → (if b then record rec { last_host_ping = now } else rec)
      ≡ record rec { last_host_ping = if b then now else rec.last_host_ping }
if-record true now rec = refl
if-record false now rec = refl

pinged-time :
    (now : ℕ) (rec : ClientRecord)
    → pinged now rec ≡ record rec { last_host_ping = ping_time rec.state rec.last_host_ping now }
unfolding pinged ping_due set_time
pinged-time now rec =
    if-record (ping_due now rec) now rec
    ∙ ap (λ (time : ℕ). record rec { last_host_ping = time })
        (set_time-ping_time rec.state rec.last_host_ping now)

is_dropped : ℕ → Option ClientRecord → Bool
is_dropped now none = false
is_dropped now (some rec) = is_late rec.state (now - rec.last_activity)

is_pinged_at : ℕ → Option ClientRecord → Option ClientRecord
is_pinged_at now none = none
is_pinged_at now (some rec) = some (pinged now rec)

find-above :
    (j k : ℕ) (m : List (ℕ × ClientRecord)) → All (λ e. j < e.0) m → j ≡ k → find k m ≡ none
unfolding find
find-above j k [] h e = refl
find-above j k ((i, v) ∷ m) (lt, h) e = ground (arith, find-above j k m h e)

member-to_drop :
    (now j : ℕ) (m : List (ℕ × ClientRecord))
    → IsSorted m
    → member j (to_drop now m) ≡ is_dropped now (find j m)
unfolding to_drop member is_dropped find
member-to_drop now j [] sorted = refl
member-to_drop now j ((i, rec) ∷ m) (above, sorted) =
    let rest = member-to_drop now j m sorted in
    elim (Bool-cases (i == j)) [
      | inl same ↦
          let none_left = find-above i j m above (ground arith) in ground (arith, rest, none_left)
      | inr other ↦ ground (arith, rest)
    ]

ping_all-find :
    (now j : ℕ) (m : List (ℕ × ClientRecord))
    → find j (ping_all now m) ≡ is_pinged_at now (find j m)
unfolding ping_all is_pinged_at find
ping_all-find now j [] = refl
ping_all-find now j ((i, rec) ∷ m) = ground (arith, ping_all-find now j m)

ping_all-above :
    (now i : ℕ) (m : List (ℕ × ClientRecord))
    → All (λ e. i < e.0) m
    → All (λ e. i < e.0) (ping_all now m)
unfolding ping_all
ping_all-above now i [] h = tt
ping_all-above now i ((j, rec) ∷ m) (lt, h) = (lt, ping_all-above now i m h)

pub ping_all-IsSorted :
    (now : ℕ) (m : List (ℕ × ClientRecord)) → IsSorted m → IsSorted (ping_all now m)
unfolding ping_all
ping_all-IsSorted now [] h = tt
ping_all-IsSorted now ((j, rec) ∷ m) (above, h) =
    (ping_all-above now j m above, ping_all-IsSorted now m h)

after_drop :
    (now : ℕ) (o : Option ClientRecord)
    → (if is_dropped now o then none else is_pinged_at now o) ≡ kept now o
unfolding is_dropped is_pinged_at kept
after_drop now none = refl
after_drop now (some rec) =
    rw (is_late-past rec.state rec.last_activity now, pinged-time now rec) refl

-- After a round of housekeeping on a sorted table, the clients that were silent for too long in their
-- state are gone (more than 10 s before the hello, 75 s before the host's decision, 15 s once
-- connected or streaming), and every other one is found as it was, with the time of its last ping set
-- to now exactly if it is connected or streams and was never pinged or not for 2 s.
pub housekeeping-find :
    (text : Text → Bytes) (now id : ℕ) (s : HostSession)
    → IsSorted s.clients
    → find id (housekeeping text now s).1.clients ≡ kept now (find id s.clients)
unfolding housekeeping ◌>>>◌
housekeeping-find text now id s sorted =
    let t : HostSession = record s { clients = ping_all now s.clients } in
    drop_all-find text (to_drop now s.clients) id t (ping_all-IsSorted now s.clients sorted)
    ∙ rw (member-to_drop now id s.clients sorted, ping_all-find now id s.clients)
        (after_drop now (find id s.clients))
