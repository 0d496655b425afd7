-- ===== src/Host/Housekeeping.antt =====
-- `housekeeping`: once a second, the host drops the clients that were silent for too long, and pings
-- the others. The timer is left out.
pub mod Dropped
use iran_remote_play.Prelude.{
  ℕ, zero, suc, ◌+◌, ◌-◌, ◌*◌, ◌/◌, ◌%◌, ◌^◌, ◌≤◌, ◌<◌, min, max, ◌≡◌, refl, sym, ap, ◌∙◌, subst,
  ◌≢◌, ◌↔◌, ◌⊎◌, inl, inr, Option, none, some, List, [], ◌∷◌, ◌++◌, map, Bool, true, false, ◌&&◌,
  ◌||◌, not, if◌then◌else◌, leb, ltb, ◌==◌, length, is_empty, IsPrefix, take, drop, get_or, set,
  replicate, arith, take-all, append-nil, append_assoc, Bool-cases, Option-cases, length-append,
  length-take, length-drop, All, append-eq-nil, take-append, drop-append,
}
use iran_remote_play.Prelude.Bytes.{Bytes}
use iran_remote_play.Udp.FrameMap.{
  find, insert, erase, find-insert_ne, IsSorted, IsSorted-insert, IsSorted-erase,
}
use iran_remote_play.Protocol.Ids.{MsgId, Reason}
use iran_remote_play.Protocol.Messages.{Body, Envelope}
use iran_remote_play.Clients.{
  Text, ConnectionState, connecting, authenticating, connected, streaming, disconnected,
  ClientRecord, HostSession, Handled, Event, sent, ◌>>>◌, rebuild_snapshot, with_client, set_state,
  forget,
}
use iran_remote_play.Host.{drop_client, hang_up}
use iran_remote_play.Host.Handshake.{find-erase, set_state-IsSorted, drop_client_gone}

abbrev seconds : ℕ → ℕ
seconds n = n * 1_000_000_000

-- How long a client may be silent.
unfoldable pub is_late : ConnectionState → ℕ → Bool
is_late connecting idle = ltb (seconds 10) idle
is_late authenticating idle = ltb (seconds 75) idle
is_late connected idle = ltb (seconds 15) idle
is_late streaming idle = ltb (seconds 15) idle
is_late disconnected idle = false

unfoldable pub to_drop : ℕ → List (ℕ × ClientRecord) → List ℕ
unfolding is_late
to_drop now [] = []
to_drop now ((id, rec) ∷ clients) =
    let rest = to_drop now clients in
    if is_late rec.state (now - rec.last_activity) then id ∷ rest else rest

unfoldable pub is_pinged : ConnectionState → Bool
is_pinged connected = true
is_pinged streaming = true
is_pinged _ = false

unfoldable pub ping_due : ℕ → ClientRecord → Bool
unfolding is_pinged
ping_due now rec =
    is_pinged rec.state && (rec.last_host_ping == 0 || leb (seconds 2) (now - rec.last_host_ping))

unfoldable pub pinged : ℕ → ClientRecord → ClientRecord
unfolding ping_due
pinged now rec = if ping_due now rec then record rec { last_host_ping = now } else rec

unfoldable pub ping_all : ℕ → List (ℕ × ClientRecord) → List (ℕ × ClientRecord)
unfolding pinged
ping_all now [] = []
ping_all now ((id, rec) ∷ clients) = (id, pinged now rec) ∷ ping_all now clients

unfoldable pub pings : ℕ → List (ℕ × ClientRecord) → List Event
unfolding ping_due
pings now [] = []
pings now ((id, rec) ∷ clients) =
    let rest = pings now clients in
    let ping : Envelope = record {
      type = MsgId.ping;
      body = Body.ping (now / 1_000_000 % 2 ^ 32);
    } in
    if ping_due now rec then sent id ping ∷ rest else rest

module _ (text : Text → Bytes) where
  unfoldable pub drop_all : List ℕ → HostSession → Handled
  unfolding ◌>>>◌
  drop_all [] s = ([], s)
  drop_all (id ∷ ids) s =
      drop_client text id true Reason.inactivity_timeout (text Text.timed_out) s >>> drop_all ids

  unfoldable pub housekeeping : ℕ → HostSession → Handled
  unfolding ◌>>>◌ drop_all ping_all pings to_drop
  housekeeping now s =
      (pings now s.clients, record s { clients = ping_all now s.clients })
      >>> drop_all (to_drop now s.clients)
