-- ===== src/Session.antt =====
-- A host and one of its clients, joined by two ordered channels of frames: what the handlers of one
-- send, the handlers of the other receive. The clock stands still.
pub mod Hearing
pub mod HostSide
pub mod Joined
use iran_remote_play.Prelude.{
  ℕ, zero, suc, ◌+◌, ◌-◌, ◌*◌, ◌/◌, ◌%◌, ◌^◌, ◌≤◌, ◌<◌, min, max, ◌≡◌, refl, sym, ap, ◌∙◌, subst,
  ◌≢◌, ◌↔◌, ◌⊎◌, inl, inr, Option, none, some, List, [], ◌∷◌, ◌++◌, map, Bool, true, false, ◌&&◌,
  ◌||◌, not, if◌then◌else◌, leb, ltb, ◌==◌, length, is_empty, IsPrefix, take, drop, get_or, set,
  replicate, arith, take-all, append-nil, append_assoc, Bool-cases, Option-cases, length-append,
  length-take, length-drop, All, append-eq-nil, take-append, drop-append,
}
use iran_remote_play.Prelude.Bytes.{Bytes}
use iran_remote_play.Protocol.Ids.{MsgId, raw_id, known_id}
use iran_remote_play.Protocol.Messages.{Body, Envelope}
use iran_remote_play.Protocol.Write.{encode_message}
use iran_remote_play.Clients
use iran_remote_play.Clients.{HostSession, Text, Event}
use iran_remote_play.Host
use iran_remote_play.Host.{approve_client}
use iran_remote_play.ClientSession
use iran_remote_play.ClientSession.{ClientSession, Action}
use iran_remote_play.ClientSession.Handlers

-- `posted` are the calls of `approveClient` that wait on the host's thread.
pub record Link : Type 0 where
  pub id : ℕ
  pub host : HostSession
  pub client : ClientSession
  pub posted : List Bool
  pub to_host : List (ℕ × Bytes)
  pub to_client : List (ℕ × Bytes)

unfoldable pub frame_of : Envelope → ℕ × Bytes
frame_of env = (raw_id env.type, encode_message env)

-- What the host's events send to the client.
unfoldable pub sent_by_host : ℕ → List Event → List (ℕ × Bytes)
unfolding frame_of
sent_by_host id [] = []
sent_by_host id (Clients.sent j env ∷ es) =
    let rest = sent_by_host id es in if j == id then frame_of env ∷ rest else rest
sent_by_host id (Clients.sent_raw j raw payload ∷ es) =
    let rest = sent_by_host id es in if j == id then (raw, payload) ∷ rest else rest
sent_by_host id (Clients.closes_with j env ∷ es) =
    let rest = sent_by_host id es in if j == id then frame_of env ∷ rest else rest
sent_by_host id (_ ∷ es) = sent_by_host id es

unfoldable pub approvals : ℕ → List Event → List Bool
approvals id [] = []
approvals id (Clients.posts_approval j accept ∷ es) =
    let rest = approvals id es in if j == id then accept ∷ rest else rest
approvals id (_ ∷ es) = approvals id es

unfoldable pub sent_by_client : List Action → List (ℕ × Bytes)
sent_by_client [] = []
sent_by_client (ClientSession.sends raw payload ∷ rest) = (raw, payload) ∷ sent_by_client rest
sent_by_client (ClientSession.sends_last raw payload ∷ rest) = (raw, payload) ∷ sent_by_client rest
sent_by_client (_ ∷ rest) = sent_by_client rest

unfoldable pub host_did : Clients.Handled → Link → Link
unfolding sent_by_host approvals
host_did h l = record l {
  host = h.1;
  posted = l.posted ++ approvals l.id h.0;
  to_client = l.to_client ++ sent_by_host l.id h.0;
}

unfoldable pub client_did : ClientSession.Handled → Link → Link
unfolding sent_by_client
client_did h l = record l { client = h.1; to_host = l.to_host ++ sent_by_client h.0 }

module _ (text : Text → Bytes) (now : ℕ) where
  -- The next thing that happens, of what is queued.
  unfoldable pub next : List Bool → List (ℕ × Bytes) → List (ℕ × Bytes) → Link → Link
  unfolding host_did client_did
  next (accept ∷ posted) to_host to_client l =
      host_did (approve_client text l.id accept now l.host) (record l { posted = posted })
  next [] (frame ∷ to_host) to_client l =
      host_did (Host.handle_frame text l.id frame.0 frame.1 now l.host)
        (record l { to_host = to_host })
  next [] [] (frame ∷ to_client) l =
      client_did (Handlers.handle_frame frame.0 frame.1 now l.client)
        (record l { to_client = to_client })
  next [] [] [] l = l

  unfoldable pub step : Link → Link
  unfolding next
  step l = next l.posted l.to_host l.to_client l

  unfoldable pub steps : ℕ → Link → Link
  unfolding step
  steps zero l = l
  steps (suc n) l = steps n (step l)
