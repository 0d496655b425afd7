-- ===== src/Session/Hearing.antt =====
-- How the two sides decode each other's frames.
use iran_remote_play.Prelude.{
  ℕ, ◌≡◌, refl, sym, ap, ◌∙◌, some, List, [], Bool, true, false, if◌then◌else◌, arith, append-nil,
}
use iran_remote_play.Prelude.Bytes.{Bytes}
use iran_remote_play.Udp.FrameMap.{find}
use iran_remote_play.Protocol.Ids.{MsgId, raw_id, known_id, id_of_raw-raw_id}
use iran_remote_play.Protocol.Messages.{Body, id_of, InRange}
use iran_remote_play.Protocol.Write.{encode_message}
use iran_remote_play.Protocol.Read.{decode_message}
use iran_remote_play.Protocol.RoundTrip.{envelope, canonical, decode_message-encode_message}
use iran_remote_play.Clients.{HostSession, ClientRecord, Text, with_client}
use iran_remote_play.Host
use iran_remote_play.Host.{
  approve_client, greet, handle_client_hello, negotiation, handle_client_capabilities,
  after_negotiation,
}
use iran_remote_play.ClientSession.{ClientSession}
use iran_remote_play.ClientSession.Handlers
use iran_remote_play.Session.{Link}

-- A frame that one side encoded is decoded by the other.
pub decoded :
    (m : Body)
    → InRange m
    → decode_message (raw_id (id_of m)) (encode_message (envelope m))
      ≡ some (record { type = id_of m; body = canonical m })
decoded m h =
    ap (decode_message (raw_id (id_of m))) (sym (append-nil (encode_message (envelope m))))
    ∙ (decode_message-encode_message m [] h ∙ ground arith)

pub known : (id : MsgId) → known_id (raw_id id) ≡ true
unfolding known_id
known id = rw (known_id, id_of_raw-raw_id id) refl

pub if_no : {A : Type 0} (b : Bool) (x y : A) → b ≡ false → (if b then x else y) ≡ y
if_no true x y h = cc
if_no false x y h = refl

pub if_yes : {A : Type 0} (b : Bool) (x y : A) → b ≡ true → (if b then x else y) ≡ x
if_yes true x y h = refl
if_yes false x y h = cc

pub host_receives :
    (text : Text → Bytes) (id now : ℕ) (m : Body) (rec : ClientRecord) (s : HostSession)
    → InRange m
    → s.stopping ≡ false
    → find id s.clients ≡ some rec
    → Host.handle_frame text id (raw_id (id_of m)) (encode_message (envelope m)) now s
      ≡ Host.dispatch text id
          (raw_id (id_of m))
          (encode_message (envelope m))
          now
          (record rec { last_activity = now })
          (canonical m)
          (with_client s id (record rec { last_activity = now }))
unfolding Host.handle_frame Host.handle_message
host_receives text id now m rec s range runs present =
    if_no s.stopping _ _ runs ∙ rw (known (id_of m), present, decoded m range) refl

pub client_receives :
    (now : ℕ) (m : Body) (c : ClientSession)
    → InRange m
    → c.stopping ≡ false
    → Handlers.handle_frame (raw_id (id_of m)) (encode_message (envelope m)) now c
      ≡ Handlers.dispatch
          (raw_id (id_of m))
          (encode_message (envelope m))
          now
          (canonical m)
          (record c { last_activity = now })
unfolding Handlers.handle_frame Handlers.handle_message
client_receives now m c range runs =
    if_no c.stopping _ _ runs ∙ rw (known (id_of m), decoded m range) refl

abbrev pub link :
    ℕ → HostSession → ClientSession → List Bool → List (ℕ × Bytes) → List (ℕ × Bytes) → Link
link id host client posted to_host to_client = record {
  id = id;
  host = host;
  client = client;
  posted = posted;
  to_host = to_host;
  to_client = to_client;
}
