-- ===== src/Clients.antt =====
-- host/HostSession.h and host/HostSession.cpp: the host session's state and its table of clients. A
-- handler maps the session to the events it causes and the session after it. Times are nanoseconds.
-- The log and the callbacks that are not set are left out; a client's record always has its
-- connection.
use iran_remote_play.Prelude.{
  ℕ, ◌%◌, ◌^◌, min, none, some, List, [], ◌∷◌, ◌++◌, map, Bool, ◌&&◌, not, if◌then◌else◌, ◌==◌,
}
use iran_remote_play.Prelude.Bytes.{Bytes}
use iran_remote_play.Udp.FrameMap.{find, insert, erase}
use iran_remote_play.Protocol.Ids.{MsgId}
use iran_remote_play.Protocol.Messages.{Body, Envelope, HostCapabilities, InputPermission}

pub data ConnectionState : Type 0 where
  connecting authenticating connected streaming disconnected : ConnectionState

pub data Text : Type 0 where
  unknown_message malformed unexpected full bad_code rejected timed_out no_codec no_common_codec
        player pending :
      Text
  codec_name : ℕ → Text

pub record Params : Type 0 where
  pub host_name : Bytes
  pub game_name : Bytes
  pub capture_mode : ℕ
  pub width : ℕ
  pub height : ℕ
  pub fps : ℕ
  pub bitrate_kbps : ℕ
  pub preferred_codec : ℕ
  pub auto_approve : Bool
  pub input_defaults : InputPermission
  pub max_clients : ℕ

pub record ClientRow : Type 0 where
  pub id : ℕ
  pub name : Bytes
  pub state : ConnectionState
  pub rtt_ms : ℕ
  pub input_enabled : Bool
  pub address : Bytes

pub record ClientRecord : Type 0 where
  pub name : Bytes
  pub state : ConnectionState
  pub last_activity : ℕ
  pub last_host_ping : ℕ
  pub input : InputPermission
  pub rtt_ms : ℕ
  pub address : Bytes

pub record HostSession : Type 0 where
  pub params : Params
  pub session_code : Bytes
  pub clients : List (ℕ × ClientRecord)
  pub snapshot : List ClientRow
  pub next_client_id : ℕ
  pub running : Bool
  pub stopping : Bool
  pub has_app_message : Bool

-- What a handler does to the connections, and the callbacks it calls. `posts_approval` is the call
-- of `approveClient`, which runs later on the same thread.
pub data Event : Type 0 where
  sent closes_with : ℕ → Envelope → Event
  closes : ℕ → Event
  closes_new : Event
  posts_approval : ℕ → Bool → Event
  approval_requested : ℕ → Bytes → Event
  client_updated : ClientRow → Event
  permissions : ℕ → InputPermission → Event
  app_message sent_raw : ℕ → ℕ → Bytes → Event
  stopped : Event

abbrev pub Handled : Type 0
Handled = List Event × HostSession

-- One part of a handler after another.
infixl 20 ◌>>>◌
unfoldable pub ◌>>>◌ : Handled → (HostSession → Handled) → Handled
h >>> next = let after = next h.1 in (h.0 ++ after.0, after.1)

unfoldable pub all_disabled : InputPermission → Bool
all_disabled p = not p.controller && not p.keyboard && not p.mouse

unfoldable pub row_of : ℕ × ClientRecord → ClientRow
row_of (id, rec) = record {
  id = id;
  name = rec.name;
  state = rec.state;
  rtt_ms = rec.rtt_ms;
  input_enabled = not (all_disabled rec.input);
  address = rec.address;
}

unfoldable pub rebuild_snapshot : HostSession → HostSession
rebuild_snapshot s = record s { snapshot = map row_of s.clients }

unfoldable pub with_client : HostSession → ℕ → ClientRecord → HostSession
with_client s id rec = record s { clients = insert id rec s.clients }

unfoldable pub send_to : ℕ → Envelope → HostSession → Handled
send_to id env s = elim (find id s.clients) [ none ↦ ([], s) | some rec ↦ (sent id env ∷ [], s) ]

-- The snapshot has the row of the client, since it has just been rebuilt.
unfoldable pub set_state : ℕ → ConnectionState → HostSession → Handled
set_state id state s = elim (find id s.clients) [
  | none ↦ ([], s)
  | some rec ↦ (
    client_updated (row_of (id, record rec { state = state })) ∷ [],
    rebuild_snapshot (with_client s id (record rec { state = state })),
  )
]

unfoldable pub push_input_permissions : ℕ → HostSession → Handled
push_input_permissions id s = elim (find id s.clients) [
  | none ↦ ([], s)
  | some rec ↦ (
    sent id (record { type = MsgId.input_permission; body = Body.input_permission rec.input })
        ∷ permissions id rec.input
        ∷ [],
    s,
  )
]

unfoldable pub forget : ℕ → HostSession → Handled
forget id s = ([], rebuild_snapshot (record s { clients = erase id s.clients }))

-- `negotiateCodec({preferredCodec, H264}, …)`, and the offer without a repeated entry.
abbrev pub host_codecs : Params → List ℕ
host_codecs p = p.preferred_codec ∷ 0 ∷ []

unfoldable pub offered_codecs : Params → List ℕ
offered_codecs p = if p.preferred_codec == 0 then 0 ∷ [] else p.preferred_codec ∷ 0 ∷ []

unfoldable pub capabilities_of : Params → HostCapabilities
capabilities_of p = record {
  host_name = p.host_name;
  game_name = p.game_name;
  capture_mode = p.capture_mode;
  width = p.width % 2 ^ 16;
  height = p.height % 2 ^ 16;
  fps = min p.fps 255;
  bitrate_kbps = p.bitrate_kbps;
  offered_codecs = offered_codecs p;
}

unfoldable pub approved : ℕ → Params → List Event
approved id p =
    sent id (record { type = MsgId.host_approved; body = Body.host_approved })
    ∷ sent id (record {
      type = MsgId.host_capabilities;
      body = Body.host_capabilities (capabilities_of p);
    })
    ∷ []
