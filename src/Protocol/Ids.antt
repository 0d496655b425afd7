-- ===== src/Protocol/Ids.antt =====
-- Message identifiers, `knownId`, and the reasons of a rejection.
use iran_remote_play.Prelude.{
  ℕ, ◌≡◌, refl, Option, none, some, Bool, true, false, if◌then◌else◌, ◌==◌, arith,
}

pub data MsgId : Type 0 where
  client_hello host_reject host_approved host_capabilities client_capabilities : MsgId
  negotiation_result ping pong input_permission kick bye : MsgId
  stream_start stream_stop keyframe_request key_exchange session_key_ready : MsgId

unfoldable pub raw_id : MsgId → ℕ
raw_id client_hello = 0x0001
raw_id host_reject = 0x0002
raw_id host_approved = 0x0003
raw_id host_capabilities = 0x0004
raw_id client_capabilities = 0x0005
raw_id negotiation_result = 0x0006
raw_id ping = 0x0007
raw_id pong = 0x0008
raw_id input_permission = 0x0009
raw_id kick = 0x000A
raw_id bye = 0x000B
raw_id stream_start = 0x0010
raw_id stream_stop = 0x0011
raw_id keyframe_request = 0x0012
raw_id key_exchange = 0x0013
raw_id session_key_ready = 0x0014

-- `static_cast<Id>(raw)` for the ids that `knownId` accepts.
unfoldable pub id_of_raw : ℕ → Option MsgId
id_of_raw raw =
    if raw == 0x0001
    then some client_hello
    else if raw == 0x0002
    then some host_reject
    else if raw == 0x0003
    then some host_approved
    else if raw == 0x0004
    then some host_capabilities
    else if raw == 0x0005
    then some client_capabilities
    else if raw == 0x0006
    then some negotiation_result
    else if raw == 0x0007
    then some ping
    else if raw == 0x0008
    then some pong
    else if raw == 0x0009
    then some input_permission
    else if raw == 0x000A
    then some kick
    else if raw == 0x000B
    then some bye
    else if raw == 0x0010
    then some stream_start
    else if raw == 0x0011
    then some stream_stop
    else if raw == 0x0012
    then some keyframe_request
    else if raw == 0x0013
    then some key_exchange
    else if raw == 0x0014
    then some session_key_ready
    else none

unfoldable pub known_id : ℕ → Bool
unfolding id_of_raw
known_id raw = elim (id_of_raw raw) [ some id ↦ true | none ↦ false ]

-- The reasons of a `HostReject`.
pub data Reason : Type 0 where
  ok bad_session_code rejected_by_host protocol_error unsupported_version : Reason
  inactivity_timeout kicked server_full no_common_codec : Reason

unfoldable pub raw_reason : Reason → ℕ
raw_reason ok = 0
raw_reason bad_session_code = 1
raw_reason rejected_by_host = 2
raw_reason protocol_error = 3
raw_reason unsupported_version = 4
raw_reason inactivity_timeout = 5
raw_reason kicked = 6
raw_reason server_full = 7
raw_reason no_common_codec = 8

pub id_of_raw-raw_id : (id : MsgId) → id_of_raw (raw_id id) ≡ some id
unfolding id_of_raw raw_id
id_of_raw-raw_id client_hello = refl
id_of_raw-raw_id _ = refl

pub raw_id-id_of_raw : (raw : ℕ) (id : MsgId) → id_of_raw raw ≡ some id → raw_id id ≡ raw
unfolding id_of_raw raw_id
raw_id-id_of_raw raw client_hello h = ground arith
raw_id-id_of_raw raw _ h = ground arith
