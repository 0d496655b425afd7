-- ===== src/Tcp/Attempt.antt =====
-- Connecting (networking/TcpTransport.cpp: `ConnectAttempt`, `RelayConnectAttempt`, `TcpClient`): the
-- callback of an attempt.
pub mod Results
use iran_remote_play.Prelude.{
  ℕ, Option, none, some, List, [], ◌∷◌, ◌++◌, Bool, true, false, ◌&&◌, ◌||◌, if◌then◌else◌, ◌==◌,
}
use mathlib.Core.Option
use iran_remote_play.Prelude.Bytes.{Bytes}
use iran_remote_play.Tcp.{Code, success, timed_out, connection_refused, failed}

-- The operation that an attempt waits for, besides its timer.
pub data Stage : Type 0 where
  resolving : Stage
  connecting : Stage
  sending : Stage
  replying : Stage
  over : Stage

-- `results` are the calls of the callback: the code, and whether a connection comes with it.
pub record Attempt : Type 0 where
  pub relay : Bool
  pub stage : Stage
  pub finished : Bool
  pub reply_buf : Bytes
  pub results : List (Code × Bool)

unfoldable pub started : Bool → Attempt
started relay = record {
  relay = relay;
  stage = resolving;
  finished = false;
  reply_buf = [];
  results = [];
}

unfoldable pub finish : Code → Bool → Attempt → Attempt
finish ec conn a =
    if a.finished then a else record a { finished = true; results = a.results ++ ((ec, conn) ∷ []) }

-- The attempt's own `cancel`. `TcpClient::cancel` calls it as that of a direct attempt, whatever the
-- attempt is, which is defined for a direct one only.
unfoldable pub cancel : Attempt → Attempt
cancel a = if a.finished then a else record a { finished = true }

-- `std::string::find`, as a test.
starts_with : Bytes → Bytes → Bool
starts_with [] text = true
starts_with (x ∷ xs) [] = false
starts_with (x ∷ xs) (y ∷ text) = x == y && starts_with xs text

unfoldable pub contains : Bytes → Bytes → Bool
unfolding starts_with
contains needle [] = starts_with needle []
contains needle (x ∷ text) = starts_with needle (x ∷ text) || contains needle text

abbrev newline : ℕ
newline = 10

-- `std::getline`: the line, and what is left in the buffer; `none` when the delimiter is not there.
unfoldable pub getline : Bytes → Option (Bytes × Bytes)
getline [] = none
getline (x ∷ text) =
    let rest = getline text in
    if x == newline then some ([], text) else Option.map (λ p. (x ∷ p.0, p.1)) rest

-- The text `relay_rejected`.
abbrev relay_rejected : Bytes
relay_rejected = 114 ∷ 101 ∷ 108 ∷ 97 ∷ 121 ∷ 95 ∷ 114 ∷ 101 ∷ 106 ∷ 101 ∷ 99 ∷ 116 ∷ 101 ∷ 100 ∷ []

-- The text `relay_paired`.
abbrev relay_paired : Bytes
relay_paired = 114 ∷ 101 ∷ 108 ∷ 97 ∷ 121 ∷ 95 ∷ 112 ∷ 97 ∷ 105 ∷ 114 ∷ 101 ∷ 100 ∷ []

unfoldable pub on_line : Bytes → Attempt → Attempt
unfolding finish contains
on_line line a =
    if contains relay_rejected line
    then finish connection_refused false a
    else if contains relay_paired line
    then finish success true a
    else record a { stage = replying }

-- The next operation is started, or the attempt ends with the error.
unfoldable pub proceed : Code → (Attempt → Attempt) → Attempt → Attempt
unfolding finish
proceed ec next a = if a.finished then a else if failed ec then finish ec false a else next a

-- `async_read_until` goes on while the delimiter is missing.
unfoldable pub on_reply : Option (Bytes × Bytes) → Attempt → Attempt
unfolding on_line
on_reply none a = record a { stage = replying }
on_reply (some (line, rest)) a = on_line line (record a { reply_buf = rest })

unfoldable pub on_connected : Attempt → Attempt
unfolding finish
on_connected a = if a.relay then record a { stage = sending } else finish success true a

-- The ends of the operations, the bytes that a read of the reply got, and `cancel`.
pub data Event : Type 0 where
  timer : Event
  resolved : Code → Event
  connected : Code → Event
  sent : Code → Event
  reply : Code → Bytes → Event
  cancelled : Event

rank : Stage → ℕ
rank resolving = 0
rank connecting = 1
rank sending = 2
rank replying = 3
rank over = 4

-- The handler of an operation runs when the operation is outstanding; then none is.
unfoldable pub ended : Stage → (Attempt → Attempt) → Attempt → Attempt
unfolding rank
ended stage handler a =
    if rank a.stage == rank stage then handler (record a { stage = over }) else a

unfoldable pub go_to : Stage → Attempt → Attempt
go_to stage a = record a { stage = stage }

-- `readReply`'s handler, with what is in `replyBuf`.
unfoldable pub read_reply : Bytes → Attempt → Attempt
unfolding on_reply getline
read_reply buf a = on_reply (getline buf) (record a { reply_buf = buf })

unfoldable pub step : Event → Attempt → Attempt
unfolding finish cancel ended proceed on_connected read_reply go_to
step timer a = finish timed_out false a
step cancelled a = cancel a
step (resolved ec) a = ended resolving (proceed ec (go_to connecting)) a
step (connected ec) a = ended connecting (proceed ec on_connected) a
step (sent ec) a = ended sending (proceed ec (go_to replying)) a
step (reply ec bytes) a = ended replying (proceed ec (read_reply (a.reply_buf ++ bytes))) a

unfoldable pub run : List Event → Attempt → Attempt
unfolding step
run [] a = a
run (e ∷ es) a = run es (step e a)
