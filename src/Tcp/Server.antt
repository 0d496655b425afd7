-- ===== src/Tcp/Server.antt =====
-- The accept loop of `TcpServer` (networking/TcpTransport.h, .cpp). A socket is the number of the
-- connection made of it.
use iran_remote_play.Prelude.{
  ℕ, zero, suc, ◌+◌, List, [], ◌∷◌, ◌++◌, Bool, true, false, if◌then◌else◌,
}

-- `accepting` counts the accepts that are outstanding, `connections` holds those given to
-- `onConnection_`.
pub record Server : Type 0 where
  pub stopped : Bool
  pub accepting : ℕ
  pub connections : List ℕ

-- A server whose acceptor is bound.
abbrev pub bound : Server
bound = record { stopped = false; accepting = 0; connections = [] }

-- How an accept ends.
pub data Accept : Type 0 where
  aborted : Accept
  fails : Accept
  accepts : ℕ → Accept

unfoldable pub accept_next : Server → Server
accept_next s = if s.stopped then s else record s { accepting = s.accepting + 1 }

unfoldable pub set_connection_handler : Server → Server
unfolding accept_next
set_connection_handler s = accept_next s

-- The handler of `async_accept` on a server that runs.
unfoldable pub accept_done : Accept → Server → Server
unfolding accept_next
accept_done aborted s = s
accept_done fails s = accept_next s
accept_done (accepts n) s = accept_next (record s { connections = s.connections ++ (n ∷ []) })

-- The accept that ends is one of those outstanding.
unfoldable pub complete_accept : ℕ → Accept → Server → Server
unfolding accept_done
complete_accept zero ec s = s
complete_accept (suc n) ec s =
    let s : Server = record s { accepting = n } in if s.stopped then s else accept_done ec s

-- `stop`; the task that it posts closes the acceptor, and the accept that is outstanding then ends as
-- aborted.
unfoldable pub stop : Server → Server
stop s = if s.stopped then s else record s { stopped = true }

pub data Event : Type 0 where
  sets_handler : Event
  completes : Accept → Event
  stops : Event

unfoldable pub step : Event → Server → Server
unfolding set_connection_handler complete_accept stop
step sets_handler s = set_connection_handler s
step (completes ec) s = complete_accept s.accepting ec s
step stops s = stop s

unfoldable pub run : List Event → Server → Server
unfolding step
run [] s = s
run (e ∷ es) s = run es (step e s)
