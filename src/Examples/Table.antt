-- ===== src/Examples/Table.antt =====
-- The host's table over a few calls.
use iran_remote_play.Prelude.{◌≡◌, refl, [], ◌∷◌, List, true, some}
use iran_remote_play.Udp.FrameMap.{find}
use iran_remote_play.Clients.{ConnectionState, HostSession, row_of}
use iran_remote_play.Host.Housekeeping.{housekeeping}
use iran_remote_play.Host.Housekeeping.Dropped.{kept, housekeeping-find}
use iran_remote_play.Host.Table.{IsCoherent}
use iran_remote_play.Host.Table.Calls
use iran_remote_play.Host.Table.Calls.{Call, run_calls, shows, run_calls-IsCoherent}
use iran_remote_play.Examples.Host.{no_text, waiting, session_with}

-- Twenty seconds later, the connected client of the table is late.
housekeeping-find_example :
    find 1 (housekeeping no_text 20_000_000_000 (session_with ConnectionState.connected)).1.clients
    ≡ kept 20_000_000_000 (some (waiting ConnectionState.connected))
unfolding find
housekeeping-find_example =
    housekeeping-find no_text 20_000_000_000 1 (session_with ConnectionState.connected) (tt, tt)

abbrev shown : HostSession
shown =
    let s = session_with ConnectionState.authenticating in
    record s { snapshot = row_of (1, waiting ConnectionState.authenticating) ∷ [] }

abbrev day : List Call
day =
    Calls.connects [] 6
    ∷ Calls.approves 1 true 7
    ∷ Calls.frame 1 0x0005 (1 ∷ 0 ∷ []) 8
    ∷ Calls.tick 20_000_000_000
    ∷ Calls.kicks 2 []
    ∷ Calls.closed 2
    ∷ []

run_calls-IsCoherent_example : IsCoherent (run_calls no_text day shown)
unfolding shows
run_calls-IsCoherent_example =
    run_calls-IsCoherent no_text day shown (refl, (refl, (refl, (refl, (refl, (refl, tt))))))
      ((tt, tt), refl)
