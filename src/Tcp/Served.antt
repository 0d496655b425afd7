-- ===== src/Tcp/Served.antt =====
-- What the accept loop of `TcpServer` hands over.
use iran_remote_play.Prelude.{
  ℕ, zero, suc, List, [], ◌∷◌, ◌++◌, append-nil, append_assoc, true, false, Bool, ◌≡◌, refl, ◌∙◌,
  sym, All,
}
use iran_remote_play.Tcp.Server.{
  Server, bound, aborted, fails, accepts, Event, sets_handler, completes, stops, accept_next,
  set_connection_handler, accept_done, complete_accept, stop, step, run,
}

-- The sockets a server is to hand over: those accepted before the first stop or aborted accept.
unfoldable pub served : List Event → List ℕ
served [] = []
served (sets_handler ∷ es) = served es
served (completes aborted ∷ es) = []
served (completes fails ∷ es) = served es
served (completes (accepts n) ∷ es) = n ∷ served es
served (stops ∷ es) = []

-- The handler is not set again.
unfoldable pub IsQuiet : Event → Type 0
IsQuiet sets_handler = ⊥
IsQuiet (completes ec) = Unit
IsQuiet stops = Unit

abbrev serving : List ℕ → Server
serving ns = record { stopped = false; accepting = 1; connections = ns }

-- A server whose loop is over hands nothing over.
idle-run :
    (es : List Event) (ns : List ℕ)
    → All IsQuiet es
    → (b : Bool)
    → (run es (record { stopped = b; accepting = 0; connections = ns })).connections ≡ ns
unfolding run step complete_accept stop IsQuiet
idle-run [] ns q b = refl
idle-run (sets_handler ∷ es) ns q b = absurd q.0
idle-run (completes ec ∷ es) ns q b = idle-run es ns q.1 b
idle-run (stops ∷ es) ns q true = idle-run es ns q.1 true
idle-run (stops ∷ es) ns q false = idle-run es ns q.1 true

stopped-run :
    (es : List Event) (n : ℕ) (ns : List ℕ)
    → All IsQuiet es
    → (run es (record { stopped = true; accepting = n; connections = ns })).connections ≡ ns
unfolding run step complete_accept stop IsQuiet
stopped-run [] n ns q = refl
stopped-run (sets_handler ∷ es) n ns q = absurd q.0
stopped-run (completes ec ∷ es) zero ns q = stopped-run es 0 ns q.1
stopped-run (completes ec ∷ es) (suc n) ns q = stopped-run es n ns q.1
stopped-run (stops ∷ es) n ns q = stopped-run es n ns q.1

serving-run :
    (es : List Event) (ns : List ℕ)
    → All IsQuiet es
    → (run es (serving ns)).connections ≡ ns ++ served es
unfolding run step complete_accept accept_done accept_next stop IsQuiet served
serving-run [] ns q = sym (append-nil ns)
serving-run (sets_handler ∷ es) ns q = absurd q.0
serving-run (completes aborted ∷ es) ns q = idle-run es ns q.1 false ∙ sym (append-nil ns)
serving-run (completes fails ∷ es) ns q = serving-run es ns q.1
serving-run (completes (accepts n) ∷ es) ns q =
    serving-run es (ns ++ (n ∷ [])) q.1 ∙ append_assoc ns (n ∷ []) (served es)
serving-run (stops ∷ es) ns q = stopped-run es 1 ns q.1 ∙ sym (append-nil ns)

-- Once its handler is set, a server hands over every socket that it accepts, each once and in order,
-- whatever accepts fail in between, until it is stopped or an accept is aborted; from then on it
-- hands over none, also when an accept completes after the stop.
pub run-serves :
    (es : List Event)
    → All IsQuiet es
    → (run es (set_connection_handler bound)).connections ≡ served es
unfolding set_connection_handler accept_next
run-serves es q = serving-run es [] q
