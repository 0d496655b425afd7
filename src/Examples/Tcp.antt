-- ===== src/Examples/Tcp.antt =====
-- A short exchange over TCP, and attempts to connect.
use iran_remote_play.Prelude.{
  ◌≡◌, refl, ◌≤◌, ◌⊎◌, List, [], ◌∷◌, ◌++◌, true, false, not, length, is_empty, IsPrefix, All,
  arith, take, drop,
}
use iran_remote_play.Prelude.Bytes.{Bytes, le_bytes, from_le}
use iran_remote_play.Packet.Frame.{parse_frame_header}
use iran_remote_play.Tcp.{
  Frame, Event, send, send_and_close, arrive, read_complete, write_complete, adopted, start, run,
  success,
}
use iran_remote_play.Tcp.Stream.{frames}
use iran_remote_play.Tcp.View.{accepted}
use iran_remote_play.Tcp.Settled.{reads, reads-frames}
use iran_remote_play.Tcp.Sound.{requested, joined}
use iran_remote_play.Tcp.Writer.{run-written}
use iran_remote_play.Tcp.Transfer.{IsSendable, messages, run-delivers}
use iran_remote_play.Tcp.Attempt
use iran_remote_play.Tcp.Server
use iran_remote_play.Tcp.Served.{served, IsQuiet, run-serves}
use iran_remote_play.Tcp.Attempt.Results.{IsFair, some_times_out, some_cancels, run-results}

-- Two messages, the second one the last.
abbrev sender : List Event
sender =
    send 7 (1 ∷ 2 ∷ 3 ∷ [])
    ∷ send_and_close 8 []
    ∷ write_complete success
    ∷ write_complete success
    ∷ []

abbrev wire : Bytes
wire =
    0x50 ∷ 0x52 ∷ 1 ∷ 7 ∷ 0 ∷ 0 ∷ 3 ∷ 0 ∷ 0 ∷ 0 ∷ 1 ∷ 2 ∷ 3 ∷ 0x50 ∷ 0x52 ∷ 1 ∷ 8 ∷ 0 ∷ 0 ∷ 0 ∷ 0
    ∷ 0 ∷ 0 ∷ []

-- The bytes come in two pieces, cut inside the first header.
abbrev receiver : List Event
receiver =
    arrive (take 4 wire)
    ∷ read_complete
    ∷ arrive (drop 4 wire)
    ∷ read_complete
    ∷ read_complete
    ∷ read_complete
    ∷ []

abbrev heard : List Frame
heard =
    record { type = 7; flags = 0; payload = 1 ∷ 2 ∷ 3 ∷ [] }
    ∷ record { type = 8; flags = 0; payload = [] }
    ∷ []

receiver_hears : (run receiver (start adopted)).delivered ≡ heard
unfolding run start parse_frame_header from_le
receiver_hears = refl

reads-frames_example :
    let c = run receiver (start adopted) in
    let all = frames (accepted receiver (start adopted)) in
    let d = run (reads (length c.incoming)) c in
    IsPrefix c.delivered all × ((d.closed ≡ true) ⊎ (d.delivered ≡ all))
reads-frames_example = reads-frames receiver

run-written_example :
    let c = run sender (start adopted) in
    ((c.closed ≡ true) × IsPrefix c.written (requested sender) × (length c.closes ≡ 1))
    ⊎ ((c.closed ≡ false)
        × (c.written ++ joined c.outbox ≡ requested sender)
        × (c.writing ≡ not (is_empty c.outbox))
        × (c.closes ≡ []))
run-written_example = run-written sender

run-delivers_example : IsPrefix (run receiver (start adopted)).delivered (messages sender)
unfolding run accepted IsSendable start le_bytes
run-delivers_example =
    run-delivers sender receiver
      ((omega arith, omega arith), ((omega arith, omega arith), (tt, (tt, tt)))) ([], refl)

-- An attempt over the relay whose pairing comes after the timer.
abbrev late : List Attempt.Event
late =
    Attempt.resolved success
    ∷ Attempt.connected success
    ∷ Attempt.sent success
    ∷ Attempt.timer
    ∷ Attempt.reply success (b'r' ∷ 10 ∷ [])
    ∷ []

run-results_example :
    let a = Attempt.run late (Attempt.started true) in
    (length a.results ≤ 1)
    × All IsFair a.results
    × ((some_times_out late ≡ false) ⊎ (some_cancels late ≡ true) ⊎ (length a.results ≡ 1))
    × ((Attempt.run [] (Attempt.step Attempt.cancelled a)).results ≡ a.results)
run-results_example = run-results true late []

-- An accept fails between two sockets, and one more completes after the stop.
abbrev busy : List Server.Event
busy =
    Server.completes (Server.accepts 4)
    ∷ Server.completes Server.fails
    ∷ Server.completes (Server.accepts 5)
    ∷ Server.stops
    ∷ Server.completes (Server.accepts 6)
    ∷ []

run-serves_example :
    (Server.run busy (Server.set_connection_handler Server.bound)).connections ≡ 4 ∷ 5 ∷ []
unfolding served IsQuiet
run-serves_example = run-serves busy (tt, (tt, (tt, (tt, (tt, tt)))))
