-- ===== src/Sender.antt =====
-- The client's side of the input (input/InputSender.h, .cpp): what the window queues, and what a round
-- of the sender's thread sends. What the reader's `poll` gives is an argument.
pub mod Settled
use iran_remote_play.Prelude.{
  ℕ, ◌+◌, ◌-◌, ◌%◌, ◌^◌, List, [], ◌∷◌, ◌++◌, map, Bool, true, false, ◌&&◌, ◌||◌, not,
  if◌then◌else◌, ltb, ◌==◌, length, is_empty, take, get_or, set, ◌≡◌, refl, ◌≤◌, arith, All, inl,
  inr, Bool-cases, length-append, sym, ap, ◌∙◌,
}
use iran_remote_play.Prelude.Bytes.{Bytes}
use iran_remote_play.Input.{
  GameControllerState, InputEvent, pack_controller_state, pack_input_event,
}

pub record InputSender : Type 0 where
  pub running : Bool
  pub has_transport : Bool
  pub event_queue : List InputEvent
  pub controller_enabled : Bool
  pub keyboard_enabled : Bool
  pub mouse_enabled : Bool
  pub packets_sent : ℕ
  pub events_queued : ℕ
  pub last_sent : List GameControllerState
  pub last_keepalive_ns : ℕ

-- `stateEqual`; the time of the state does not count.
unfoldable pub state_equal : GameControllerState → GameControllerState → Bool
state_equal a b =
    a.connected == b.connected
    && a.buttons == b.buttons
    && a.left_trigger == b.left_trigger
    && a.right_trigger == b.right_trigger
    && a.thumb_lx == b.thumb_lx
    && a.thumb_ly == b.thumb_ly
    && a.thumb_rx == b.thumb_rx
    && a.thumb_ry == b.thumb_ry

unfoldable pub is_key : InputEvent → Bool
is_key e = e.type == 1 || e.type == 2

-- `start`, where `discovers` is what the reader answers: the result, and the sender after it.
unfoldable pub start : Bool → Bool → ℕ → InputSender → Bool × InputSender
start discovers transport now s =
    let begun : InputSender = record s { running = true; has_transport = transport } in
    if s.running
    then (false, record s { running = false })
    else if discovers
    then (true, record begun { last_keepalive_ns = now })
    else (false, record begun { running = false })

unfoldable pub stop : InputSender → InputSender
stop s = if s.running then record s { running = false; has_transport = false } else s

unfoldable pub set_enabled : Bool → Bool → Bool → InputSender → InputSender
set_enabled controller keyboard mouse s = record s {
  controller_enabled = controller;
  keyboard_enabled = keyboard;
  mouse_enabled = mouse;
}

unfoldable pub queue_event : InputEvent → InputSender → InputSender
unfolding is_key
queue_event e s =
    if not s.running
    then s
    else if is_key e && not s.keyboard_enabled
    then s
    else if not (is_key e) && not s.mouse_enabled
    then s
    else record s {
      event_queue = (if ltb 256 (length s.event_queue) then [] else s.event_queue) ++ (e ∷ []);
      events_queued = (s.events_queued + 1) % 2 ^ 64;
    }

-- More than half a second since the last keepalive, on 64-bit clocks.
unfoldable pub keepalive_due : ℕ → ℕ → Bool
keepalive_due now last = ltb 500_000_000 ((now + 2 ^ 64 - last % 2 ^ 64) % 2 ^ 64)

-- The states against those sent last, slot by slot; there are four slots.
unfoldable pub send_states :
    Bool
    → List GameControllerState
    → List GameControllerState
    → List Bytes × List GameControllerState
unfolding state_equal
send_states keepalive [] last = ([], last)
send_states keepalive (st ∷ states) [] = ([], [])
send_states keepalive (st ∷ states) (l ∷ last) =
    let rest = send_states keepalive states last in
    if not (state_equal l st) || keepalive
    then (pack_controller_state st ∷ rest.0, st ∷ rest.1)
    else (rest.0, l ∷ rest.1)

unfoldable pub poll_controllers :
    ℕ → List GameControllerState → InputSender → List Bytes × InputSender
unfolding keepalive_due send_states
poll_controllers now states s =
    let due = keepalive_due now s.last_keepalive_ns in
    let sent = send_states due states s.last_sent in
    if s.controller_enabled && s.has_transport
    then (
      sent.0,
      record s {
        last_sent = sent.1;
        packets_sent = (s.packets_sent + length sent.0) % 2 ^ 64;
        last_keepalive_ns = if not (is_empty states) && due then now else s.last_keepalive_ns;
      },
    )
    else ([], s)

unfoldable pub drain : InputSender → List Bytes × InputSender
drain s =
    if s.has_transport
    then (
      map pack_input_event s.event_queue,
      record s {
        event_queue = [];
        packets_sent = (s.packets_sent + length s.event_queue) % 2 ^ 64;
      },
    )
    else ([], record s { event_queue = [] })

-- A round of `senderThread`.
unfoldable pub round : ℕ → List GameControllerState → InputSender → List Bytes × InputSender
unfolding poll_controllers drain
round now states s =
    let polled = poll_controllers now states s in
    let drained = drain polled.1 in (polled.0 ++ drained.0, drained.1)
