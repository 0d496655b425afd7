-- ===== src/Examples/Sender.antt =====
-- A pad whose button is pressed, with one key in the queue.
use iran_remote_play.Prelude.{◌≡◌, refl, List, [], ◌∷◌, true, arith, replicate, map, ◌<◌, ◌+◌}
use iran_remote_play.Input.{GameControllerState, InputEvent, pack_input_event}
use iran_remote_play.Sender.{InputSender, round}
use iran_remote_play.Sender.Settled.{AreShown, Sends, round-AreShown}

abbrev pad : GameControllerState
pad = record {
  version = 1;
  connected = 1;
  buttons = 0;
  left_trigger = 0;
  right_trigger = 0;
  thumb_lx = 0;
  thumb_ly = 0;
  thumb_rx = 0;
  thumb_ry = 0;
  timestamp_ns = 9;
}

abbrev states : List GameControllerState
states = record pad { buttons = 3 } ∷ pad ∷ []

abbrev key_up : InputEvent
key_up = record {
  type = 2;
  code = 65;
  x = 0;
  y = 0;
  delta = 0;
  pad0 = 0;
  flags = 0;
  timestamp_ns = 12;
}

abbrev sender : InputSender
sender = record {
  running = true;
  has_transport = true;
  event_queue = key_up ∷ [];
  controller_enabled = true;
  keyboard_enabled = true;
  mouse_enabled = true;
  packets_sent = 0;
  events_queued = 1;
  last_sent = replicate 4 pad;
  last_keepalive_ns = 100;
}

round-AreShown_example :
    let (sent, t) = round 700 states sender in
    Sends
      (100 + 500_000_000 < 700)
      (map pack_input_event (key_up ∷ []))
      states
      (replicate 4 pad)
      sent
    × AreShown states t.last_sent
    × (t.event_queue ≡ [])
    × ((round 700 states t).0 ≡ [])
round-AreShown_example = round-AreShown 700 states sender (omega arith) (omega arith) refl refl refl
