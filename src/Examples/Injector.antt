-- ===== src/Examples/Injector.antt =====
-- A player whose host allows the keyboard and the controller.
use iran_remote_play.Prelude.{List, ◌==◌, inr, refl, ◌≡◌, ◌++◌, [], ◌∷◌, true, false}
use iran_remote_play.Prelude.Bytes.{Bytes, le_bytes, from_le}
use iran_remote_play.Protocol.Messages.{InputPermission}
use iran_remote_play.Input.{
  pack_input_event, unpack_input, packed, event_fields, event_of, unpacked,
}
use iran_remote_play.Injector
use iran_remote_play.Injector.Allowed.{IsFine, permissions, apply_input-IsFine}
use iran_remote_play.Injector.Held.{pressed}
use iran_remote_play.Injector.Released.{fresh, no_keys, HasFlag, HasFlags, run-releases}

abbrev works : Injector.Windows
works = record { send_input = λ i. true; target_add = λ p. true; target_update = λ p g. true }

abbrev pads : Injector.VirtualGamepad
pads = record { available = true; pads = [] }

abbrev allowed : InputPermission
allowed = record { controller = true; keyboard = true; mouse = false; vibration = true }

abbrev w_down : Bytes
w_down =
    pack_input_event (record {
      type = 1;
      code = 87;
      x = 0;
      y = 0;
      delta = 0;
      pad0 = 0;
      flags = 0;
      timestamp_ns = 5;
    })

abbrev ready : Injector.Injector
ready = (Injector.set_permissions works 2 allowed (fresh pads)).0

apply_input-IsFine_example :
    IsFine 2
      (permissions (Injector.client_of 2 ready.clients))
      (Injector.apply_input works 2 w_down ready)
apply_input-IsFine_example = apply_input-IsFine works 2 w_down ready

-- Alt, whose events have the extended flag.
abbrev alt_down : Bytes
alt_down =
    pack_input_event (record {
      type = 1;
      code = 18;
      x = 0;
      y = 0;
      delta = 0;
      pad0 = 0;
      flags = 1;
      timestamp_ns = 6;
    })

abbrev both_down : List Injector.Call
both_down = Injector.permits allowed ∷ Injector.input w_down ∷ Injector.input alt_down ∷ []

run-releases_example :
    let (s, es) = Injector.run works 2 both_down (fresh pads) in
    let after = pressed (es ++ (Injector.client_disconnected 2 s).1) no_keys in
    (after 18 false ≡ false) × (after 18 true ≡ pressed es no_keys 18 true)
unfolding HasFlags HasFlag unpack_input pack_input_event packed event_fields le_bytes event_of
    unpacked from_le
run-releases_example =
    run-releases works 2 (λ code. code == 18) pads both_down 18 (tt, (inr refl, (inr refl, tt)))
