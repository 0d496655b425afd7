-- ===== src/Injector.antt =====
-- The host's side of the input (input/InputInjector.h, .cpp, with the pads of input/VirtualGamepad.h,
-- .cpp): what each client may do, and which keys it holds.
pub mod Clients
pub mod Allowed
pub mod Held
pub mod Released
use iran_remote_play.Prelude.{
  ℕ, zero, suc, ◌+◌, ◌-◌, ◌*◌, ◌%◌, ◌^◌, Option, none, some, List, [], ◌∷◌, ◌++◌, Bool, true, false,
  ◌&&◌, ◌||◌, not, if◌then◌else◌, ltb, leb, ◌==◌, length,
}
use iran_remote_play.Prelude.Bytes.{Bytes}
use iran_remote_play.Protocol.Messages.{InputPermission}
use iran_remote_play.Input.{GameControllerState, InputEvent, Unpacked, unpack_input}

-- An `INPUT`, by the arguments of the function that makes it; the wheel's by `mouseData`.
pub data Input : Type 0 where
  key : ℕ → Bool → Bool → Input
  mouse_move : ℕ → ℕ → Input
  mouse_button : ℕ → Bool → Input
  mouse_wheel : ℕ → Input

-- A call of SendInput, or of ViGEm with the state of a player's pad.
pub data Effect : Type 0 where
  sends : Input → Effect
  updates_pad : ℕ → GameControllerState → Effect

-- Whether the calls of Windows and of ViGEm succeed.
pub record Windows : Type 0 where
  pub send_input : Input → Bool
  pub target_add : ℕ → Bool
  pub target_update : ℕ → GameControllerState → Bool

pub record PerClient : Type 0 where
  pub player_index : ℕ
  pub controller : Bool
  pub keyboard : Bool
  pub mouse : Bool
  pub vibration : Bool
  pub keys_down : ℕ → Bool
  pub mouse_buttons : ℕ → Bool

-- `VirtualGamepad`: whether its client is connected, and the players that have a pad.
pub record VirtualGamepad : Type 0 where
  pub available : Bool
  pub pads : List ℕ

pub record Injector : Type 0 where
  pub pads : VirtualGamepad
  pub clients : List PerClient
  pub injected_events : ℕ
  pub rejected_events : ℕ

unfoldable pub has_player : ℕ → List ℕ → Bool
has_player p [] = false
has_player p (q ∷ qs) = q == p || has_player p qs

unfoldable pub erase_player : ℕ → List ℕ → List ℕ
erase_player p [] = []
erase_player p (q ∷ qs) = let rest = erase_player p qs in if q == p then qs else q ∷ rest

unfoldable pub add_player : Windows → ℕ → VirtualGamepad → VirtualGamepad
unfolding has_player
add_player w p v =
    if not v.available
    then v
    else if has_player p v.pads
    then v
    else if leb 4 (length v.pads)
    then v
    else if w.target_add p
    then record v { pads = v.pads ++ (p ∷ []) }
    else v

unfoldable pub remove_player : ℕ → VirtualGamepad → VirtualGamepad
unfolding erase_player
remove_player p v = record v { pads = erase_player p v.pads }

-- `VirtualGamepad::update`.
unfoldable pub update_pad : Windows → ℕ → GameControllerState → VirtualGamepad → Bool
unfolding has_player
update_pad w p g v =
    if not (has_player p v.pads) || not v.available then false else w.target_update p g

abbrev pub new_client : ℕ → PerClient
new_client p = record {
  player_index = p;
  controller = true;
  keyboard = false;
  mouse = false;
  vibration = true;
  keys_down = λ vk. false;
  mouse_buttons = λ b. false;
}

-- `ensureClient`: the client it returns a reference to, and the clients after it.
unfoldable pub client_of : ℕ → List PerClient → PerClient
client_of p [] = new_client p
client_of p (c ∷ cs) = let rest = client_of p cs in if c.player_index == p then c else rest

unfoldable pub ensure_client : ℕ → List PerClient → List PerClient
ensure_client p [] = new_client p ∷ []
ensure_client p (c ∷ cs) =
    let rest = ensure_client p cs in if c.player_index == p then c ∷ cs else c ∷ rest

-- The clients after a change through the reference that `ensureClient` returns.
unfoldable pub with_ref : ℕ → (PerClient → PerClient) → List PerClient → List PerClient
with_ref p f [] = f (new_client p) ∷ []
with_ref p f (c ∷ cs) =
    let rest = with_ref p f cs in if c.player_index == p then f c ∷ cs else c ∷ rest

-- `held[at] = down`.
unfoldable pub assign : ℕ → Bool → (ℕ → Bool) → ℕ → Bool
assign at down held i = if i == at then down else held i

-- What an operation returns, the injector after it, and the calls it makes.
pub record Applied : Type 0 where
  pub ok : Bool
  pub after : Injector
  pub effects : List Effect

unfoldable pub reject : Injector → Applied
reject s = record {
  ok = false;
  after = record s { rejected_events = (s.rejected_events + 1) % 2 ^ 64 };
  effects = [];
}

-- The counters after a call that was made with result `b`.
unfoldable pub counted : Bool → List Effect → Injector → Applied
counted b es s = record {
  ok = b;
  after =
      if b
      then record s { injected_events = (s.injected_events + 1) % 2 ^ 64 }
      else record s { rejected_events = (s.rejected_events + 1) % 2 ^ 64 };
  effects = es;
}

unfoldable pub apply_controller : Windows → ℕ → GameControllerState → Injector → Applied
unfolding reject counted update_pad
apply_controller w p g s =
    if not (g.version == 1)
    then reject s
    else if g.connected == 0
    then record { ok = true; after = s; effects = [] }
    else counted (update_pad w p g s.pads)
        (if has_player p s.pads.pads && s.pads.available then updates_pad p g ∷ [] else []) s

-- `static_cast<DWORD>(delta) * WHEEL_DELTA`, of a signed 16-bit word.
unfoldable pub wheel_data : ℕ → ℕ
wheel_data d = (if ltb d (2 ^ 15) then d else d + 2 ^ 32 - 2 ^ 16) * 120 % 2 ^ 32

unfoldable pub send : Windows → Input → Injector → Applied
unfolding counted
send w i s = counted (w.send_input i) (sends i ∷ []) s

-- `c.keysDown[e.code] = down` and `c.mouseButtons[e.code] = down`.
unfoldable pub press : InputEvent → PerClient → PerClient
unfolding assign
press e c = record c { keys_down = assign e.code (e.type == 1) c.keys_down }

unfoldable pub press_button : InputEvent → PerClient → PerClient
unfolding assign
press_button e c = record c { mouse_buttons = assign e.code (e.type == 4) c.mouse_buttons }

unfoldable pub apply_key : Windows → ℕ → InputEvent → Injector → Applied
unfolding reject send with_ref press
apply_key w p e s =
    if e.code == 0 || leb 256 e.code
    then reject s
    else send w (key e.code (e.type == 1) (e.flags % 2 == 1))
        (record s { clients = with_ref p (press e) s.clients })

unfoldable pub apply_button : Windows → ℕ → InputEvent → Injector → Applied
unfolding reject send with_ref press_button
apply_button w p e s =
    if leb 5 e.code
    then reject s
    else send w (mouse_button e.code (e.type == 4))
        (record s { clients = with_ref p (press_button e) s.clients })

-- The client is there already when this is called.
unfoldable pub apply_event : Windows → ℕ → InputEvent → Injector → Applied
unfolding reject send apply_key apply_button wheel_data
apply_event w p e s =
    if e.type == 1 || e.type == 2
    then apply_key w p e s
    else if e.type == 3
    then send w (mouse_move e.x e.y) s
    else if e.type == 4 || e.type == 5
    then apply_button w p e s
    else if e.type == 6
    then send w (mouse_wheel (wheel_data e.delta)) s
    else reject s

unfoldable pub permitted : Windows → ℕ → PerClient → Unpacked → Injector → Applied
unfolding reject apply_controller apply_event
permitted w p c (Unpacked.controller g) s =
    if not c.controller then reject s else apply_controller w p g s
permitted w p c (Unpacked.event e) s =
    let keyboard_event : Bool = e.type == 1 || e.type == 2 in
    if keyboard_event && not c.keyboard
    then reject s
    else if not keyboard_event && not c.mouse
    then reject s
    else apply_event w p e s

unfoldable pub apply_unpacked : Windows → ℕ → Option Unpacked → Injector → Applied
unfolding reject permitted client_of ensure_client
apply_unpacked w p none s = reject s
apply_unpacked w p (some u) s =
    permitted w p (client_of p s.clients) u (record s { clients = ensure_client p s.clients })

unfoldable pub apply_input : Windows → ℕ → Bytes → Injector → Applied
unfolding apply_unpacked unpack_input
apply_input w p bs s = apply_unpacked w p (unpack_input bs) s

-- `releaseAllKeys`; the keys that a count bounds, least first.
unfoldable pub released : (ℕ → Input) → (ℕ → Bool) → List ℕ → List Effect
released up held [] = []
released up held (i ∷ is) =
    let rest = released up held is in if held i then sends (up i) ∷ rest else rest

-- The numbers from `i`, `n` of them.
unfoldable pub from : ℕ → ℕ → List ℕ
from i zero = []
from i (suc n) = i ∷ from (suc i) n

unfoldable pub key_up : ℕ → Input
key_up vk = key vk false false

unfoldable pub button_up : ℕ → Input
button_up b = mouse_button b false

unfoldable pub let_go : PerClient → PerClient
let_go c = record c {
  keys_down = λ vk. if leb 1 vk && ltb vk 256 then false else c.keys_down vk;
  mouse_buttons = λ b. if ltb b 5 then false else c.mouse_buttons b;
}

unfoldable pub release_all_keys : ℕ → Injector → Injector × List Effect
unfolding with_ref let_go released client_of from key_up button_up
release_all_keys p s =
    let c : PerClient = client_of p s.clients in
    (
      record s { clients = with_ref p let_go s.clients },
      released key_up c.keys_down (from 1 255) ++ released button_up c.mouse_buttons (from 0 5),
    )

-- The pads after the controller was allowed or forbidden; `was` is what it was before.
unfoldable pub switch_pad : Windows → ℕ → Bool → Bool → VirtualGamepad → VirtualGamepad
unfolding add_player remove_player
switch_pad w p was now v =
    if now && not was then add_player w p v else if not now && was then remove_player p v else v

unfoldable pub permit : InputPermission → PerClient → PerClient
permit perms c = record c {
  controller = perms.controller;
  keyboard = perms.keyboard;
  mouse = perms.mouse;
  vibration = perms.vibration;
}

unfoldable pub set_permissions : Windows → ℕ → InputPermission → Injector → Injector × List Effect
unfolding with_ref permit client_of switch_pad release_all_keys
set_permissions w p perms s =
    let s : Injector = record s {
      pads = switch_pad w p (client_of p s.clients).controller perms.controller s.pads;
      clients = with_ref p (permit perms) s.clients;
    } in
    if perms.keyboard then (s, []) else release_all_keys p s

unfoldable pub erase_client : ℕ → List PerClient → List PerClient
erase_client p [] = []
erase_client p (c ∷ cs) =
    let rest = erase_client p cs in if c.player_index == p then cs else c ∷ rest

unfoldable pub client_disconnected : ℕ → Injector → Injector × List Effect
unfolding release_all_keys remove_player erase_client
client_disconnected p s =
    let (s, ups) = release_all_keys p s in
    (record s { pads = remove_player p s.pads; clients = erase_client p s.clients }, ups)

unfoldable pub release_each : List PerClient → Injector → Injector × List Effect
unfolding release_all_keys remove_player
release_each [] s = (s, [])
release_each (c ∷ cs) s =
    let (s, ups) = release_all_keys c.player_index s in
    let (t, rest) = release_each cs (record s { pads = remove_player c.player_index s.pads }) in
    (t, ups ++ rest)

-- `shutdown`; ViGEm is let go of.
unfoldable pub shutdown : Injector → Injector × List Effect
unfolding release_each
shutdown s =
    let (s, ups) = release_each s.clients s in
    (record s { clients = []; pads = record { available = false; pads = [] } }, ups)

-- Whether a vibration of a player's pad is sent to the client, when there is a sender.
unfoldable pub rumbles : ℕ → List PerClient → Bool
rumbles p [] = false
rumbles p (c ∷ cs) = (c.player_index == p && c.vibration) || rumbles p cs

-- What reaches the injector for one player, and an order of such calls.
pub data Call : Type 0 where
  input : Bytes → Call
  permits : InputPermission → Call

unfoldable pub run_call : Windows → ℕ → Call → Injector → Injector × List Effect
unfolding apply_input set_permissions
run_call w p (input bs) s = let r : Applied = apply_input w p bs s in (r.after, r.effects)
run_call w p (permits perms) s = set_permissions w p perms s

unfoldable pub run : Windows → ℕ → List Call → Injector → Injector × List Effect
unfolding run_call
run w p [] s = (s, [])
run w p (c ∷ cs) s = let (s, es) = run_call w p c s in let (t, fs) = run w p cs s in (t, es ++ fs)
