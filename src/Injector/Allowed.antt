-- ===== src/Injector/Allowed.antt =====
-- What a datagram can make the host do.
use iran_remote_play.Prelude.{
  ℕ, ◌≡◌, refl, sym, ap, ◌∙◌, Option, none, some, List, [], ◌∷◌, Bool, true, false, ◌==◌, ◌&&◌,
  ◌||◌, not, leb, if◌then◌else◌, All, arith,
}
use iran_remote_play.Prelude.Bytes.{Bytes}
use iran_remote_play.Protocol.Messages.{InputPermission}
use iran_remote_play.Input.{GameControllerState, InputEvent, Unpacked, unpack_input}
use iran_remote_play.Injector.{
  key, mouse_move, mouse_button, mouse_wheel, Input, Effect, sends, updates_pad, Windows, PerClient,
  Injector, Applied, client_of, with_ref, press, press_button, reject, counted, apply_controller,
  send, apply_key, apply_button, apply_event, permitted, apply_unpacked, apply_input,
}
use iran_remote_play.Injector.Clients.{client_of-ensure_client, client_of-with_ref}

unfoldable pub permissions : PerClient → InputPermission
permissions c = record {
  controller = c.controller;
  keyboard = c.keyboard;
  mouse = c.mouse;
  vibration = c.vibration;
}

-- The effects that a permission covers, for the player it is of.
unfoldable pub IsAllowed : ℕ → InputPermission → Effect → Type 0
IsAllowed p perms (sends (key vk down extended)) = perms.keyboard ≡ true
IsAllowed p perms (sends (mouse_move x y)) = perms.mouse ≡ true
IsAllowed p perms (sends (mouse_button b down)) = perms.mouse ≡ true
IsAllowed p perms (sends (mouse_wheel d)) = perms.mouse ≡ true
IsAllowed p perms (updates_pad q g) = (perms.controller ≡ true) × (q ≡ p)

-- A result whose effects are covered, and that changes no permission of the player.
unfoldable pub IsFine : ℕ → InputPermission → Applied → Type 0
unfolding IsAllowed permissions
IsFine p perms r =
    All (IsAllowed p perms) r.effects × (permissions (client_of p r.after.clients) ≡ perms)

if-IsFine :
    (p : ℕ) (perms : InputPermission) (b : Bool) (x y : Applied)
    → (b ≡ true → IsFine p perms x)
    → (b ≡ false → IsFine p perms y)
    → IsFine p perms (if b then x else y)
if-IsFine p perms true x y h k = h refl
if-IsFine p perms false x y h k = k refl

module _ (w : Windows) (p : ℕ) (perms : InputPermission) where
  -- An injector in which the player has these permissions.
  Has : Injector → Type 0
  Has s = permissions (client_of p s.clients) ≡ perms

  reject-IsFine : (s : Injector) → Has s → IsFine p perms (reject s)
  unfolding reject IsFine Has
  reject-IsFine s h = (tt, h)

  counted-IsFine :
      (b : Bool) (es : List Effect) (s : Injector)
      → All (IsAllowed p perms) es
      → Has s
      → IsFine p perms (counted b es s)
  unfolding counted IsFine Has
  counted-IsFine true es s a h = (a, h)
  counted-IsFine false es s a h = (a, h)

  send-IsFine :
      (i : Input) (s : Injector) → IsAllowed p perms (sends i) → Has s → IsFine p perms (send w i s)
  unfolding send
  send-IsFine i s a h = counted-IsFine (w.send_input i) _ s (a, tt) h

  ref-Has :
      (f : PerClient → PerClient) (s : Injector)
      → ((c : PerClient) → (f c).player_index ≡ c.player_index)
      → ((c : PerClient) → permissions (f c) ≡ permissions c)
      → Has s
      → Has (record s { clients = with_ref p f s.clients })
  unfolding Has
  ref-Has f s same kept h =
      ap permissions (client_of-with_ref p f s.clients same) ∙ kept (client_of p s.clients) ∙ h

  apply_key-IsFine :
      (e : InputEvent) (s : Injector)
      → perms.keyboard ≡ true
      → Has s
      → IsFine p perms (apply_key w p e s)
  unfolding apply_key press permissions IsAllowed
  apply_key-IsFine e s a h =
      if-IsFine p perms (e.code == 0 || leb 256 e.code) _ _ (λ b. reject-IsFine s h)
        (λ b. send-IsFine _ _ a (ref-Has (press e) s (λ c. refl) (λ c. refl) h))

  apply_button-IsFine :
      (e : InputEvent) (s : Injector)
      → perms.mouse ≡ true
      → Has s
      → IsFine p perms (apply_button w p e s)
  unfolding apply_button press_button permissions IsAllowed
  apply_button-IsFine e s a h =
      if-IsFine p perms (leb 5 e.code) _ _ (λ b. reject-IsFine s h)
        (λ b. send-IsFine _ _ a (ref-Has (press_button e) s (λ c. refl) (λ c. refl) h))

  apply_event-IsFine :
      (e : InputEvent) (s : Injector)
      → ((e.type == 1 || e.type == 2) ≡ true → perms.keyboard ≡ true)
      → ((e.type == 1 || e.type == 2) ≡ false → perms.mouse ≡ true)
      → Has s
      → IsFine p perms (apply_event w p e s)
  unfolding apply_event IsAllowed
  apply_event-IsFine e s keys mouse h =
      if-IsFine p perms (e.type == 1 || e.type == 2) _ _ (λ b. apply_key-IsFine e s (keys b) h)
        (λ n.
          if-IsFine p perms (e.type == 3) _ _ (λ b. send-IsFine _ s (mouse n) h)
            (λ a.
              if-IsFine p perms (e.type == 4 || e.type == 5) _ _
                (λ b. apply_button-IsFine e s (mouse n) h)
                (λ b.
                  if-IsFine p perms (e.type == 6) _ _ (λ b. send-IsFine _ s (mouse n) h)
                    (λ b. reject-IsFine s h))))

  pad_effect-IsAllowed :
      (b : Bool) (g : GameControllerState)
      → perms.controller ≡ true
      → All (IsAllowed p perms) (if b then updates_pad p g ∷ [] else [])
  unfolding IsAllowed
  pad_effect-IsAllowed true g a = ((a, refl), tt)
  pad_effect-IsAllowed false g a = tt

  apply_controller-IsFine :
      (g : GameControllerState) (s : Injector)
      → perms.controller ≡ true
      → Has s
      → IsFine p perms (apply_controller w p g s)
  unfolding apply_controller IsFine Has
  apply_controller-IsFine g s a h =
      if-IsFine p perms (not (g.version == 1)) _ _ (λ b. reject-IsFine s h)
        (λ b.
          if-IsFine p perms (g.connected == 0) _ _ (λ b. (tt, h))
            (λ b. counted-IsFine _ _ s (pad_effect-IsAllowed _ g a) h))

  permitted-IsFine :
      (c : PerClient) (u : Unpacked) (s : Injector)
      → permissions c ≡ perms
      → Has s
      → IsFine p perms (permitted w p c u s)
  unfolding permitted permissions
  permitted-IsFine c (Unpacked.controller g) s e h =
      if-IsFine p perms (not c.controller) _ _ (λ b. reject-IsFine s h)
        (λ b. apply_controller-IsFine g s (ap (λ q. q.controller) (sym e) ∙ ground arith) h)
  permitted-IsFine c (Unpacked.event ev) s e h =
      if-IsFine p perms ((ev.type == 1 || ev.type == 2) && not c.keyboard) _ _
        (λ b. reject-IsFine s h)
        (λ b.
          if-IsFine p perms (not (ev.type == 1 || ev.type == 2) && not c.mouse) _ _
            (λ b. reject-IsFine s h)
            (λ d.
              apply_event-IsFine ev s (λ k. ap (λ q. q.keyboard) (sym e) ∙ ground arith)
                (λ k. ap (λ q. q.mouse) (sym e) ∙ ground arith) h))

  apply_unpacked-IsFine :
      (o : Option Unpacked) (s : Injector) → Has s → IsFine p perms (apply_unpacked w p o s)
  unfolding apply_unpacked Has
  apply_unpacked-IsFine none s h = reject-IsFine s h
  apply_unpacked-IsFine (some u) s h =
      permitted-IsFine (client_of p s.clients) u _ h
        (ap permissions (client_of-ensure_client p s.clients) ∙ h)

-- Whatever bytes a player sends, and whichever calls of Windows fail: the host injects a key only if
-- the player's permission covers the keyboard, moves, clicks and scrolls only if it covers the mouse,
-- updates no pad but the player's and that only if it covers the controller; and no datagram changes
-- the permission.
pub apply_input-IsFine :
    (w : Windows) (p : ℕ) (bs : Bytes) (s : Injector)
    → IsFine p (permissions (client_of p s.clients)) (apply_input w p bs s)
unfolding apply_input Has
apply_input-IsFine w p bs s =
    apply_unpacked-IsFine w p (permissions (client_of p s.clients)) (unpack_input bs) s refl
