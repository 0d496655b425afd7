-- ===== src/Injector/Released.antt =====
-- Which keys stay down when a player has gone.
use iran_remote_play.Prelude.{
  All, Bool-cases, ◌⊎◌, subst, ◌%◌, ℕ, ◌≡◌, refl, sym, ap, ◌∙◌, inl, inr, Option, none, some, List,
  [], ◌∷◌, ◌++◌, Bool, true, false, ◌==◌, ◌&&◌, ◌||◌, not, leb, ltb, if◌then◌else◌, arith,
}
use iran_remote_play.Protocol.Messages.{InputPermission}
use iran_remote_play.Input.{GameControllerState, InputEvent, Unpacked, unpack_input}
use iran_remote_play.Injector.{
  switch_pad, key, Input, Effect, sends, updates_pad, Windows, PerClient, VirtualGamepad, Injector,
  Applied, client_of, with_ref, press, press_button, has_player, update_pad, assign, reject,
  counted, apply_controller, send, apply_key, apply_button, apply_event, permitted, apply_unpacked,
  apply_input, wheel_data, release_all_keys, released, from, key_up, button_up, permit,
  set_permissions, client_disconnected, Call, input, permits, run_call, run,
}
use iran_remote_play.Injector.Clients.{client_of-ensure_client, client_of-with_ref}
use iran_remote_play.Injector.Held.{
  Keys, struck, same_flag, released_flag, pressed, pressed-append, pressed-released_buttons,
  released_up, released_all,
}

-- The key codes that `keysDown` has and `releaseAllKeys` looks at.
abbrev is_code : ℕ → Bool
is_code vk = leb 1 vk && ltb vk 256

-- Every key event of a datagram has the extended flag that goes with its code.
unfoldable pub HasFlag : (ℕ → Bool) → Option Unpacked → Type 0
HasFlag ext none = Unit
HasFlag ext (some (Unpacked.controller g)) = Unit
HasFlag ext (some (Unpacked.event e)) =
    ((e.type == 1 || e.type == 2) ≡ false) ⊎ ((e.flags % 2 == 1) ≡ ext e.code)

unfoldable pub HasFlags : (ℕ → Bool) → Call → Type 0
unfolding HasFlag
HasFlags ext (input bs) = HasFlag ext (unpack_input bs)
HasFlags ext (permits perms) = Unit

struck_other_key :
    (held : Keys) (code vk : ℕ) (flag down : Bool)
    → (vk == code) ≡ false
    → struck code flag down held vk false ≡ held vk false
unfolding struck same_flag
struck_other_key held code vk flag down e = rw e refl

struck_extended :
    (held : Keys) (code vk : ℕ) (down : Bool) → struck code true down held vk false ≡ held vk false
unfolding struck same_flag
struck_extended held code vk down = ground arith

struck_plain :
    (held : Keys) (code vk : ℕ) (down : Bool)
    → (vk == code) ≡ true
    → struck code false down held vk false ≡ down
unfolding struck same_flag
struck_plain held code vk down e = rw e refl

module _ (w : Windows) (p : ℕ) (ext : ℕ → Bool) where
  -- The keys without the flag that are down are in the player's record, none is out of range, and
  -- none has a code that goes with the flag.
  Agrees : Keys → Injector → Type 0
  Agrees held s =
      (vk : ℕ)
      → ((client_of p s.clients).keys_down vk ≡ false → held vk false ≡ false)
        × (is_code vk ≡ true ⊎ held vk false ≡ false)
        × (ext vk ≡ false ⊎ held vk false ≡ false)

  -- The keys agree after a result whose effects begin when `held` is down.
  IsInStep : Keys → Applied → Type 0
  unfolding Agrees
  IsInStep held r = Agrees (pressed r.effects held) r.after

  if-IsInStep :
      (held : Keys) (b : Bool) (x y : Applied)
      → (b ≡ true → IsInStep held x)
      → (b ≡ false → IsInStep held y)
      → IsInStep held (if b then x else y)
  if-IsInStep held true x y h k = h refl
  if-IsInStep held false x y h k = k refl

  reject-IsInStep : (held : Keys) (s : Injector) → Agrees held s → IsInStep held (reject s)
  unfolding reject IsInStep Agrees pressed
  reject-IsInStep held s h = h

  counted-IsInStep :
      (held : Keys) (b : Bool) (es : List Effect) (s : Injector)
      → Agrees (pressed es held) s
      → IsInStep held (counted b es s)
  unfolding counted IsInStep Agrees
  counted-IsInStep held true es s h = h
  counted-IsInStep held false es s h = h

  -- A change of the player's record that leaves its keys alone.
  ref-Agrees :
      (held : Keys) (f : PerClient → PerClient) (s : Injector)
      → ((c : PerClient) → (f c).player_index ≡ c.player_index)
      → ((c : PerClient) → (f c).keys_down ≡ c.keys_down)
      → Agrees held s
      → Agrees held (record s { clients = with_ref p f s.clients })
  unfolding Agrees
  ref-Agrees held f s same kept h vk = (
    (λ up. (h vk).0 (
        sym (
          ap (λ (c : PerClient). c.keys_down vk) (client_of-with_ref p f s.clients same)
          ∙ ap (λ (keys : ℕ → Bool). keys vk) (kept (client_of p s.clients)))
        ∙ up)),
    (h vk).1,
    (h vk).2,
  )

  not_plain :
      (vk : ℕ) (held : Keys)
      → ext vk ≡ true
      → (ext vk ≡ false ⊎ held vk false ≡ false)
      → held vk false ≡ false
  not_plain vk held on (inl off) = absurd cc
  not_plain vk held on (inr up) = up

  -- One key, before and after a press or a release of `code`.
  struck-agrees :
      (held : Keys) (code vk : ℕ) (flag down old : Bool)
      → flag ≡ ext code
      → (code == 0 || leb 256 code) ≡ false
      → (old ≡ false → held vk false ≡ false)
      → (is_code vk ≡ true ⊎ held vk false ≡ false)
      → (ext vk ≡ false ⊎ held vk false ≡ false)
      → ((if vk == code then down else old) ≡ false → struck code flag down held vk false ≡ false)
        × (is_code vk ≡ true ⊎ struck code flag down held vk false ≡ false)
        × (ext vk ≡ false ⊎ struck code flag down held vk false ≡ false)
  struck-agrees held code vk flag down old e range recorded code_ok flag_ok =
      elim (Bool-cases (vk == code)) [
        | inr other ↦
            let same = struck_other_key held code vk flag down other in
            rw (same, other) (recorded, code_ok, flag_ok)
        | inl here ↦
            let equal : vk ≡ code = ground (arith, here) in
            let in_range : is_code vk ≡ true = ground (arith, equal, range) in
            elim (Bool-cases flag) [
              | inl extended ↦
                  let on : ext vk ≡ true = ap ext equal ∙ sym e ∙ extended in
                  let up : held vk false ≡ false = not_plain vk held on flag_ok in
                  rw (extended, struck_extended held code vk down) ((λ _. up), inr up, inr up)
              | inr plain ↦
                  let off : ext vk ≡ false = ap ext equal ∙ sym e ∙ plain in
                  rw (plain, struck_plain held code vk down here, here)
                    ((λ up. up), inl in_range, inl off)
            ]
      ]

  press-Agrees :
      (held : Keys) (e : InputEvent) (s : Injector)
      → (e.flags % 2 == 1) ≡ ext e.code
      → (e.code == 0 || leb 256 e.code) ≡ false
      → Agrees held s
      → Agrees
          (struck e.code (e.flags % 2 == 1) (e.type == 1) held)
          (record s { clients = with_ref p (press e) s.clients })
  unfolding Agrees press assign
  press-Agrees held e s flag code h vk =
      let c = client_of p s.clients in
      let next =
        struck-agrees held e.code vk (e.flags % 2 == 1) (e.type == 1) (c.keys_down vk) flag code
          (h vk).0 (h vk).1 (h vk).2 in
      (
        (λ up. next.0 (
            sym (
              ap (λ (d : PerClient). d.keys_down vk)
                (client_of-with_ref p (press e) s.clients (λ c. refl)))
            ∙ up)),
        next.1,
        next.2,
      )

  apply_key-IsInStep :
      (held : Keys) (e : InputEvent) (s : Injector)
      → (e.flags % 2 == 1) ≡ ext e.code
      → Agrees held s
      → IsInStep held (apply_key w p e s)
  unfolding apply_key send pressed
  apply_key-IsInStep held e s flag h =
      if-IsInStep held (e.code == 0 || leb 256 e.code) _ _ (λ b. reject-IsInStep held s h)
        (λ b.
          counted-IsInStep held _ (sends (key e.code (e.type == 1) (e.flags % 2 == 1)) ∷ []) _
            (press-Agrees held e s flag b h))

  apply_button-IsInStep :
      (held : Keys) (e : InputEvent) (s : Injector)
      → Agrees held s
      → IsInStep held (apply_button w p e s)
  unfolding apply_button send pressed press_button
  apply_button-IsInStep held e s h =
      if-IsInStep held (leb 5 e.code) _ _ (λ b. reject-IsInStep held s h)
        (λ b.
          counted-IsInStep held _ (sends (Input.mouse_button e.code (e.type == 4)) ∷ []) _
            (ref-Agrees held (press_button e) s (λ c. refl) (λ c. refl) h))

  flag_of :
      (e : InputEvent)
      → (e.type == 1 || e.type == 2) ≡ true
      → HasFlag ext (some (Unpacked.event e))
      → (e.flags % 2 == 1) ≡ ext e.code
  unfolding HasFlag
  flag_of e is_key (inl other) = absurd cc
  flag_of e is_key (inr flag) = flag

  apply_event-IsInStep :
      (held : Keys) (e : InputEvent) (s : Injector)
      → HasFlag ext (some (Unpacked.event e))
      → Agrees held s
      → IsInStep held (apply_event w p e s)
  unfolding apply_event send pressed HasFlag
  apply_event-IsInStep held e s flag h =
      if-IsInStep held (e.type == 1 || e.type == 2) _ _
        (λ b. apply_key-IsInStep held e s (flag_of e b flag) h)
        (λ n.
          if-IsInStep held (e.type == 3) _ _
            (λ b. counted-IsInStep held _ (sends (Input.mouse_move e.x e.y) ∷ []) s h)
            (λ a.
              if-IsInStep held (e.type == 4 || e.type == 5) _ _
                (λ b. apply_button-IsInStep held e s h)
                (λ b.
                  if-IsInStep held (e.type == 6) _ _
                    (λ b.
                      counted-IsInStep held _ (sends (Input.mouse_wheel (wheel_data e.delta)) ∷ [])
                        s h)
                    (λ b. reject-IsInStep held s h))))

  pad_counted-IsInStep :
      (held : Keys) (b c : Bool) (g : GameControllerState) (s : Injector)
      → Agrees held s
      → IsInStep held (counted c (if b then updates_pad p g ∷ [] else []) s)
  unfolding pressed
  pad_counted-IsInStep held true c g s h = counted-IsInStep held c (updates_pad p g ∷ []) s h
  pad_counted-IsInStep held false c g s h = counted-IsInStep held c [] s h

  apply_controller-IsInStep :
      (held : Keys) (g : GameControllerState) (s : Injector)
      → Agrees held s
      → IsInStep held (apply_controller w p g s)
  unfolding apply_controller IsInStep pressed
  apply_controller-IsInStep held g s h =
      if-IsInStep held (not (g.version == 1)) _ _ (λ b. reject-IsInStep held s h)
        (λ b.
          if-IsInStep held (g.connected == 0) _ _ (λ b. h)
            (λ b.
              pad_counted-IsInStep held (has_player p s.pads.pads && s.pads.available)
                (update_pad w p g s.pads) g s h))

  permitted-IsInStep :
      (held : Keys) (c : PerClient) (u : Unpacked) (s : Injector)
      → HasFlag ext (some u)
      → Agrees held s
      → IsInStep held (permitted w p c u s)
  unfolding permitted
  permitted-IsInStep held c (Unpacked.controller g) s flag h =
      if-IsInStep held (not c.controller) _ _ (λ b. reject-IsInStep held s h)
        (λ b. apply_controller-IsInStep held g s h)
  permitted-IsInStep held c (Unpacked.event ev) s flag h =
      if-IsInStep held ((ev.type == 1 || ev.type == 2) && not c.keyboard) _ _
        (λ b. reject-IsInStep held s h)
        (λ b.
          if-IsInStep held (not (ev.type == 1 || ev.type == 2) && not c.mouse) _ _
            (λ b. reject-IsInStep held s h) (λ d. apply_event-IsInStep held ev s flag h))

  apply_input-IsInStep :
      (held : Keys) (o : Option Unpacked) (s : Injector)
      → HasFlag ext o
      → Agrees held s
      → IsInStep held (apply_unpacked w p o s)
  unfolding apply_unpacked Agrees
  apply_input-IsInStep held none s flag h = reject-IsInStep held s h
  apply_input-IsInStep held (some u) s flag h =
      permitted-IsInStep held (client_of p s.clients) u _ flag (λ vk. (
        (λ up. (h vk).0 (
            sym (ap (λ (c : PerClient). c.keys_down vk) (client_of-ensure_client p s.clients))
            ∙ up)),
        (h vk).1,
        (h vk).2,
      ))

  -- The two lists of releases together, as the first alone.
  ups-pressed :
      (held : Keys) (c : PerClient) (vk : ℕ) (flag : Bool)
      → pressed
          (released key_up c.keys_down (from 1 255)
            ++ released button_up c.mouse_buttons (from 0 5))
          held
          vk
          flag
        ≡ pressed (released key_up c.keys_down (from 1 255)) held vk flag
  ups-pressed held c vk flag =
      ap (λ (keys : Keys). keys vk flag)
        (pressed-append (released key_up c.keys_down (from 1 255))
            (released button_up c.mouse_buttons (from 0 5)) held
          ∙ pressed-released_buttons c.mouse_buttons (from 0 5)
              (pressed (released key_up c.keys_down (from 1 255)) held))

  release_lowers :
      (held : Keys) (s : Injector) (vk : ℕ)
      → Agrees held s
      → pressed (release_all_keys p s).1 held vk false ≡ false
  unfolding release_all_keys Agrees
  release_lowers held s vk h =
      let c = client_of p s.clients in
      ups-pressed held c vk false ∙ elim (h vk).1 [
        | inl code ↦ released_all c.keys_down 255 1 held vk (ground arith) (ground arith) (h vk).0
        | inr up ↦ released_up c.keys_down (from 1 255) held vk up
      ]

  release_leaves :
      (held : Keys) (s : Injector) (vk : ℕ)
      → pressed (release_all_keys p s).1 held vk true ≡ held vk true
  unfolding release_all_keys
  release_leaves held s vk =
      let c = client_of p s.clients in
      ups-pressed held c vk true ∙ released_flag c.keys_down (from 1 255) held vk

  release-Agrees :
      (held : Keys) (s : Injector)
      → Agrees held s
      → Agrees (pressed (release_all_keys p s).1 held) (release_all_keys p s).0
  unfolding Agrees
  release-Agrees held s h vk = let up = release_lowers held s vk h in ((λ _. up), inr up, inr up)

  after_permit-Agrees :
      (held : Keys) (b : Bool) (s : Injector)
      → Agrees held s
      → Agrees
          (pressed (if b then (s, []) else release_all_keys p s).1 held)
          (if b then (s, []) else release_all_keys p s).0
  unfolding pressed
  after_permit-Agrees held true s h = h
  after_permit-Agrees held false s h = release-Agrees held s h

  set_permissions-Agrees :
      (held : Keys) (perms : InputPermission) (s : Injector)
      → Agrees held s
      → Agrees (pressed (set_permissions w p perms s).1 held) (set_permissions w p perms s).0
  unfolding set_permissions permit Agrees
  set_permissions-Agrees held perms s h =
      after_permit-Agrees held perms.keyboard
        (record s {
          pads = switch_pad w p (client_of p s.clients).controller perms.controller s.pads;
          clients = with_ref p (permit perms) s.clients;
        })
        (ref-Agrees held (permit perms) s (λ c. refl) (λ c. refl) h)

  run_call-Agrees :
      (c : Call) (held : Keys) (s : Injector)
      → HasFlags ext c
      → Agrees held s
      → Agrees (pressed (run_call w p c s).1 held) (run_call w p c s).0
  unfolding run_call apply_input IsInStep HasFlags
  run_call-Agrees (input bs) held s flag h = apply_input-IsInStep held (unpack_input bs) s flag h
  run_call-Agrees (permits perms) held s flag h = set_permissions-Agrees held perms s h

  run-Agrees :
      (cs : List Call) (held : Keys) (s : Injector)
      → All (HasFlags ext) cs
      → Agrees held s
      → Agrees (pressed (run w p cs s).1 held) (run w p cs s).0
  unfolding run pressed
  run-Agrees [] held s flags h = h
  run-Agrees (c ∷ cs) held s flags h =
      subst (λ keys. Agrees keys (run w p cs (run_call w p c s).0).0)
        (sym (pressed-append (run_call w p c s).1 (run w p cs (run_call w p c s).0).1 held))
        (run-Agrees cs (pressed (run_call w p c s).1 held) (run_call w p c s).0 flags.1
          (run_call-Agrees c held s flags.0 h))

-- An injector that no client has reached.
abbrev pub fresh : VirtualGamepad → Injector
fresh v = record { pads = v; clients = []; injected_events = 0; rejected_events = 0 }

abbrev pub no_keys : Keys
no_keys vk flag = false

fresh-Agrees :
    (w : Windows) (p : ℕ) (ext : ℕ → Bool) (v : VirtualGamepad) → Agrees w p ext no_keys (fresh v)
unfolding Agrees client_of
fresh-Agrees w p ext v vk = ((λ _. refl), inr refl, inr refl)

-- Whatever one player sends and whatever permissions it gets in between, in any order, if its key
-- events have the extended flag exactly with some of the codes, and if every call of SendInput takes
-- effect: once `clientDisconnected` has run, no key without the flag is down; and it releases no key
-- with the flag, so each of them that was down stays down.
pub run-releases :
    (w : Windows) (p : ℕ) (ext : ℕ → Bool) (v : VirtualGamepad) (calls : List Call) (vk : ℕ)
    → All (HasFlags ext) calls
    → let (s, es) = run w p calls (fresh v) in
      let after = pressed (es ++ (client_disconnected p s).1) no_keys in
      (after vk false ≡ false) × (after vk true ≡ pressed es no_keys vk true)
unfolding client_disconnected
run-releases w p ext v calls vk flags =
    let (s, es) = run w p calls (fresh v) in
    let held = pressed es no_keys in
    let both = pressed-append es (release_all_keys p s).1 no_keys in
    (
      ap (λ (keys : Keys). keys vk false) both
          ∙ release_lowers w p ext held s vk
              (run-Agrees w p ext calls no_keys (fresh v) flags (fresh-Agrees w p ext v)),
      ap (λ (keys : Keys). keys vk true) both ∙ release_leaves w p ext held s vk,
    )
