-- ===== src/Injector/Held.antt =====
-- The keys that a sequence of calls of SendInput leaves down. A key is a code with or without the
-- extended flag: the right Alt is another key than the left one.
use iran_remote_play.Prelude.{
  ℕ, zero, suc, ◌+◌, ◌≤◌, ◌<◌, ◌≡◌, refl, ap, ◌∙◌, inl, inr, List, [], ◌∷◌, ◌++◌, Bool, true, false,
  ◌==◌, ◌&&◌, not, if◌then◌else◌, Bool-cases, arith,
}
use iran_remote_play.Injector.{
  key, mouse_move, mouse_button, mouse_wheel, Effect, sends, updates_pad, released, from, key_up,
  button_up,
}

-- Which keys are down, by code and extended flag.
abbrev pub Keys : Type 0
Keys = ℕ → Bool → Bool

unfoldable pub same_flag : Bool → Bool → Bool
same_flag true b = b
same_flag false b = not b

-- The keys after one of them goes down or up.
unfoldable pub struck : ℕ → Bool → Bool → Keys → Keys
unfolding same_flag
struck vk extended down held code flag =
    if code == vk && same_flag flag extended then down else held code flag

unfoldable pub pressed : List Effect → Keys → Keys
unfolding struck
pressed [] held = held
pressed (sends (key vk down extended) ∷ es) held = pressed es (struck vk extended down held)
pressed (sends (mouse_move x y) ∷ es) held = pressed es held
pressed (sends (mouse_button b down) ∷ es) held = pressed es held
pressed (sends (mouse_wheel d) ∷ es) held = pressed es held
pressed (updates_pad q g ∷ es) held = pressed es held

pub pressed-append :
    (es fs : List Effect) (held : Keys) → pressed (es ++ fs) held ≡ pressed fs (pressed es held)
unfolding pressed
pressed-append [] fs held = refl
pressed-append (sends (key vk down extended) ∷ es) fs held = pressed-append es fs _
pressed-append (sends (mouse_move x y) ∷ es) fs held = pressed-append es fs held
pressed-append (sends (mouse_button b down) ∷ es) fs held = pressed-append es fs held
pressed-append (sends (mouse_wheel d) ∷ es) fs held = pressed-append es fs held
pressed-append (updates_pad q g ∷ es) fs held = pressed-append es fs held

-- Releasing buttons leaves the keys alone.
pub pressed-released_buttons :
    (buttons : ℕ → Bool) (is : List ℕ) (held : Keys)
    → pressed (released button_up buttons is) held ≡ held
unfolding released pressed button_up
pressed-released_buttons buttons [] held = refl
pressed-released_buttons buttons (i ∷ is) held = elim (Bool-cases (buttons i)) [
  | inl down ↦ rw (released, down) (pressed-released_buttons buttons is held)
  | inr up ↦ rw (released, up) (pressed-released_buttons buttons is held)
]

struck_up :
    (i : ℕ) (held : Keys) (vk : ℕ)
    → held vk false ≡ false
    → struck i false false held vk false ≡ false
unfolding struck same_flag
struck_up i held vk up = ground (arith, up)

struck_self : (i : ℕ) (held : Keys) (vk : ℕ) → vk ≡ i → struck i false false held vk false ≡ false
unfolding struck same_flag
struck_self i held vk e = ground arith

struck_other :
    (i : ℕ) (held : Keys) (vk : ℕ) → i < vk → struck i false false held vk false ≡ held vk false
unfolding struck same_flag
struck_other i held vk e = ground arith

struck_flag : (i : ℕ) (held : Keys) (vk : ℕ) → struck i false false held vk true ≡ held vk true
unfolding struck same_flag
struck_flag i held vk = ground arith

-- The releases do not touch the keys with the flag.
pub released_flag :
    (keys : ℕ → Bool) (is : List ℕ) (held : Keys) (vk : ℕ)
    → pressed (released key_up keys is) held vk true ≡ held vk true
unfolding released pressed key_up
released_flag keys [] held vk = refl
released_flag keys (i ∷ is) held vk = elim (Bool-cases (keys i)) [
  | inl down ↦
      rw (released, down)
        (released_flag keys is (struck i false false held) vk ∙ struck_flag i held vk)
  | inr up ↦ rw (released, up) (released_flag keys is held vk)
]

-- A key that is up stays up when others are released.
pub released_up :
    (keys : ℕ → Bool) (is : List ℕ) (held : Keys) (vk : ℕ)
    → held vk false ≡ false
    → pressed (released key_up keys is) held vk false ≡ false
unfolding released pressed key_up
released_up keys [] held vk up = up
released_up keys (i ∷ is) held vk up = elim (Bool-cases (keys i)) [
  | inl down ↦
      rw (released, down)
        (released_up keys is (struck i false false held) vk (struck_up i held vk up))
  | inr not_down ↦ rw (released, not_down) (released_up keys is held vk up)
]

-- A key among those looked at is up afterwards.
pub released_all :
    (keys : ℕ → Bool) (n i : ℕ) (held : Keys) (vk : ℕ)
    → i ≤ vk
    → vk < i + n
    → (keys vk ≡ false → held vk false ≡ false)
    → pressed (released key_up keys (from i n)) held vk false ≡ false
unfolding released pressed key_up from
released_all keys zero i held vk lo hi same = absurd (omega arith)
released_all keys (suc n) i held vk lo hi same = elim (Bool-cases (keys i)) [
  | inl down ↦
      rw (released, down)
        (elim (Bool-cases (vk == i)) [
          | inl here ↦
              released_up keys (from (suc i) n) (struck i false false held) vk
                (struck_self i held vk (ground arith))
          | inr there ↦
              released_all keys n (suc i) (struck i false false held) vk (ground arith)
                (ground arith) (λ off. struck_other i held vk (ground arith) ∙ same off)
        ])
  | inr up ↦
      rw (released, up)
        (elim (Bool-cases (vk == i)) [
          | inl here ↦
              released_up keys (from (suc i) n) held vk (same (ap keys (ground arith) ∙ up))
          | inr there ↦ released_all keys n (suc i) held vk (ground arith) (ground arith) same
        ])
]
