-- ===== src/Input/RoundTrip.antt =====
-- Packing and unpacking the input payloads.
use iran_remote_play.Prelude.{
  ℕ, zero, suc, ◌+◌, ◌*◌, ◌/◌, ◌%◌, ◌^◌, ◌≤◌, ◌<◌, ◌≡◌, refl, sym, ap, ◌∙◌, inl, inr, some, List,
  [], ◌∷◌, false, ◌&&◌, ltb, ◌==◌, length, take, drop, arith, Bool-cases, length-append,
  length-drop, All, take-append, drop-append, take-append-drop,
}
use iran_remote_play.Prelude.Bytes.{
  Bytes, IsByte, le_bytes, from_le, length-le_bytes, from_le-le_bytes,
}
use iran_remote_play.Input.{
  Unpacked, controller, event, controller_widths, event_widths, controller_fields, event_fields,
  packed, unpacked, controller_of, event_of, pack_controller_state, pack_input_event, unpack_input,
  pack,
}

abbrev total : List ℕ → ℕ
total [] = 0
total (w ∷ ws) = w + total ws

-- A value for every field, each within its width.
unfoldable pub Fits : List ℕ → List ℕ → Type 0
Fits [] [] = Unit
Fits [] (v ∷ vs) = ⊥
Fits (w ∷ ws) [] = ⊥
Fits (w ∷ ws) (v ∷ vs) = (v < 256 ^ w) × Fits ws vs

length-packed : (ws vs : List ℕ) → Fits ws vs → length (packed ws vs) ≡ total ws
unfolding packed Fits
length-packed [] vs fits = refl
length-packed (w ∷ ws) [] fits = elim fits [ ]
length-packed (w ∷ ws) (v ∷ vs) (small, fits) = omega (
  arith,
  length-append (le_bytes w v) (packed ws vs),
  length-le_bytes w v,
  length-packed ws vs fits,
)

unpacked-packed : (ws vs : List ℕ) → Fits ws vs → unpacked ws (packed ws vs) ≡ vs
unfolding packed unpacked Fits
unpacked-packed [] [] fits = refl
unpacked-packed [] (v ∷ vs) fits = elim fits [ ]
unpacked-packed (w ∷ ws) [] fits = elim fits [ ]
unpacked-packed (w ∷ ws) (v ∷ vs) (small, fits) =
    rw
      (
        take-append (le_bytes w v) (packed ws vs) w (length-le_bytes w v),
        drop-append (le_bytes w v) (packed ws vs) w (length-le_bytes w v),
        from_le-le_bytes w v small,
        unpacked-packed ws vs fits,
      )
      refl

le_bytes-from_le :
    (n : ℕ) (bs : Bytes)
    → All IsByte bs
    → n ≤ length bs
    → le_bytes n (from_le (take n bs)) ≡ take n bs
unfolding le_bytes from_le
le_bytes-from_le zero bs bytes enough = refl
le_bytes-from_le (suc n) [] bytes enough = absurd (omega (arith, enough))
le_bytes-from_le (suc n) (b ∷ bs) (small, bytes) enough =
    let head : (b + 256 * from_le (take n bs)) % 256 ≡ b = omega (arith, small) in
    let tail : (b + 256 * from_le (take n bs)) / 256 ≡ from_le (take n bs) = omega (arith, small) in
    rw (head, tail, le_bytes-from_le n bs bytes (omega (arith, enough))) refl

All-drop : (n : ℕ) (bs : Bytes) → All IsByte bs → All IsByte (drop n bs)
All-drop zero bs h = h
All-drop (suc n) [] h = h
All-drop (suc n) (b ∷ bs) (p, h) = All-drop n bs h

packed-unpacked :
    (ws : List ℕ) (bs : Bytes)
    → All IsByte bs
    → length bs ≡ total ws
    → packed ws (unpacked ws bs) ≡ bs
unfolding packed unpacked
packed-unpacked [] [] bytes size = refl
packed-unpacked [] (b ∷ bs) bytes size = absurd (omega (arith, size))
packed-unpacked (w ∷ ws) bs bytes size =
    rw
      (
        le_bytes-from_le w bs bytes (omega (arith, size)),
        packed-unpacked ws (drop w bs) (All-drop w bs bytes)
            (omega (arith, size, length-drop w bs)),
      )
      (take-append-drop w bs)

-- The values of the structure fit their fields.
unfoldable pub FitsInput : Unpacked → Type 0
FitsInput (controller s) = Fits controller_widths (controller_fields s)
FitsInput (event e) = Fits event_widths (event_fields e)

controller_accepted :
    (rest : Bytes)
    → length rest ≡ 22
    → unpack_input (0 ∷ rest) ≡ some (controller (controller_of (unpacked controller_widths rest)))
unfolding unpack_input
controller_accepted rest size = rw size refl

event_accepted :
    (rest : Bytes)
    → length rest ≡ 18
    → unpack_input (1 ∷ rest) ≡ some (event (event_of (unpacked event_widths rest)))
unfolding unpack_input
event_accepted rest size = rw size refl

-- What either packing function makes of a structure whose values fit its fields, `unpackInput`
-- takes apart into the same structure.
pub unpack_input-pack : (u : Unpacked) → FitsInput u → unpack_input (pack u) ≡ some u
unfolding pack pack_controller_state pack_input_event FitsInput controller_of controller_fields
    event_of event_fields
unpack_input-pack (controller s) fits =
    controller_accepted (packed controller_widths (controller_fields s))
      (length-packed controller_widths (controller_fields s) fits)
    ∙ ap (λ vs. some (controller (controller_of vs)))
        (unpacked-packed controller_widths (controller_fields s) fits)
unpack_input-pack (event e) fits =
    event_accepted (packed event_widths (event_fields e))
      (length-packed event_widths (event_fields e) fits)
    ∙ ap (λ vs. some (event (event_of vs))) (unpacked-packed event_widths (event_fields e) fits)

pack-controller_of :
    (rest : Bytes)
    → All IsByte rest
    → length rest ≡ 22
    → pack (controller (controller_of (unpacked controller_widths rest))) ≡ 0 ∷ rest
unfolding pack pack_controller_state controller_of controller_fields unpacked
pack-controller_of rest bytes size =
    ap (λ t. 0 ∷ t) (packed-unpacked controller_widths rest bytes size)

pack-event_of :
    (rest : Bytes)
    → All IsByte rest
    → length rest ≡ 18
    → pack (event (event_of (unpacked event_widths rest))) ≡ 1 ∷ rest
unfolding pack pack_input_event event_of event_fields unpacked
pack-event_of rest bytes size = ap (λ t. 1 ∷ t) (packed-unpacked event_widths rest bytes size)

-- A payload of bytes that `unpackInput` accepts is what packing its result makes: nothing of the
-- payload is lost, and any other size or kind is refused.
pub pack-unpack_input :
    (bs : Bytes) (u : Unpacked) → All IsByte bs → unpack_input bs ≡ some u → pack u ≡ bs
unfolding unpack_input
pack-unpack_input [] u bytes = λ h. absurd cc
pack-unpack_input (b ∷ rest) u (small, bytes) =
    let nonempty : ltb (length (b ∷ rest)) 1 ≡ false = ground arith in
    elim (Bool-cases (b == 0 && length (b ∷ rest) == 23)) [
      | inl state ↦
          rw (nonempty, state)
            (λ h.
              let kind : b ≡ 0 = ground (arith, state) in
              let same : controller (controller_of (unpacked controller_widths rest)) ≡ u = cc in
              ap pack (sym same)
              ∙ (pack-controller_of rest bytes (ground (arith, state))
                  ∙ ap (λ k. k ∷ rest) (sym kind)))
      | inr other ↦
          rw (nonempty, other)
            (elim (Bool-cases (b == 1 && length (b ∷ rest) == 19)) [
              | inl key ↦ rw key (λ h.
                  let kind : b ≡ 1 = ground (arith, key) in
                  let same : event (event_of (unpacked event_widths rest)) ≡ u = cc in
                  ap pack (sym same)
                  ∙ (pack-event_of rest bytes (ground (arith, key))
                      ∙ ap (λ k. k ∷ rest) (sym kind)))
              | inr none_of ↦ rw none_of (λ h. absurd cc)
            ])
    ]
