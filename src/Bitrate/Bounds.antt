-- ===== src/Bitrate/Bounds.antt =====
-- The bounds that the target keeps.
use iran_remote_play.Prelude.{
  length, ℕ, max, ◌^◌, ◌<◌, Bool, true, false, ◌||◌, if◌then◌else◌, ◌+◌, ◌-◌, ◌≤◌, ◌≡◌, refl, ◌≢◌,
  inl, inr, Option, none, some, List, [], ◌∷◌, ◌&&◌, not, leb, ltb, ◌==◌, arith, Bool-cases,
}
use iran_remote_play.Bitrate.{
  Double, LinkSample, Thresholds, AdaptiveBitrate, init, is_bad, is_good, change, step_down,
  step_up, update, set_manual, overflows,
}

pub record InRange (lo hi : ℕ) (a : AdaptiveBitrate) : Type 0 where
  pub lower : a.min_kbps ≡ lo
  pub upper : a.max_kbps ≡ hi
  pub above : lo ≤ a.current_kbps
  pub under : a.current_kbps ≤ hi
  pub sound : a.fault ≡ false

-- The streaks are no longer than the samples so far.
record IsYoung (n : ℕ) (a : AdaptiveBitrate) : Type 0 where
  down : a.down_streak ≤ n
  up : a.up_streak ≤ n

-- What a sample reports: the new target, which differs from the old, or that it is the old.
pub data Reports (old : ℕ) : Option ℕ → ℕ → Type 0 where
  changed : {new : ℕ} → new ≢ old → Reports old (some new) new
  kept : Reports old none old

init-InRange : (kbps lo hi : ℕ) → lo ≤ hi → InRange lo hi (init kbps lo hi)
unfolding init
init-InRange kbps lo hi ordered = record {
  lower = refl;
  upper = refl;
  above = ground (arith, ordered);
  under = ground (arith, ordered);
  sound = refl;
}

init-IsYoung : (kbps lo hi : ℕ) → IsYoung 0 (init kbps lo hi)
unfolding init
init-IsYoung kbps lo hi = record { down = omega arith; up = omega arith }

-- Every sum of a target below the upper bound and its step is an `int`.
abbrev pub StepsFit : (double : Double) → Thresholds double.Carrier → ℕ → Type 0
StepsFit double t hi =
    (kbps : ℕ) → kbps < hi → kbps + max 250 (double.scaled kbps t.up_step_fraction) < 2 ^ 31

module _ (double : Double) (t : Thresholds double.Carrier) (lo hi : ℕ) where
  -- What a sample leaves, and reports.
  IsStepped : ℕ → ℕ → Option ℕ × AdaptiveBitrate → Type 0
  IsStepped n old r = InRange lo hi r.1 × IsYoung n r.1 × Reports old r.0 r.1.current_kbps

  change-IsStepped :
      (n : ℕ) (a : AdaptiveBitrate) (next : ℕ)
      → InRange lo hi a
      → IsYoung n a
      → lo ≤ next
      → next ≤ hi
      → IsStepped n a.current_kbps (change double t a next)
  unfolding change IsStepped
  change-IsStepped n a next r y above under = elim (Bool-cases (not (next == a.current_kbps))) [
    | inl other ↦ rw other (
      record { lower = r.lower; upper = r.upper; above = above; under = under; sound = r.sound },
      record { down = y.down; up = y.up },
      changed (ground (arith, other)),
    )
    | inr same ↦ rw same (r, y, kept)
  ]

  if-IsStepped :
      (n old : ℕ) (b : Bool) (x y : Option ℕ × AdaptiveBitrate)
      → (b ≡ true → IsStepped n old x)
      → (b ≡ false → IsStepped n old y)
      → IsStepped n old (if b then x else y)
  if-IsStepped n old true x y h k = h refl
  if-IsStepped n old false x y h k = k refl

  -- A record with another streak, whose fault is that of the old or one that does not occur.
  recount :
      (n : ℕ) (a : AdaptiveBitrate) (down up : ℕ) (fault : Bool)
      → InRange lo hi a
      → down ≤ n
      → up ≤ n
      → fault ≡ false
      → InRange lo hi (record a { down_streak = down; up_streak = up; fault = fault })
        × IsYoung n (record a { down_streak = down; up_streak = up; fault = fault })
  recount n a down up fault r d u f = (
    record { lower = r.lower; upper = r.upper; above = r.above; under = r.under; sound = f },
    record { down = d; up = u },
  )

  no_fault : (fault : Bool) (n : ℕ) → fault ≡ false → n < 2 ^ 31 → (fault || overflows n) ≡ false
  unfolding overflows
  no_fault fault n f h = ground (arith, f, h)

  step_down-IsStepped :
      (n : ℕ) (a : AdaptiveBitrate)
      → n + 1 < 2 ^ 31
      → lo ≤ hi
      → InRange lo hi a
      → IsYoung n a
      → IsStepped (n + 1) a.current_kbps (step_down double t a)
  unfolding step_down IsStepped
  step_down-IsStepped n a small ordered r y =
      let fault = a.fault || overflows (a.down_streak + 1) in
      let sound : fault ≡ false =
        no_fault a.fault (a.down_streak + 1) r.sound (omega (arith, y.down, small)) in
      let reset = recount (n + 1) a 0 0 fault r (omega arith) (omega arith) sound in
      let longer =
        recount (n + 1) a (a.down_streak + 1) 0 fault r (omega (arith, y.down)) (omega arith)
          sound in
      if-IsStepped (n + 1) a.current_kbps
        (leb t.down_streak_needed (a.down_streak + 1) && a.cooldown == 0) _ _
        (λ due.
          change-IsStepped (n + 1) (record a { down_streak = 0; up_streak = 0; fault = fault }) _
            reset.0 reset.1 (omega (arith, r.lower)) (omega (arith, r.lower, r.under, ordered)))
        (λ early. (longer.0, longer.1, kept))

  step_up-IsStepped :
      (n : ℕ) (a : AdaptiveBitrate)
      → n + 1 < 2 ^ 31
      → StepsFit double t hi
      → lo ≤ hi
      → InRange lo hi a
      → IsYoung n a
      → IsStepped (n + 1) a.current_kbps (step_up double t a)
  unfolding step_up IsStepped
  step_up-IsStepped n a small fits ordered r y =
      let sum = a.current_kbps + max 250 (double.scaled a.current_kbps t.up_step_fraction) in
      let fault = a.fault || overflows (a.up_streak + 1) in
      let sound : fault ≡ false =
        no_fault a.fault (a.up_streak + 1) r.sound (omega (arith, y.up, small)) in
      let longer =
        recount (n + 1) a 0 (a.up_streak + 1) fault r (omega arith) (omega (arith, y.up)) sound in
      if-IsStepped (n + 1) a.current_kbps
        (leb t.up_streak_needed (a.up_streak + 1)
          && a.cooldown == 0
          && ltb a.current_kbps a.max_kbps)
        _ _
        (λ due.
          let room : a.current_kbps < hi = ground (arith, due, r.upper) in
          let reset =
            recount (n + 1) a 0 0 (fault || overflows sum) r (omega arith) (omega arith)
              (no_fault fault sum sound (fits a.current_kbps room)) in
          change-IsStepped (n + 1)
            (record a { down_streak = 0; up_streak = 0; fault = fault || overflows sum }) _ reset.0
            reset.1 (omega (arith, r.upper, r.above, ordered)) (omega (arith, r.upper)))
        (λ early. (longer.0, longer.1, kept))

  update-IsStepped :
      (n : ℕ) (a : AdaptiveBitrate) (s : LinkSample double.Carrier)
      → n + 1 < 2 ^ 31
      → StepsFit double t hi
      → lo ≤ hi
      → InRange lo hi a
      → IsYoung n a
      → IsStepped (n + 1) a.current_kbps (update double t a s)
  unfolding update IsStepped
  update-IsStepped n a s small fits ordered r y =
      let cooled : AdaptiveBitrate = record a { cooldown = a.cooldown - 1 } in
      let range : InRange lo hi cooled = record {
        lower = r.lower;
        upper = r.upper;
        above = r.above;
        under = r.under;
        sound = r.sound;
      } in
      let young : IsYoung n cooled = record { down = y.down; up = y.up } in
      let neutral = recount (n + 1) cooled 0 0 a.fault range (omega arith) (omega arith) r.sound in
      if-IsStepped (n + 1) a.current_kbps (is_bad double t s) _ _
        (λ bad. step_down-IsStepped n cooled small ordered range young)
        (λ fine.
          if-IsStepped (n + 1) a.current_kbps (is_good double t s) _ _
            (λ good. step_up-IsStepped n cooled small fits ordered range young)
            (λ other. (neutral.0, neutral.1, kept)))

-- A call of the controller.
pub data Op (D : Type 0) : Type 0 where
  sample : LinkSample D → Op D
  manual : ℕ → Op D

unfoldable pub step :
    (double : Double)
    → Thresholds double.Carrier
    → AdaptiveBitrate
    → Op double.Carrier
    → AdaptiveBitrate
step double t a (sample s) = (update double t a s).1
step double t a (manual kbps) = set_manual double t a kbps

unfoldable pub run :
    (double : Double)
    → Thresholds double.Carrier
    → AdaptiveBitrate
    → List (Op double.Carrier)
    → AdaptiveBitrate
run double t a [] = a
run double t a (op ∷ ops) = run double t (step double t a op) ops

run-InRange :
    (double : Double) (t : Thresholds double.Carrier) (lo hi n : ℕ) (a : AdaptiveBitrate)
    (ops : List (Op double.Carrier))
    → n + length ops < 2 ^ 31
    → StepsFit double t hi
    → lo ≤ hi
    → InRange lo hi a
    → IsYoung n a
    → InRange lo hi (run double t a ops) × IsYoung (n + length ops) (run double t a ops)
unfolding run step set_manual IsStepped
run-InRange double t lo hi n a [] small fits ordered r y =
    (r, record { down = omega (arith, y.down); up = omega (arith, y.up) })
run-InRange double t lo hi n a (sample s ∷ ops) small fits ordered r y =
    let next = update-IsStepped double t lo hi n a s (omega (arith, small)) fits ordered r y in
    let rest =
      run-InRange double t lo hi (n + 1) (update double t a s).1 ops (omega (arith, small)) fits
        ordered next.0 next.1 in
    (rest.0, record { down = omega (arith, rest.1.down); up = omega (arith, rest.1.up) })
run-InRange double t lo hi n a (manual kbps ∷ ops) small fits ordered r y =
    let forced : InRange lo hi (set_manual double t a kbps) = record {
      lower = r.lower;
      upper = r.upper;
      above = ground (arith, r.lower, r.upper, ordered);
      under = ground (arith, r.lower, r.upper, ordered);
      sound = r.sound;
    } in
    let rest =
      run-InRange double t lo hi (n + 1) (set_manual double t a kbps) ops (omega (arith, small))
        fits ordered forced (record { down = omega arith; up = omega arith }) in
    (rest.0, record { down = omega (arith, rest.1.down); up = omega (arith, rest.1.up) })

-- After fewer than 2^31 - 1 calls on a controller whose lower bound is not above its upper one, and
-- whose steps up from below the upper bound stay in an `int`: no sum of `int`s has overflowed, the
-- target is within the bounds, and so it is after a sample; and the sample reports a value exactly
-- when it changes the target, and reports the new target.
pub run-init-InRange :
    (double : Double) (t : Thresholds double.Carrier) (kbps lo hi : ℕ)
    (ops : List (Op double.Carrier)) (s : LinkSample double.Carrier)
    → lo ≤ hi
    → length ops + 1 < 2 ^ 31
    → StepsFit double t hi
    → let a = run double t (init kbps lo hi) ops in
      InRange lo hi a
      × InRange lo hi (update double t a s).1
      × Reports a.current_kbps (update double t a s).0 (update double t a s).1.current_kbps
unfolding IsStepped
run-init-InRange double t kbps lo hi ops s ordered small fits =
    let r =
      run-InRange double t lo hi 0 (init kbps lo hi) ops (omega (arith, small)) fits ordered
        (init-InRange kbps lo hi ordered) (init-IsYoung kbps lo hi) in
    let next =
      update-IsStepped double t lo hi (length ops) (run double t (init kbps lo hi) ops) s small fits
        ordered r.0 (record { down = omega (arith, r.1.down); up = omega (arith, r.1.up) }) in
    (r.0, next.0, next.2)
