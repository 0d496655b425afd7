-- ===== src/Bitrate/Steps.antt =====
-- When the controller changes its target.
use iran_remote_play.Prelude.{
  ℕ, ◌+◌, ◌-◌, ◌≤◌, ◌<◌, max, ◌≡◌, refl, ◌∙◌, inl, inr, none, some, List, [], ◌∷◌, true, false,
  ◌&&◌, ◌||◌, not, leb, ltb, ◌==◌, length, arith, Bool-cases, All,
}
use iran_remote_play.Bitrate.{
  Double, LinkSample, Thresholds, AdaptiveBitrate, is_bad, is_good, change, step_down, step_up,
  update, overflows,
}

module _ (double : Double) (t : Thresholds double.Carrier) where
  -- The controller after some samples.
  unfoldable pub update_all : AdaptiveBitrate → List (LinkSample double.Carrier) → AdaptiveBitrate
  update_all a [] = a
  update_all a (s ∷ samples) = update_all (update double t a s).1 samples

  -- With a cooldown that the sample does not end, nothing changes.
  update-cooling :
      (a : AdaptiveBitrate) (s : LinkSample double.Carrier)
      → 2 ≤ a.cooldown
      → ((update double t a s).0 ≡ none)
        × ((update double t a s).1.current_kbps ≡ a.current_kbps)
        × ((update double t a s).1.cooldown ≡ a.cooldown - 1)
  unfolding update step_down step_up
  update-cooling a s cooling =
      let waiting : (a.cooldown - 1 == 0) ≡ false = ground (arith, cooling) in
      elim (Bool-cases (is_bad double t s)) [
        | inl bad ↦ rw (bad, waiting) (ground arith)
        | inr fine ↦
            rw (fine, waiting)
              (elim (Bool-cases (is_good double t s)) [
                | inl good ↦ rw good (ground arith)
                | inr neutral ↦ rw neutral (refl, refl, refl)
              ])
      ]

  update_all-cooling :
      (a : AdaptiveBitrate) (samples : List (LinkSample double.Carrier))
      → length samples < a.cooldown
      → ((update_all a samples).current_kbps ≡ a.current_kbps)
        × ((update_all a samples).cooldown ≡ a.cooldown - length samples)
  unfolding update_all
  update_all-cooling a [] short = (refl, omega arith)
  update_all-cooling a (s ∷ samples) short =
      let one = update-cooling a s (omega (arith, short)) in
      let rest = update_all-cooling (update double t a s).1 samples (omega (arith, short, one.2)) in
      (rest.0 ∙ one.1, omega (arith, rest.1, one.2))

  change-cooldown :
      (a : AdaptiveBitrate) (next new : ℕ)
      → (change double t a next).0 ≡ some new
      → ((change double t a next).1.current_kbps ≡ new)
        × ((change double t a next).1.cooldown ≡ t.cooldown_samples)
  unfolding change
  change-cooldown a next new = elim (Bool-cases (not (next == a.current_kbps))) [
    | inl other ↦ rw other (λ h. (let same : next ≡ new = cc in same, refl))
    | inr same ↦ rw same (λ h. absurd cc)
  ]

  update-cooldown :
      (a : AdaptiveBitrate) (s : LinkSample double.Carrier) (new : ℕ)
      → (update double t a s).0 ≡ some new
      → ((update double t a s).1.current_kbps ≡ new)
        × ((update double t a s).1.cooldown ≡ t.cooldown_samples)
  unfolding update step_down step_up
  update-cooldown a s new = elim (Bool-cases (is_bad double t s)) [
    | inl bad ↦
        rw bad
          (elim (Bool-cases
            (leb t.down_streak_needed (a.down_streak + 1) && (a.cooldown - 1) == 0)) [
              | inl due ↦ rw due (change-cooldown _ _ new)
              | inr early ↦ rw early (λ h. absurd cc)
            ])
    | inr fine ↦ rw fine (elim (Bool-cases (is_good double t s)) [
      | inl good ↦
          rw good
            (elim (Bool-cases (
              leb t.up_streak_needed (a.up_streak + 1)
              && (a.cooldown - 1) == 0
              && ltb a.current_kbps a.max_kbps)) [
                | inl due ↦ rw due (change-cooldown _ _ new)
                | inr early ↦ rw early (λ h. absurd cc)
              ])
      | inr neutral ↦ rw neutral (λ h. absurd cc)
    ])
  ]

  -- After a sample that reported a new target, the target stays for any further samples, and the
  -- sample after them reports nothing, as long as these samples, with that one, are fewer than
  -- `cooldown_samples`.
  pub changes_apart :
      (a : AdaptiveBitrate) (s next : LinkSample double.Carrier)
      (samples : List (LinkSample double.Carrier)) (new : ℕ)
      → (update double t a s).0 ≡ some new
      → length samples + 1 < t.cooldown_samples
      → let later = update_all (update double t a s).1 samples in
        (later.current_kbps ≡ new) × ((update double t later next).0 ≡ none)
  changes_apart a s next samples new h short =
      let set_ = update-cooldown a s new h in
      let quiet =
        update_all-cooling (update double t a s).1 samples (omega (arith, short, set_.1)) in
      (
        quiet.0 ∙ set_.0,
        (update-cooling (update_all (update double t a s).1 samples) next
            (omega (arith, quiet.1, set_.1, short))).0,
      )

  -- Every sample is bad.
  abbrev pub AllBad : List (LinkSample double.Carrier) → Type 0
  AllBad = All (λ s. is_bad double t s ≡ true)

  -- The target that a step down goes to.
  abbrev pub lowered : AdaptiveBitrate → ℕ
  lowered a =
      max a.min_kbps (a.current_kbps - max 250 (double.scaled a.current_kbps t.down_step_fraction))

  -- The controller after a bad sample that it waits at.
  waited : AdaptiveBitrate → AdaptiveBitrate
  unfolding overflows
  waited a = record a {
    down_streak = a.down_streak + 1;
    up_streak = 0;
    cooldown = a.cooldown - 1;
    fault = a.fault || overflows (a.down_streak + 1);
  }

  bad_waits :
      (a : AdaptiveBitrate) (s : LinkSample double.Carrier)
      → is_bad double t s ≡ true
      → a.down_streak + 1 < t.down_streak_needed
      → (update double t a s).1 ≡ waited a
  unfolding update step_down waited
  bad_waits a s bad early =
      let test : leb t.down_streak_needed (a.down_streak + 1) ≡ false = ground (arith, early) in
      rw (bad, test) refl

  bad_lowers :
      (a : AdaptiveBitrate) (s : LinkSample double.Carrier)
      → is_bad double t s ≡ true
      → t.down_streak_needed ≤ a.down_streak + 1
      → a.cooldown ≤ 1
      → a.min_kbps < a.current_kbps
      → ((update double t a s).0 ≡ some (lowered a))
        × ((update double t a s).1.current_kbps ≡ lowered a)
  unfolding update step_down change
  bad_lowers a s bad due cooled above =
      let test : leb t.down_streak_needed (a.down_streak + 1) ≡ true = ground (arith, due) in
      let ready : (a.cooldown - 1 == 0) ≡ true = ground (arith, cooled) in
      let lower : (lowered a == a.current_kbps) ≡ false = ground (arith, above) in
      rw (bad, test, ready, lower) (refl, refl)

  -- From a target above its lower bound, bad samples in a row lower it by one step once their number
  -- reaches `down_streak_needed`: at the last of them the new target is reported, it is lower by 250
  -- at least or is the lower bound, and before that the target stayed. The cooldown is over by then.
  pub bad_run_lowers :
      (a : AdaptiveBitrate) (before : List (LinkSample double.Carrier))
      (last : LinkSample double.Carrier)
      → AllBad before
      → is_bad double t last ≡ true
      → a.down_streak + length before + 1 ≡ t.down_streak_needed
      → a.cooldown ≤ length before + 1
      → a.min_kbps < a.current_kbps
      → ((update_all a before).current_kbps ≡ a.current_kbps)
        × ((update double t (update_all a before) last).0 ≡ some (lowered a))
        × ((update double t (update_all a before) last).1.current_kbps ≡ lowered a)
        × (lowered a < a.current_kbps)
  unfolding update_all waited
  bad_run_lowers a [] last bads bad count cooled above =
      let done = bad_lowers a last bad (omega (arith, count)) cooled above in
      (refl, done.0, done.1, omega (arith, above))
  bad_run_lowers a (s ∷ before) last (first, bads) bad count cooled above =
      rw (bad_waits a s first (omega (arith, count)), update_all)
        (bad_run_lowers (waited a) before last bads bad (omega (arith, count))
          (omega (arith, cooled)) above)
