-- ===== src/Bitrate.antt =====
-- adapt/AdaptiveBitrate.h and adapt/AdaptiveBitrate.cpp: the adaptive bitrate controller. A `double`
-- is an element of a type that is a parameter, with its comparisons and with the `int` that the
-- product of an `int` and a `double` is cut down to. The bitrates are not negative, so the
-- subtraction that stops at 0 stands below `std::max` with the lower bound. A sum of `int`s that is
-- too large is undefined behaviour, and is noted in `fault`.
use iran_remote_play.Prelude.{
  ℕ, zero, suc, ◌+◌, ◌-◌, ◌*◌, ◌/◌, ◌%◌, ◌^◌, ◌≤◌, ◌<◌, min, max, ◌≡◌, refl, sym, ap, ◌∙◌, subst,
  ◌≢◌, ◌↔◌, ◌⊎◌, inl, inr, Option, none, some, List, [], ◌∷◌, ◌++◌, map, Bool, true, false, ◌&&◌,
  ◌||◌, not, if◌then◌else◌, leb, ltb, ◌==◌, length, take, drop, get_or, set, replicate, arith,
  take-all, append-nil, append_assoc, Bool-cases, Option-cases, length-append, length-take,
  length-drop, All, append-eq-nil, take-append, drop-append,
}
pub mod Bounds
pub mod Steps

-- What the code uses of `double`: `at_most a b` is `a <= b`, `below a b` is `a < b`, `scaled n f` is
-- `static_cast<int>(n * f)`, and `zero_point`, `two` are the constants.
pub record Double : Type 1 where
  pub Carrier : Type 0
  pub at_most : Carrier → Carrier → Bool
  pub below : Carrier → Carrier → Bool
  pub scaled : ℕ → Carrier → ℕ
  pub zero_point : Carrier
  pub two : Carrier

pub record LinkSample (D : Type 0) : Type 0 where
  pub rtt_ms : D
  pub loss_percent : D
  pub jitter_ms : D
  pub decode_queue_frames : D
  pub fps_ratio : D

-- The thresholds, which are public members of the class.
pub record Thresholds (D : Type 0) : Type 0 where
  pub bad_rtt_ms : D
  pub bad_loss_percent : D
  pub bad_jitter_ms : D
  pub bad_queue_frames : D
  pub bad_fps_ratio : D
  pub good_rtt_ms : D
  pub good_loss_percent : D
  pub good_jitter_ms : D
  pub good_fps_ratio : D
  pub down_streak_needed : ℕ
  pub up_streak_needed : ℕ
  pub cooldown_samples : ℕ
  pub down_step_fraction : D
  pub up_step_fraction : D

-- `fault` is no member of the class: it is set when an `int` overflows, and what the record says from
-- then on means nothing.
pub record AdaptiveBitrate : Type 0 where
  pub current_kbps : ℕ
  pub min_kbps : ℕ
  pub max_kbps : ℕ
  pub down_streak : ℕ
  pub up_streak : ℕ
  pub cooldown : ℕ
  pub fault : Bool

-- Whether a number is too large for an `int`.
unfoldable pub overflows : ℕ → Bool
overflows n = leb (2 ^ 31) n

-- `std::clamp`.
abbrev pub clamp : ℕ → ℕ → ℕ → ℕ
clamp v lo hi = if ltb v lo then lo else if ltb hi v then hi else v

unfoldable pub init : ℕ → ℕ → ℕ → AdaptiveBitrate
init initial_kbps min_kbps max_kbps = record {
  current_kbps = clamp initial_kbps min_kbps max_kbps;
  min_kbps = min_kbps;
  max_kbps = max_kbps;
  down_streak = 0;
  up_streak = 0;
  cooldown = 0;
  fault = false;
}

unfoldable pub degraded : AdaptiveBitrate → Bool
degraded a = ltb 0 a.down_streak

module _ (double : Double) (t : Thresholds double.Carrier) where
  unfoldable pub is_bad : LinkSample double.Carrier → Bool
  is_bad s =
      double.at_most t.bad_loss_percent s.loss_percent
      || double.at_most t.bad_rtt_ms s.rtt_ms
      || double.at_most t.bad_jitter_ms s.jitter_ms
      || double.at_most t.bad_queue_frames s.decode_queue_frames
      || double.below double.zero_point s.fps_ratio && double.at_most s.fps_ratio t.bad_fps_ratio

  unfoldable pub is_good : LinkSample double.Carrier → Bool
  is_good s =
      not (double.below t.good_loss_percent s.loss_percent)
      && not (double.below t.bad_rtt_ms s.rtt_ms)
      && not (double.below t.good_jitter_ms s.jitter_ms)
      && not (double.at_most double.two s.decode_queue_frames)
      && not
          (double.below double.zero_point s.fps_ratio && double.below s.fps_ratio t.good_fps_ratio)

  -- The last lines of a step down or up: the streak is reset by then.
  unfoldable pub change : AdaptiveBitrate → ℕ → Option ℕ × AdaptiveBitrate
  change a next =
      if not (next == a.current_kbps)
      then (some next, record a { current_kbps = next; cooldown = t.cooldown_samples })
      else (none, a)

  -- The branch for a bad sample.
  unfoldable pub step_down : AdaptiveBitrate → Option ℕ × AdaptiveBitrate
  unfolding overflows
  step_down a =
      let bad : AdaptiveBitrate = record a {
        down_streak = a.down_streak + 1;
        up_streak = 0;
        fault = a.fault || overflows (a.down_streak + 1);
      } in
      let step = max 250 (double.scaled a.current_kbps t.down_step_fraction) in
      if leb t.down_streak_needed bad.down_streak && a.cooldown == 0
      then change (record bad { down_streak = 0 }) (max a.min_kbps (a.current_kbps - step))
      else (none, bad)

  -- The branch for a good sample.
  unfoldable pub step_up : AdaptiveBitrate → Option ℕ × AdaptiveBitrate
  unfolding overflows
  step_up a =
      let good : AdaptiveBitrate = record a {
        up_streak = a.up_streak + 1;
        down_streak = 0;
        fault = a.fault || overflows (a.up_streak + 1);
      } in
      let step = max 250 (double.scaled a.current_kbps t.up_step_fraction) in
      let sum = a.current_kbps + step in
      if leb t.up_streak_needed good.up_streak && a.cooldown == 0 && ltb a.current_kbps a.max_kbps
      then change (record good { up_streak = 0; fault = good.fault || overflows sum })
          (min a.max_kbps sum)
      else (none, good)

  unfoldable pub update : AdaptiveBitrate → LinkSample double.Carrier → Option ℕ × AdaptiveBitrate
  update a s =
      let cooled : AdaptiveBitrate = record a { cooldown = a.cooldown - 1 } in
      if is_bad s
      then step_down cooled
      else if is_good s
      then step_up cooled
      else (none, record cooled { down_streak = 0; up_streak = 0 })

  unfoldable pub set_manual : AdaptiveBitrate → ℕ → AdaptiveBitrate
  set_manual a kbps = record a {
    current_kbps = clamp kbps a.min_kbps a.max_kbps;
    down_streak = 0;
    up_streak = 0;
    cooldown = t.cooldown_samples;
  }
