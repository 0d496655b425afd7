-- ===== src/Examples/Controls.antt =====
-- Session codes, the bitrate controller and input payloads on small values.
use iran_remote_play.Prelude.{
  ℕ, ◌*◌, ◌/◌, ◌<◌, ◌≡◌, refl, ◌↔◌, some, List, [], ◌∷◌, true, false, leb, ltb, arith,
}
use iran_remote_play.Codes.{generate_session_code, normalize_session_code, verify_session_code}
use iran_remote_play.Codes.Normal.{IsCode}
use iran_remote_play.Codes.Verify.{verify_session_code_iff, generate_session_code_verifies}
use iran_remote_play.Bitrate.{Double, LinkSample, Thresholds, AdaptiveBitrate, init, is_bad, update}
use iran_remote_play.Bitrate.Bounds.{InRange, StepsFit, Reports, Op, run, run-init-InRange}
use iran_remote_play.Bitrate.Steps.{update_all, bad_run_lowers}
use iran_remote_play.Input.{InputEvent, Unpacked, pack, unpack_input, event_fields}
use iran_remote_play.Input.RoundTrip.{FitsInput, Fits, unpack_input-pack}

-- "abcd-efgh"
abbrev typed : List ℕ
typed = b'a' ∷ b'b' ∷ b'c' ∷ b'd' ∷ 32 ∷ b'e' ∷ b'f' ∷ b'g' ∷ b'2' ∷ []

-- "ABCD-EFG2"
abbrev canonical_code : List ℕ
canonical_code = b'A' ∷ b'B' ∷ b'C' ∷ b'D' ∷ b'-' ∷ b'E' ∷ b'F' ∷ b'G' ∷ b'2' ∷ []

verify_session_code_iff_example : (verify_session_code typed canonical_code ≡ true) ↔ (
    (code : List ℕ) × (normalize_session_code typed ≡ some code)
    × (normalize_session_code canonical_code ≡ some code))
verify_session_code_iff_example = verify_session_code_iff typed canonical_code

generate_session_code_verifies_example :
    IsCode (generate_session_code (λ i. i * 0x1234567) 0)
    × (normalize_session_code (generate_session_code (λ i. i * 0x1234567) 0)
        ≡ some (generate_session_code (λ i. i * 0x1234567) 0))
    × (verify_session_code
          (generate_session_code (λ i. i * 0x1234567) 0)
          (generate_session_code (λ i. i * 0x1234567) 0)
        ≡ true)
generate_session_code_verifies_example = generate_session_code_verifies (λ i. i * 0x1234567) 0

-- Whole thousandths in place of doubles.
abbrev thousandths : Double
thousandths = record {
  Carrier = ℕ;
  at_most = leb;
  below = ltb;
  scaled = λ n f. n * f / 1000;
  zero_point = 0;
  two = 2000;
}

abbrev thresholds : Thresholds ℕ
thresholds = record {
  bad_rtt_ms = 150_000;
  bad_loss_percent = 2000;
  bad_jitter_ms = 15_000;
  bad_queue_frames = 4000;
  bad_fps_ratio = 800;
  good_rtt_ms = 80_000;
  good_loss_percent = 300;
  good_jitter_ms = 5000;
  good_fps_ratio = 950;
  down_streak_needed = 3;
  up_streak_needed = 10;
  cooldown_samples = 2;
  down_step_fraction = 150;
  up_step_fraction = 100;
}

abbrev lossy : LinkSample ℕ
lossy = record {
  rtt_ms = 10_000;
  loss_percent = 5000;
  jitter_ms = 0;
  decode_queue_frames = 0;
  fps_ratio = 1000;
}

abbrev calls : List (Op ℕ)
calls = Op.sample lossy ∷ Op.manual 99_000 ∷ []

-- A step up is a tenth of a target below 30 Mbps, or 250.
fits : StepsFit thousandths thresholds 30_000
fits kbps h = ground (arith, h)

run-init-InRange_example :
    let a = run thousandths thresholds (init 8000 2000 30_000) calls in
    InRange 2000 30_000 a
    × InRange 2000 30_000 (update thousandths thresholds a lossy).1
    × Reports a.current_kbps
        (update thousandths thresholds a lossy).0
        (update thousandths thresholds a lossy).1.current_kbps
run-init-InRange_example =
    run-init-InRange thousandths thresholds 8000 2000 30_000 calls lossy (omega arith) (omega arith)
      fits

abbrev at_8000 : AdaptiveBitrate
at_8000 = record {
  current_kbps = 8000;
  min_kbps = 2000;
  max_kbps = 30_000;
  down_streak = 0;
  up_streak = 0;
  cooldown = 0;
  fault = false;
}

bad_run_lowers_example :
    ((update_all thousandths thresholds at_8000 (lossy ∷ lossy ∷ [])).current_kbps ≡ 8000)
    × ((update thousandths thresholds
          (update_all thousandths thresholds at_8000 (lossy ∷ lossy ∷ []))
          lossy).0
        ≡ some 6800)
    × ((update thousandths thresholds
          (update_all thousandths thresholds at_8000 (lossy ∷ lossy ∷ []))
          lossy).1.current_kbps
        ≡ 6800)
    × (6800 < 8000)
unfolding is_bad
bad_run_lowers_example =
    bad_run_lowers thousandths thresholds at_8000 (lossy ∷ lossy ∷ []) lossy (refl, (refl, tt)) refl
      refl (omega arith) (omega arith)

-- The key A goes down.
abbrev key_down : InputEvent
key_down = record {
  type = 1;
  code = 65;
  x = 0;
  y = 0;
  delta = 0;
  pad0 = 0;
  flags = 0;
  timestamp_ns = 1000;
}

unpack_input-pack_example :
    unpack_input (pack (Unpacked.event key_down)) ≡ some (Unpacked.event key_down)
unfolding FitsInput Fits event_fields
unpack_input-pack_example = unpack_input-pack (Unpacked.event key_down) (
  omega arith,
  (
    omega arith,
    (omega arith, (omega arith, (omega arith, (omega arith, (omega arith, (omega arith, tt)))))),
  ),
)
