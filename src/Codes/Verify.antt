-- ===== src/Codes/Verify.antt =====
-- The verification of session codes, and the codes that are generated.
use iran_remote_play.Prelude.{
  ℕ, zero, suc, ◌+◌, ◌-◌, ◌/◌, ◌%◌, ◌<◌, ◌≡◌, refl, sym, ap, ◌↔◌, Option, none, some, List, [], ◌∷◌,
  true, if◌then◌else◌, ltb, length, get_or, arith, All,
}
use iran_remote_play.Prelude.Bytes.{IsByte}
use iran_remote_play.Codes.Compare.{constant_time_equal_iff}
use iran_remote_play.Codes.Normal.{
  stays, all_stay, alphabet_stays, IsCode, code_normal, normalize_IsCode, code_bytes,
}
use iran_remote_play.Codes.{
  code_alphabet, random_code_chars, generate_session_code, found, all_found, normalize_session_code,
  verify_normalized, verify_session_code,
}

verify_normalized_iff :
    (p a : Option (List ℕ))
    → ((code : List ℕ) → p ≡ some code → All IsByte code)
    → ((code : List ℕ) → a ≡ some code → All IsByte code)
    → (verify_normalized p a ≡ true) ↔ ((code : List ℕ) × (p ≡ some code) × (a ≡ some code))
verify_normalized_iff none a hp ha = (λ h. absurd cc, λ (code, h, k). absurd cc)
verify_normalized_iff (some p) none hp ha = (λ h. absurd cc, λ (code, h, k). absurd cc)
verify_normalized_iff (some p) (some a) hp ha =
    let equal = constant_time_equal_iff p a (hp p refl) (ha a refl) in
    (
      λ h. (p, refl, ap some (sym (equal.0 h))),
      λ (code, h, k). equal.1 (let same : p ≡ a = cc in same),
    )

-- Two inputs verify if and only if both normalize, and to the same code.
pub verify_session_code_iff :
    (presented actual : List ℕ)
    → (verify_session_code presented actual ≡ true) ↔ (
        (code : List ℕ) × (normalize_session_code presented ≡ some code)
        × (normalize_session_code actual ≡ some code))
unfolding verify_session_code
verify_session_code_iff presented actual =
    verify_normalized_iff (normalize_session_code presented) (normalize_session_code actual)
      (λ code h. code_bytes code (normalize_IsCode presented code h))
      (λ code h. code_bytes code (normalize_IsCode actual code h))

all_stay_at :
    (chars : List ℕ) (i : ℕ)
    → all_stay chars ≡ true
    → i < length chars
    → stays (get_or chars i 0) ≡ true
unfolding all_stay
all_stay_at [] i h small = absurd (omega (arith, small))
all_stay_at (ch ∷ chars) zero h small = ground (arith, h)
all_stay_at (ch ∷ chars) (suc i) h small =
    all_stay_at chars i (ground (arith, h)) (omega (arith, small))

stays-found : (ch : ℕ) → stays ch ≡ true → found code_alphabet ch ≡ true
unfolding stays
stays-found ch h = ground (arith, h)

random_code_chars_found :
    (random_word : ℕ → ℕ) (count buf bits draws : ℕ)
    → (length (random_code_chars random_word count buf bits draws).0 ≡ count)
      × (all_found (random_code_chars random_word count buf bits draws).0 ≡ true)
unfolding random_code_chars all_found
random_code_chars_found random_word zero buf bits draws = (refl, refl)
random_code_chars_found random_word (suc count) buf bits draws =
    let refill = ltb bits 8 in
    let rest =
      random_code_chars_found random_word count ((if refill then random_word draws else buf) / 256)
        ((if refill then 32 else bits) - 8) (if refill then draws + 1 else draws) in
    let here = (if refill then random_word draws else buf) % 256 % 32 in
    (
      ap suc rest.0,
      rw (stays-found _ (all_stay_at code_alphabet here alphabet_stays (omega arith))) rest.1,
    )

-- A generated code, whatever the random words are, is in the canonical form, and presenting it as
-- the session's code verifies.
pub generate_session_code_verifies :
    (random_word : ℕ → ℕ) (draws : ℕ)
    → let code = generate_session_code random_word draws in
      IsCode code
      × (normalize_session_code code ≡ some code)
      × (verify_session_code code code ≡ true)
unfolding generate_session_code
generate_session_code_verifies random_word draws =
    let left = random_code_chars_found random_word 4 0 0 draws in
    let right =
      random_code_chars_found random_word 4 0 0 (random_code_chars random_word 4 0 0 draws).1 in
    let c : IsCode (generate_session_code random_word draws) = record {
      left = _;
      right = _;
      joined = refl;
      left_size = left.0;
      right_size = right.0;
      left_found = left.1;
      right_found = right.1;
    } in
    let normal = code_normal _ c in (c, normal, (verify_session_code_iff _ _).1 (_, normal, normal))
