-- ===== src/Codes/Normal.antt =====
-- The normalization of session codes.
use iran_remote_play.Prelude.{
  ℕ, ◌≡◌, refl, sym, ap, ◌∙◌, subst, inl, inr, some, List, [], ◌∷◌, ◌++◌, Bool, true, false, ◌&&◌,
  ◌||◌, not, ltb, ◌==◌, length, take, drop, arith, take-all, append-nil, All-append, Bool-cases,
  length-append, length-take, length-drop, All, take-append, drop-append, take-append-drop,
}
use native.Mathlib.Decide.{ℕ_discrete}
use iran_remote_play.Prelude.Bytes.{IsByte}
use iran_remote_play.Codes.{
  dash, code_alphabet, upper, compact, found, all_found, canonical, normalize_session_code,
}

-- A character that `normalizeSessionCode` keeps as it is.
unfoldable pub stays : ℕ → Bool
unfolding upper
stays ch =
    not (ch == dash) && not (ch == 32) && upper ch == ch && ltb ch 256 && found code_alphabet ch

unfoldable pub all_stay : List ℕ → Bool
all_stay [] = true
all_stay (ch ∷ chars) = stays ch && all_stay chars

pub alphabet_stays : all_stay code_alphabet ≡ true
unfolding all_stay stays found upper
alphabet_stays = refl

found-stays :
    (alphabet : List ℕ) (ch : ℕ)
    → all_stay alphabet ≡ true
    → found alphabet ch ≡ true
    → stays ch ≡ true
unfolding all_stay found
found-stays [] ch stay h = absurd cc
found-stays (a ∷ alphabet) ch stay h = elim (ℕ_discrete a ch) [
  | yes same ↦ subst (λ c. stays c ≡ true) same (ground (arith, stay))
  | no other ↦ found-stays alphabet ch (ground (arith, stay)) (ground (arith, h, other))
]

all_found_stay : (chars : List ℕ) → all_found chars ≡ true → all_stay chars ≡ true
unfolding all_found all_stay
all_found_stay [] h = refl
all_found_stay (ch ∷ chars) h =
    let one = found-stays code_alphabet ch alphabet_stays (ground (arith, h)) in
    let more = all_found_stay chars (ground (arith, h)) in rw (one, more) refl

compact-stay :
    (chars rest : List ℕ) → all_stay chars ≡ true → compact (chars ++ rest) ≡ chars ++ compact rest
unfolding all_stay stays compact
compact-stay [] rest h = refl
compact-stay (ch ∷ chars) rest h =
    let tail = compact-stay chars rest (ground (arith, h)) in
    let kept : (ch == dash || ch == 32) ≡ false = ground (arith, h) in
    let same : upper ch ≡ ch = ground (arith, h) in rw (kept, same, tail) refl

stay_bytes : (chars : List ℕ) → all_stay chars ≡ true → All IsByte chars
unfolding all_stay stays
stay_bytes [] h = tt
stay_bytes (ch ∷ chars) h = (ground (arith, h), stay_bytes chars (ground (arith, h)))

-- The canonical form "XXXX-XXXX".
pub record IsCode (code : List ℕ) : Type 0 where
  pub left : List ℕ
  pub right : List ℕ
  pub joined : left ++ (dash ∷ right) ≡ code
  pub left_size : length left ≡ 4
  pub right_size : length right ≡ 4
  pub left_found : all_found left ≡ true
  pub right_found : all_found right ≡ true

all_found-append : (xs ys : List ℕ) → all_found (xs ++ ys) ≡ all_found xs && all_found ys
unfolding all_found
all_found-append [] ys = refl
all_found-append (x ∷ xs) ys = let tail = all_found-append xs ys in ground (arith, tail)

canonical-IsCode :
    (chars : List ℕ) → length chars ≡ 8 → all_found chars ≡ true → IsCode (canonical chars)
canonical-IsCode chars size ok =
    let both : all_found (take 4 chars) && all_found (drop 4 chars) ≡ true =
      sym (all_found-append (take 4 chars) (drop 4 chars))
      ∙ (ap all_found (take-append-drop 4 chars) ∙ ok) in
    record {
      left = take 4 chars;
      right = take 4 (drop 4 chars);
      joined = refl;
      left_size = length-take 4 chars ∙ omega (arith, size);
      right_size = length-take 4 (drop 4 chars) ∙ omega (arith, size, length-drop 4 chars);
      left_found = ground (arith, both);
      right_found =
          rw (take-all (drop 4 chars) 4 (omega (arith, size, length-drop 4 chars)))
            (ground (arith, both));
    }

-- What `normalizeSessionCode` returns is a canonical code.
pub normalize_IsCode :
    (input code : List ℕ) → normalize_session_code input ≡ some code → IsCode code
unfolding normalize_session_code
normalize_IsCode input code = elim (Bool-cases (not (length (compact input) == 8))) [
  | inl other ↦ rw other (λ h. cc)
  | inr eight ↦ rw eight (elim (Bool-cases (not (all_found (compact input)))) [
    | inl bad ↦ rw bad (λ h. cc)
    | inr ok ↦ rw ok (λ h.
        subst IsCode (let same : canonical (compact input) ≡ code = cc in same)
          (canonical-IsCode (compact input) (ground (arith, eight)) (ground (arith, ok))))
  ])
]

compact-code :
    (left right : List ℕ)
    → all_found left ≡ true
    → all_found right ≡ true
    → compact (left ++ (dash ∷ right)) ≡ left ++ right
compact-code left right hl hr =
    compact-stay left (dash ∷ right) (all_found_stay left hl)
    ∙ ap (λ t. left ++ t)
        (unfold compact in
          (ap compact (sym (append-nil right))
            ∙ (compact-stay right [] (all_found_stay right hr) ∙ append-nil right)))

-- A canonical code is normalized to itself.
pub code_normal : (code : List ℕ) → IsCode code → normalize_session_code code ≡ some code
unfolding normalize_session_code
code_normal code c =
    let shape = compact-code c.left c.right c.left_found c.right_found in
    let size : length (c.left ++ c.right) ≡ 8 =
      omega (arith, length-append c.left c.right, c.left_size, c.right_size) in
    let ok : all_found (c.left ++ c.right) ≡ true =
      rw (all_found-append c.left c.right, c.left_found) c.right_found in
    subst (λ x. normalize_session_code x ≡ some x) c.joined
      (rw
        (
          shape,
          size,
          ok,
          take-append c.left c.right 4 c.left_size,
          drop-append c.left c.right 4 c.left_size,
          take-all c.right 4 (omega (arith, c.right_size)),
        )
        refl)

pub code_bytes : (code : List ℕ) → IsCode code → All IsByte code
code_bytes code c = subst (All IsByte) c.joined (
    All-append IsByte c.left (dash ∷ c.right)
      (stay_bytes c.left (all_found_stay c.left c.left_found))
      (omega arith, stay_bytes c.right (all_found_stay c.right c.right_found)))

-- What the normalization accepts is in the canonical form, and normalizing it again changes nothing.
pub normalize_session_code_idempotent :
    (input code : List ℕ)
    → normalize_session_code input ≡ some code
    → IsCode code × (normalize_session_code code ≡ some code)
normalize_session_code_idempotent input code h =
    let c = normalize_IsCode input code h in (c, code_normal code c)
