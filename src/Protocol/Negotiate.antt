-- ===== src/Protocol/Negotiate.antt =====
-- `negotiateCodec`: the first codec of the host's list that the client supports.
use iran_remote_play.Prelude.{
  ℕ, ◌≡◌, ap, subst, inl, inr, Option, none, some, List, [], ◌∷◌, ◌++◌, Bool, true, false, ◌||◌,
  if◌then◌else◌, ◌==◌, arith, Bool-cases, All,
}
use iran_remote_play.Prelude.{==_iff}
use mathlib.Core.List.{Mem, mem-cons, mem-cons_self, mem-cons_of_mem, not-mem-nil}
use mathlib.Core.Logic.Or
use mathlib.Core.HLevel.{⊥_prop}

-- `std::find(list.begin(), list.end(), want) != list.end()`.
unfoldable pub supports : List ℕ → ℕ → Bool
supports [] want = false
supports (c ∷ list) want = c == want || supports list want

unfoldable pub negotiate_codec : List ℕ → List ℕ → Option ℕ
negotiate_codec [] supported = none
negotiate_codec (want ∷ rest) supported =
    if supports supported want then some want else negotiate_codec rest supported

supports-mem : (list : List ℕ) (c : ℕ) → supports list c ≡ true → Mem c list
unfolding supports
supports-mem [] c h = cc
supports-mem (d ∷ list) c h = elim (Bool-cases (d == c)) [
  | inl same ↦ subst (λ x. Mem x (d ∷ list)) ((==_iff d c).0 same) mem-cons_self
  | inr other ↦ mem-cons_of_mem d (supports-mem list c (ground arith))
]

supports-not_mem : (list : List ℕ) (c : ℕ) → supports list c ≡ false → ¬ Mem c list
unfolding supports
supports-not_mem [] c h m = not-mem-nil m
supports-not_mem (d ∷ list) c h m =
    Or.elim ⊥_prop (mem-cons.0 m) (λ e. ground arith) (supports-not_mem list c (ground arith))

-- The host's list splits at the chosen codec into entries that the client does not support, and
-- the codec, which it does.
abbrev pub IsFirst : List ℕ → List ℕ → ℕ → Type 0
IsFirst preference supported c =
    (front : List ℕ) × (back : List ℕ) × (preference ≡ front ++ (c ∷ back))
    × All (λ d. ¬ Mem d supported) front
    × Mem c supported

chosen :
    (preference supported : List ℕ) (c : ℕ)
    → negotiate_codec preference supported ≡ some c
    → IsFirst preference supported c
unfolding negotiate_codec
chosen [] supported c h = cc
chosen (want ∷ rest) supported c h = elim (Bool-cases (supports supported want)) [
  | inl here ↦ (
    [],
    rest,
    ground arith,
    tt,
    subst (λ x. Mem x supported) (ground arith) (supports-mem supported want here),
  )
  | inr absent ↦
      let (front, back, split, before, member) = chosen rest supported c (ground arith) in
      (
        want ∷ front,
        back,
        ap (λ t. want ∷ t) split,
        (supports-not_mem supported want absent, before),
        member,
      )
]

refused :
    (preference supported : List ℕ)
    → negotiate_codec preference supported ≡ none
    → All (λ d. ¬ Mem d supported) preference
unfolding negotiate_codec
refused [] supported h = tt
refused (want ∷ rest) supported h =
    (supports-not_mem supported want (ground arith), refused rest supported (ground arith))

-- The codec that is chosen is the first of the host's list that the client supports; if none is
-- chosen, the client supports none of the host's list.
pub negotiate_codec-IsFirst :
    (preference supported : List ℕ)
    → ((c : ℕ) → negotiate_codec preference supported ≡ some c → IsFirst preference supported c)
      × (negotiate_codec preference supported ≡ none → All (λ d. ¬ Mem d supported) preference)
negotiate_codec-IsFirst preference supported =
    (chosen preference supported, refused preference supported)
