-- ===== src/Prelude/Lists.antt =====
-- Lists measured and indexed by native numbers, under the library's names.
use Prim.Native.Nat.{ℕ, zero, suc, ◌+◌, ◌-◌, ◌≤◌, ◌<◌, min}
use mathlib.Core.Path.{◌≡◌, refl, ap, ◌∙◌}
use mathlib.Core.Logic.{◌≢◌}
use mathlib.Core.List.{List, [], ◌∷◌, ◌++◌, map, reverse_aux}
use mathlib.Core.Option.{Option, none, some}
use mathlib.Core.Bool.{Bool, true, false}
use native.Mathlib.Omega.{arith}

module _ {ℓ} {A : Type ℓ} where
  abbrev pub length : List A → ℕ
  length [] = 0
  length (x ∷ xs) = suc (length xs)

  abbrev pub is_empty : List A → Bool
  is_empty [] = true
  is_empty (x ∷ xs) = false

  abbrev pub IsPrefix : List A → List A → Type ℓ
  IsPrefix xs ys = (zs : List A) × (xs ++ zs ≡ ys)

  abbrev pub get_elem? : List A → ℕ → Option A
  get_elem? [] i = none
  get_elem? (x ∷ xs) zero = some x
  get_elem? (x ∷ xs) (suc i) = get_elem? xs i

  -- A write out of bounds changes nothing.
  abbrev pub set : List A → ℕ → A → List A
  set [] i v = []
  set (x ∷ xs) zero v = v ∷ xs
  set (x ∷ xs) (suc i) v = x ∷ set xs i v

  pub length-append : (xs ys : List A) → length (xs ++ ys) ≡ length xs + length ys
  length-append [] ys = omega arith
  length-append (x ∷ xs) ys = omega (arith, length-append xs ys)

module _ {ℓ} {A : Type ℓ} where
  pub length-set : (xs : List A) (i : ℕ) (v : A) → length (set xs i v) ≡ length xs
  length-set [] i v = refl
  length-set (x ∷ xs) zero v = refl
  length-set (x ∷ xs) (suc i) v = ap suc (length-set xs i v)

  pub get_elem?-set_self :
      (xs : List A) (i : ℕ) (v : A) → i < length xs → get_elem? (set xs i v) i ≡ some v
  get_elem?-set_self [] i v h = elim h [ ]
  get_elem?-set_self (x ∷ xs) zero v h = refl
  get_elem?-set_self (x ∷ xs) (suc i) v h = get_elem?-set_self xs i v (omega arith)

  pub get_elem?-set_ne :
      (xs : List A) {i j : ℕ} (v : A) → i ≢ j → get_elem? (set xs i v) j ≡ get_elem? xs j
  get_elem?-set_ne [] v h = refl
  get_elem?-set_ne (x ∷ xs) {i = zero} {j = zero} v h = absurd (h refl)
  get_elem?-set_ne (x ∷ xs) {i = zero} {j = suc j} v h = refl
  get_elem?-set_ne (x ∷ xs) {i = suc i} {j = zero} v h = refl
  get_elem?-set_ne (x ∷ xs) {i = suc i} {j = suc j} v h = get_elem?-set_ne xs v (λ e. h (ap suc e))

module _ {ℓ} {A : Type ℓ} where
  abbrev pub get_or : List A → ℕ → A → A
  get_or [] i d = d
  get_or (x ∷ xs) zero d = x
  get_or (x ∷ xs) (suc i) d = get_or xs i d

  abbrev pub take : ℕ → List A → List A
  take zero xs = []
  take (suc n) [] = []
  take (suc n) (x ∷ xs) = x ∷ take n xs

  abbrev pub drop : ℕ → List A → List A
  drop zero xs = xs
  drop (suc n) [] = []
  drop (suc n) (x ∷ xs) = drop n xs

  abbrev pub replicate : ℕ → A → List A
  replicate zero a = []
  replicate (suc n) a = a ∷ replicate n a

  pub take-append-drop : (n : ℕ) (xs : List A) → take n xs ++ drop n xs ≡ xs
  take-append-drop zero xs = refl
  take-append-drop (suc n) [] = refl
  take-append-drop (suc n) (x ∷ xs) = rw (take-append-drop n xs)

  pub length-take : (n : ℕ) (xs : List A) → length (take n xs) ≡ min n (length xs)
  length-take zero xs = omega arith
  length-take (suc n) [] = omega arith
  length-take (suc n) (x ∷ xs) = omega (arith, length-take n xs)

  pub length-drop : (n : ℕ) (xs : List A) → length (drop n xs) ≡ length xs - n
  length-drop zero xs = omega arith
  length-drop (suc n) [] = omega arith
  length-drop (suc n) (x ∷ xs) = omega (arith, length-drop n xs)

  pub length-replicate : (n : ℕ) (a : A) → length (replicate n a) ≡ n
  length-replicate zero a = refl
  length-replicate (suc n) a = ap suc (length-replicate n a)

  pub length-map {κ} : {B : Type κ} (xs : List A) (f : A → B) → length (map f xs) ≡ length xs
  length-map [] f = refl
  length-map (x ∷ xs) f = ap suc (length-map xs f)

module _ {ℓ} {A : Type ℓ} where
  pub take-append : (xs ys : List A) (n : ℕ) → length xs ≡ n → take n (xs ++ ys) ≡ xs
  take-append [] ys zero h = refl
  take-append [] ys (suc n) h = absurd (omega arith)
  take-append (x ∷ xs) ys zero h = absurd (omega arith)
  take-append (x ∷ xs) ys (suc n) h = ap (λ t. x ∷ t) (take-append xs ys n (omega arith))

  pub drop-append : (xs ys : List A) (n : ℕ) → length xs ≡ n → drop n (xs ++ ys) ≡ ys
  drop-append [] ys zero h = refl
  drop-append [] ys (suc n) h = absurd (omega arith)
  drop-append (x ∷ xs) ys zero h = absurd (omega arith)
  drop-append (x ∷ xs) ys (suc n) h = drop-append xs ys n (omega arith)

  pub take-append_le : (xs ys : List A) (n : ℕ) → n ≤ length xs → take n (xs ++ ys) ≡ take n xs
  take-append_le [] ys zero h = refl
  take-append_le [] ys (suc n) h = absurd (omega arith)
  take-append_le (x ∷ xs) ys zero h = refl
  take-append_le (x ∷ xs) ys (suc n) h = ap (λ t. x ∷ t) (take-append_le xs ys n (omega arith))

  pub drop-append_le :
      (xs ys : List A) (n : ℕ) → n ≤ length xs → drop n (xs ++ ys) ≡ drop n xs ++ ys
  drop-append_le [] ys zero h = refl
  drop-append_le [] ys (suc n) h = absurd (omega arith)
  drop-append_le (x ∷ xs) ys zero h = refl
  drop-append_le (x ∷ xs) ys (suc n) h = drop-append_le xs ys n (omega arith)

  pub take-all : (xs : List A) (n : ℕ) → length xs ≤ n → take n xs ≡ xs
  take-all [] zero h = refl
  take-all [] (suc n) h = refl
  take-all (x ∷ xs) zero h = absurd (omega arith)
  take-all (x ∷ xs) (suc n) h = ap (λ t. x ∷ t) (take-all xs n (omega arith))

  pub append-eq-nil : (xs : List A) (y : A) (ys : List A) → xs ++ (y ∷ ys) ≢ []
  append-eq-nil [] y ys e = cc
  append-eq-nil (x ∷ xs) y ys e = cc

  abbrev pub All {κ} : (A → Type κ) → List A → Type κ
  All P [] = Unit {κ}
  All P (x ∷ xs) = P x × All P xs

module _ {ℓ} {A : Type ℓ} where
  pub get_or-set_self :
      (xs : List A) (i : ℕ) (v d : A) → i < length xs → get_or (set xs i v) i d ≡ v
  get_or-set_self [] i v d h = elim h [ ]
  get_or-set_self (x ∷ xs) zero v d h = refl
  get_or-set_self (x ∷ xs) (suc i) v d h = get_or-set_self xs i v d (omega arith)

  pub get_or-set_ne :
      (xs : List A) (i j : ℕ) (v d : A) → i ≢ j → get_or (set xs i v) j d ≡ get_or xs j d
  get_or-set_ne [] i j v d h = refl
  get_or-set_ne (x ∷ xs) zero zero v d h = absurd (h refl)
  get_or-set_ne (x ∷ xs) zero (suc j) v d h = refl
  get_or-set_ne (x ∷ xs) (suc i) zero v d h = refl
  get_or-set_ne (x ∷ xs) (suc i) (suc j) v d h = get_or-set_ne xs i j v d (λ e. h (ap suc e))

-- A predicate of every element.
module _ {ℓ κ} {A : Type ℓ} (P : A → Type κ) where
  pub All-append : (xs ys : List A) → All P xs → All P ys → All P (xs ++ ys)
  All-append [] ys h k = k
  All-append (x ∷ xs) ys (p, h) k = (p, All-append xs ys h k)

  pub All-reverse_aux : (xs ys : List A) → All P xs → All P ys → All P (reverse_aux xs ys)
  All-reverse_aux [] ys h k = k
  All-reverse_aux (x ∷ xs) ys (p, h) k = All-reverse_aux xs (x ∷ ys) h (p, k)

  pub All-imp {μ} : (Q : A → Type μ) → ((x : A) → P x → Q x) → (xs : List A) → All P xs → All Q xs
  All-imp Q f [] h = tt
  All-imp Q f (x ∷ xs) (p, h) = (f x p, All-imp Q f xs h)

module _ {ℓ} {A : Type ℓ} where
  pub take-append_add :
      (xs ys : List A) (n k : ℕ) → n ≡ length xs + k → take n (xs ++ ys) ≡ xs ++ take k ys
  take-append_add [] ys n k h = ap (λ (i : ℕ). take i ys) (omega arith)
  take-append_add (x ∷ xs) ys zero k h = absurd (omega arith)
  take-append_add (x ∷ xs) ys (suc n) k h =
      ap (λ t. x ∷ t) (take-append_add xs ys n k (omega arith))

  pub drop-append_add :
      (xs ys : List A) (n k : ℕ) → n ≡ length xs + k → drop n (xs ++ ys) ≡ drop k ys
  drop-append_add [] ys n k h = ap (λ (i : ℕ). drop i ys) (omega arith)
  drop-append_add (x ∷ xs) ys zero k h = absurd (omega arith)
  drop-append_add (x ∷ xs) ys (suc n) k h = drop-append_add xs ys n k (omega arith)

  pub replicate-eq : (a : A) (m n : ℕ) → m ≡ n → replicate m a ≡ replicate n a
  replicate-eq a m n h = ap (λ (k : ℕ). replicate k a) h

  pub replicate-add : (a : A) (m n : ℕ) → replicate (m + n) a ≡ replicate m a ++ replicate n a
  replicate-add a zero n = replicate-eq a (0 + n) n (omega arith)
  replicate-add a (suc m) n =
      replicate-eq a (suc m + n) (suc (m + n)) (omega arith) ∙ ap (λ t. a ∷ t) (replicate-add a m n)

  pub drop-replicate : (a : A) (m n k : ℕ) → n ≡ m + k → drop m (replicate n a) ≡ replicate k a
  drop-replicate a m n k h =
      ap (drop m) (replicate-eq a n (m + k) h ∙ replicate-add a m k)
      ∙ drop-append (replicate m a) (replicate k a) m (length-replicate m a)

  pub drop-drop : (m n k : ℕ) (xs : List A) → k ≡ n + m → drop m (drop n xs) ≡ drop k xs
  drop-drop m zero k xs h = ap (λ (i : ℕ). drop i xs) (omega arith)
  drop-drop m (suc n) zero xs h = absurd (omega arith)
  drop-drop zero (suc n) (suc k) [] h = refl
  drop-drop (suc m) (suc n) (suc k) [] h = refl
  drop-drop m (suc n) (suc k) (x ∷ xs) h = drop-drop m n k xs (omega arith)

  pub get_or-replicate : (a : A) (n i : ℕ) → get_or (replicate n a) i a ≡ a
  get_or-replicate a zero i = refl
  get_or-replicate a (suc n) zero = refl
  get_or-replicate a (suc n) (suc i) = get_or-replicate a n i
