-- ===== src/Udp/Jitter/Queue.antt =====
-- The queue of a `JitterBuffer` as a list: sorting, and dropping from the front.
use iran_remote_play.Prelude.{
  suc, ◌*◌, ◌≤◌, ◌<◌, ◌≡◌, refl, inl, inr, List, [], ◌∷◌, ◌++◌, leb, ltb, length, arith, Bool-cases,
  length-append, All,
}
use mathlib.Core.List.{reverse, reverse-cons}
use iran_remote_play.Prelude.{All-append, All-reverse_aux, All-imp}
use iran_remote_play.Udp.Jitter.{Entry, high_watermark, drop_oldest, sift, push_sorted}

-- No entry is newer than one behind it.
abbrev pub Sorted : List Entry → Type 0
Sorted [] = Unit
Sorted (e ∷ queue) = All (λ x. e.sequence ≤ x.sequence) queue × Sorted queue

abbrev Down : List Entry → Type 0
Down [] = Unit
Down (e ∷ queue) = All (λ x. x.sequence ≤ e.sequence) queue × Down queue

Sorted-snoc :
    (xs : List Entry) (e : Entry)
    → Sorted xs
    → All (λ x. x.sequence ≤ e.sequence) xs
    → Sorted (xs ++ (e ∷ []))
Sorted-snoc [] e s h = (tt, tt)
Sorted-snoc (x ∷ xs) e (a, s) (p, h) = (All-append _ xs (e ∷ []) a (p, tt), Sorted-snoc xs e s h)

Down-snoc :
    (xs : List Entry) (e : Entry)
    → Down xs
    → All (λ x. e.sequence ≤ x.sequence) xs
    → Down (xs ++ (e ∷ []))
Down-snoc [] e s h = (tt, tt)
Down-snoc (x ∷ xs) e (a, s) (p, h) = (All-append _ xs (e ∷ []) a (p, tt), Down-snoc xs e s h)

Sorted-reverse : (xs : List Entry) → Down xs → Sorted (reverse xs)
Sorted-reverse [] d = tt
Sorted-reverse (x ∷ xs) (a, d) =
    rw (reverse-cons x xs)
      (Sorted-snoc (reverse xs) x (Sorted-reverse xs d) (All-reverse_aux _ xs [] a tt))

Down-reverse : (xs : List Entry) → Sorted xs → Down (reverse xs)
Down-reverse [] d = tt
Down-reverse (x ∷ xs) (a, d) =
    rw (reverse-cons x xs)
      (Down-snoc (reverse xs) x (Down-reverse xs d) (All-reverse_aux _ xs [] a tt))

All-sift {κ} :
    (P : Entry → Type κ) (e : Entry) (xs : List Entry) → P e → All P xs → All P (sift e xs)
unfolding sift
All-sift P e [] p h = (p, tt)
All-sift P e (x ∷ xs) p (q, h) = elim (Bool-cases (ltb e.sequence x.sequence)) [
  | inl older ↦ rw older (q, All-sift P e xs p h)
  | inr newer ↦ rw newer (p, (q, h))
]

Down-sift : (e : Entry) (xs : List Entry) → Down xs → Down (sift e xs)
unfolding sift
Down-sift e [] d = (tt, tt)
Down-sift e (x ∷ xs) (a, d) = elim (Bool-cases (ltb e.sequence x.sequence)) [
  | inl older ↦ rw older (All-sift _ e xs (ground arith) a, Down-sift e xs d)
  | inr newer ↦
      let le : x.sequence ≤ e.sequence = ground arith in
      rw newer ((le, All-imp _ _ (λ y h. omega arith) xs a), (a, d))
]

pub Sorted-push_sorted :
    (e : Entry) (queue : List Entry) → Sorted queue → Sorted (push_sorted e queue)
unfolding push_sorted
Sorted-push_sorted e queue s = Sorted-reverse _ (Down-sift e (reverse queue) (Down-reverse queue s))

pub All-push_sorted {κ} :
    (P : Entry → Type κ) (e : Entry) (queue : List Entry)
    → P e
    → All P queue
    → All P (push_sorted e queue)
unfolding push_sorted
All-push_sorted P e queue p h =
    All-reverse_aux P _ [] (All-sift P e (reverse queue) p (All-reverse_aux P queue [] h tt)) tt

length-sift : (e : Entry) (xs : List Entry) → length (sift e xs) ≡ suc (length xs)
unfolding sift
length-sift e [] = refl
length-sift e (x ∷ xs) = ground (arith, length-sift e xs)

length-reverse : (xs : List Entry) → length (reverse xs) ≡ length xs
length-reverse [] = refl
length-reverse (x ∷ xs) =
    rw (reverse-cons x xs) (omega (arith, length-append (reverse xs) (x ∷ []), length-reverse xs))

pub length-push_sorted :
    (e : Entry) (queue : List Entry) → length (push_sorted e queue) ≡ suc (length queue)
unfolding push_sorted
length-push_sorted e queue = omega (
  arith,
  length-reverse (sift e (reverse queue)),
  length-sift e (reverse queue),
  length-reverse queue,
)

pub length-drop_oldest : (queue : List Entry) → length (drop_oldest queue).0 < 2 * high_watermark
unfolding drop_oldest
length-drop_oldest [] = omega arith
length-drop_oldest (e ∷ queue) = ground (arith, length-drop_oldest queue)

pub All-drop_oldest {κ} :
    (P : Entry → Type κ) (queue : List Entry) → All P queue → All P (drop_oldest queue).0
unfolding drop_oldest
All-drop_oldest P [] h = tt
All-drop_oldest P (e ∷ queue) h =
    elim (Bool-cases (leb (high_watermark * 2) (length (e ∷ queue)))) [
      | inl full ↦ rw full (All-drop_oldest P queue h.1)
      | inr room ↦ rw room h
    ]

pub Sorted-drop_oldest : (queue : List Entry) → Sorted queue → Sorted (drop_oldest queue).0
unfolding drop_oldest
Sorted-drop_oldest [] h = tt
Sorted-drop_oldest (e ∷ queue) h =
    elim (Bool-cases (leb (high_watermark * 2) (length (e ∷ queue)))) [
      | inl full ↦ rw full (Sorted-drop_oldest queue h.1)
      | inr room ↦ rw room h
    ]
