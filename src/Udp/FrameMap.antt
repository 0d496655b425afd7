-- ===== src/Udp/FrameMap.antt =====
-- The `std::map<uint64_t, FrameBuf>` of the reassembler: entries in the order of their keys.
use iran_remote_play.Prelude.{
  ℕ, suc, ◌≤◌, ◌<◌, ◌≡◌, refl, subst, ◌≢◌, inl, inr, Option, none, some, List, [], ◌∷◌,
  if◌then◌else◌, ltb, ◌==◌, length, arith, Bool-cases, All,
}
use iran_remote_play.Prelude.{All-imp}

module _ {V : Type 0} where
  unfoldable pub find : ℕ → List (ℕ × V) → Option V
  find k [] = none
  find k ((j, v) ∷ m) = if j == k then some v else find k m

  unfoldable pub insert : ℕ → V → List (ℕ × V) → List (ℕ × V)
  insert k v [] = (k, v) ∷ []
  insert k v ((j, w) ∷ m) =
      let rest = insert k v m in
      if ltb k j then (k, v) ∷ (j, w) ∷ m else if j == k then (k, v) ∷ m else (j, w) ∷ rest

  unfoldable pub erase : ℕ → List (ℕ × V) → List (ℕ × V)
  erase k [] = []
  erase k ((j, v) ∷ m) = if j == k then m else (j, v) ∷ erase k m

  -- `erase(begin())`.
  unfoldable pub erase_first : List (ℕ × V) → List (ℕ × V)
  erase_first [] = []
  erase_first ((j, v) ∷ m) = m

  -- Keys rise strictly.
  abbrev pub IsSorted : List (ℕ × V) → Type 0
  IsSorted [] = Unit
  IsSorted ((j, v) ∷ m) = All (λ e. j < e.0) m × IsSorted m

  pub find_below : (k j : ℕ) (m : List (ℕ × V)) → k ≤ j → All (λ e. j < e.0) m → find k m ≡ none
  unfolding find
  find_below k j [] le h = refl
  find_below k j ((i, v) ∷ m) le (lt, h) = ground (arith, find_below k j m le h)

  pub find-insert_self : (k : ℕ) (v : V) (m : List (ℕ × V)) → find k (insert k v m) ≡ some v
  unfolding find insert
  find-insert_self k v [] = ground arith
  find-insert_self k v ((j, w) ∷ m) = ground (arith, find-insert_self k v m)

  pub find-insert_ne :
      (k j : ℕ) (v : V) (m : List (ℕ × V)) → k ≢ j → find j (insert k v m) ≡ find j m
  unfolding find insert
  find-insert_ne k j v [] ne = ground arith
  find-insert_ne k j v ((i, w) ∷ m) ne = ground (arith, find-insert_ne k j v m ne)

  pub insert-insert :
      (k : ℕ) (v w : V) (m : List (ℕ × V)) → insert k v (insert k w m) ≡ insert k v m
  unfolding insert
  insert-insert k v w [] = ground arith
  insert-insert k v w ((j, u) ∷ m) = ground (arith, insert-insert k v w m)

  pub erase-insert :
      (k : ℕ) (v : V) (m : List (ℕ × V)) → find k m ≡ none → erase k (insert k v m) ≡ m
  unfolding find erase insert
  erase-insert k v [] h = ground arith
  erase-insert k v ((j, w) ∷ m) h = ground (arith, erase-insert k v m)

  -- What is erased does not matter.
  pub erase-insert_any :
      (k : ℕ) (v w : V) (m : List (ℕ × V)) → erase k (insert k v m) ≡ erase k (insert k w m)
  unfolding erase insert
  erase-insert_any k v w [] = ground arith
  erase-insert_any k v w ((j, u) ∷ m) = ground (arith, erase-insert_any k v w m)

  pub length-insert :
      (k : ℕ) (v : V) (m : List (ℕ × V)) → find k m ≡ none → length (insert k v m) ≡ suc (length m)
  unfolding find insert
  length-insert k v [] h = refl
  length-insert k v ((j, w) ∷ m) h = ground (arith, length-insert k v m)

  pub length-insert_found :
      (k : ℕ) (v w : V) (m : List (ℕ × V))
      → IsSorted m
      → find k m ≡ some w
      → length (insert k v m) ≡ length m
  unfolding find insert
  length-insert_found k v w [] s h = cc
  length-insert_found k v w ((j, u) ∷ m) (a, s) h =
      ground (arith, length-insert_found k v w m s, find_below k j m)

  pub length-erase-le : (k : ℕ) (m : List (ℕ × V)) → length (erase k m) ≤ length m
  unfolding erase
  length-erase-le k [] = omega arith
  length-erase-le k ((j, v) ∷ m) = ground (arith, length-erase-le k m)

module _ {V : Type 0} (P : ℕ × V → Type 0) where
  pub All-insert : (k : ℕ) (v : V) (m : List (ℕ × V)) → P (k, v) → All P m → All P (insert k v m)
  unfolding insert
  All-insert k v [] p h = (p, tt)
  All-insert k v ((j, w) ∷ m) p (q, h) = elim (Bool-cases (ltb k j)) [
    | inl below ↦ rw below (p, (q, h))
    | inr not_below ↦ rw not_below (elim (Bool-cases (j == k)) [
      | inl same ↦ rw same (p, h)
      | inr other ↦ rw other (q, All-insert k v m p h)
    ])
  ]

  pub All-erase : (k : ℕ) (m : List (ℕ × V)) → All P m → All P (erase k m)
  unfolding erase
  All-erase k [] h = tt
  All-erase k ((j, v) ∷ m) (q, h) = elim (Bool-cases (j == k)) [
    | inl same ↦ rw same h
    | inr other ↦ rw other (q, All-erase k m h)
  ]

  pub All-find : (k : ℕ) (v : V) (m : List (ℕ × V)) → find k m ≡ some v → All P m → P (k, v)
  unfolding find
  All-find k v [] h a = cc
  All-find k v ((j, w) ∷ m) h (q, a) = elim (Bool-cases (j == k)) [
    | inl same ↦ subst P (ground arith) q
    | inr other ↦ All-find k v m (ground arith) a
  ]

module _ {V : Type 0} where
  pub IsSorted-insert : (k : ℕ) (v : V) (m : List (ℕ × V)) → IsSorted m → IsSorted (insert k v m)
  unfolding insert
  IsSorted-insert k v [] s = (tt, tt)
  IsSorted-insert k v ((j, w) ∷ m) (a, s) = elim (Bool-cases (ltb k j)) [
    | inl below ↦ rw below ((ground arith, All-imp _ _ (λ e h. ground arith) m a), (a, s))
    | inr not_below ↦ rw not_below (elim (Bool-cases (j == k)) [
      | inl same ↦ rw same (subst (λ i. All (λ e. i < e.0) m) (ground arith) a, s)
      | inr other ↦ rw other (All-insert _ k v m (ground arith) a, IsSorted-insert k v m s)
    ])
  ]

  pub IsSorted-erase : (k : ℕ) (m : List (ℕ × V)) → IsSorted m → IsSorted (erase k m)
  unfolding erase
  IsSorted-erase k [] s = tt
  IsSorted-erase k ((j, v) ∷ m) (a, s) = elim (Bool-cases (j == k)) [
    | inl same ↦ rw same s
    | inr other ↦ rw other (All-erase _ k m a, IsSorted-erase k m s)
  ]
