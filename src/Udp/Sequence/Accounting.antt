-- ===== src/Udp/Sequence/Accounting.antt =====
-- The counters of `SequenceTracker` after any run of sequence numbers.
use iran_remote_play.Prelude.{
  ℕ, ◌+◌, ◌-◌, ◌≤◌, ◌<◌, ◌≡◌, refl, subst, List, [], ◌∷◌, true, length, arith, All,
}
use native.Mathlib.Nat.{add-zero, add_comm}
use iran_remote_play.Udp.Sequence.{SequenceTracker, u64_mod, fresh, track, track_all}

-- After `n` datagrams, the first of which had the number `first`: every number from `first` to
-- the highest was received in order or counted lost, and every other datagram was counted late
-- or duplicate.
pub record Balanced (first n : ℕ) (t : SequenceTracker) : Type 0 where
  pub started : t.initialized ≡ true
  pub above : first ≤ t.highest
  pub fits : t.highest < u64_mod
  pub counted : t.received ≡ n
  pub extras : t.duplicates + t.late < n
  pub gaps : t.lost ≤ t.highest - first
  pub sum : t.highest + 1 + t.duplicates + t.late ≡ first + t.received + t.lost

first-Balanced : (seq : ℕ) → seq < u64_mod → Balanced seq 1 (track fresh seq).1
unfolding track fresh
first-Balanced seq h = record {
  started = refl;
  above = omega arith;
  fits = h;
  counted = refl;
  extras = omega arith;
  gaps = omega arith;
  sum = omega arith;
}

track-Balanced :
    (first n seq : ℕ) (t : SequenceTracker)
    → n + 1 < u64_mod
    → seq < u64_mod
    → Balanced first n t
    → Balanced first (n + 1) (track t seq).1
unfolding track
track-Balanced first n seq t hn hs b = ground arith

run-Balanced :
    (first n : ℕ) (t : SequenceTracker) (seqs : List ℕ)
    → n + length seqs < u64_mod
    → All (λ s. s < u64_mod) seqs
    → Balanced first n t
    → Balanced first (n + length seqs) (track_all t seqs)
unfolding track_all
run-Balanced first n t [] hn hs b = rw add-zero b
run-Balanced first n t (seq ∷ seqs) hn (h, hs) b =
    subst (λ k. Balanced first k (track_all t (seq ∷ seqs))) (omega arith)
      (run-Balanced first (n + 1) (track t seq).1 seqs (omega arith) hs
        (track-Balanced first n seq t (omega arith) h b))

-- After any run of fewer than 2 ^ 64 datagrams: the numbers from the first one to the highest are
-- as many as the datagrams that were neither duplicate nor late, and the losses.
pub track_all-Balanced :
    (first : ℕ) (seqs : List ℕ)
    → length seqs + 1 < u64_mod
    → first < u64_mod
    → All (λ s. s < u64_mod) seqs
    → Balanced first (length seqs + 1) (track_all fresh (first ∷ seqs))
unfolding track_all
track_all-Balanced first seqs hn h hs =
    rw add_comm
      (run-Balanced first 1 (track fresh first).1 seqs (omega arith) hs (first-Balanced first h))
