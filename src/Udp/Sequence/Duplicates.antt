-- ===== src/Udp/Sequence/Duplicates.antt =====
-- When `SequenceTracker` recognises a duplicate.
use iran_remote_play.Prelude.{
  ℕ, ◌+◌, ◌%◌, ◌≤◌, ◌≡◌, refl, ◌≢◌, List, [], ◌∷◌, true, false, length, arith, All,
}
use iran_remote_play.Prelude.{length-set, get_or-set_self, get_or-set_ne}
use iran_remote_play.Prelude.Int.{pos}
use iran_remote_play.Udp.Sequence.{
  SequenceTracker, u64_mod, fresh, seen, too_late, track, track_all,
}

-- The two windows have their 64 slots.
pub record IsWindow (t : SequenceTracker) : Type 0 where
  pub window : length t.seen_window ≡ 64
  pub mask : length t.seen_mask ≡ 64

pub fresh-IsWindow : IsWindow fresh
unfolding fresh
fresh-IsWindow = record { window = refl; mask = refl }

track-IsWindow : (t : SequenceTracker) (seq : ℕ) → IsWindow t → IsWindow (track t seq).1
unfolding track
track-IsWindow t seq w =
    ground (arith, length-set t.seen_window (seq % 64) seq, length-set t.seen_mask (seq % 64) true)

seen-track :
    (t : SequenceTracker) (seq : ℕ)
    → IsWindow t
    → too_late t seq ≡ false
    → (seen (track t seq).1 seq ≡ true) × ((track t seq).1.initialized ≡ true)
unfolding track
seen-track t seq w h = ground (
  arith,
  get_or-set_self t.seen_window (seq % 64) seq 0,
  get_or-set_self t.seen_mask (seq % 64) true false,
)

-- A number in another slot leaves a seen number seen.
seen-track_ne :
    (t : SequenceTracker) (seq other : ℕ)
    → other % 64 ≢ seq % 64
    → seen t seq ≡ true
    → t.initialized ≡ true
    → (seen (track t other).1 seq ≡ true) × ((track t other).1.initialized ≡ true)
unfolding track
seen-track_ne t seq other ne h i = ground (
  arith,
  get_or-set_ne t.seen_window (other % 64) (seq % 64) other 0 ne,
  get_or-set_ne t.seen_mask (other % 64) (seq % 64) true false ne,
)

seen-track_all :
    (t : SequenceTracker) (seq : ℕ) (others : List ℕ)
    → All (λ s. s % 64 ≢ seq % 64) others
    → seen t seq ≡ true
    → t.initialized ≡ true
    → (seen (track_all t others) seq ≡ true) × ((track_all t others).initialized ≡ true)
unfolding track_all
seen-track_all t seq [] hs h i = (h, i)
seen-track_all t seq (other ∷ others) (ne, hs) h i =
    let (h', i') = seen-track_ne t seq other ne h i in
    seen-track_all (track t other).1 seq others hs h' i'

track-seen :
    (t : SequenceTracker) (seq : ℕ)
    → seen t seq ≡ true
    → t.initialized ≡ true
    → seq ≤ t.highest
    → too_late t seq ≡ false
    → (track t seq).0 ≡ pos 1
      × ((track t seq).1.duplicates ≡ (t.duplicates + 1) % u64_mod)
      × ((track t seq).1.late ≡ t.late)
      × ((track t seq).1.lost ≡ t.lost)
unfolding track
track-seen t seq h i le fresh_enough = ground arith

-- A number that was taken in and comes again is counted as a duplicate, and changes neither the
-- losses nor the late count, whatever numbers of other slots arrived between, as long as it is
-- not newer than the newest and not behind the late window.
pub track_duplicate :
    (t : SequenceTracker) (seq : ℕ) (others : List ℕ)
    → IsWindow t
    → too_late t seq ≡ false
    → All (λ s. s % 64 ≢ seq % 64) others
    → seq ≤ (track_all (track t seq).1 others).highest
    → too_late (track_all (track t seq).1 others) seq ≡ false
    → let u = track_all (track t seq).1 others in
      ((track u seq).0 ≡ pos 1)
      × ((track u seq).1.duplicates ≡ (u.duplicates + 1) % u64_mod)
      × ((track u seq).1.late ≡ u.late)
      × ((track u seq).1.lost ≡ u.lost)
track_duplicate t seq others w h hs le near =
    let (s, i) = seen-track t seq w h in
    let (s', i') = seen-track_all (track t seq).1 seq others hs s i in
    track-seen (track_all (track t seq).1 others) seq s' i' le near
