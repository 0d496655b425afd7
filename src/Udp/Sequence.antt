-- ===== src/Udp/Sequence.antt =====
-- `SequenceTracker`: per-type accounting of loss, reordering and duplicates. `seenMask_` is the
-- list of its 64 bits; `int64_t` results are integers; counters wrap at 64 bits.
pub mod Accounting
pub mod Duplicates
use iran_remote_play.Prelude.{
  ℕ, zero, suc, ◌+◌, ◌-◌, ◌*◌, ◌/◌, ◌%◌, ◌^◌, ◌≤◌, ◌<◌, min, max, ◌≡◌, refl, sym, ap, ◌∙◌, subst,
  ◌≢◌, ◌⊎◌, inl, inr, Option, none, some, List, [], ◌∷◌, ◌++◌, map, Bool, true, false, ◌&&◌, ◌||◌,
  not, if◌then◌else◌, leb, ltb, ◌==◌, length, take, drop, get_or, set, replicate, arith, take-all,
  append-nil, append_assoc, Bool-cases, Option-cases, length-append, length-take, length-drop, All,
  append-eq-nil, take-append, drop-append,
}
use iran_remote_play.Prelude.Int.{ℤ, pos, negsuc, to_int64}

abbrev pub u64_mod : ℕ
u64_mod = 2 ^ 64

pub record SequenceTracker : Type 0 where
  pub highest : ℕ
  pub initialized : Bool
  pub duplicates : ℕ
  pub lost : ℕ
  pub late : ℕ
  pub received : ℕ
  pub seen_window : List ℕ
  pub seen_mask : List Bool

abbrev pub late_window : ℕ
late_window = 64

-- The default-constructed tracker, which `reset` assigns.
unfoldable pub fresh : SequenceTracker
fresh = record {
  highest = 0;
  initialized = false;
  duplicates = 0;
  lost = 0;
  late = 0;
  received = 0;
  seen_window = replicate 64 0;
  seen_mask = replicate 64 false;
}

-- `seenWindow_[slot] = seq; seenMask_ |= (1ull << slot);`
unfoldable pub mark : SequenceTracker → ℕ → SequenceTracker
mark t seq = record t {
  seen_window = set t.seen_window (seq % 64) seq;
  seen_mask = set t.seen_mask (seq % 64) true;
}

-- `((seenMask_ >> slot) & 1ull) && seenWindow_[slot] == seq`.
unfoldable pub seen : SequenceTracker → ℕ → Bool
seen t seq = get_or t.seen_mask (seq % 64) false && get_or t.seen_window (seq % 64) 0 == seq

-- `seq + kLateWindow < highest_`, the sum in 64 bits.
abbrev pub too_late : SequenceTracker → ℕ → Bool
too_late t seq = ltb ((seq + late_window) % u64_mod) t.highest

unfoldable pub track : SequenceTracker → ℕ → ℤ × SequenceTracker
unfolding mark seen
track t seq =
    let t : SequenceTracker = record t { received = (t.received + 1) % u64_mod } in
    let gap = seq - t.highest in
    if not t.initialized
    then (pos 0, mark (record t { initialized = true; highest = seq }) seq)
    else if ltb t.highest seq
    then (
      to_int64 gap,
      mark
          (record t {
            lost = (if ltb 1 gap then (t.lost + (gap - 1)) % u64_mod else t.lost);
            highest = seq;
          })
          seq,
    )
    else if too_late t seq
    then (negsuc 0, record t { late = (t.late + 1) % u64_mod })
    else if seen t seq
    then (pos 1, record t { duplicates = (t.duplicates + 1) % u64_mod })
    else (pos 0, record (mark t seq) { late = (t.late + 1) % u64_mod })

unfoldable pub track_all : SequenceTracker → List ℕ → SequenceTracker
track_all t [] = t
track_all t (seq ∷ rest) = track_all (track t seq).1 rest
