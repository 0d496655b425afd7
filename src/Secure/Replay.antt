-- ===== src/Secure/Replay.antt =====
-- The replay window of `SecureChannel`.
use iran_remote_play.Prelude.{
  ℕ, ◌+◌, ◌-◌, ◌%◌, ◌^◌, ◌≤◌, ◌≡◌, refl, ap, ◌∙◌, ◌⊎◌, inl, inr, Option, none, some, List, [], ◌∷◌,
  true, false, ◌||◌, not, ltb, ◌==◌, length, take, drop, get_or, arith, Bool-cases,
}
use iran_remote_play.Prelude.{length-set, get_or-set_self, get_or-set_ne}
use iran_remote_play.Prelude.Bytes.{Bytes, from_le}
use native.Mathlib.Decide.{ℕ_discrete}
use iran_remote_play.Secure.Crypto.{Cng}
use iran_remote_play.Secure.Channel.{
  SecureChannel, slot, counter_of, is_replay, accept, reject, open_result, open_sealed, tag_bytes,
  nonce, bound_header,
}

-- A counter that was accepted: the window still shows it, or it is 64 or more behind.
pub record IsSpent (counter : ℕ) (c : SecureChannel) : Type 0 where
  pub started : c.recv_init ≡ true
  pub reached : counter ≤ c.recv_highest
  pub kept : (get_or c.recv_window (slot counter) 0 ≡ counter) ⊎ (counter + 64 ≤ c.recv_highest)

spent_is_replay : (counter : ℕ) (c : SecureChannel) → IsSpent counter c → is_replay c counter ≡ true
unfolding is_replay
spent_is_replay counter c s = ground (arith, s.kept)

accept-IsSpent_self :
    (c : SecureChannel) (counter : ℕ)
    → length c.recv_window ≡ 64
    → IsSpent counter (accept c counter)
unfolding accept
accept-IsSpent_self c counter len = record {
  started = refl;
  reached = ground arith;
  kept = inl (get_or-set_self c.recv_window (slot counter) counter 0 (omega arith));
}

-- A slot goes to another counter only if that is newer by 64 at least, since an older one in the
-- same slot is refused.
accept-IsSpent :
    (c : SecureChannel) (old new : ℕ)
    → length c.recv_window ≡ 64
    → IsSpent old c
    → is_replay c new ≡ false
    → IsSpent old (accept c new)
unfolding accept is_replay
accept-IsSpent c old new len s fresh = record {
  started = refl;
  reached = ground (arith, s.reached, s.started);
  kept = elim (ℕ_discrete (slot new) (slot old)) [
    | yes same ↦ inr (ground (arith, s.kept, s.started, s.reached))
    | no other ↦ elim s.kept [
      | inl shown ↦ inl (get_or-set_ne c.recv_window (slot new) (slot old) new 0 other ∙ shown)
      | inr behind ↦ inr (ground (arith, s.started))
    ]
  ];
}

-- The three ways that a call of `open` ends.
open_cases :
    (P : Option Bytes × SecureChannel → Type 0) (cng : Cng) (c : SecureChannel)
    (header input : Bytes)
    → P (reject c)
    → P (none, record c { replays_rejected = (c.replays_rejected + 1) % 2 ^ 64 })
    → (c.active ≡ true
        → is_replay c (counter_of input) ≡ false
        → (out : Bytes) → P (some out, accept c (counter_of input)))
    → P (open_sealed cng c header input)
unfolding open_sealed
open_cases P cng c header input refused replayed accepted =
    elim (Bool-cases (not c.active || ltb (length input) (8 + tag_bytes))) [
      | inl bad ↦ rw bad refused
      | inr good ↦ rw good (elim (Bool-cases (is_replay c (counter_of input))) [
        | inl old ↦ rw old replayed
        | inr new ↦ rw new (
            result_cases
              (cng.decrypt c.recv_key (nonce c (counter_of input))
                (take (length input - tag_bytes) input) (drop (length input - tag_bytes) input)
                (bound_header header))
              (accepted (ground (arith, good)) new))
      ])
    ]
  where
    result_cases :
        (plain : Option Bytes)
        → ((out : Bytes) → P (some out, accept c (counter_of input)))
        → P (open_result c (counter_of input) plain)
    result_cases none taken = unfold open_result in refused
    result_cases (some plain) taken =
        unfold open_result in
        elim (Bool-cases (ltb (length plain) 8)) [
          | inl short ↦ rw short refused
          | inr long ↦
              rw long (elim (Bool-cases (not (from_le (take 8 plain) == counter_of input))) [
                | inl other ↦ rw other refused
                | inr same ↦ rw same (taken (drop 8 plain))
              ])
        ]

-- The channel is active, its window has its 64 slots, and `counter` is spent.
pub record Remembers (counter : ℕ) (c : SecureChannel) : Type 0 where
  pub live : c.active ≡ true
  pub slots : length c.recv_window ≡ 64
  pub spent : IsSpent counter c

same_window :
    (counter : ℕ) (c c' : SecureChannel)
    → c'.active ≡ c.active
    → c'.recv_window ≡ c.recv_window
    → c'.recv_highest ≡ c.recv_highest
    → c'.recv_init ≡ c.recv_init
    → Remembers counter c
    → Remembers counter c'
same_window counter c c' a w h i r = record {
  live = a ∙ r.live;
  slots = ap length w ∙ r.slots;
  spent = record {
    started = i ∙ r.spent.started;
    reached = ground (arith, r.spent.reached);
    kept = ground (arith, r.spent.kept);
  };
}

length-accept :
    (c : SecureChannel) (counter : ℕ) → length (accept c counter).recv_window ≡ length c.recv_window
unfolding accept
length-accept c counter = length-set c.recv_window (slot counter) counter

accept-active : (c : SecureChannel) (counter : ℕ) → (accept c counter).active ≡ c.active
unfolding accept
accept-active c counter = refl

remembered_replay :
    (cng : Cng) (c : SecureChannel) (header input : Bytes) (old : ℕ)
    → Remembers old c
    → counter_of input ≡ old
    → 24 ≤ length input
    → open_sealed cng c header input
      ≡ (none, record c { replays_rejected = (c.replays_rejected + 1) % 2 ^ 64 })
unfolding open_sealed
remembered_replay cng c header input old r same long =
    let short : ltb (length input) 24 ≡ false = ground (arith, long) in
    rw (short, same, spent_is_replay old c r.spent, r.live) refl

open-Remembers :
    (cng : Cng) (c : SecureChannel) (header input : Bytes) (old : ℕ)
    → Remembers old c
    → Remembers old (open_sealed cng c header input).1
open-Remembers cng c header input old r =
    open_cases (λ r. Remembers old r.1) cng c header input
      (same_window old c _ refl refl refl refl r) (same_window old c _ refl refl refl refl r)
      (λ on new out. record {
        live = accept-active c (counter_of input) ∙ on;
        slots = length-accept c (counter_of input) ∙ r.slots;
        spent = accept-IsSpent c old (counter_of input) r.slots r.spent new;
      })

-- Any number of further calls.
unfoldable pub open_all : Cng → SecureChannel → List (Bytes × Bytes) → SecureChannel
open_all cng c [] = c
open_all cng c ((header, input) ∷ rest) = open_all cng (open_sealed cng c header input).1 rest

open_all-Remembers :
    (cng : Cng) (c : SecureChannel) (inputs : List (Bytes × Bytes)) (old : ℕ)
    → Remembers old c
    → Remembers old (open_all cng c inputs)
unfolding open_all
open_all-Remembers cng c [] old r = r
open_all-Remembers cng c ((header, input) ∷ rest) old r =
    open_all-Remembers cng (open_sealed cng c header input).1 rest old
      (open-Remembers cng c header input old r)

-- An accepted datagram leaves its counter spent.
accepted-Remembers :
    (cng : Cng) (c : SecureChannel) (header input out : Bytes)
    → length c.recv_window ≡ 64
    → (open_sealed cng c header input).0 ≡ some out
    → Remembers (counter_of input) (open_sealed cng c header input).1
accepted-Remembers cng c header input out len =
    open_cases (λ r. r.0 ≡ some out → Remembers (counter_of input) r.1) cng c header input (λ h. cc)
      (λ h. cc)
      (λ on new out' h. record {
        live = accept-active c (counter_of input) ∙ on;
        slots = length-accept c (counter_of input) ∙ len;
        spent = accept-IsSpent_self c (counter_of input) len;
      })

-- Once `open` accepted a datagram, no datagram with the same counter is accepted, after any further
-- calls with any input: a long enough one gives no payload and is counted as a replay, and nothing
-- else of the channel changes.
pub open_replay :
    (cng : Cng) (c : SecureChannel) (header input out header' input' : Bytes)
    (between : List (Bytes × Bytes))
    → length c.recv_window ≡ 64
    → (open_sealed cng c header input).0 ≡ some out
    → counter_of input' ≡ counter_of input
    → 24 ≤ length input'
    → let now = open_all cng (open_sealed cng c header input).1 between in
      open_sealed cng now header' input'
      ≡ (none, record now { replays_rejected = (now.replays_rejected + 1) % 2 ^ 64 })
open_replay cng c header input out header' input' between len h same long =
    remembered_replay cng (open_all cng (open_sealed cng c header input).1 between) header' input'
      (counter_of input)
      (open_all-Remembers cng (open_sealed cng c header input).1 between (counter_of input)
        (accepted-Remembers cng c header input out len h))
      same long
