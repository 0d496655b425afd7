-- ===== src/Sender/Settled.antt =====
-- A round of the sender's thread leaves nothing to send.
use iran_remote_play.Prelude.{
  take, length, suc, ◌+◌, ◌≤◌, map, subst, ℕ, ◌^◌, List, [], ◌∷◌, ◌++◌, Bool, true, false, ◌&&◌,
  ◌||◌, not, if◌then◌else◌, is_empty, ◌≡◌, refl, ◌<◌, arith, inl, inr, Bool-cases, sym, ap,
}
use iran_remote_play.Prelude.Bytes.{Bytes}
use iran_remote_play.Input.{GameControllerState, pack_controller_state, pack_input_event}
use iran_remote_play.Sender.{
  InputSender, state_equal, keepalive_due, send_states, poll_controllers, drain, round,
}

-- Two states that say the same of the pad: all but their versions and times.
pub record AreSame (l st : GameControllerState) : Type 0 where
  pub connected : l.connected ≡ st.connected
  pub buttons : l.buttons ≡ st.buttons
  pub left_trigger : l.left_trigger ≡ st.left_trigger
  pub right_trigger : l.right_trigger ≡ st.right_trigger
  pub thumb_lx : l.thumb_lx ≡ st.thumb_lx
  pub thumb_ly : l.thumb_ly ≡ st.thumb_ly
  pub thumb_rx : l.thumb_rx ≡ st.thumb_rx
  pub thumb_ry : l.thumb_ry ≡ st.thumb_ry

-- Every state stands in the slot of its number.
unfoldable pub AreShown : List GameControllerState → List GameControllerState → Type 0
AreShown [] last = Unit
AreShown (st ∷ states) [] = ⊥
AreShown (st ∷ states) (l ∷ last) = AreSame l st × AreShown states last

-- What is sent for the states, the slots being `last`, before the packets `rest`: a state that differs
-- from its slot is sent, and every one is if `Due`; no other is, and none without a slot.
pub data Sends (Due : Type 0) (rest : List Bytes)
    : List GameControllerState → List GameControllerState → List Bytes → Type 0 where
  no_state : {last : List GameControllerState} → Sends Due rest [] last rest
  no_slot : {states : List GameControllerState} → Sends Due rest states [] rest
  differs :
      {st l : GameControllerState} {states last : List GameControllerState} {ps : List Bytes}
      → (AreSame l st → ⊥)
      → Sends Due rest states last ps
      → Sends Due rest (st ∷ states) (l ∷ last) (pack_controller_state st ∷ ps)
  keeps_alive :
      {st l : GameControllerState} {states last : List GameControllerState} {ps : List Bytes}
      → Due
      → Sends Due rest states last ps
      → Sends Due rest (st ∷ states) (l ∷ last) (pack_controller_state st ∷ ps)
  is_quiet :
      {st l : GameControllerState} {states last : List GameControllerState} {ps : List Bytes}
      → (Due → ⊥)
      → AreSame l st
      → Sends Due rest states last ps
      → Sends Due rest (st ∷ states) (l ∷ last) ps

same_of : (l st : GameControllerState) → state_equal l st ≡ true → AreSame l st
unfolding state_equal
same_of l st e = record {
  connected = ground (arith, e);
  buttons = ground (arith, e);
  left_trigger = ground (arith, e);
  right_trigger = ground (arith, e);
  thumb_lx = ground (arith, e);
  thumb_ly = ground (arith, e);
  thumb_rx = ground (arith, e);
  thumb_ry = ground (arith, e);
}

equal_of : (l st : GameControllerState) → AreSame l st → state_equal l st ≡ true
unfolding state_equal
equal_of l st h = ground (
  arith, h.connected, h.buttons, h.left_trigger, h.right_trigger, h.thumb_lx, h.thumb_ly,
  h.thumb_rx, h.thumb_ry,
)

state_equal_refl : (st : GameControllerState) → state_equal st st ≡ true
unfolding state_equal
state_equal_refl st = ground arith

send_states-Sends :
    (Due : Type 0) (rest : List Bytes) (k : Bool) (states last : List GameControllerState)
    → (k ≡ true → Due)
    → (k ≡ false → Due → ⊥)
    → Sends Due rest states last ((send_states k states last).0 ++ rest)
unfolding send_states
send_states-Sends Due rest k [] last on off = no_state
send_states-Sends Due rest k (st ∷ states) [] on off = no_slot
send_states-Sends Due rest true (st ∷ states) (l ∷ last) on off =
    elim (Bool-cases (state_equal l st)) [
      | inl same ↦
          rw (send_states, same)
            (keeps_alive (on refl) (send_states-Sends Due rest true states last on off))
      | inr other ↦
          rw (send_states, other)
            (keeps_alive (on refl) (send_states-Sends Due rest true states last on off))
    ]
send_states-Sends Due rest false (st ∷ states) (l ∷ last) on off =
    elim (Bool-cases (state_equal l st)) [
      | inl same ↦
          rw (send_states, same)
            (is_quiet (off refl) (same_of l st same)
              (send_states-Sends Due rest false states last on off))
      | inr other ↦
          rw (send_states, other)
            (differs (λ h. let e = equal_of l st h in absurd cc)
              (send_states-Sends Due rest false states last on off))
    ]

-- The first states, as many as there are slots.
abbrev pub slotted : List GameControllerState → List GameControllerState → List GameControllerState
slotted states last = take (length last) states

length-send_states :
    (k : Bool) (states last : List GameControllerState)
    → length (send_states k states last).1 ≡ length last
unfolding send_states
length-send_states k [] last = refl
length-send_states k (st ∷ states) [] = refl
length-send_states k (st ∷ states) (l ∷ last) = elim (Bool-cases (not (state_equal l st) || k)) [
  | inl sent ↦ rw (send_states, sent) (ap suc (length-send_states k states last))
  | inr kept ↦ rw (send_states, kept) (ap suc (length-send_states k states last))
]

same_self : (st : GameControllerState) → AreSame st st
same_self st = same_of st st (state_equal_refl st)

send_states-AreShown :
    (k : Bool) (states last : List GameControllerState)
    → AreShown (slotted states last) (send_states k states last).1
unfolding AreShown send_states
send_states-AreShown k [] [] = tt
send_states-AreShown k [] (l ∷ last) = tt
send_states-AreShown k (st ∷ states) [] = tt
send_states-AreShown k (st ∷ states) (l ∷ last) = elim (Bool-cases (not (state_equal l st) || k)) [
  | inl sent ↦ rw (send_states, sent) (same_self st, send_states-AreShown k states last)
  | inr kept ↦
      rw (send_states, kept)
        (same_of l st (ground (arith, kept)), send_states-AreShown k states last)
]

-- States that stand in the slots are not sent again, unless a keepalive is due.
send_states_again :
    (states last : List GameControllerState)
    → AreShown (slotted states last) last
    → (send_states false states last).0 ≡ []
unfolding AreShown send_states
send_states_again [] last h = refl
send_states_again (st ∷ states) [] h = refl
send_states_again (st ∷ states) (l ∷ last) h =
    rw (send_states, equal_of l st h.0) (send_states_again states last h.1)

due_now : (now : ℕ) → now < 2 ^ 64 → keepalive_due now now ≡ false
unfolding keepalive_due
due_now now h = ground arith

no_states :
    (k : Bool) (states last : List GameControllerState)
    → is_empty states ≡ true
    → (send_states k states last).0 ≡ []
unfolding send_states
no_states k [] last h = refl
no_states k (st ∷ states) last h = absurd cc

-- The time of the last keepalive after a round.
kept_time : Bool → Bool → ℕ → ℕ → ℕ
kept_time empty due now last = if not empty && due then now else last

sends_nothing :
    (now : ℕ) (states last : List GameControllerState) (due : Bool) (time : ℕ)
    → now < 2 ^ 64
    → AreShown (slotted states last) last
    → keepalive_due now time ≡ due
    → (send_states (keepalive_due now (kept_time (is_empty states) due now time)) states last).0
      ≡ []
unfolding kept_time
sends_nothing now states last true time h shown e = elim (Bool-cases (is_empty states)) [
  | inl empty ↦ no_states _ states last empty
  | inr some ↦ rw (kept_time, some, due_now now h) (send_states_again states last shown)
]
sends_nothing now states last false time h shown e = elim (Bool-cases (is_empty states)) [
  | inl empty ↦ no_states _ states last empty
  | inr some ↦ rw (kept_time, some, e) (send_states_again states last shown)
]

due_iff :
    (now time : ℕ)
    → now < 2 ^ 64
    → time ≤ now
    → (keepalive_due now time ≡ true → time + 500_000_000 < now)
      × (keepalive_due now time ≡ false → time + 500_000_000 < now → ⊥)
unfolding keepalive_due
due_iff now time small past = (λ e. ground arith, λ e h. ground arith)

-- A sender whose controller is enabled and that has a transport.
abbrev polling : InputSender → InputSender
polling s = record s { controller_enabled = true; has_transport = true }

-- What a round does.
unfoldable pub IsSettled : ℕ → List GameControllerState → InputSender → Type 0
unfolding AreShown
IsSettled now states s =
    let (sent, t) = round now states s in
    Sends (s.last_keepalive_ns + 500_000_000 < now) (map pack_input_event s.event_queue) states
      s.last_sent sent
    × AreShown (take 4 states) t.last_sent
    × (t.event_queue ≡ [])
    × ((round now states t).0 ≡ [])

polling-IsSettled :
    (now : ℕ) (states : List GameControllerState) (s : InputSender)
    → now < 2 ^ 64
    → s.last_keepalive_ns ≤ now
    → length s.last_sent ≡ 4
    → IsSettled now states (polling s)
unfolding IsSettled round poll_controllers drain kept_time
polling-IsSettled now states s h past four =
    let k = keepalive_due now s.last_keepalive_ns in
    let last = (send_states k states s.last_sent).1 in
    let due = due_iff now s.last_keepalive_ns h past in
    let shown : AreShown (slotted states s.last_sent) last =
      send_states-AreShown k states s.last_sent in
    (
      send_states-Sends (s.last_keepalive_ns + 500_000_000 < now)
          (map pack_input_event s.event_queue) k states s.last_sent due.0 due.1,
      subst (λ (n : ℕ). AreShown (take n states) last) four shown,
      refl,
      ap (λ (sent : List Bytes). sent ++ [])
          (sends_nothing now states last k s.last_keepalive_ns h
            (subst (λ (n : ℕ). AreShown (take n states) last)
              (sym (length-send_states k states s.last_sent)) shown)
            refl),
    )

is_polling :
    (s : InputSender) → s.controller_enabled ≡ true → s.has_transport ≡ true → polling s ≡ s
is_polling s on link = sym (λ i. record s { controller_enabled = on i; has_transport = link i })

-- A round at a time not before the last keepalive, with the controller enabled, a transport and four
-- slots, sends a packet for each of the first four states that differs from its slot in more than its
-- version and time, or for each of them if the last keepalive is more than half a second ago, and for
-- no other, and then a packet for every queued event, in order. It leaves each of the first four
-- states in its slot, but for version and time, and the queue empty; and the same round repeated at
-- once sends nothing.
pub round-AreShown :
    (now : ℕ) (states : List GameControllerState) (s : InputSender)
    → now < 2 ^ 64
    → s.last_keepalive_ns ≤ now
    → length s.last_sent ≡ 4
    → s.controller_enabled ≡ true
    → s.has_transport ≡ true
    → let (sent, t) = round now states s in
      Sends
        (s.last_keepalive_ns + 500_000_000 < now)
        (map pack_input_event s.event_queue)
        states
        s.last_sent
        sent
      × AreShown (take 4 states) t.last_sent
      × (t.event_queue ≡ [])
      × ((round now states t).0 ≡ [])
unfolding IsSettled
round-AreShown now states s h past four on link =
    subst (λ (t : InputSender). IsSettled now states t) (is_polling s on link)
      (polling-IsSettled now states s h past four)
