-- ===== src/Udp/Send/Split.antt =====
-- How `sendFrame` cuts a frame.
use iran_remote_play.Prelude.{
  ℕ, zero, suc, ◌+◌, ◌-◌, ◌*◌, ◌≤◌, ◌<◌, min, ◌≡◌, refl, sym, ap, ◌∙◌, length, take, drop, arith,
  take-all, length-take, length-drop,
}
use iran_remote_play.Prelude.{drop-drop}
use iran_remote_play.Prelude.Bytes.{Bytes}
use iran_remote_play.Udp.Header.{max_udp_payload, max_fragments, fragment_count_for}
use iran_remote_play.Udp.Send.{Outgoing, fragments, fragment_size, fragment_payload}
use iran_remote_play.Udp.Reassembly.Contents.{fragment}
use native.Mathlib.Decide.{dec_le}

-- A frame of 2 to 1024 fragments.
pub record IsSplit (s : Outgoing) : Type 0 where
  pub big : max_udp_payload < length s.frame
  pub fits : length s.frame ≤ max_fragments * max_udp_payload

pub fragments_bounds :
    (s : Outgoing)
    → IsSplit s
    → (1 < fragments s)
      × (fragments s ≤ max_fragments)
      × ((fragments s - 1) * max_udp_payload < length s.frame)
      × (length s.frame ≤ fragments s * max_udp_payload)
unfolding fragment_count_for
fragments_bounds s v = (
  ground (arith, v.big, v.fits),
  ground (arith, v.big, v.fits),
  ground (arith, v.big, v.fits),
  ground (arith, v.big, v.fits),
)

fragment-drop :
    (i : ℕ) (frame : Bytes)
    → fragment i frame ≡ take max_udp_payload (drop (i * max_udp_payload) frame)
fragment-drop zero frame = refl
fragment-drop (suc i) frame =
    fragment-drop i (drop max_udp_payload frame)
    ∙ ap (take max_udp_payload) (
        drop-drop (i * max_udp_payload) max_udp_payload (suc i * max_udp_payload) frame
          (omega arith))

pub fragment_size_lem :
    (s : Outgoing) (i : ℕ)
    → IsSplit s
    → i < fragments s
    → (fragment_size s i ≡ min max_udp_payload (length s.frame - i * max_udp_payload))
      × (i + 1 < fragments s → fragment_size s i ≡ max_udp_payload)
unfolding fragment_size
fragment_size_lem s i v lt =
    let (many, few, below, above) = fragments_bounds s v in
    (ground (arith, v.fits), λ inner. ground arith)

take_same :
    (xs : Bytes) (n : ℕ) → n ≡ min max_udp_payload (length xs) → take n xs ≡ take max_udp_payload xs
take_same xs n h = elim (dec_le (length xs) max_udp_payload) [
  | yes small ↦ take-all xs n (omega arith) ∙ sym (take-all xs max_udp_payload small)
  | no big ↦ let e : n ≡ max_udp_payload = omega arith in ap (λ (k : ℕ). take k xs) e
]

-- What `sendFrame` copies is the fragment, and its size is the fragment's.
pub payload-fragment :
    (s : Outgoing) (i : ℕ)
    → IsSplit s
    → i < fragments s
    → (fragment_payload s i ≡ fragment i s.frame)
      × (length (fragment i s.frame) ≡ fragment_size s i)
unfolding fragment_payload
payload-fragment s i v lt =
    let off = i * max_udp_payload in
    let (many, few, below, above) = fragments_bounds s v in
    let (size, inner) = fragment_size_lem s i v lt in
    (
      take_same (drop off s.frame) (fragment_size s i)
            (omega (arith, size, length-drop off s.frame))
          ∙ sym (fragment-drop i s.frame),
      ap length (fragment-drop i s.frame)
          ∙ omega (
            arith,
            size,
            length-drop off s.frame,
            length-take max_udp_payload (drop off s.frame),
          ),
    )
