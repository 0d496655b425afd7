-- ===== src/Udp/Reassembly/Contents.antt =====
-- What a buffer holds while the fragments of a frame arrive.
use iran_remote_play.Prelude.{
  ℕ, zero, suc, ◌+◌, ◌-◌, ◌*◌, ◌≤◌, ◌<◌, ◌≡◌, refl, sym, ap, ◌∙◌, List, [], ◌∷◌, ◌++◌, Bool, true,
  false, length, take, drop, get_or, set, replicate, arith, take-all, append-nil, append_assoc,
  length-append, length-take, length-drop, take-append,
}
use iran_remote_play.Prelude.{
  length-replicate, take-append-drop, take-append_add, drop-append_add, replicate-eq, replicate-add,
  drop-replicate, drop-append_le,
}
use iran_remote_play.Prelude.Bytes.{Bytes}
use iran_remote_play.Udp.Header.{max_udp_payload}
use iran_remote_play.Udp.Reassembly.{write_at}
use native.Mathlib.Decide.{dec_le}

-- The fragment `i` of a frame: what `sendFrame` copies from the offset `i * kMaxUdpPayload`.
abbrev pub fragment : ℕ → Bytes → Bytes
fragment zero frame = take max_udp_payload frame
fragment (suc i) frame = fragment i (drop max_udp_payload frame)

-- One fragment's place in the buffer: the fragment and zeros behind it, or zeros.
abbrev slot : Bool → Bytes → Bytes
slot true frame =
    take max_udp_payload frame
    ++ replicate (max_udp_payload - length (take max_udp_payload frame)) 0
slot false frame = replicate max_udp_payload 0

-- The buffer of a frame of which the marked fragments have arrived.
pub assemble : List Bool → Bytes → Bytes
assemble [] frame = []
assemble (b ∷ have) frame = slot b frame ++ assemble have (drop max_udp_payload frame)

length-slot : (b : Bool) (frame : Bytes) → length (slot b frame) ≡ max_udp_payload
length-slot true frame = omega (
  arith,
  length-append (take max_udp_payload frame)
      (replicate (max_udp_payload - length (take max_udp_payload frame)) 0),
  length-replicate (max_udp_payload - length (take max_udp_payload frame)) zero,
  length-take max_udp_payload frame,
)
length-slot false frame = length-replicate max_udp_payload zero

pub length-assemble :
    (have : List Bool) (frame : Bytes)
    → length (assemble have frame) ≡ length have * max_udp_payload
unfolding assemble
length-assemble [] frame = omega arith
length-assemble (b ∷ have) frame = omega (
  arith,
  length-append (slot b frame) (assemble have (drop max_udp_payload frame)),
  length-slot b frame,
  length-assemble have (drop max_udp_payload frame),
)

-- Nothing has arrived: the buffer is zero.
pub assemble_none :
    (n : ℕ) (frame : Bytes) → assemble (replicate n false) frame ≡ replicate (n * max_udp_payload) 0
unfolding assemble
assemble_none zero frame = replicate-eq zero 0 (0 * max_udp_payload) (omega arith)
assemble_none (suc n) frame =
    ap (λ t. replicate max_udp_payload 0 ++ t) (assemble_none n (drop max_udp_payload frame))
    ∙ sym (replicate-add zero max_udp_payload (n * max_udp_payload))
    ∙ replicate-eq zero (max_udp_payload + n * max_udp_payload) (suc n * max_udp_payload)
        (omega arith)

write_at-append :
    (xs ys payload : Bytes) (n off : ℕ)
    → n ≡ length xs + off
    → write_at n payload (xs ++ ys) ≡ xs ++ write_at off payload ys
unfolding write_at
write_at-append xs ys payload n off h =
    rw
      (
        take-append_add xs ys n off h,
        drop-append_add xs ys (n + length payload) (off + length payload) (omega arith),
      )
      (append_assoc xs (take off ys) (payload ++ drop (off + length payload) ys))

write_at_zero :
    (payload ys : Bytes) (n : ℕ)
    → length payload ≤ n
    → write_at 0 payload (replicate n 0 ++ ys) ≡ (payload ++ replicate (n - length payload) 0) ++ ys
unfolding write_at
write_at_zero payload ys n h =
    ap (λ t. payload ++ t)
      (drop-append_le (replicate n zero) ys (0 + length payload)
          (omega (arith, length-replicate n zero))
        ∙ ap (λ t. t ++ ys)
            (drop-replicate zero (0 + length payload) n (n - length payload) (omega arith)))
    ∙ sym (append_assoc payload (replicate (n - length payload) zero) ys)

-- A fragment that has not arrived is copied to its place.
pub write_at-assemble :
    (have : List Bool) (i : ℕ) (frame : Bytes)
    → i < length have
    → get_or have i false ≡ false
    → write_at (i * max_udp_payload) (fragment i frame) (assemble have frame)
      ≡ assemble (set have i true) frame
unfolding assemble
write_at-assemble [] i frame lt h = absurd (omega arith)
write_at-assemble (true ∷ have) zero frame lt h = cc
write_at-assemble (false ∷ have) zero frame lt h =
    write_at_zero (take max_udp_payload frame) (assemble have (drop max_udp_payload frame))
      max_udp_payload (omega (arith, length-take max_udp_payload frame))
write_at-assemble (b ∷ have) (suc i) frame lt h =
    write_at-append (slot b frame) _ (fragment i (drop max_udp_payload frame))
      (suc i * max_udp_payload) (i * max_udp_payload) (omega (arith, length-slot b frame))
    ∙ ap (λ t. slot b frame ++ t)
        (write_at-assemble have i (drop max_udp_payload frame) (omega arith) h)

-- How many fragments are marked.
unfoldable pub count_have : List Bool → ℕ
count_have [] = 0
count_have (true ∷ have) = suc (count_have have)
count_have (false ∷ have) = count_have have

pub count_have-le : (have : List Bool) → count_have have ≤ length have
unfolding count_have
count_have-le [] = omega arith
count_have-le (true ∷ have) = omega (arith, count_have-le have)
count_have-le (false ∷ have) = omega (arith, count_have-le have)

pub count_have-set :
    (have : List Bool) (i : ℕ)
    → i < length have
    → get_or have i false ≡ false
    → count_have (set have i true) ≡ suc (count_have have)
unfolding count_have
count_have-set [] i lt h = absurd (omega arith)
count_have-set (true ∷ have) zero lt h = cc
count_have-set (false ∷ have) zero lt h = refl
count_have-set (true ∷ have) (suc i) lt h = ap suc (count_have-set have i (omega arith) h)
count_have-set (false ∷ have) (suc i) lt h = count_have-set have i (omega arith) h

pub count_have_none : (n : ℕ) → count_have (replicate n false) ≡ 0
unfolding count_have
count_have_none zero = refl
count_have_none (suc n) = count_have_none n

full_slot :
    (frame : Bytes) → max_udp_payload ≤ length frame → slot true frame ≡ take max_udp_payload frame
full_slot frame h =
    ap (λ t. take max_udp_payload frame ++ t)
      (replicate-eq zero (max_udp_payload - length (take max_udp_payload frame)) 0
        (omega (arith, length-take max_udp_payload frame)))
    ∙ append-nil (take max_udp_payload frame)

-- Once every fragment has arrived, the buffer begins with the frame.
pub take-assemble :
    (have : List Bool) (frame : Bytes)
    → count_have have ≡ length have
    → length frame ≤ length have * max_udp_payload
    → take (length frame) (assemble have frame) ≡ frame
unfolding assemble count_have
take-assemble [] [] h fits = refl
take-assemble [] (x ∷ frame) h fits = absurd (omega arith)
take-assemble (false ∷ have) frame h fits = absurd (omega (arith, count_have-le have))
take-assemble (true ∷ have) frame h fits = elim (dec_le (length frame) max_udp_payload) [
  | yes small ↦
      rw (take-all frame max_udp_payload small, append_assoc)
        (take-append frame _ (length frame) refl)
  | no big ↦
      rw
        (
          full_slot frame (omega arith),
          take-append_add (take max_udp_payload frame) (assemble have (drop max_udp_payload frame))
              (length frame) (length (drop max_udp_payload frame))
              (omega (arith, length-take max_udp_payload frame, length-drop max_udp_payload frame)),
          take-assemble have (drop max_udp_payload frame) (omega arith)
              (omega (arith, length-drop max_udp_payload frame)),
        )
        (take-append-drop max_udp_payload frame)
]
