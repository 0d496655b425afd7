-- ===== src/Udp/Transport/Guards.antt =====
-- Which datagrams the transport lets in.
use iran_remote_play.Prelude.{
  ℕ, ◌+◌, ◌%◌, ◌^◌, ◌≡◌, refl, sym, ap, ◌∙◌, subst, ◌≢◌, ◌⊎◌, inl, inr, Option, none, some, List,
  [], true, false, ◌&&◌, not, ◌==◌, length, take, drop, arith, Bool-cases,
}
use iran_remote_play.Prelude.Bytes.{Bytes}
use iran_remote_play.Udp.Header.{UdpHeader, decode_udp_header, udp_header_size}
use iran_remote_play.Udp.Sequence.{SequenceTracker}
use iran_remote_play.Udp.Jitter.{JitterBuffer}
use iran_remote_play.Udp.Reassembly.{Reassembler}
use iran_remote_play.Udp.Endpoint.{
  Transport, count, is_secure, is_encrypted, locked_elsewhere, set_peer,
}
use iran_remote_play.Udp.Transport.{
  Estimates, Handled, faulted, done, learn_peer, unlocked, open_with, decrypt, admitted, decoded,
  accept, admit, handle_datagram,
}
use iran_remote_play.Secure.Crypto.{Cng}
use iran_remote_play.Secure.Channel.{SecureChannel, open_sealed}

-- The media state, the send counters and the statistics of the link.
pub record Media (D : Type 0) : Type 0 where
  pub reassembly : Reassembler × Reassembler × Reassembler
  pub sequences : SequenceTracker × SequenceTracker
  pub jitter : JitterBuffer × JitterBuffer
  pub counters : List ℕ
  pub round_trips : D × D
  pub arrivals : ℕ × D

abbrev pub media : {D : Type 0} → Transport D → Media D
media t = record {
  reassembly = (t.video_reassembly, t.audio_reassembly, t.input_reassembly);
  sequences = (t.video_seq, t.audio_seq);
  jitter = (t.video_jitter, t.audio_jitter);
  counters = t.seq_counter;
  round_trips = (t.last_rtt_ms, t.avg_rtt_ms);
  arrivals = (t.last_arrival_ns, t.jitter_ewma);
}

-- The media state, the peer and the locked remote of `t`.
abbrev pub Keeps : {D : Type 0} → Transport D → Transport D → Type 0
Keeps t t' =
    (media t' ≡ media t)
    × (t'.peer ≡ t.peer)
    × (t'.have_peer ≡ t.have_peer)
    × (t'.drop_unknown_remote ≡ t.drop_unknown_remote)
    × (t'.locked_remote ≡ t.locked_remote)

-- Nothing leaves the transport, and its media state is `m`.
abbrev pub Ignored : {D : Type 0} → Media D → Handled D → Type 0
Ignored m faulted = ⊥
Ignored m (done effects t') = (effects ≡ []) × (media t' ≡ m)

-- It keeps its peer as well.
abbrev pub Refused : {D : Type 0} → Transport D → Handled D → Type 0
Refused t faulted = ⊥
Refused t (done effects t') = (effects ≡ []) × Keeps t t'

-- The payload of a datagram, which the channel is to open.
abbrev pub sealed_payload : UdpHeader → Bytes → Bytes
sealed_payload h buf = take h.payload_size (drop udp_header_size buf)

-- A datagram that the channel opened.
abbrev pub IsOpened : Cng → SecureChannel → Bytes → Type 0
IsOpened cng c buf =
    (h : UdpHeader) × (clear : Bytes) × (decode_udp_header buf ≡ some h)
    × (is_encrypted h ≡ true)
    × ((open_sealed cng c buf (sealed_payload h buf)).0 ≡ some clear)

module _ (estimates : Estimates) (cng : Cng) where
  unlocked-Keeps :
      (t : Transport estimates.Carrier) (opened : Option Bytes × SecureChannel)
      → Keeps t (unlocked estimates cng t opened).1
  unfolding unlocked
  unlocked-Keeps t (none, c) = (refl, refl, refl, refl, refl)
  unlocked-Keeps t (some clear, c) = (refl, refl, refl, refl, refl)

  unlocked_opened :
      (t : Transport estimates.Carrier) (opened : Option Bytes × SecureChannel)
      → (unlocked estimates cng t opened).0 ≡ opened.0
  unfolding unlocked
  unlocked_opened t (none, c) = refl
  unlocked_opened t (some clear, c) = refl

  open_with-Keeps :
      (t : Transport estimates.Carrier) (buf payload : Bytes) (s : Option SecureChannel)
      → Keeps t (open_with estimates cng t buf payload s).1
  unfolding open_with
  open_with-Keeps t buf payload none = (refl, refl, refl, refl, refl)
  open_with-Keeps t buf payload (some c) = unlocked-Keeps t (open_sealed cng c buf payload)

  decrypt-Keeps :
      (t : Transport estimates.Carrier) (buf : Bytes) (h : UdpHeader)
      → Keeps t (decrypt estimates cng t buf h).1
  unfolding decrypt
  decrypt-Keeps t buf h = elim (Bool-cases (is_encrypted h)) [
    | inl enc ↦ rw enc (open_with-Keeps t buf (sealed_payload h buf) t.secure)
    | inr plain ↦ rw plain (elim (Bool-cases (is_secure t.secure)) [
      | inl on ↦ rw on (refl, refl, refl, refl, refl)
      | inr off ↦ rw off (refl, refl, refl, refl, refl)
    ])
  ]

module _ (estimates : Estimates) (cng : Cng) (c : SecureChannel) where
  decrypt_opened :
      (t : Transport estimates.Carrier) (buf clear : Bytes) (h : UdpHeader)
      → t.secure ≡ some c
      → c.active ≡ true
      → (decrypt estimates cng t buf h).0 ≡ some clear
      → (is_encrypted h ≡ true) × ((open_sealed cng c buf (sealed_payload h buf)).0 ≡ some clear)
  unfolding decrypt is_secure open_with
  decrypt_opened t buf clear h has on = elim (Bool-cases (is_encrypted h)) [
    | inl enc ↦
        rw (enc, has)
          (λ given. (
            refl,
            sym (
                  unlocked_opened estimates cng (record t { secure = some c })
                    (open_sealed cng c buf (sealed_payload h buf)))
                ∙ given,
          ))
    | inr plain ↦ rw (plain, has, on) (λ given. absurd cc)
  ]

  admitted-IsOpened :
      (t : Transport estimates.Carrier) (now : ℕ) (buf : Bytes) (h : UdpHeader) (from : ℕ)
      (d : Option Bytes × Transport estimates.Carrier)
      → t.secure ≡ some c
      → c.active ≡ true
      → decode_udp_header buf ≡ some h
      → decrypt estimates cng t buf h ≡ d
      → Refused t (admitted estimates cng now h from d) ⊎ IsOpened cng c buf
  unfolding admitted
  admitted-IsOpened t now buf h from (none, t') has on read given =
      inl (refl, subst (λ d. Keeps t d.1) given (decrypt-Keeps estimates cng t buf h))
  admitted-IsOpened t now buf h from (some clear, t') has on read given =
      let (enc, opens) = decrypt_opened t buf clear h has on (ap (λ d. d.0) given) in
      inr (h, clear, read, enc, opens)

  decoded-IsOpened :
      (t : Transport estimates.Carrier) (now : ℕ) (buf : Bytes) (from : ℕ)
      (header : Option UdpHeader)
      → t.secure ≡ some c
      → c.active ≡ true
      → decode_udp_header buf ≡ header
      → Refused t (decoded estimates cng t now buf from header) ⊎ IsOpened cng c buf
  unfolding decoded admit
  decoded-IsOpened t now buf from none has on read = inl (refl, (refl, refl, refl, refl, refl))
  decoded-IsOpened t now buf from (some h) has on read =
      elim (Bool-cases (not (t.session_id == 0) && not (h.session_id == t.session_id))) [
        | inl other ↦ rw other (inl (refl, (refl, refl, refl, refl, refl)))
        | inr ours ↦ rw ours (
            admitted-IsOpened (record t { last_rx_abs_ns = now }) now buf h from _ has on read refl)
      ]

  -- Once the channel is active, a datagram either leaves the transport's media state, send counters,
  -- link statistics and peer as they are, with nothing sent and no callback called, or it is one
  -- that carries the Encrypted flag and that the channel opened.
  pub handle_datagram-IsOpened :
      (t : Transport estimates.Carrier) (now : ℕ) (buf : Bytes) (from : ℕ)
      → t.secure ≡ some c
      → c.active ≡ true
      → Refused t (handle_datagram estimates cng t now buf from) ⊎ IsOpened cng c buf
  unfolding handle_datagram
  handle_datagram-IsOpened t now buf from has on =
      decoded-IsOpened
        (record t {
          recv_datagrams = count t.recv_datagrams;
          recv_bytes = (t.recv_bytes + length buf) % 2 ^ 64;
        })
        now buf from (decode_udp_header buf) has on refl

module _ (estimates : Estimates) (cng : Cng) where
  accept_locked :
      (t : Transport estimates.Carrier) (now : ℕ) (h : UdpHeader) (from remote : ℕ)
      (payload : Bytes)
      → t.drop_unknown_remote ≡ true
      → t.locked_remote ≡ some remote
      → from ≢ remote
      → Ignored (media t) (accept estimates cng t now h from payload)
  unfolding accept learn_peer set_peer locked_elsewhere
  accept_locked t now h from remote payload drops locked other =
      let stranger : (remote == from) ≡ false = ground (arith, other) in
      elim (Bool-cases (not t.have_peer)) [
        | inl first ↦ rw (first, drops, locked, stranger) (refl, refl)
        | inr known ↦
            rw known
              (elim (Bool-cases (
                is_secure t.secure
                && is_encrypted h
                && not (t.peer == from)
                && not (locked_elsewhere t.locked_remote t.peer))) [
                  | inl moves ↦ rw (moves, drops, locked, stranger) (refl, refl)
                  | inr stays ↦ rw (stays, drops, locked, stranger) (refl, refl)
                ])
      ]

  admitted_locked :
      (t : Transport estimates.Carrier) (now : ℕ) (h : UdpHeader) (from remote : ℕ)
      (d : Option Bytes × Transport estimates.Carrier)
      → t.drop_unknown_remote ≡ true
      → t.locked_remote ≡ some remote
      → from ≢ remote
      → Keeps t d.1
      → Ignored (media t) (admitted estimates cng now h from d)
  unfolding admitted
  admitted_locked t now h from remote (none, t') drops locked other keeps = (refl, keeps.0)
  admitted_locked t now h from remote (some payload, t') drops locked other keeps =
      subst (λ m. Ignored m (accept estimates cng t' now h from payload)) keeps.0
        (accept_locked t' now h from remote payload (keeps.3 ∙ drops) (keeps.4 ∙ locked) other)

  decoded_locked :
      (t : Transport estimates.Carrier) (now : ℕ) (buf : Bytes) (from remote : ℕ)
      (header : Option UdpHeader)
      → t.drop_unknown_remote ≡ true
      → t.locked_remote ≡ some remote
      → from ≢ remote
      → Ignored (media t) (decoded estimates cng t now buf from header)
  unfolding decoded admit
  decoded_locked t now buf from remote none drops locked other = (refl, refl)
  decoded_locked t now buf from remote (some h) drops locked other =
      elim (Bool-cases (not (t.session_id == 0) && not (h.session_id == t.session_id))) [
        | inl wrong ↦ rw wrong (refl, refl)
        | inr ours ↦ rw ours (
            admitted_locked (record t { last_rx_abs_ns = now }) now h from remote _ drops locked
              other (decrypt-Keeps estimates cng (record t { last_rx_abs_ns = now }) buf h))
      ]

  -- With unknown remotes dropped and a remote locked, whatever arrives from another endpoint sends
  -- nothing, calls no callback, and leaves the media state, the send counters and the link
  -- statistics as they are.
  pub handle_datagram_locked :
      (t : Transport estimates.Carrier) (now : ℕ) (buf : Bytes) (from remote : ℕ)
      → t.drop_unknown_remote ≡ true
      → t.locked_remote ≡ some remote
      → from ≢ remote
      → Ignored (media t) (handle_datagram estimates cng t now buf from)
  unfolding handle_datagram
  handle_datagram_locked t now buf from remote drops locked other =
      decoded_locked _ now buf from remote (decode_udp_header buf) drops locked other

  -- The peer is learned before the lock is looked at: without a peer, a plain datagram of the
  -- session from any endpoint sets the peer to that endpoint, though the lock then drops it.
  pub handle_datagram_learns :
      (t : Transport estimates.Carrier) (now : ℕ) (buf : Bytes) (from remote : ℕ) (h : UdpHeader)
      → decode_udp_header buf ≡ some h
      → (not (t.session_id == 0) && not (h.session_id == t.session_id)) ≡ false
      → is_encrypted h ≡ false
      → t.secure ≡ none
      → t.have_peer ≡ false
      → t.drop_unknown_remote ≡ true
      → t.locked_remote ≡ some remote
      → from ≢ remote
      → (t' : Transport estimates.Carrier) × (handle_datagram estimates cng t now buf from
          ≡ done [] t')
        × (t'.peer ≡ from)
        × (t'.have_peer ≡ true)
  unfolding handle_datagram decoded admit decrypt is_secure admitted accept learn_peer set_peer
      locked_elsewhere
  handle_datagram_learns t now buf from remote h read ours plain clear first drops locked other =
      let stranger : (remote == from) ≡ false = ground (arith, other) in
      rw (read, decoded, ours, plain, clear, first, drops, locked, stranger) (_, refl, refl, refl)
