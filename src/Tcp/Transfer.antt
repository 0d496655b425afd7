-- ===== src/Tcp/Transfer.antt =====
-- Two connections: what one was asked to send, the other delivers.
use iran_remote_play.Prelude.{
  ℕ, ◌^◌, ◌≤◌, ◌<◌, ◌≡◌, refl, sym, ap, ◌∙◌, subst, List, [], ◌∷◌, ◌++◌, length, IsPrefix,
  append_assoc, All,
}
use iran_remote_play.Prelude.Bytes.{Bytes}
use iran_remote_play.Packet.Frame.{max_control_payload}
use iran_remote_play.Tcp.{
  Frame, Event, send, send_and_close, close, arrive, read_complete, read_fail, write_complete,
  adopted, start, run,
}
use iran_remote_play.Tcp.Stream.{frames, frames-prefix, frames-make_frame}
use iran_remote_play.Tcp.View.{accepted}
use iran_remote_play.Tcp.Reader.{delivered-prefix}
use iran_remote_play.Tcp.Sound.{requested, queued}
use iran_remote_play.Tcp.Writer.{written-prefix}

-- A message that the frame protocol can carry.
abbrev pub FitsFrame : ℕ → Bytes → Type 0
FitsFrame type payload = (type < 2 ^ 16) × (length payload ≤ max_control_payload)

unfoldable pub IsSendable : Event → Type 0
IsSendable (send type payload) = FitsFrame type payload
IsSendable (send_and_close type payload) = FitsFrame type payload
IsSendable close = Unit
IsSendable (arrive bytes) = Unit
IsSendable read_complete = Unit
IsSendable (read_fail ec) = Unit
IsSendable (write_complete ec) = Unit

-- The messages that were to be sent.
unfoldable pub messages : List Event → List Frame
messages [] = []
messages (send type payload ∷ es) =
    record { type = type; flags = 0; payload = payload } ∷ messages es
messages (send_and_close type payload ∷ es) =
    record { type = type; flags = 0; payload = payload } ∷ messages es
messages (close ∷ es) = messages es
messages (arrive bytes ∷ es) = messages es
messages (read_complete ∷ es) = messages es
messages (read_fail ec ∷ es) = messages es
messages (write_complete ec ∷ es) = messages es

frames-requested : (es : List Event) → All IsSendable es → frames (requested es) ≡ messages es
unfolding requested queued messages IsSendable frames
frames-requested [] h = refl
frames-requested (send type payload ∷ es) h =
    frames-make_frame type payload (requested es) h.0.0 h.0.1
    ∙ ap (λ t. record { type = type; flags = 0; payload = payload } ∷ t) (frames-requested es h.1)
frames-requested (send_and_close type payload ∷ es) h =
    frames-make_frame type payload (requested es) h.0.0 h.0.1
    ∙ ap (λ t. record { type = type; flags = 0; payload = payload } ∷ t) (frames-requested es h.1)
frames-requested (close ∷ es) h = frames-requested es h.1
frames-requested (arrive bytes ∷ es) h = frames-requested es h.1
frames-requested (read_complete ∷ es) h = frames-requested es h.1
frames-requested (read_fail ec ∷ es) h = frames-requested es h.1
frames-requested (write_complete ec ∷ es) h = frames-requested es h.1

IsPrefix-trans : {A : Type 0} (xs ys zs : List A) → IsPrefix xs ys → IsPrefix ys zs → IsPrefix xs zs
IsPrefix-trans xs ys zs p q =
    (p.0 ++ q.0, sym (append_assoc xs p.0 q.0) ∙ (ap (λ t. t ++ q.0) p.1 ∙ q.1))

-- Two started connections, each under events in any order: when the bytes that the second took are
-- a front part of those that the first wrote, what the second delivers is a front part of the
-- messages that the first was asked to send, whole, in their order and with their types, if each
-- of them fits a frame.
pub run-delivers :
    (es fs : List Event)
    → All IsSendable es
    → IsPrefix (accepted fs (start adopted)) (run es (start adopted)).written
    → IsPrefix (run fs (start adopted)).delivered (messages es)
run-delivers es fs h p =
    let tx = run es (start adopted) in
    let rx = run fs (start adopted) in
    let got = accepted fs (start adopted) in
    IsPrefix-trans rx.delivered (frames got) (messages es) (delivered-prefix fs) (
      subst (λ t. IsPrefix (frames got) t) (frames-requested es h)
        (frames-prefix got (requested es)
          (IsPrefix-trans got tx.written (requested es) p (written-prefix es))))
