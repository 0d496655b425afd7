-- ===== src/Tcp/Sound.antt =====
-- What a connection has written, and what waits in its outbox.
use iran_remote_play.Prelude.{
  ◌≡◌, refl, sym, ap, ◌∙◌, subst, inl, inr, List, [], ◌∷◌, ◌++◌, Bool, true, false, not, length,
  is_empty, IsPrefix, arith, append-nil, append_assoc, Bool-cases,
}
use iran_remote_play.Prelude.Bytes.{Bytes}
use iran_remote_play.Packet.Frame.{make_frame}
use iran_remote_play.Tcp.{
  Connection, Event, Code, send, send_and_close, close, arrive, read_complete, read_fail,
  write_complete, shutdown,
}

unfoldable pub joined : List Bytes → Bytes
joined [] = []
joined (x ∷ xs) = x ++ joined xs

pub joined-append : (xs : List Bytes) (y : Bytes) → joined (xs ++ (y ∷ [])) ≡ joined xs ++ y
unfolding joined
joined-append [] y = append-nil y
joined-append (x ∷ xs) y = rw (joined-append xs y) (sym (append_assoc x (joined xs) y))

-- The bytes of the frames that were to be sent.
unfoldable pub queued : Event → Bytes
queued (send type payload) = make_frame type payload
queued (send_and_close type payload) = make_frame type payload
queued close = []
queued (arrive bytes) = []
queued read_complete = []
queued (read_fail ec) = []
queued (write_complete ec) = []

unfoldable pub requested : List Event → Bytes
unfolding queued
requested [] = []
requested (e ∷ es) = queued e ++ requested es

-- An open connection, and a closed one, of which `bytes` were to be sent.
unfoldable pub SoundWith : Bool → Bool → List Bytes → Bytes → List Code → Bytes → Type 0
unfolding joined
SoundWith true writing outbox written closes bytes =
    IsPrefix written bytes × (outbox ≡ []) × (length closes ≡ 1)
SoundWith false writing outbox written closes bytes =
    (written ++ joined outbox ≡ bytes) × (writing ≡ not (is_empty outbox)) × (closes ≡ [])

unfoldable pub IsSound : Connection → Bytes → Type 0
unfolding SoundWith
IsSound c bytes = SoundWith c.closed c.writing c.outbox c.written c.closes bytes

module _ (c : Connection) (bytes : Bytes) where
  pub make_closed :
      c.closed ≡ true
      → IsPrefix c.written bytes
      → c.outbox ≡ []
      → length c.closes ≡ 1
      → IsSound c bytes
  unfolding IsSound
  make_closed b p o l = rw b (p, o, l)

  pub make_open :
      c.closed ≡ false
      → c.written ++ joined c.outbox ≡ bytes
      → c.writing ≡ not (is_empty c.outbox)
      → c.closes ≡ []
      → IsSound c bytes
  unfolding IsSound
  make_open b p o l = rw b (p, o, l)

  pub closed_sound :
      c.closed ≡ true → IsSound c bytes → SoundWith true c.writing c.outbox c.written c.closes bytes
  unfolding IsSound
  closed_sound b h = subst (λ t. SoundWith t c.writing c.outbox c.written c.closes bytes) b h

  pub open_sound :
      c.closed ≡ false
      → IsSound c bytes
      → SoundWith false c.writing c.outbox c.written c.closes bytes
  unfolding IsSound
  open_sound b h = subst (λ t. SoundWith t c.writing c.outbox c.written c.closes bytes) b h

-- What is requested of a closed connection changes nothing.
pub IsSound-later :
    (c : Connection) (bytes more : Bytes)
    → c.closed ≡ true
    → IsSound c bytes
    → IsSound c (bytes ++ more)
unfolding SoundWith
IsSound-later c bytes more b h =
    let s = closed_sound c bytes b h in
    make_closed c (bytes ++ more) b
      (s.0.0 ++ more, sym (append_assoc c.written s.0.0 more) ∙ ap (λ t. t ++ more) s.0.1) s.1 s.2

pub shutdown_open :
    (ec : Code) (c : Connection) (bytes : Bytes)
    → c.closed ≡ false
    → c.written ++ joined c.outbox ≡ bytes
    → c.closes ≡ []
    → IsSound (shutdown ec c) bytes
unfolding shutdown
shutdown_open ec c bytes b p o =
    let d : Connection = record c { closed = true; outbox = []; closes = c.closes ++ (ec ∷ []) } in
    subst (λ d. IsSound d bytes) (ground arith)
      (make_closed d bytes refl (joined c.outbox, p) refl (rw o refl))

pub shutdown-IsSound :
    (ec : Code) (c : Connection) (bytes : Bytes) → IsSound c bytes → IsSound (shutdown ec c) bytes
unfolding shutdown SoundWith
shutdown-IsSound ec c bytes h = elim (Bool-cases c.closed) [
  | inl b ↦ subst (λ d. IsSound d bytes) (ground arith) h
  | inr b ↦ let s = open_sound c bytes b h in shutdown_open ec c bytes b s.0 s.2
]
