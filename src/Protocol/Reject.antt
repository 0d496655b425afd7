-- ===== src/Protocol/Reject.antt =====
-- What `decodeMessage` refuses, and what an accepted envelope is.
use iran_remote_play.Prelude.{
  ℕ, zero, suc, ◌≡◌, refl, sym, ap, ◌∙◌, inl, inr, none, some, [], ◌∷◌, ◌++◌, true, false, arith,
  append-nil, Bool-cases, Option-cases, append-eq-nil,
}
use iran_remote_play.Prelude.Bytes.{Bytes}
use iran_remote_play.Packet.Reader.{Reader, reader, Read, ◌>>=◌, pure}
use iran_remote_play.Packet.Laws.{
  Lawful, Lawful-pure, Lawful-bind, Lawful-u8, Lawful-u16, Lawful-u32, Lawful-u64, Lawful-boolean,
  Lawful-bytes, Lawful-str,
}
use iran_remote_play.Protocol.Ids.{MsgId, raw_id, id_of_raw, raw_id-id_of_raw}
use iran_remote_play.Protocol.Messages.{Body, Envelope, id_of, InRange}
use iran_remote_play.Protocol.Write.{encode_message}
use iran_remote_play.Protocol.Read.{
  read_codecs, read_video_codec_list, read_client_hello, read_host_reject, read_host_capabilities,
  read_negotiation_result, read_input_permission, read_stream_start, read_key_exchange, read_body,
  accepted, decode_known, decode_message,
}
use iran_remote_play.Protocol.RoundTrip.{
  envelope, Undoes-body, encode_message-written, decode_message-raw_id,
}

Lawful-map : {A B : Type 0} (m : Read A) (f : A → B) → Lawful m → Lawful (m >>= λ x. pure (f x))
Lawful-map m f l = Lawful-bind m (λ x. pure (f x)) l (λ x. Lawful-pure (f x))

Lawful-codecs : (n : ℕ) → Lawful (read_codecs n)
unfolding read_codecs
Lawful-codecs zero = Lawful-pure []
Lawful-codecs (suc n) = Lawful-bind _ _ Lawful-u8 (λ c. Lawful-map _ _ (Lawful-codecs n))

Lawful-codec_list : Lawful read_video_codec_list
unfolding read_video_codec_list
Lawful-codec_list = Lawful-bind _ _ Lawful-u8 Lawful-codecs

ruleset lawful_rules = (
  Lawful-bind, Lawful-pure, Lawful-u8, Lawful-u16, Lawful-u32, Lawful-u64, Lawful-boolean,
  Lawful-bytes, Lawful-str, Lawful-codec_list,
)

Lawful-body : (id : MsgId) → Lawful (read_body id)
unfolding read_body read_client_hello read_host_reject read_host_capabilities
    read_negotiation_result read_input_permission read_stream_start read_key_exchange
Lawful-body MsgId.client_hello = search lawful_rules depth 14
Lawful-body _ = search lawful_rules depth 14

accepted_failed : (id : MsgId) (r : Reader) → r.ok ≡ false → accepted id r ≡ false
unfolding accepted
accepted_failed id r h = ground arith

decode_known_refused :
    (id : MsgId) (input : Bytes)
    → (read_body id (reader input)).1.ok ≡ false
    → decode_known id input ≡ none
unfolding decode_known
decode_known_refused id input h = ground (arith, accepted_failed id (read_body id (reader input)).1)

-- Every proper prefix of an encoded message is refused under the message's id.
pub decode_message_truncated :
    (m : Body) (front : Bytes) (x : ℕ) (back : Bytes)
    → InRange m
    → encode_message (envelope m) ≡ front ++ (x ∷ back)
    → decode_message (raw_id (id_of m)) front ≡ none
decode_message_truncated m front x back h e =
    let id = id_of m in
    let u = Undoes-body m h in
    decode_message-raw_id id front ∙ elim (Bool-cases (read_body id (reader front)).1.ok) [
      | inr bad ↦ decode_known_refused id front bad
      | inl good ↦ absurd (append-eq-nil (read_body id (reader front)).1.rest x back (whole good))
    ]
  where
    whole :
        (read_body (id_of m) (reader front)).1.ok ≡ true
        → (read_body (id_of m) (reader front)).1.rest ++ (x ∷ back) ≡ []
    whole good =
        let u = Undoes-body m h in
        ap (λ p. p.1.rest)
          (sym ((Lawful-body (id_of m)).grows (reader front) (x ∷ back) good)
            ∙ ap (λ t. read_body (id_of m) (reader t))
                (sym e ∙ encode_message-written m h ∙ sym (append-nil u.written))
            ∙ u.reads [])

id_of-read_body : (id : MsgId) (r : Reader) → id_of (read_body id r).0 ≡ id
unfolding id_of read_body ◌>>=◌ pure
id_of-read_body MsgId.client_hello r = refl
id_of-read_body _ r = refl

decode_known_sound :
    (id : MsgId) (input : Bytes) (e : Envelope)
    → decode_known id input ≡ some e
    → (e.type ≡ id) × (id_of e.body ≡ id)
unfolding decode_known
decode_known_sound id input e h = ground (arith, id_of-read_body id (reader input))

-- An accepted envelope carries the id that stood in the frame header and a body of that id.
pub decode_message_sound :
    (raw : ℕ) (input : Bytes) (e : Envelope)
    → decode_message raw input ≡ some e
    → (raw_id e.type ≡ raw) × (id_of e.body ≡ e.type)
unfolding decode_message
decode_message_sound raw input e h = elim (Option-cases (id_of_raw raw)) [
  | inl unknown ↦ cc
  | inr (id, known) ↦ ground (arith, raw_id-id_of_raw raw id known, decode_known_sound id input e)
]
