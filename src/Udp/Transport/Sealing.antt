-- ===== src/Udp/Transport/Sealing.antt =====
-- The header that `postDatagram` seals a payload with, and the one that it sends.
use iran_remote_play.Prelude.{
  ℕ, zero, suc, ◌<◌, ◌≡◌, refl, sym, ap, ◌∙◌, ◌≢◌, some, [], ◌∷◌, ◌++◌, Bool, true, drop, get_or,
  arith,
}
use Prim.Native.Nat.{bit_or}
use iran_remote_play.Prelude.Bytes.{Bytes, le_bytes}
use iran_remote_play.Udp.Header.{
  UdpHeader, flag_encrypted, udp_header_size, encode_udp_header, read_header,
}
use iran_remote_play.Udp.Endpoint.{Transport, transmit, sealed_header}
use iran_remote_play.Udp.Transport.{Estimates, post_datagram}
use iran_remote_play.Secure.Crypto.{Cng}
use iran_remote_play.Secure.Channel.{SecureChannel, seal, bound_header}

flags_change : (f : ℕ) → f < 4 → bit_or f flag_encrypted ≢ f
flags_change zero small e = omega (arith, e)
flags_change (suc zero) small e = omega (arith, e)
flags_change (suc (suc zero)) small e = omega (arith, e)
flags_change (suc (suc (suc zero))) small e = omega (arith, e)
flags_change (suc (suc (suc (suc f)))) small e = omega (arith, small)

header_flags :
    (h : UdpHeader) (more : Bytes)
    → get_or (bound_header (encode_udp_header h ++ more)) 4 0 ≡ h.flags
unfolding encode_udp_header le_bytes
header_flags h more = refl

sealed_flags :
    (h : UdpHeader) (payload out : Bytes)
    → (sealed_header (encode_udp_header h ++ payload) out).flags ≡ bit_or h.flags flag_encrypted
unfolding sealed_header read_header encode_udp_header le_bytes
sealed_flags h payload out = refl

-- The additional data that a sealed datagram is authenticated with are not those that the receiver
-- reads: the first 30 bytes of what `postDatagram` sends differ from the first 30 bytes that it
-- gave to `seal`, for a datagram that was encoded with no flags but Fragment and Keyframe.
pub post_datagram_rebinds :
    (estimates : Estimates) (cng : Cng) (t : Transport estimates.Carrier) (c : SecureChannel)
    (h : UdpHeader) (payload out : Bytes) (succeeds : Bool)
    → h.flags < 4
    → t.has_socket ≡ true
    → t.have_peer ≡ true
    → t.secure ≡ some c
    → (seal cng c
        (encode_udp_header h ++ payload)
        (drop udp_header_size (encode_udp_header h ++ payload))).0
      ≡ some out
    → (sent : Bytes) × ((post_datagram estimates cng t (encode_udp_header h ++ payload) succeeds).0
        ≡ sent ∷ [])
      × (bound_header sent ≢ bound_header (encode_udp_header h ++ payload))
unfolding post_datagram transmit
post_datagram_rebinds estimates cng t c h payload out succeeds few socket peer secured given = (
  encode_udp_header (sealed_header (encode_udp_header h ++ payload) out) ++ out,
  rw (socket, peer, secured, given) refl,
  λ same. flags_change h.flags few (
      sym (sealed_flags h payload out)
      ∙ (sym (header_flags (sealed_header (encode_udp_header h ++ payload) out) out)
          ∙ (ap (λ bs. get_or bs 4 0) same ∙ header_flags h payload))),
)
