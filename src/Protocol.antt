-- ===== src/Protocol.antt =====
-- networking/Protocol.h and networking/Protocol.cpp: the messages of the TCP control channel,
-- their wire format and the choice of a codec. Fixed-width fields are numbers with their range in
-- `Body.InRange`; strings are their bytes; a `VideoCodec` is its code, which a cast from the
-- wire leaves as any byte.
pub mod Ids
pub mod Messages
pub mod Write
pub mod Read
pub mod RoundTrip
pub mod Reject
pub mod Negotiate
