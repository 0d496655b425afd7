-- ===== src/Udp.antt =====
-- networking/UdpProtocol.h and networking/UdpProtocol.cpp: the media datagrams. Each class is a
-- child: the header, the sequence tracker, the fragment reassembler, the jitter buffer.
pub mod Header
pub mod Sequence
pub mod Jitter
pub mod FrameMap
pub mod Send
pub mod Reassembly
pub mod Endpoint
pub mod Transport
