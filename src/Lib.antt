-- ===== src/Lib.antt =====
-- A model of the core of RemotePlay, a program that streams a game from a host to clients: the
-- control channel and its messages, the host's handshake, the media datagrams and their buffers, the
-- encryption of datagrams, the session codes, the bitrate controller and the input payloads.
--
-- How the parts interact: the two sides exchange messages (Protocol) in frames (Packet) over TCP,
-- beginning with a session code (Codes), the host's decision and the choice of a codec (Host).
-- Media frames are cut into datagrams (Udp/Send) whose payloads the channel encrypts (Secure). The
-- receiver decrypts, follows the sequence numbers (Udp/Sequence), puts fragments together
-- (Udp/Reassembly) and releases frames in order (Udp/Jitter). The host adapts its bitrate to the
-- link (Bitrate). The client sends its input (Sender) in payloads (Input) that the host applies if
-- it permits them (Injector).
--
-- Which file models which part:
--   Prelude: tests, lists and little-endian words over the native numbers.
--   Packet: networking/Packet.h and .cpp. Packet/Writer is ByteWriter, a function of the bytes
--   written so far; Packet/Reader is ByteReader, the bytes left and the ok flag; Packet/Frame is
--   FrameHeader, makeFrame and parseFrameHeader. Packet/Laws has the lemmas on both together.
--   Protocol: networking/Protocol.h and .cpp. Protocol/Ids and Protocol/Messages are the types,
--   Protocol/Write the writeMsg functions and encodeMessage, Protocol/Read the readMsg functions
--   and decodeMessage, Protocol/Negotiate negotiateCodec.
--   Udp: networking/UdpProtocol.h and .cpp, and in Udp/Send sendFrame of
--   networking/UdpTransport.cpp. Udp/Header is UdpHeader, Udp/Sequence SequenceTracker,
--   Udp/Reassembly FragmentReassembler (its std::map is Udp/FrameMap), Udp/Jitter JitterBuffer.
--   Udp/Endpoint is the state of UdpTransport with sendSmall, the peer and the relay fallback;
--   Udp/Transport is what a datagram meets there: handleDatagram with its guards and its dispatch,
--   handleMediaComplete, and postDatagram.
--   Secure: security/SecureChannel.h and .cpp in Secure/Channel, and hkdfSha256 of
--   security/Crypto.cpp in Secure/Crypto.
--   Codes: security/SessionCodes.cpp. Bitrate: adapt/AdaptiveBitrate.h and .cpp. Input:
--   input/InputProtocol.h. Injector: input/InputInjector.h and .cpp with input/VirtualGamepad.h and
--   .cpp; Injector/Allowed is on permissions, Injector/Held and Injector/Released on held keys.
--   Sender: input/InputSender.h and .cpp; Sender/Settled is on what a round leaves.
--   Clients and Host: host/HostSession.h and .cpp, the table of clients and the handshake of the
--   host; Host/Housekeeping is housekeeping, Host/Lifecycle start, stop and the messages of the
--   application, and Host/Table follows the table through every call.
--   ClientSession: client/ClientSession.h and .cpp. ClientSession is the state with start and finish,
--   ClientSession/Handlers the handlers of frames, the heartbeat and the end. Session joins a
--   host and a client by two ordered channels; Session/Hearing, Session/HostSide and Session/Joined
--   follow the handshake through the handlers of both.
--   Tcp: networking/TcpTransport.h and .cpp. Tcp is TcpConnection as a state machine whose events are
--   the posted calls, bytes that arrive and the ends of reads and writes; Tcp/Stream reads the frames
--   off a whole stream, Tcp/View, Tcp/Reader and Tcp/Settled are on the reading half, Tcp/Sound and
--   Tcp/Writer on the writing half, Tcp/Transfer joins two connections. Tcp/Server is the accept loop
--   of TcpServer and Tcp/Served what it hands over. Tcp/Attempt is ConnectAttempt and
--   RelayConnectAttempt; a direct attempt is one whose flag relay is off.
--   Secure/Agreement and Secure/Crypto/Hkdf are on the keys that both sides derive.
--   Examples: concrete runs.
--
-- How the code is read: a class is a record of its members, a method a function from the record to
-- its result and the record after the call. A byte is a natural number below 256, a word a natural
-- number with its wrap-around written out; parts that are or'd into disjoint bits are added.
-- A bit mask is the list of its bits. Times are arguments. Undefined behaviour (a copy past the end
-- of a buffer, a use of an erased entry) is an outcome of its own, `fault`; in the bitrate controller,
-- whose `int`s can overflow, it is a flag of the state. Loops are recursions on a list or on a count;
-- the one loop with a bound of its own, the expansion of hkdfSha256, is given
-- as many rounds as bytes are wanted, and every round adds one byte at least.
--
-- Parameters: the primitives of Windows CNG (HMAC, ECDH, AES-GCM) are the record Cng; the
-- arithmetic on doubles is the records Double and Estimates; the random words of the session codes
-- are a function. Whether the calls of SendInput and ViGEm succeed is the record Windows of Injector.
--
-- Not modelled: the sockets, threads and timers under networking/TcpTransport.cpp and
-- networking/UdpTransport.cpp, the relay dialer of the host's session, the signaling client and its
-- server, the reader of controllers, capture, encoding, decoding, audio, the coordinators and the
-- user interface, and the libraries in third_party.
-- Locks and atomics are left out: a method is one step.
pub mod Prelude
pub mod Packet
pub mod Protocol
pub mod Udp
pub mod Secure
pub mod Codes
pub mod Bitrate
pub mod Injector
pub mod Sender
pub mod Input
pub mod Examples
pub mod Clients
pub mod Host
pub mod Tcp
pub mod ClientSession
pub mod Session
