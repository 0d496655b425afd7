-- ===== src/Packet.antt =====
-- networking/Packet.h and networking/Packet.cpp: the control channel's frame header and the
-- byte-level serialization. A `std::vector<uint8_t>` is a list of bytes. The reader's cursor is
-- the list of the bytes from `pos_` to `size_`: `data_` and `size_` never change.
pub mod Writer
pub mod Reader
pub mod Laws
pub mod Frame
