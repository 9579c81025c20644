-- ===== src/Wire.antt =====
-- Byte buffers and byte ranges, as util/SerializationUtil.cpp and Protocol.cpp pass them round:
-- how a call ends (`Types`), memory (`Memory`), calls that write (`Encoder`) and calls that read
-- (`Decoder`).
pub mod Types
pub mod Memory
pub mod Encoder
pub mod Decoder
pub mod Exchange
pub mod Sound
pub mod Yields
