-- ===== src/Protocol/FileChunks/Total.antt =====
-- `decodeFileChunksInfoList` on any input: its loop ends, since every entry takes a byte.
