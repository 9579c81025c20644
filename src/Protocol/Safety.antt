-- ===== src/Protocol/Safety.antt =====
-- The decoders of Protocol.cpp on arbitrary bytes from the network.
