-- ===== src/Tests.antt =====
-- The theorems of the packet codec and of the whole way from simulator to parser, at concrete data.
mod Traffic
mod Codec
mod Scenarios
mod Generate
