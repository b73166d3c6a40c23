-- ===== src/Simulator.antt =====
-- include/DroneDataSimulator.h and src/DroneDataSimulator.cpp: the producer of the traffic.
pub mod Encode
pub mod Scenarios
pub mod Counts
pub mod Limits
pub mod Decode
pub mod Accept
pub mod Corrupt
pub mod Reject
pub mod Traffic
pub mod Wire
pub mod Flip
pub mod Conclusion
pub mod Generate
pub mod Delivery
