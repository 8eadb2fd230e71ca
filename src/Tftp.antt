-- ===== src/Tftp.antt =====
-- include/common/tftp.hpp and src/common/tftp.cpp: the packets of the protocol and their bytes.
pub mod Types
pub mod Modes
pub mod Serialise
pub mod Deserialise
pub mod RoundTrip
