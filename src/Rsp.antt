-- ===== src/Rsp.antt =====
-- RSP (include/rsp.h, src/rsp.C): the packets of the remote serial protocol, and its commands.
pub mod Text
pub mod Scan
pub mod Packet
pub mod PacketLaws
pub mod Escape
pub mod Command
pub mod Tests
