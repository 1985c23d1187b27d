-- ===== src/Packets.antt =====
-- pycomm3/packets: the messages, their encapsulation, and the replies.
pub mod Frame
pub mod Reply
pub mod MultiService
pub mod Generic
