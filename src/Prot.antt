-- ===== src/Prot.antt =====
-- daemon/protocol.c: the packets of a ring, their order and delivery, and the token.
pub mod Store
pub mod Deliver
pub mod Receive
pub mod Net
pub mod Send
pub mod Evs
pub mod Token
pub mod Handle
