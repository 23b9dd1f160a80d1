-- ===== src/Net.antt =====
-- CNetServer: the receive path (`Net.Receive`) and the send path (`Net.Send`) of a session.
pub mod Receive
pub mod Send
