-- ===== src/Handshake/Soundness.antt =====
-- What holds in every state that a handshake gets to.
use libofp.Handshake.{Handshake}
