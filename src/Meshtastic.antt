-- ===== src/Meshtastic.antt =====
-- internal/meshtastic: the wire to the radio that is attached to this machine.
pub mod Frame
