-- ===== src/Control.antt =====
-- dlp_control.rs: the link-control protocol, its frames, and what two ends agree on.
pub mod Frame
pub mod Parameters
pub mod Managed
pub mod Cable
pub mod Agreement
pub mod Repeated
mod Tests
