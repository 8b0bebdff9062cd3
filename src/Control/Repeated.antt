-- ===== src/Control/Repeated.antt =====
-- dlp_control.rs: a hello that comes once more to an end whose data path is active.
pub mod Greeted
pub mod Kept
pub mod Stopped
use smolgnet.Base.{ℕ, ◌≡◌, Bool, true, false, not, ◌&&◌, ◌||◌}
use smolgnet.Control.Managed.{
  DlpManagedEndpoint, DlpControlState, is_negotiate, is_credit_sync, is_up, is_none,
}

-- An end that negotiates or carries data has sent and received an answer to a hello, and knows its peer.
unfoldable pub IsGreeted : {E : Type 0} → DlpManagedEndpoint E → Type 0
IsGreeted m =
    (not (is_negotiate m.state || (is_credit_sync m.state || is_up m.state))
      || (m.negotiation.hello_ack_sent
          && (m.negotiation.hello_ack_received && not (is_none m.peer_generation))))
    ≡ true
