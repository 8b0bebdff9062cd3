-- ===== src/Control/Repeated/Stopped.antt =====
-- dlp_control.rs: a hello that comes once more stops an active data path.
use smolgnet.Base.{◌≡◌}
use smolgnet.Endpoint.{LinkOps}
use smolgnet.Control.Managed.{DlpManagedEndpoint, negotiate}
use smolgnet.Control.Agreement.Line.{Line, Reachable}

module _ {E : Type 0} (ops : LinkOps E) where
  abbrev Negotiates : DlpManagedEndpoint E → Type 0
  Negotiates m = m.state ≡ negotiate
