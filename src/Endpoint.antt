-- ===== src/Endpoint.antt =====
-- endpoint/core.rs: an endpoint's configuration and its link-local address, and the methods of an
-- endpoint that link control calls.
use smolgnet.Base.{ℕ, bit_and, bit_or, Bool, false, not, ◌||◌, Option, none, ◌==◌}
use smolgnet.Base.Results.{Result, ok, guard, ◌>>◌, invalid_field}
use smolgnet.Wire.Gdp.{GdpAddress, GdpWireConfig, default_config}
use smolgnet.Dlp.{VcMode, two, Flit, GnetFrame}
use smolgnet.Dlp.Endpoint.{DlpEndpoint}

pub record EndpointConfig : Type 0 where
  pub rx_buffer_flits : ℕ
  pub vc_mode : VcMode
  pub gts_receive_slots : ℕ
  pub local_context_prefix : Option ℕ
  pub prefer_local_gdp : Bool
  pub credit_update_threshold : ℕ
  pub control_window_flits : ℕ
  pub gdp_wire : GdpWireConfig

unfoldable pub config_new : ℕ → EndpointConfig
config_new rx_buffer_flits = record {
  rx_buffer_flits = rx_buffer_flits;
  vc_mode = two;
  gts_receive_slots = 32;
  local_context_prefix = none;
  prefer_local_gdp = false;
  credit_update_threshold = 1;
  control_window_flits = 32;
  gdp_wire = default_config;
}

unfoldable pub validate : EndpointConfig → Result EndpointConfig
validate c = do
  guard
      (not (
        c.rx_buffer_flits == 0
        || (c.gts_receive_slots == 0
            || (c.control_window_flits == 0 || c.credit_update_threshold == 0))))
      invalid_field
  ok c

abbrev pub link_local_prefix : ℕ
link_local_prefix = 0xfe80_0000_0000_0000

abbrev pub link_local_suffix_mask : ℕ
link_local_suffix_mask = 0x0000_ffff_ffff_ffff

unfoldable pub make_link_local : ℕ → Result GdpAddress
make_link_local suffix = do
  let masked = bit_and suffix link_local_suffix_mask
  guard (not (masked == 0)) invalid_field
  ok (bit_or link_local_prefix masked)

-- What link control calls of an endpoint, for any type of endpoints: its data link, and the methods
-- that end in the endpoint's own tables. A method that mutates the endpoint returns it beside its result.
pub record LinkOps (E : Type 0) : Type 0 where
  pub new : GdpAddress → EndpointConfig → Result E
  pub unconfigured : ℕ → EndpointConfig → Result E
  pub dlp : E → DlpEndpoint
  pub set_dlp : E → DlpEndpoint → E
  pub link_local_address : E → GdpAddress
  pub link_detached : E → E
  pub bind_managed_link_peer : E → GdpAddress → ℕ → E × Result (Unit {0})
  pub retry_managed_link_credit_request : E → E
  pub poll_tx_flit : E → E × Result (Option Flit)
  pub poll_tx_frame : E → E × Result (Option GnetFrame)
  pub receive_managed_flit : E → Flit → ℕ → ℕ → E × Result Bool
  pub receive_managed_frame : E → GnetFrame → ℕ → ℕ → E × Result Bool
