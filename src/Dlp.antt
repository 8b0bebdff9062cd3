-- ===== src/Dlp.antt =====
-- dlp.rs: the types of the data link. A `Vcid` is its number, a count of flits a u32.
pub mod Endpoint
mod Tests
pub mod Link
pub mod Port
use smolgnet.Base.{ℕ, ◌+◌, ◌*◌, ◌/◌, ◌-◌, Bool, List, Option, ltb, ◌==◌, length, if◌then◌else◌}
use smolgnet.Base.Results.{Result, ok, err, invalid_field}
use smolgnet.Wire.Gdp.{GdpWireConfig, default_config}

pub data VcMode : Type 0 where
  two four : VcMode

unfoldable pub vc_count : VcMode → ℕ
vc_count two = 2
vc_count four = 4

-- `Vcid::CONTROL`.
abbrev pub control_vc : ℕ
control_vc = 0

unfoldable pub vcid_new : ℕ → Result ℕ
vcid_new v = if ltb v 4 then ok v else err invalid_field

abbrev pub is_control : ℕ → Bool
is_control vcid = vcid == 0

pub record Flit : Type 0 where
  pub vcid : ℕ
  pub word : ℕ

pub data LinkTraffic : Type 0 where
  control_traffic data_traffic : LinkTraffic

pub record GnetFrame : Type 0 where
  pub vcid : ℕ
  pub traffic : LinkTraffic
  pub bytes : List ℕ

-- `(self.bytes.len() + 3) / 4`, of a frame that is received or queued.
unfoldable pub flit_len : List ℕ → ℕ
flit_len bytes = (length bytes + 3) / 4

pub record DlpConfig : Type 0 where
  pub gdp : GdpWireConfig
  pub local_prefix : ℕ
  pub vc_mode : VcMode
  pub rx_buffer_flits : ℕ
  pub control_window_flits : ℕ

unfoldable pub config_new : ℕ → VcMode → Result DlpConfig
config_new rx_buffer_flits vc_mode =
    if rx_buffer_flits == 0
    then err invalid_field
    else ok (record {
      gdp = default_config;
      local_prefix = 0;
      vc_mode = vc_mode;
      rx_buffer_flits = rx_buffer_flits;
      control_window_flits = 32;
    })

pub record TxFrame : Type 0 where
  pub vcid : ℕ
  pub traffic : LinkTraffic
  pub bytes : List ℕ
  pub flit_offset : ℕ

-- `saturating_sub` is the subtraction of ℕ.
unfoldable pub remaining_flits : TxFrame → ℕ
unfolding flit_len
remaining_flits f = flit_len f.bytes - f.flit_offset

pub record RxSegment : Type 0 where
  pub bytes : List ℕ
  pub expected_bytes : ℕ
  pub expected_flits : ℕ
  pub received_flits : ℕ
  pub traffic : LinkTraffic
