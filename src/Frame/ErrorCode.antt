-- ===== src/Frame/ErrorCode.antt =====
-- Error codes of `RST_STREAM` and `GOAWAY` (httpbis/src/solicit/error_code.rs).
use rust_http.Prelude.{ℕ, ◌<◌, ◌≡◌, refl, arith, ◌==◌, if◌then◌else◌}

pub data ErrorCode : Type 0 where
  no_error protocol_error internal_error flow_control_error settings_timeout : ErrorCode
  stream_closed frame_size_error refused_stream cancel compression_error : ErrorCode
  connect_error enhance_your_calm inadequate_security http11_required : ErrorCode

-- `ErrorCode as u32`
to_u32 : ErrorCode → ℕ
to_u32 no_error = 0x0
to_u32 protocol_error = 0x1
to_u32 internal_error = 0x2
to_u32 flow_control_error = 0x3
to_u32 settings_timeout = 0x4
to_u32 stream_closed = 0x5
to_u32 frame_size_error = 0x6
to_u32 refused_stream = 0x7
to_u32 cancel = 0x8
to_u32 compression_error = 0x9
to_u32 connect_error = 0xa
to_u32 enhance_your_calm = 0xb
to_u32 inadequate_security = 0xc
to_u32 http11_required = 0xd

-- `impl From<u32> for ErrorCode`: an unknown code is an internal error.
pub from_u32 : ℕ → ErrorCode
from_u32 code =
    if code == 0x0
    then no_error
    else if code == 0x1
    then protocol_error
    else if code == 0x2
    then internal_error
    else if code == 0x3
    then flow_control_error
    else if code == 0x4
    then settings_timeout
    else if code == 0x5
    then stream_closed
    else if code == 0x6
    then frame_size_error
    else if code == 0x7
    then refused_stream
    else if code == 0x8
    then cancel
    else if code == 0x9
    then compression_error
    else if code == 0xa
    then connect_error
    else if code == 0xb
    then enhance_your_calm
    else if code == 0xc
    then inadequate_security
    else if code == 0xd
    then http11_required
    else internal_error

-- `ErrorCodeOrUnknown(u32)`
pub record ErrorCodeOrUnknown : Type 0 where
  pub code : ℕ

pub of_error_code : ErrorCode → ErrorCodeOrUnknown
of_error_code e = record { code = to_u32 e }

pub to_error_code : ErrorCodeOrUnknown → ErrorCode
to_error_code e = from_u32 e.code

-- Every error code survives the way to the wire and back.
pub from_u32-to_u32 : (e : ErrorCode) → to_error_code (of_error_code e) ≡ e
unfolding from_u32 to_u32 to_error_code of_error_code
from_u32-to_u32 no_error = refl
from_u32-to_u32 _ = refl

-- A code beyond the known ones reads as an internal error.
pub from_u32_unknown : (code : ℕ) → 0xd < code → from_u32 code ≡ internal_error
unfolding from_u32
from_u32_unknown code h = ground arith
