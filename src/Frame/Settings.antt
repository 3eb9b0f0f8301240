-- ===== src/Frame/Settings.antt =====
-- The `SETTINGS` frame and the settings (httpbis/src/solicit/frame/settings.rs).
pub mod RoundTrip
use rust_http.Prelude.{
  ℕ, ◌*◌, ◌%◌, ◌^◌, Bool, true, false, ◌||◌, List, [], ◌∷◌, length, Option, none, some, bit_and,
  bit_or, ltb, leb, ◌==◌, ◌!=◌, if◌then◌else◌,
}
use rust_http.Prelude.Outcome.{ok, err, panic, ◌>>=◌, ◌>>◌, reject_if, or_panic}
use rust_http.Frame.Error.{
  ParseFrameResult, internal_error, stream_id_must_be_non_zero, incorrect_settings_push_value,
  incorrect_settings_max_frame_size, protocol_error,
}
use rust_http.Frame.Flags
use rust_http.Frame.Flags.{Flag, Flags, NoFlag}
use rust_http.Frame.Header.{FrameHeader, unpack_octets_4, octet, shift_left}
use rust_http.Frame.Raw
use rust_http.Frame.Raw.{RawFrame}
use rust_http.Frame.Builder.{WriteBuffer, extend_from_slice, write_header}

abbrev pub settings_frame_type : ℕ
settings_frame_type = 0x4

pub data HttpSetting : Type 0 where
  header_table_size : ℕ → HttpSetting
  enable_push : Bool → HttpSetting
  max_concurrent_streams : ℕ → HttpSetting
  initial_window_size : ℕ → HttpSetting
  max_frame_size : ℕ → HttpSetting
  max_header_list_size : ℕ → HttpSetting

push_setting : ℕ → ParseFrameResult (Option HttpSetting)
push_setting val =
    if val == 0
    then ok (some (enable_push false))
    else if val == 1
    then ok (some (enable_push true))
    else err (incorrect_settings_push_value val)

frame_size_setting : ℕ → ParseFrameResult (Option HttpSetting)
frame_size_setting val =
    if ltb val 0x4000 || leb 0x100_0000 val
    then err (incorrect_settings_max_frame_size val)
    else ok (some (max_frame_size val))

-- Setting 4 has an `if` with an empty body: too large a window is handled where it is applied.
unfoldable pub from_id : ℕ → ℕ → ParseFrameResult (Option HttpSetting)
unfolding push_setting frame_size_setting
from_id id val =
    if id == 1
    then ok (some (header_table_size val))
    else if id == 2
    then push_setting val
    else if id == 3
    then ok (some (max_concurrent_streams val))
    else if id == 4
    then ok (some (initial_window_size val))
    else if id == 5
    then frame_size_setting val
    else if id == 6
    then ok (some (max_header_list_size val))
    else ok none

-- `raw_setting[0] << 8 | raw_setting[1]` in 16 bits, and the four octets from index 2.
unfoldable pub parse_setting : ℕ → ℕ → List ℕ → ParseFrameResult (Option HttpSetting)
parse_setting i0 i1 raw_val = do
  let id = bit_or (shift_left 16 i0 8) i1
  val ← or_panic (unpack_octets_4 32 raw_val 0)
  from_id id val

unfoldable pub get_id : HttpSetting → ℕ
get_id (header_table_size _) = 1
get_id (enable_push _) = 2
get_id (max_concurrent_streams _) = 3
get_id (initial_window_size _) = 4
get_id (max_frame_size _) = 5
get_id (max_header_list_size _) = 6

unfoldable pub get_val : HttpSetting → ℕ
get_val (header_table_size val) = val
get_val (enable_push true) = 1
get_val (enable_push false) = 0
get_val (max_concurrent_streams val) = val
get_val (initial_window_size val) = val
get_val (max_frame_size val) = val
get_val (max_header_list_size val) = val

-- `HttpSetting::serialize`
unfoldable pub setting_octets : HttpSetting → List ℕ
setting_octets setting =
    let id = get_id setting in
    let val = get_val setting in
    octet id 8 ∷ octet id 0 ∷ octet val 24 ∷ octet val 16 ∷ octet val 8 ∷ octet val 0 ∷ []

pub record HttpSettings : Type 0 where
  pub header_table_size : ℕ
  pub enable_push : Bool
  pub max_concurrent_streams : ℕ
  pub initial_window_size : ℕ
  pub max_frame_size : ℕ
  pub max_header_list_size : ℕ

abbrev pub apply : HttpSettings → HttpSetting → HttpSettings
apply c (header_table_size s) = record c { header_table_size = s }
apply c (enable_push e) = record c { enable_push = e }
apply c (max_concurrent_streams m) = record c { max_concurrent_streams = m }
apply c (initial_window_size s) = record c { initial_window_size = s }
apply c (max_frame_size s) = record c { max_frame_size = s }
apply c (max_header_list_size s) = record c { max_header_list_size = s }

pub data SettingsFlag : Type 0 where
  ack : SettingsFlag

abbrev pub bitmask : SettingsFlag → ℕ
bitmask ack = 0x1

instance abbrev settings_flag : Flag SettingsFlag
settings_flag = record { bitmask = bitmask; flags = ack ∷ [] }

pub record SettingsFrame : Type 0 where
  pub settings : List HttpSetting
  pub flags : Flags SettingsFlag

abbrev pub new_ack : SettingsFrame
new_ack = record { settings = []; flags = Flags.to_flags ack }

abbrev pub from_settings : List HttpSetting → SettingsFrame
from_settings settings = record { settings = settings; flags = Flags.default }

unfoldable pub is_ack : SettingsFrame → Bool
is_ack f = Flags.is_set f.flags ack

unfoldable pub apply_settings : HttpSettings → List HttpSetting → HttpSettings
apply_settings c [] = c
apply_settings c (s ∷ settings) = apply_settings (apply c s) settings

abbrev pub apply_from_frame : HttpSettings → SettingsFrame → HttpSettings
unfolding apply_settings
apply_from_frame c frame = apply_settings c frame.settings

unfoldable pub payload_len : SettingsFrame → ℕ
payload_len f = 6 * (length f.settings % 2 ^ 32) % 2 ^ 32

-- `if let Some(setting) = … { settings.push(setting) }`
abbrev push_some : Option HttpSetting → List HttpSetting → List HttpSetting
push_some (some setting) settings = setting ∷ settings
push_some none settings = settings

-- The loop over `payload.chunks(6)`. A last chunk that is shorter makes `parse_setting` panic.
unfoldable pub parse_chunks : List ℕ → ParseFrameResult (List HttpSetting)
parse_chunks [] = ok []
parse_chunks (i0 ∷ i1 ∷ v0 ∷ v1 ∷ v2 ∷ v3 ∷ rest) = do
  setting ← parse_setting i0 i1 (v0 ∷ v1 ∷ v2 ∷ v3 ∷ [])
  settings ← parse_chunks rest
  ok (push_some setting settings)
parse_chunks _ = panic

unfoldable pub parse_payload : List ℕ → ParseFrameResult (List HttpSetting)
parse_payload payload = do reject_if (length payload % 6 != 0) protocol_error; parse_chunks payload

-- A frame with the ACK flag has no payload; any other holds settings.
unfoldable pub read_settings : Bool → ℕ → List ℕ → ParseFrameResult (List HttpSetting)
read_settings true payload_len payload = reject_if (payload_len != 0) protocol_error >> ok []
read_settings false payload_len payload = parse_payload payload

unfoldable pub from_raw : RawFrame → ParseFrameResult SettingsFrame
from_raw raw_frame = do
  header ← or_panic (Raw.header raw_frame)
  reject_if (header.frame_type != settings_frame_type) internal_error
  payload ← or_panic (Raw.payload raw_frame)
  reject_if (header.payload_len != length payload) internal_error
  reject_if (header.stream_id != 0) stream_id_must_be_non_zero
  settings ← read_settings (bit_and header.flags (bitmask ack) != 0) header.payload_len payload
  ok (record { settings = settings; flags = Flags.new header.flags })

unfoldable pub get_header : SettingsFrame → FrameHeader
get_header f = record {
  payload_len = payload_len f;
  frame_type = settings_frame_type;
  flags = f.flags.bits;
  stream_id = 0;
}

unfoldable pub write_settings : List HttpSetting → WriteBuffer → WriteBuffer
write_settings [] b = b
write_settings (setting ∷ settings) b =
    write_settings settings (extend_from_slice b (setting_octets setting))

unfoldable pub serialize_into : SettingsFrame → WriteBuffer → WriteBuffer
serialize_into f b = write_settings f.settings (write_header b (get_header f))
