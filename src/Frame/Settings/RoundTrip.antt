-- ===== src/Frame/Settings/RoundTrip.antt =====
-- A `SETTINGS` frame read back from what it writes.
use rust_http.Prelude.{
  ℕ, ◌*◌, ◌≤◌, ◌<◌, ◌^◌, ◌≡◌, refl, arith, true, false, inl, inr, List, [], ◌∷◌, ◌++◌, length,
  append-nil, All, append_assoc, Bool-cases, some, ◌!=◌, bit_and,
}
use rust_http.Prelude.Outcome.{ok}
use rust_http.Frame.Flags
use rust_http.Frame.Header.{octet}
use rust_http.Frame.Header.Octets.{unpack-octets}
use rust_http.Frame.Header.RoundTrip.{IsWireHeader}
use rust_http.Frame.Raw.Parse.{header-raw_of, payload-raw_of, Written}
use rust_http.Frame.Settings.{
  settings_frame_type, HttpSetting, header_table_size, enable_push, max_concurrent_streams,
  initial_window_size, max_frame_size, max_header_list_size, SettingsFrame, from_id, get_id,
  get_val, parse_setting, setting_octets, parse_chunks, parse_payload, write_settings,
  read_settings, is_ack, get_header, payload_len, from_raw, serialize_into,
}

-- A value of 32 bits, and a frame size that the protocol allows.
abbrev IsWireSetting : HttpSetting → Type 0
IsWireSetting (header_table_size val) = val < 2 ^ 32
IsWireSetting (enable_push b) = Unit {0}
IsWireSetting (max_concurrent_streams val) = val < 2 ^ 32
IsWireSetting (initial_window_size val) = val < 2 ^ 32
IsWireSetting (max_frame_size val) = (0x4000 ≤ val) × (val < 0x100_0000)
IsWireSetting (max_header_list_size val) = val < 2 ^ 32

pub record IsWire (f : SettingsFrame) : Type 0 where
  pub flags_fit : f.flags.bits < 256
  ack_is_empty : is_ack f ≡ true → f.settings ≡ []
  settings_fit : All IsWireSetting f.settings
  pub length_fits : 6 * length f.settings < 2 ^ 24

parse_setting-octets :
    (s : HttpSetting)
    → IsWireSetting s
    → parse_setting (octet (get_id s) 8) (octet (get_id s) 0) (
        octet (get_val s) 24
        ∷ octet (get_val s) 16
        ∷ octet (get_val s) 8
        ∷ octet (get_val s) 0
        ∷ [])
      ≡ ok (some s)
unfolding parse_setting from_id get_id get_val
parse_setting-octets (header_table_size val) h = rw (unpack-octets val [] h)
parse_setting-octets (enable_push true) h = rw (unpack-octets 1 [] (omega arith))
parse_setting-octets (enable_push false) h = rw (unpack-octets 0 [] (omega arith))
parse_setting-octets (max_concurrent_streams val) h = rw (unpack-octets val [] h)
parse_setting-octets (initial_window_size val) h = rw (unpack-octets val [] h)
parse_setting-octets (max_frame_size val) h = rw (unpack-octets val [] (omega arith)) (ground arith)
parse_setting-octets (max_header_list_size val) h = rw (unpack-octets val [] h)

-- The octets of all settings.
all_octets : List HttpSetting → List ℕ
unfolding setting_octets
all_octets [] = []
all_octets (s ∷ settings) = setting_octets s ++ all_octets settings

parse_chunks-all_octets :
    (settings : List HttpSetting)
    → All IsWireSetting settings
    → parse_chunks (all_octets settings) ≡ ok settings
unfolding parse_chunks all_octets
parse_chunks-all_octets [] h = refl
parse_chunks-all_octets (s ∷ settings) h =
    rw (parse_setting-octets s h.0, parse_chunks-all_octets settings h.1)

length-all_octets :
    (settings : List HttpSetting) → length (all_octets settings) ≡ 6 * length settings
unfolding all_octets
length-all_octets [] = refl
length-all_octets (s ∷ settings) = omega (arith, length-all_octets settings)

write_settings-eq :
    (settings : List HttpSetting) (b : List ℕ)
    → write_settings settings b ≡ b ++ all_octets settings
unfolding write_settings all_octets
write_settings-eq [] b = simp append-nil
write_settings-eq (s ∷ settings) b = rw (write_settings-eq settings) (simp append_assoc)

module _ (f : SettingsFrame) (v : IsWire f) where
  get_header-IsWireHeader : IsWireHeader (get_header f)
  unfolding get_header payload_len
  get_header-IsWireHeader = omega arith

  read_settings-all_octets :
      read_settings (is_ack f) (payload_len f) (all_octets f.settings) ≡ ok f.settings
  unfolding read_settings payload_len
  read_settings-all_octets = elim (Bool-cases (is_ack f)) [
    | inl e ↦ rw (e, v.ack_is_empty e)
    | inr e ↦ rw e (
        unfold parse_payload in
        ground
          (arith, length-all_octets f.settings, parse_chunks-all_octets f.settings v.settings_fit))
  ]

  is_ack-bits : is_ack f ≡ (bit_and f.flags.bits 0x1 != 0)
  unfolding is_ack Flags.is_set
  is_ack-bits = refl

  payload_len-eq : payload_len f ≡ length (all_octets f.settings)
  unfolding payload_len
  payload_len-eq = omega (arith, length-all_octets f.settings)

  -- The octets of a frame with legal settings, and none if it is an acknowledgement, are parsed
  -- into the frame: the same settings in the same order.
  pub from_raw-serialize_into : from_raw (record { raw_content = serialize_into f [] }) ≡ ok f
  unfolding from_raw serialize_into
  from_raw-serialize_into =
      rw
        (
          write_settings-eq,
          header-raw_of (get_header f) _ get_header-IsWireHeader,
          payload-raw_of (get_header f) _,
        )
        (unfold get_header in ground (arith, is_ack-bits, payload_len-eq, read_settings-all_octets))

  pub serialize_into-Written : Written (serialize_into f []) settings_frame_type
  unfolding serialize_into get_header
  serialize_into-Written = record {
    h = get_header f;
    p = all_octets f.settings;
    octets_eq = write_settings-eq f.settings _;
    fits = get_header-IsWireHeader;
    length_eq = payload_len-eq;
    type_eq = refl;
  }
