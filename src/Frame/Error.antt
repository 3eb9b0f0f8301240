-- ===== src/Frame/Error.antt =====
-- `ParseFrameError` of httpbis/src/solicit/frame/mod.rs.
use rust_http.Prelude.{ℕ}
use rust_http.Prelude.Outcome.{Outcome}

pub data ParseFrameError : Type 0 where
  internal_error : ParseFrameError
  buf_must_be_at_least_9_bytes : ℕ → ParseFrameError
  incorrect_payload_len : ParseFrameError
  stream_id_must_be_non_zero : ParseFrameError
  stream_id_must_be_zero : ℕ → ParseFrameError
  stream_dependency_on_itself : ℕ → ParseFrameError
  incorrect_frame_length : ℕ → ParseFrameError
  incorrect_flags : ℕ → ParseFrameError
  incorrect_settings_push_value : ℕ → ParseFrameError
  incorrect_settings_max_frame_size : ℕ → ParseFrameError
  window_size_too_large : ℕ → ParseFrameError
  window_update_increment_invalid : ℕ → ParseFrameError
  protocol_error : ParseFrameError

abbrev pub ParseFrameResult {ℓ} : Type ℓ → Type ℓ
ParseFrameResult A = Outcome ParseFrameError A
