-- ===== src/Error.antt =====
-- `Error` of httpbis/src/error.rs: the variants that the modelled functions give.
use rust_http.Prelude.{ℕ, ◌≡◌}
use rust_http.Prelude.Int.{ℤ}
use rust_http.Prelude.Outcome.{Outcome, ok, err, panic, diverged}
use rust_http.Frame.ErrorCode.{ErrorCode}
use rust_http.Frame.Error.{ParseFrameError, ParseFrameResult}

pub data Error : Type 0 where
  code_error : ErrorCode → Error
  parse_frame_error : ParseFrameError → Error
  expecting_continuation_got : ℕ → Error
  expecting_continuation_got_different_stream_id : ℕ → ℕ → Error
  continuation_frame_without_headers : Error
  window_size_overflow : Error
  initiated_stream_with_server_id_from_client : ℕ → Error
  stream_id_le_existing_stream : ℕ → ℕ → Error
  stream_in_window_overflow : ℕ → ℤ → ℕ → Error
  conn_in_window_overflow : ℤ → ℕ → Error
  ping_ack_opaque_data_mismatch : ℕ → ℕ → Error
  goaway_after_goaway : Error
  not_implemented : Error
  internal_error : Error

-- `?` on the result of a parser.
abbrev pub parsed : {A : Type 0} → ParseFrameResult A → Outcome Error A
parsed (ok a) = ok a
parsed (err e) = err (parse_frame_error e)
parsed panic = panic
parsed diverged = diverged

pub parsed-ok : {A : Type 0} (r : ParseFrameResult A) (a : A) → parsed r ≡ ok a → r ≡ ok a
parsed-ok (ok b) a e = cc e
parsed-ok (err x) a e = absurd (cc e)
parsed-ok panic a e = absurd (cc e)
parsed-ok diverged a e = absurd (cc e)
