-- ===== src/Examples/Connections.antt =====
-- The map of streams and the connection at concrete inputs.
use rust_http.Prelude.{
  ℕ, inl, ◌≤◌, ◌<◌, ◌≡◌, refl, arith, List, [], ◌∷◌, ◌++◌, All, length, none, true, false,
  if◌then◌else◌,
}
use mathlib.Core.Option
use rust_http.Prelude.Int.{pos, ◌+ℤ◌, ◌-ℤ◌}
use rust_http.Window
use rust_http.Stream.Outgoing
use rust_http.Prelude.Outcome.{ok}
use rust_http.Hpack.StaticTable.{Header}
use rust_http.Frame.Data
use rust_http.Frame.Data.{DataFrame}
use rust_http.Frame.Ping
use rust_http.Frame.Ping.{PingFrame}
use rust_http.Frame.Settings
use rust_http.Frame.Settings.{SettingsFrame}
use rust_http.Frame.Decoded
use rust_http.Frame.Decoded.{HttpFrameDecoded}
use rust_http.Frame.HeadersMulti.Split.{joined}
use rust_http.Stream.State.{open_state}
use rust_http.Stream.Role.{client, locally, init_where}
use rust_http.Stream.Queue.{data_part}
use rust_http.Stream.Outgoing.{HttpStreamCommon, is_writable, pop_outg}
use rust_http.Stream.Closed.{has}
use rust_http.Stream.Closed.Invariant as ClosedInvariant
use rust_http.Stream.Map
use rust_http.Stream.Map.{
  StreamMap, get_mut, lookup, insert, is_local_gt, remove_local_streams_with_id_gt, popped_from,
  pop_outg_maybe_remove,
}
use rust_http.Stream.Map.Synced as Synced
use rust_http.Stream.Map.Reach.{Reach, start, next, inserted, Reach-IsValid}
use rust_http.Stream.Map.Goaway.{remove_local_streams_with_id_gt-lookup}
use rust_http.Connection
use rust_http.Connection.{Conn, init, next_local_stream_id, send_error, stream_state}
use rust_http.Connection.Dispatch
use rust_http.Connection.Read
use rust_http.Codec.QueuedWrite
use rust_http.Frame.Flags
use rust_http.Connection.Read.{process_data_frame, process_settings_req}
use rust_http.Connection.Dispatch.{process_http_frame}
use rust_http.Connection.Invariant.{IsValid}
use rust_http.Connection.Invariant.Frames.{process_http_frame-IsValid, process_http_frame-silent}
use rust_http.Connection.Write.{write_part_data}
use rust_http.Connection.Write.Data.{is_nonempty, frames_octets, write_part_data-split}
use rust_http.Connection.InWindow.{Answered, with_window, process_data_frame_untold}
use rust_http.Connection.PeerSettings.{Applied, process_settings_req-Applied}
use rust_http.Connection.StreamIds.{IsLocal, next_local_stream_id-fresh}

-- A stream with an octet to send.
abbrev sender : HttpStreamCommon (List Header)
sender = record {
  state = open_state;
  out_window_size = pos 2;
  outgoing = record { queue = data_part (7 ∷ []) ∷ []; end = none; size = 1 };
}

-- The map with this stream only.
abbrev one_stream : StreamMap (List Header)
one_stream = record { map = (5, sender) ∷ []; writable_streams = 5 ∷ [] }

one_stream-Reach : Reach one_stream
unfolding insert Map.insert_at lookup has Map.put Map.mark is_writable Outgoing.writable_front
one_stream-Reach = next start (inserted Map.new one_stream 5 sender refl)

Reach-IsValid_example : Synced.IsValid one_stream
Reach-IsValid_example = Reach-IsValid one_stream-Reach

-- The GOAWAY frame that names stream 3 removes stream 5 of a client.
remove_local_streams_with_id_gt-lookup_example :
    (lookup ((remove_local_streams_with_id_gt client one_stream 3).0) 5
      ≡ (if is_local_gt client 3 5 then get_mut one_stream 5 else none))
    × (get_mut ((remove_local_streams_with_id_gt client one_stream 3).1) 5
        ≡ (if is_local_gt client 3 5 then none else get_mut one_stream 5))
    × (has ((remove_local_streams_with_id_gt client one_stream 3).1.writable_streams) 5
        ≡ Synced.writable_at (get_mut one_stream 5))
remove_local_streams_with_id_gt-lookup_example =
    remove_local_streams_with_id_gt-lookup client one_stream 3 5 (Reach-IsValid_example.synced)

-- A connection of a client with the stream.
abbrev connected : Conn
connected = record (init client) { streams = one_stream }

connected-IsValid : IsValid connected
connected-IsValid = record {
  streams = Reach-IsValid_example;
  closed = record {
    same = λ x. refl;
    nodup = unfold ClosedInvariant.IsNodup in tt;
    bounded = omega arith;
  };
}

abbrev a_ping : HttpFrameDecoded
a_ping = Decoded.ping (record { flags = record { bits = 0 }; opaque_data = 9 })

-- A connection of a client that has queued a GOAWAY frame.
abbrev silenced : Conn
silenced = record connected { queued_write = record { buf = 1 ∷ []; goaway_queued = true } }

ping-silenced : process_http_frame silenced a_ping ≡ ok silenced
unfolding process_http_frame Dispatch.process_classified Dispatch.process_conn_frame
    Read.process_ping Ping.is_ack Flags.is_set QueuedWrite.queue_not_goaway
ping-silenced = refl

process_http_frame-silent_example : silenced.queued_write ≡ silenced.queued_write
process_http_frame-silent_example =
    process_http_frame-silent silenced silenced a_ping ping-silenced refl

abbrev an_update : HttpFrameDecoded
an_update =
    Decoded.window_update (record { stream_id = 5; increment = 3; flags = record { bits = 0 } })

-- The connection after it.
abbrev updated : Conn
updated = record connected {
  streams = record {
    map = (5, record sender { out_window_size = pos 5 }) ∷ [];
    writable_streams = 5 ∷ [];
  };
}

update-updated : process_http_frame connected an_update ≡ ok updated
unfolding process_http_frame Dispatch.process_classified Dispatch.process_stream_frame
    Dispatch.handle Dispatch.ended Read.process_stream_window_update_frame Read.raise_window
    Connection.get_stream_maybe_send_error lookup send_error Read.window_raised
    Map.try_increase_window_size Window.try_increase Window.try_add Window.checked ◌+ℤ◌ Map.put
    Map.mark is_writable Outgoing.writable_front has
update-updated = refl

process_http_frame-IsValid_example : IsValid updated
process_http_frame-IsValid_example =
    process_http_frame-IsValid connected updated an_update refl update-updated connected-IsValid

abbrev some_settings : SettingsFrame
some_settings = record {
  flags = record { bits = 0 };
  settings = Settings.initial_window_size 65536 ∷ [];
}

-- The connection after it.
abbrev widened : Conn
widened = record connected {
  streams = record {
    map = (5, record sender { out_window_size = pos 3 }) ∷ [];
    writable_streams = 5 ∷ [];
  };
  peer_settings = record (connected.peer_settings) { initial_window_size = 65536 };
  queued_write = record {
    buf = Settings.serialize_into Settings.new_ack [];
    goaway_queued = false;
  };
}

settings-widened : process_settings_req connected some_settings ≡ ok widened
unfolding process_settings_req Settings.is_ack Flags.is_set Read.apply_settings Read.before_setting
    Read.change_windows Window.eq_ℤ ◌-ℤ◌ Window.as_i32 Map.add_out_window Map.add_windows
    Option.bind Window.try_add Window.checked ◌+ℤ◌ Map.writable_ids QueuedWrite.queue_not_goaway
    is_writable Outgoing.writable_front
settings-widened = refl

process_settings_req-Applied_example : Applied connected widened (some_settings.settings)
process_settings_req-Applied_example =
    process_settings_req-Applied connected widened some_settings (omega arith) (refl, tt)
      settings-widened

-- Three octets in frames of two.
abbrev narrow_frames : Conn
narrow_frames = record connected {
  peer_settings = record (connected.peer_settings) { max_frame_size = 2 };
}

write_part_data-split_example :
    (pieces : List (List ℕ)) × (joined pieces ≡ 1 ∷ 2 ∷ 3 ∷ [])
    × All (λ p. length p ≤ 2) pieces
    × (is_nonempty pieces ≡ true)
    × (write_part_data narrow_frames 5 (1 ∷ 2 ∷ 3 ∷ []) true
        ≡ ok (record narrow_frames {
          queued_write = record { buf = [] ++ frames_octets 5 true pieces; goaway_queued = false };
        }))
write_part_data-split_example =
    write_part_data-split narrow_frames 5 (1 ∷ 2 ∷ 3 ∷ []) true refl (omega arith)

-- One octet for stream 7, which is not there.
abbrev stray_data : DataFrame
stray_data = record { flags = record { bits = 0 }; stream_id = 7; body = 1 ∷ []; padding_len = 0 }

process_data_frame_untold_example :
    (c : Conn) × (process_data_frame (with_window connected 32767) stray_data ≡ ok (c, false))
    × (c.in_window_size ≡ pos 98301)
    × Answered (with_window connected 32767) (c.queued_write) 7
unfolding Data.payload_len Data.is_padded Flags.is_set lookup
process_data_frame_untold_example =
    process_data_frame_untold (with_window connected 32767) stray_data 32767 refl (omega arith)
      (omega arith) (omega arith) refl

next_local_stream_id-fresh_example :
    (init_where client ((next_local_stream_id connected).0) ≡ locally)
    × (0 < (next_local_stream_id connected).0)
    × ((next_local_stream_id connected).1.last_local_stream_id ≡ (next_local_stream_id connected).0)
    × IsLocal ((next_local_stream_id connected).1)
next_local_stream_id-fresh_example = next_local_stream_id-fresh connected (inl refl) (omega arith)
