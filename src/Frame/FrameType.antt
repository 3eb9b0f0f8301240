-- ===== src/Frame/FrameType.antt =====
-- `HttpFrameType` of httpbis/src/solicit/frame/frame_type.rs: the types of frames that are known.
pub data HttpFrameType : Type 0 where
  data_frame headers priority rst_stream settings push_promise ping goaway window_update
        continuation :
      HttpFrameType
