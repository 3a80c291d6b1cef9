-- ===== src/Examples/Frames.antt =====
-- A heartbeat between two members, and the theorem about the peer frames at it.
use corndogs.Prelude.{◌≡◌, [], arith}
use corndogs.Filestore.Tx.{codes}
use corndogs.Clustering.FrameCodec.{
  msg, Frame, encode_body, encode_frame, encode_with, got, decode_frame,
}
use corndogs.Clustering.FrameCodec.Trip.{without_epoch, decode-encode_frame}

abbrev heartbeat_frame : Frame
heartbeat_frame = record {
  from = codes "n1";
  to = codes "n2";
  payload = msg (record {
    kind = 0;
    epoch = 3;
    lsn = 41;
    ack_lsn = 0;
    bid = 4_611_686_018_427_387_904;
    last_epoch = 769;
  });
}

decode-encode_frame_example :
    (decode_frame (encode_frame heartbeat_frame) ≡ got heartbeat_frame [])
    × (decode_frame (encode_with heartbeat_frame (encode_body heartbeat_frame.payload))
        ≡ got (record heartbeat_frame { payload = without_epoch heartbeat_frame.payload }) [])
decode-encode_frame_example =
    decode-encode_frame heartbeat_frame (omega arith) (omega arith)
      (omega arith, omega arith, omega arith, omega arith, omega arith, omega arith)
