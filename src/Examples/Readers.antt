-- ===== src/Examples/Readers.antt =====
-- A frame that is read in three pieces, and one that is followed by another.
use faith.Proto.Frame.Layout.{IsFrame, frame_bytes}
use faith.Common.{ℕ, ◌≡◌, List, [], ◌∷◌, Bool, some, true, arith, refl}
use faith.Proto.Frame.{Frame, zeroed_frame}
use faith.Server.Transport.{Queue, queue_input}
use faith.Server.FrameReader.{try_full_read, error, ssl_want_read}
use faith.Server.FrameReader.Reassembly.{
  pieces, Delivered, try_full_read-Delivered, try_full_read-pipelined,
}

abbrev granted : ℕ → Bool
granted n = true

abbrev a_frame : Frame
a_frame = record {
  frame_size = 7;
  proto_ver = 1;
  msg_type = 2;
  payload = some (1 ∷ 2 ∷ 3 ∷ []);
  payload_size = 3;
}

a_frame-IsFrame : IsFrame a_frame
a_frame-IsFrame = record {
  frame_size = refl;
  proto_ver = refl;
  msg_type = omega arith;
  limit = omega arith;
  payload = (refl, omega arith);
}

-- Two of the eleven bytes wait.
abbrev begun : Queue
begun = record { buf = 0 ∷ 0 ∷ 9 ∷ []; size = 2; cap = 3; off = 0; kind = queue_input }

abbrev the_rest : List (List ℕ)
the_rest = (0 ∷ []) ∷ (7 ∷ 0 ∷ 1 ∷ 0 ∷ []) ∷ (2 ∷ 1 ∷ 2 ∷ 3 ∷ []) ∷ []

try_full_read-Delivered_example :
    Delivered (try_full_read granted 0 begun zeroed_frame (pieces the_rest)) a_frame
unfolding frame_bytes
try_full_read-Delivered_example =
    try_full_read-Delivered granted 0 a_frame begun zeroed_frame the_rest a_frame-IsFrame
      (λ k. refl) (record { allocated = refl; filled = omega arith; limit = omega arith })
      (omega arith, (omega arith, (omega arith, tt))) refl

abbrev two_at_once : Queue
two_at_once = record {
  buf = 0 ∷ 0 ∷ 0 ∷ 7 ∷ 0 ∷ 1 ∷ 0 ∷ 2 ∷ 1 ∷ 2 ∷ 3 ∷ 0 ∷ 0 ∷ [];
  size = 13;
  cap = 13;
  off = 0;
  kind = queue_input;
}

try_full_read-pipelined_example :
    ((try_full_read granted 0 two_at_once zeroed_frame (ssl_want_read ∷ [])).result ≡ error)
    × ((try_full_read granted 0 two_at_once zeroed_frame (ssl_want_read ∷ [])).queue ≡ two_at_once)
unfolding frame_bytes
try_full_read-pipelined_example =
    try_full_read-pipelined granted 0 a_frame two_at_once zeroed_frame (0 ∷ 0 ∷ [])
      (ssl_want_read ∷ []) a_frame-IsFrame (λ k. refl)
      (record { allocated = refl; filled = omega arith; limit = omega arith }) refl (omega arith)
