-- ===== src/Examples/Frames.antt =====
-- Frames, batches of events and versions at concrete values.
use faith.Proto.Frame.Layout.{frame_bytes, encode_frame-frame_bytes}
use faith.Common.{
  ℕ, ◌≡◌, ◌≤◌, List, [], ◌∷◌, ◌++◌, Bool, some, none, true, arith, refl, replicate, take, drop,
}
use faith.Proto.Status.{ok}
use faith.Proto.Codec.RoundTrip.{ReadsBack}
use faith.Proto.Codec.Encode.Writes.{encoded_ok}
use faith.Proto.Events.{Event}
use faith.Proto.Events.Batch.{
  EventBatch, encode_event_batch_body, decode_event_batch_body, zeroed_event_batch,
  event_batch_data_size_fit,
}
use faith.Proto.Events.RoundTrip.{event_bytes}
use faith.Proto.Events.Batch.RoundTrip.{
  decode_event_batch_body-encode_event_batch_body, event_batch_bytes,
}
use faith.Proto.Events.Batch.Fitting.{encoded_size, event_batch_data_size_fit-maximal}
use faith.Proto.Frame.{Frame, decode_frame, encode_frame, zeroed_frame}
use faith.Proto.Frame.Stream.{stream_answer, decode_frame_stream}
use mathlib.Core.Logic.{◌↔◌}

abbrev granted : ℕ → Bool
granted n = true

abbrev buffer : List ℕ
buffer = replicate 64 7

abbrev an_event : Event
an_event = record { seq_num = 7; kind = 1; data_size = 2; payload = some (10 ∷ 20 ∷ []) }

abbrev bare_event : Event
bare_event = record { seq_num = 8; kind = 1; data_size = 0; payload = none }

abbrev two_events : List Event
two_events = an_event ∷ bare_event ∷ []

abbrev a_batch : EventBatch
a_batch = record { n_events = 2; events_data_size = 38; events = some two_events }

decode_event_batch_body-encode_event_batch_body_example :
    ReadsBack
      (encode_event_batch_body (some buffer) (some 3) 64 (some a_batch))
      (decode_event_batch_body granted)
      44
      zeroed_event_batch
      a_batch
      (event_batch_bytes a_batch)
      buffer
unfolding event_bytes
decode_event_batch_body-encode_event_batch_body_example =
    decode_event_batch_body-encode_event_batch_body a_batch buffer 3 64 zeroed_event_batch granted
      (record {
        limit = omega arith;
        elements = (
          record {
            event = record {
              seq_num = omega arith;
              kind = omega arith;
              fits = omega arith;
              payload = (refl, omega arith);
            };
            fits = omega arith;
          },
          (
            record {
              event = record {
                seq_num = omega arith;
                kind = omega arith;
                fits = omega arith;
                payload = refl;
              };
              fits = omega arith;
            },
            tt,
          ),
        );
        array = refl;
        data_size = refl;
      })
      (refl, (refl, tt)) (omega arith) (omega arith)

event_batch_data_size_fit-maximal_example :
    ((event_batch_data_size_fit two_events 2 5 30).status ≡ ok)
    × ((event_batch_data_size_fit two_events 2 5 30).n_fitting ≤ 2)
    × ((event_batch_data_size_fit two_events 2 5 30).data_size
        ≡ encoded_size (take (event_batch_data_size_fit two_events 2 5 30).n_fitting two_events))
    × ((encoded_size (take 1 two_events) ≤ 30)
        ↔ (1 ≤ (event_batch_data_size_fit two_events 2 5 30).n_fitting))
event_batch_data_size_fit-maximal_example =
    event_batch_data_size_fit-maximal two_events 2 5 30 1 (omega arith, (omega arith, tt))
      (omega arith) (omega arith) (omega arith)

abbrev a_frame : Frame
a_frame = record {
  frame_size = 7;
  proto_ver = 1;
  msg_type = 2;
  payload = some (1 ∷ 2 ∷ 3 ∷ []);
  payload_size = 3;
}

decode_frame_stream_example :
    decode_frame granted (some (frame_bytes a_frame ++ (9 ∷ 9 ∷ []))) 13 zeroed_frame
    ≡ stream_answer a_frame 13 zeroed_frame
decode_frame_stream_example =
    decode_frame_stream granted a_frame (9 ∷ 9 ∷ []) 13 zeroed_frame
      (record {
        frame_size = refl;
        proto_ver = refl;
        msg_type = omega arith;
        limit = omega arith;
        payload = (refl, omega arith);
      })
      refl

encode_frame-frame_bytes_example :
    encode_frame (some buffer) (some 3) 64 (some a_frame)
    ≡ encoded_ok (frame_bytes a_frame ++ drop 11 buffer) 11
encode_frame-frame_bytes_example =
    encode_frame-frame_bytes a_frame buffer 3 64
      (record {
        frame_size = refl;
        proto_ver = refl;
        msg_type = omega arith;
        limit = omega arith;
        payload = (refl, omega arith);
      })
      (omega arith) (omega arith)
