-- ===== src/Containers/Examples.antt =====
-- The raw stream, at concrete inputs.
use garrison.Common.{◌≡◌, refl, none, List, [], ◌∷◌, ◌++◌, arith}
use garrison.Containers.Demux.{clean, to_stdout, to_stderr, demux_raw_stream}
use garrison.Containers.Demux.Frames.{
  Frame, encode_all, header, of_target, demux_raw_stream-encode, demux_raw_stream-cut,
}

abbrev sent : List Frame
sent =
    record { target = to_stdout; payload = 104 ∷ 105 ∷ [] }
    ∷ record { target = to_stderr; payload = 33 ∷ [] }
    ∷ record { target = to_stdout; payload = 10 ∷ [] }
    ∷ []

demux_raw_stream-encode_example : demux_raw_stream none (encode_all sent) ≡ record {
  stdout = of_target to_stdout sent;
  stderr = of_target to_stderr sent;
  closed = clean;
}
demux_raw_stream-encode_example =
    demux_raw_stream-encode none sent (omega arith, (omega arith, (omega arith, tt)))

demux_raw_stream-cut_example :
    (demux_raw_stream none (encode_all sent ++ header to_stderr 9 (1 ∷ 2 ∷ [])) ≡ record {
      stdout =
          of_target to_stdout (sent ++ record { target = to_stderr; payload = 1 ∷ 2 ∷ [] } ∷ []);
      stderr =
          of_target to_stderr (sent ++ record { target = to_stderr; payload = 1 ∷ 2 ∷ [] } ∷ []);
      closed = clean;
    })
    × (demux_raw_stream none (encode_all sent ++ header to_stderr 9 (1 ∷ 2 ∷ []))
        ≡ demux_raw_stream none (encode_all sent ++ header to_stderr 2 (1 ∷ 2 ∷ [])))
demux_raw_stream-cut_example =
    demux_raw_stream-cut none sent to_stderr 9 (1 ∷ 2 ∷ [])
      (omega arith, (omega arith, (omega arith, tt))) (omega arith) (omega arith)

both_pipes :
    demux_raw_stream none (encode_all sent)
    ≡ record { stdout = 104 ∷ 105 ∷ 10 ∷ []; stderr = 33 ∷ []; closed = clean }
unfolding demux_raw_stream
both_pipes = refl
