-- ===== src/Tests/StreamRuns.antt =====
-- The theorems on the streams of the realtime loop at runs of one and of two streams.
use sharepaste.Prelude.{◌≡◌, refl, false, arith}
use sharepaste.Client.SharePaste.Connections.{
  Connections, no_connections, connect_once, clean_up, request_stop, Reached, starts, then_step,
  connects, ends, resume, resumes, wakes, testing, waiting,
}
use sharepaste.Client.SharePaste.Connections.Waits.{one_wait, failed_stream_is_kept}

abbrev one_stream : Connections
one_stream = connect_once no_connections

abbrev ended : Connections
ended = clean_up 0 one_stream

abbrev paused : Connections
paused = resume ended

abbrev two_streams : Connections
two_streams = connect_once (record paused { place = testing })

one_stream-Reached : Reached one_stream
one_stream-Reached = then_step no_connections one_stream starts (connects no_connections refl refl)

two_streams-Reached : Reached two_streams
unfolding connect_once clean_up resume
two_streams-Reached =
    let ends_now =
      then_step one_stream ended one_stream-Reached (ends one_stream 0 (omega arith)) in
    let resumed = then_step ended paused ends_now (resumes ended 0 refl refl) in
    then_step (record paused { place = testing }) two_streams
      (then_step paused (record paused { place = testing }) resumed (wakes paused refl))
      (connects (record paused { place = testing }) refl refl)

one_wait_example : (2 ≡ two_streams.opened) × (two_streams.place ≡ waiting 1)
unfolding connect_once clean_up resume
one_wait_example = one_wait two_streams two_streams-Reached 1 (omega arith) refl

failed_stream_is_kept_example : (request_stop (clean_up 1 two_streams)).cancelled 1 ≡ false
unfolding connect_once clean_up resume
failed_stream_is_kept_example = failed_stream_is_kept two_streams 1 two_streams-Reached refl
