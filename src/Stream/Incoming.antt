-- ===== src/Stream/Incoming.antt =====
-- A connection as the bytes that come in before the peer closes, or a read times out or fails.
use migux.Common.{List, [], ◌∷◌, ◌++◌}
use migux.Text.{Str}
use migux.Stream.{Event, arrives, times_out, fails, Conn, Ending, closed, timed_out, failed}

abbrev pub arriving : List Event → Str
arriving [] = []
arriving (arrives b bs ∷ events) = (b ∷ bs) ++ arriving events
arriving (times_out ∷ events) = []
arriving (fails ∷ events) = []

-- What has been read, and what comes in by the reads that follow.
abbrev pub incoming : Conn → Str
incoming c = c.buf ++ arriving c.events

abbrev pub ending : List Event → Ending
ending [] = closed
ending (arrives b bs ∷ events) = ending events
ending (times_out ∷ events) = timed_out
ending (fails ∷ events) = failed
