-- ===== src/Tests/Sinks.antt =====
-- A pipe that is copied into a file with a limit.
use sandals.Sink.Frames.{next_packet, next_packet-framed}
use sandals.Prelude.{refl, true, false, some, [], Bytes, codes, arith, ◌++◌, ◌≡◌}
use sandals.Pipes.{Pipe, regular}
use sandals.Sink.{Sink, regular_pipe, handle, framed}
use sandals.Sink.Copy.{Handles, handle-Handles}
use sandals.Supervisor.{Channel, drain}
use sandals.Supervisor.Settle.{Copied}
use sandals.Supervisor.Drain.{Drains, drain-Drains}
use sandals.Tests.Kernels.{obedient, obedient-IsDocumented}

abbrev output : Bytes
output = codes "hello"

abbrev pipe : Pipe
pipe = record {
  type = regular;
  dest = codes "out";
  src = some (codes "@stdout");
  as_stdout = true;
  as_stderr = false;
  limit = 3;
}

abbrev sink : Sink
sink = record { handler = regular_pipe; limit = 3; fd = 9; pipe = pipe; szrecvbuf = 0 }

abbrev channel : Channel
channel = record { sink = sink; fd = some 7; revents = true }

handle-Handles_example :
    Handles 7 sink 100 [] (handle (obedient output) 1 100 regular_pipe false sink 7 [])
handle-Handles_example =
    handle-Handles (obedient output) 1 100 (obedient-IsDocumented output) 7 regular_pipe false sink
      [] tt refl

channel-Copied : Copied 7 9 3 channel []
channel-Copied = record { same_file = refl; kind = tt; so_far = (refl, refl, omega arith) }

drain-Drains_example : Drains 7 9 3 true 100 [] (drain (obedient output) 1 100 8 true channel [])
drain-Drains_example =
    drain-Drains (obedient output) 1 100 (obedient-IsDocumented output) 7 9 3 true 8 channel []
      (omega arith) refl channel-Copied

next_packet-framed_example :
    next_packet (framed true (codes "no") ++ codes "rest") ≡ some (true, codes "no", codes "rest")
next_packet-framed_example = next_packet-framed true (codes "no") (codes "rest") (omega arith)
