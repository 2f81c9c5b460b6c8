-- ===== src/Tests/Passes.antt =====
-- Two pipes that are copied, and the end of the supervisor.
use sandals.Prelude.{ℕ, refl, true, false, none, some, [], ◌∷◌, List, codes, arith}
use sandals.Response.{empty}
use sandals.Pipes.{regular}
use sandals.Sink.{regular_pipe}
use sandals.Supervisor.{Channel, pass}
use sandals.Supervisor.Plans.{Plan, AllApart, AllCopied}
use sandals.Supervisor.Pass.{Passes, pass-Passes}
use sandals.Watch.State.{Supervisor}
use sandals.Os.Ending.{Ending}
use sandals.Watch.Loop.{conclude}
use sandals.Watch.Reset.{IsReset}
use sandals.Watch.Conclude.{Concludes, conclude-Concludes}
use sandals.Tests.Kernels.{obedient, obedient-IsDocumented}

abbrev to_file : ℕ → ℕ → ℕ → Channel
to_file pipe file limit = record {
  sink = record {
    handler = regular_pipe;
    limit = limit;
    fd = file;
    pipe = record {
      type = regular;
      dest = codes "out";
      src = some (codes "@stdout");
      as_stdout = true;
      as_stderr = false;
      limit = limit;
    };
    szrecvbuf = 0;
  };
  fd = some pipe;
  revents = true;
}

abbrev channels : List Channel
channels = to_file 7 9 3 ∷ to_file 8 10 20 ∷ []

abbrev plans : List Plan
plans = record { pipe = 7; file = 9; total = 3 } ∷ record { pipe = 8; file = 10; total = 20 } ∷ []

plans-AllApart : AllApart plans
plans-AllApart = ((λ e. omega arith, tt), (λ e. omega arith, tt), (tt, tt, tt))

channels-AllCopied : AllCopied plans channels []
channels-AllCopied = (
  record { same_file = refl; kind = tt; so_far = (refl, refl, omega arith) },
  (record { same_file = refl; kind = tt; so_far = (refl, refl, omega arith) }, tt),
)

pass-Passes_example :
    Passes plans true 100 2 channels []
      (pass (obedient (codes "hello")) 1 100 100 true 2 channels [])
pass-Passes_example =
    pass-Passes (obedient (codes "hello")) 1 100 (obedient-IsDocumented (codes "hello")) true 100 2
      plans channels [] plans-AllApart (omega arith, (omega arith, tt)) channels-AllCopied

abbrev timed_out : Supervisor
timed_out = record {
  exiting = false;
  ncopyfile = 0;
  npollfd = 6;
  memory_fd = none;
  pids_fd = none;
  timer_fd = 4;
  spawnerout_fd = 5;
  revents = record {
    memory_events = false;
    pids_events = false;
    timer = true;
    spawner_out = false;
  };
  channels = channels;
  response = empty;
}

conclude-Concludes_example :
    Concludes plans 2 1 100 timed_out [] (conclude (obedient (codes "hello")) 1 100 timed_out [])
    × Ending IsReset (conclude (obedient (codes "hello")) 1 100 timed_out [])
conclude-Concludes_example =
    conclude-Concludes (obedient (codes "hello")) 1 100 (obedient-IsDocumented (codes "hello"))
      plans timed_out [] plans-AllApart (omega arith, (omega arith, tt))
      (λ e. omega arith, (λ e. omega arith, tt)) channels-AllCopied (record { stored = refl })
