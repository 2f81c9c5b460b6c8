-- ===== src/Tests/Events.antt =====
-- A round with an event of the memory controller.
use sandals.Prelude.{refl, true, false, none, some, [], codes, Bytes, arith, ◌≡◌, ◌∙◌, ap}
use sandals.Os.{returns}
use sandals.Os.Returning.{Returning}
use sandals.Response.{empty}
use sandals.Counter.Reference.{counter_positive, strip, positive_after, IsWord, key_of}
use sandals.Counter.Read.{cgroup_counter_nonzero-counter_positive}
use sandals.Watch.State.{Supervisor}
use sandals.Watch.Loop.{check_events, watch}
use sandals.Watch.Fits.{SupervisorFits}
use sandals.Watch.Rounds.{watch-Fits}
use sandals.Watch.Verdicts.{MemorySays, Decides, check_events-Decides}
use sandals.Tests.Kernels.{obedient, obedient-IsDocumented}

abbrev killed : Bytes
killed = codes "oom 1\noom_kill 3\n"

abbrev watching : Supervisor
watching = record {
  exiting = false;
  ncopyfile = 0;
  npollfd = 4;
  memory_fd = some 5;
  pids_fd = none;
  timer_fd = 4;
  spawnerout_fd = 6;
  revents = record { memory_events = true; pids_events = false; timer = true; spawner_out = true };
  channels = [];
  response = empty;
}

oom_kill-IsWord : IsWord (codes "oom_kill")
oom_kill-IsWord = ground arith

counter_positive-killed : counter_positive (key_of (codes "oom_kill")) true killed ≡ true
unfolding counter_positive strip positive_after
counter_positive-killed = refl

watching-MemorySays : MemorySays (obedient killed) 1 100 (some 5) true
watching-MemorySays t =
    cgroup_counter_nonzero-counter_positive (obedient killed) 1 100 5 (codes "oom_kill")
      (codes "memory.events") killed 98 t oom_kill-IsWord (λ t' offset. refl) (omega arith)
    ∙ ap (λ b. returns b) counter_positive-killed

check_events-Decides_example :
    Decides
      (obedient killed)
      1
      100
      true
      false
      watching
      (check_events (obedient killed) 1 100 watching [])
check_events-Decides_example =
    check_events-Decides (obedient killed) 1 100 true false watching [] watching-MemorySays refl

watch-Fits_example : Returning SupervisorFits (watch (obedient killed) 1 100 3 watching [])
watch-Fits_example =
    watch-Fits (obedient killed) 1 100 (obedient-IsDocumented killed) 3 watching []
      (record { whole = refl; size_le = omega arith })
