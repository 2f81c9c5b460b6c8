-- ===== src/Watch/Start.antt =====
-- src/supervisor.c: `sink_init`, and `supervisor` from its start.
use sandals.Prelude.{ℕ, false, List, [], ◌∷◌, ◌++◌, codes, Option, none, some, ◌==◌, if◌then◌else◌}
use sandals.Os.{Kernel, M, pure, ◌>>=◌, timerfd_create, timerfd_settime, Res, ok, err}
use sandals.Response.{empty}
use sandals.Fail.{die}
use sandals.File.{open_checked}
use sandals.Json.{Tokens}
use sandals.Request.{Request}
use sandals.Pipes.{pipe_foreach, Pipe, stdstreams}
use sandals.Sink.{regular_pipe, stdstreams_pipe_init}
use sandals.Supervisor.{Channel}
use sandals.Watch.State.{Revents, pipe0_index}
use sandals.Watch.Loop.{watch, conclude}

module _ (k : Kernel) (response_fd fuel : ℕ) where
  -- The sink of a pipe, with its file opened; there is no descriptor to read from yet.
  abbrev new_channel : Pipe → ℕ → Channel
  new_channel pipe fd = record {
    sink = record {
      handler = elim pipe.type [ stdstreams ↦ stdstreams_pipe_init | _ ↦ regular_pipe ];
      limit = pipe.limit;
      fd = fd;
      pipe = record pipe {
        src = elim pipe.src [
          | some src ↦ some src
          | none ↦ some (if pipe.as_stdout then codes "@stdout" else codes "@stderr")
        ];
      };
      szrecvbuf = 0;
    };
    fd = none;
    revents = false;
  }

  unfoldable pub sink_init : Pipe → M Channel
  sink_init pipe = do fd ← open_checked k response_fd fuel pipe.dest; pure (new_channel pipe fd)

  -- What `sink_init` leaves at the index of the pipe, which is the number of sinks before it.
  unfoldable pub store_sink : ℕ → Pipe → List Channel → M (List Channel)
  unfolding sink_init
  store_sink index pipe cs = do c ← sink_init pipe; pure (cs ++ c ∷ [])

  unfoldable pub after_timer : Res (Unit {0}) → M (Unit {0})
  after_timer (ok _) = pure tt
  after_timer (err e) = die k response_fd fuel tt (codes "Set timer: " ++ k.strerror e)

  unfoldable pub after_timerfd : Res ℕ → M ℕ
  after_timerfd (ok fd) = pure fd
  after_timerfd (err e) = die k response_fd fuel 0 (codes "Create timer: " ++ k.strerror e)

  -- A time of zero would disable the timer.
  unfoldable pub start_timer : ℕ × ℕ → M ℕ
  unfolding after_timer after_timerfd
  start_timer (sec, nsec) = do
    fd ← timerfd_create k >>= after_timerfd
    set ← timerfd_settime k fd (sec, if nsec == 0 then 1 else nsec)
    _ ← after_timer set
    pure fd

  -- `unset` is what the memory of `pollfd` holds before the first call of `poll`. The allocation
  -- succeeds.
  unfoldable pub supervisor : Tokens → Request → Option ℕ → Option ℕ → ℕ → Revents → ℕ → M ℕ
  unfolding store_sink start_timer
  supervisor toks request memory_fd pids_fd spawnerout_fd unset rounds = do
    sinks ← pipe_foreach toks k response_fd fuel store_sink request []
    timer_fd ← start_timer request.time_limit
    s ← watch k response_fd fuel rounds (record {
      exiting = false;
      ncopyfile = 0;
      npollfd = pipe0_index;
      memory_fd = memory_fd;
      pids_fd = pids_fd;
      timer_fd = timer_fd;
      spawnerout_fd = spawnerout_fd;
      revents = unset;
      channels = sinks.1;
      response = empty;
    })
    conclude k response_fd fuel s
