-- ===== src/Tests/Processes.antt =====
-- A whole process, whose task runs out of time. It has a cgroup, and its spawner has been killed once.
use sandals.Prelude.{
  ℕ, ◌≢◌, ◌≡◌, refl, false, true, arith, [], ◌∷◌, ◌+◌, codes, length, List, Bytes, Option, none,
  some, get_elem?, suc,
}
use sandals.Os.{Res, ok, Kernel, Outcome, returns, Trace, Event, called, kill, killed_spawner}
use sandals.Json.{
  Tokens, JsonType, object, array, string, json_null, infinite, jsget_object, for_each,
  object_members, jsget_array, array_items, jsget_str,
}
use sandals.Fail.{call_checked, response_send, write_all}
use sandals.File.{open_checked, write_checked}
use sandals.Response.{decimal, append_raw, append_esc, escape_byte}
use sandals.Supervisor.{pass}
use sandals.Watch.State.{verdict}
use sandals.Request.{request_parse}
use sandals.Request.Receive.{parsed, request_recv, grow}
use sandals.Pipes.{pipe_foreach}
use sandals.Cgroup.Configure.{configure_cgroup}
use sandals.Cgroup.Cleanup.{cleanup_cgroup}
use sandals.Watch.Start.{supervisor}
use sandals.Watch.Loop.{watch, conclude}
use sandals.Spawner.Task.{Ended, returned}
use sandals.Spawner.Steps.{program}
use sandals.Main.{Host, main, process}
use sandals.Main.Exits.{Cleans, process-Cleans}
use sandals.Tests.Kernels.{obedient, ok_eq}

-- `{"cmd": ["/bin/ls"], "cgroupConfig": {"pids.max": "5"}}`: the type, the text and the next token.
abbrev Entry : Type 0
Entry = JsonType × Bytes × ℕ

abbrev entries : List Entry
entries =
    (object, [], 8)
    ∷ (string, codes "cmd", 2)
    ∷ (array, [], 4)
    ∷ (string, codes "/bin/ls", 4)
    ∷ (string, codes "cgroupConfig", 5)
    ∷ (object, [], 8)
    ∷ (string, codes "pids.max", 7)
    ∷ (string, codes "5", 8)
    ∷ []

abbrev entry : ℕ → Entry
entry i = elim (get_elem? entries i) [ none ↦ (json_null, [], suc i) | some e ↦ e ]

abbrev tokens : Tokens
tokens = record {
  type_of = λ i. (entry i).0;
  value_of = λ i. (entry i).1;
  next = λ i. (entry i).2;
  number_of = λ i. infinite;
}

-- The timer runs out at once.
abbrev late : Kernel
late = record (obedient (codes "0::/user/me\n")) {
  poll = λ t fds. ok (false ∷ false ∷ true ∷ false ∷ []);
}

abbrev host : Host
host = record {
  uid = 1000;
  gid = 1000;
  jstr_parse = λ count text. parsed (length text) tokens;
  kafel = λ policy. program 20;
  unset = record { memory_events = false; pids_events = false; timer = false; spawner_out = false };
  beyond = [];
}

other_pid : ◌≢◌ {A = Res ℕ} (ok 7) (ok 0)
other_pid e = omega (arith, ok_eq 7 0 e)

process-Cleans_example : Cleans late 9 (main late 100 9 host 1 []) (process late 100 9 host 1 [])
process-Cleans_example = process-Cleans late 100 9 host 1 (λ u. other_pid)

-- What `main` returns, if it does.
abbrev code_of : Outcome Ended → Option ℕ
code_of (returns (returned code)) = some code
code_of _ = none

-- The calls of `kill`, of the loop's end and of the destructor.
abbrev is_kill : Event → ℕ
is_kill killed_spawner = 1
is_kill (called (kill pid) r) = 1
is_kill _ = 0

abbrev kills : Trace → ℕ
kills [] = 0
kills (e ∷ t) = is_kill e + kills t

killed_once :
    (code_of ((main late 100 9 host 1 []).0) ≡ some 0)
    × (kills ((process late 100 9 host 1 []).1) ≡ 1)
unfolding process request_recv grow request_parse jsget_object for_each object_members jsget_array
    array_items jsget_str configure_cgroup open_checked decimal call_checked write_checked
    supervisor pipe_foreach watch conclude response_send cleanup_cgroup pass verdict append_raw
    append_esc escape_byte write_all
killed_once = (refl, refl)
