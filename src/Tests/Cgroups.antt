-- ===== src/Tests/Cgroups.antt =====
-- A cgroup that is made, and one that is busy at first.
use sandals.Prelude.{
  ℕ, suc, ◌≡◌, ◌≢◌, refl, ◌∷◌, [], ◌++◌, Bytes, List, codes, none, some, true, ◌==◌, length,
  if◌then◌else◌, get_elem?, arith,
}
use sandals.Os.{
  Kernel, Trace, Res, ok, err, ebusy, Call, remove_dir, assigned, spawner_pid, cgroup_path, running,
  returns,
}
use sandals.Os.Ending.{Ending}
use sandals.Json.{Tokens, JsonType, object, string, json_null, infinite}
use sandals.Request.{default_request}
use sandals.Cgroup.Create.{sys_fs_cgroup_path, is_cgroup_line, parent_cgroup}
use sandals.Cgroup.Configure.{configure_cgroup}
use sandals.Cgroup.Cleanup.{remove_cgroup, cleanup_cgroup}
use sandals.Cgroup.Removal.{Removes, remove_cgroup-Removes, remove_cgroup-returns}
use sandals.Cgroup.Names.{cgroup_line, parent_cgroup-parent}
use sandals.Cgroup.Owned.{IsTidy}
use sandals.Cgroup.Tidy.{configure_cgroup-IsTidy}
use sandals.Cgroup.Cleared.{Clears, cleanup_cgroup-Clears}
use sandals.Tests.Kernels.{obedient}

abbrev answer : ℕ → Call → Res ℕ
answer calls (remove_dir path) = if calls == 0 then err ebusy else ok 0
answer calls _ = ok 7

abbrev busy_once : Kernel
busy_once = record (obedient []) { call = λ t c. answer (length t) c }

remove_cgroup-Removes_example :
    Removes busy_once 5 (codes "/c") 3 [] (remove_cgroup busy_once 1 3 5 (codes "/c") [])
remove_cgroup-Removes_example = remove_cgroup-Removes busy_once 5 (codes "/c") 1 3 []

not_busy : ◌≢◌ {A = Res ℕ} (ok 7) (err ebusy)
not_busy e = cc

remove_cgroup-returns_example :
    (t' : Trace) × (remove_cgroup (obedient []) 1 1 5 (codes "/c") [] ≡ (returns tt, t'))
remove_cgroup-returns_example =
    remove_cgroup-returns (obedient []) 5 (codes "/c") 1 0 1 [] (omega arith)
      (λ n u le from. not_busy)

abbrev started : Trace
started = assigned (spawner_pid (running 9)) ∷ assigned (cgroup_path (codes "/c")) ∷ []

cleanup_cgroup-Clears_example :
    Clears busy_once 1 3 (running 9) 0 (codes "/c") started (cleanup_cgroup busy_once 1 3 started)
cleanup_cgroup-Clears_example = cleanup_cgroup-Clears busy_once 1 3 started

-- `{"pids.max": "5"}`.
abbrev Entry : Type 0
Entry = JsonType × Bytes × ℕ

abbrev entries : List Entry
entries = (object, [], 3) ∷ (string, codes "pids.max", 2) ∷ (string, codes "5", 3) ∷ []

abbrev entry : ℕ → Entry
entry i = elim (get_elem? entries i) [ none ↦ (json_null, [], suc i) | some e ↦ e ]

abbrev pub tokens : Tokens
tokens = record {
  type_of = λ i. (entry i).0;
  value_of = λ i. (entry i).1;
  next = λ i. (entry i).2;
  number_of = λ i. infinite;
}

configure_cgroup-IsTidy_example :
    Ending IsTidy
      (configure_cgroup (obedient (codes "0::/user/me\n")) 1 100 tokens default_request 0 [])
configure_cgroup-IsTidy_example =
    configure_cgroup-IsTidy (obedient (codes "0::/user/me\n")) 1 100 tokens default_request 0 []
      (record { none_made = refl; disabled = refl })

parent_cgroup-parent_example :
    (is_cgroup_line (cgroup_line (codes "/user") (codes "me")) ≡ true)
    × (parent_cgroup (cgroup_line (codes "/user") (codes "me"))
        ≡ sys_fs_cgroup_path ++ codes "/user")
parent_cgroup-parent_example = parent_cgroup-parent (codes "/user") (codes "me") refl
