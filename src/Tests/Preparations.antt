-- ===== src/Tests/Preparations.antt =====
-- The namespace of a request is prepared.
use sandals.Prelude.{ℕ, ◌≡◌, refl, [], none, some, Option, codes}
use sandals.Os.{Outcome, returns, exits, starves}
use sandals.Os.Returning.{Returning}
use sandals.Request.{Request, default_request}
use sandals.Fail.{call_checked}
use sandals.File.{open_checked, write_checked}
use sandals.Net.{configure_net}
use sandals.Users.{map_user_and_group}
use sandals.Response.{decimal}
use sandals.Mounts.Entries.{do_mounts}
use sandals.Spawner.Stages.{shared}
use sandals.Spawner.Steps.{prepare}
use sandals.Spawner.Order.{Prepared, prepare-Prepared}
use sandals.Tests.Kernels.{obedient}
use sandals.Tests.Requests.{tokens}

abbrev captured : Request
captured = record default_request { stdstreams_dest = some (codes "log"); work_dir = codes "tmp" }

prepare-Prepared_example :
    Returning
      (Prepared (obedient []) 1 100 tokens 1000 100 captured [] shared)
      (prepare (obedient []) 1 100 tokens 1000 100 captured [])
prepare-Prepared_example = prepare-Prepared (obedient []) 1 100 tokens 1000 100 captured []

-- The second descriptor, if it returns.
abbrev proxy_of : Outcome (ℕ × Option ℕ) → Option ℕ
proxy_of (returns fds) = fds.1
proxy_of (exits _) = none
proxy_of starves = none

captured_proxy : proxy_of ((prepare (obedient []) 1 100 tokens 1000 100 captured []).0) ≡ some 9
unfolding prepare configure_net call_checked open_checked map_user_and_group write_checked decimal
    do_mounts
captured_proxy = refl
