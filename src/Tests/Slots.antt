-- ===== src/Tests/Slots.antt =====
-- The descriptors that are prepared for a request with one pipe.
use sandals.Prelude.{ℕ, ◌≡◌, refl, length, [], ◌∷◌, none, arith, List}
use sandals.Os.{Outcome, returns, exits, starves}
use sandals.Os.Returning.{Returning}
use sandals.Fail.{call_checked}
use sandals.Json.{array_items, jsget_object, for_each, object_members, jsget_str, jsget_bool}
use sandals.Pipes.Asked.{asked}
use sandals.Pipes.{pipe_count, pipe_foreach}
use sandals.Watch.State.{attach}
use sandals.Watch.Start.{store_sink}
use sandals.Watch.Setup.{Attached, store_sink-Attached}
use sandals.Spawner.Channels.{Outputs, create_pipes}
use sandals.Spawner.Slots.{Filled, create_pipes-Filled}
use sandals.Tests.Kernels.{obedient, obedient-IsDocumented}
use sandals.Tests.Requests.{tokens, piped}

create_pipes-Filled_example :
    Returning
      (Filled (asked tokens piped) (pipe_count tokens piped) (pipe_count tokens piped))
      (create_pipes (obedient []) 1 100 tokens none piped 3 [])
create_pipes-Filled_example =
    create_pipes-Filled tokens (obedient []) 1 100 (obedient-IsDocumented []) piped none 3 []
      (omega arith)

-- The descriptors, if it returns.
abbrev fds_of : Outcome Outputs → List ℕ
fds_of (returns o) = o.fds
fds_of (exits _) = []
fds_of starves = []

one_slot : fds_of ((create_pipes (obedient []) 1 100 tokens none piped 3 []).0) ≡ 7 ∷ []
unfolding create_pipes pipe_count array_items pipe_foreach jsget_object for_each object_members
    jsget_str jsget_bool call_checked
one_slot = refl

store_sink-Attached_example :
    Returning
      (λ sinks u.
        Returning
          (λ o v.
            (length o.fds ≡ length (sinks.1))
            × Attached tokens (obedient []) 1 100 piped o.fds u v (attach o.fds (sinks.1)))
          (create_pipes (obedient []) 1 100 tokens none piped 3 []))
      (pipe_foreach tokens (obedient []) 1 100 (store_sink (obedient []) 1 100) piped [] [])
store_sink-Attached_example =
    store_sink-Attached tokens (obedient []) 1 100 piped (obedient-IsDocumented []) none 3 [] []
      (omega arith)
