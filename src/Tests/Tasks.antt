-- ===== src/Tests/Tasks.antt =====
-- A task that runs, and the response about it.
use sandals.Prelude.{ℕ, ◌≡◌, refl, ◌∷◌, [], codes, some, arith}
use sandals.Os.{Kernel, ok, err, enoent, execute, Call, Res}
use sandals.Request.{Request, default_request}
use sandals.Response.{decimal}
use sandals.Fail.Reply.{holding}
use sandals.Spawner.Channels.{Outputs}
use sandals.Spawner.Report.{task_response}
use sandals.Spawner.Task.{run_task, wait_task}
use sandals.Spawner.Run.{Attempts, task_calls, run_task-Attempts}
use sandals.Spawner.Wait.{AwaitsTask, wait_task-AwaitsTask}
use sandals.Spawner.Texts.{task_text, task_response-task_text}
use sandals.Tests.Kernels.{obedient}

abbrev ls : Request
ls = record default_request { cmd = some (codes "/bin/ls" ∷ codes "-l" ∷ []) }

abbrev outputs : Outputs
outputs = record { fds = 5 ∷ []; stdout_fd = 6; stderr_fd = 4 }

abbrev answer : Call → Res ℕ
answer (execute file cmd env) = err enoent
answer _ = ok 7

abbrev no_ls : Kernel
no_ls = record (obedient []) { call = λ t c. answer c }

run_task-Attempts_example :
    Attempts (task_calls 4 outputs 20 ls) [] (run_task no_ls 4 outputs 20 ls [])
run_task-Attempts_example = run_task-Attempts no_ls 4 outputs 20 ls []

wait_task-AwaitsTask_example : AwaitsTask 7 3 [] (wait_task (obedient []) 3 7 [])
wait_task-AwaitsTask_example = wait_task-AwaitsTask (obedient []) 3 7 []

killed_text : task_text [] 9 ≡ codes "{\"status\":\"killed\",\"signal\":\"SIGKILL\"}\n"
killed_text = refl

exited_text : task_text [] 512 ≡ codes "{\"status\":\"exited\",\"code\":2}\n"
unfolding decimal
exited_text = refl

task_response-task_text_example : task_response [] 512 ≡ holding (task_text [] 512)
task_response-task_text_example = task_response-task_text [] 512 (omega arith)
