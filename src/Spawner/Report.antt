-- ===== src/Spawner/Report.antt =====
-- src/spawner.c: the response about the end of the task.
use sandals.Prelude.{
  ℕ, ◌/◌, ◌%◌, Bool, ◌&&◌, List, [], ◌∷◌, Bytes, codes, none, some, get_elem?, ltb, leb, ◌==◌,
  if◌then◌else◌,
}
use sandals.Response.{Response, empty, append_raw, append_esc, append_int}
use sandals.Fail.{opening, closing, status_text, exited, killed}

-- `signals`, by the numbers that Linux gives to the signals on x86 and ARM. SIGPOLL is initialised
-- after SIGIO, which is the same number.
abbrev pub signals : List Bytes
signals =
    []
    ∷ codes "SIGHUP"
    ∷ codes "SIGINT"
    ∷ codes "SIGQUIT"
    ∷ codes "SIGILL"
    ∷ codes "SIGTRAP"
    ∷ codes "SIGABRT"
    ∷ codes "SIGBUS"
    ∷ codes "SIGFPE"
    ∷ codes "SIGKILL"
    ∷ codes "SIGUSR1"
    ∷ codes "SIGSEGV"
    ∷ codes "SIGUSR2"
    ∷ codes "SIGPIPE"
    ∷ codes "SIGALRM"
    ∷ codes "SIGTERM"
    ∷ codes "SIGSTKFLT"
    ∷ codes "SIGCHLD"
    ∷ codes "SIGCONT"
    ∷ codes "SIGSTOP"
    ∷ codes "SIGTSTP"
    ∷ codes "SIGTTIN"
    ∷ codes "SIGTTOU"
    ∷ codes "SIGURG"
    ∷ codes "SIGXCPU"
    ∷ codes "SIGXFSZ"
    ∷ codes "SIGVTALRM"
    ∷ codes "SIGPROF"
    ∷ codes "SIGWINCH"
    ∷ codes "SIGPOLL"
    ∷ codes "SIGPWR"
    ∷ codes "SIGSYS"
    ∷ []

-- `sizeof(signals)/sizeof(signals[0])`.
abbrev pub nsignals : ℕ
nsignals = 32

-- WTERMSIG, WIFEXITED and WEXITSTATUS.
abbrev pub wtermsig : ℕ → ℕ
wtermsig status = status % 128

abbrev pub wifexited : ℕ → Bool
wifexited status = wtermsig status == 0

abbrev pub wexitstatus : ℕ → ℕ
wexitstatus status = status / 256 % 256

-- The text for a signal. An array of characters is never NULL, so that the test of `signals[sig]`
-- holds. For 32, behind the last element, `beyond` is what the memory holds there.
unfoldable pub append_signal : Bytes → Response → ℕ → Response
append_signal beyond r sig =
    if ltb 0 sig && leb sig nsignals
    then append_raw r (elim (get_elem? signals sig) [ none ↦ beyond | some name ↦ name ])
    else append_int r sig

-- The response for a status that `wait` has stored.
unfoldable pub task_response : Bytes → ℕ → Response
unfolding append_signal
task_response beyond status =
    let opened = append_raw empty opening in
    if wifexited status
    then append_raw
        (append_int (append_raw (append_esc opened (status_text exited)) (codes "\",\"code\":"))
          (wexitstatus status))
        (codes "}\n")
    else append_raw
        (append_signal beyond
          (append_raw (append_esc opened (status_text killed)) (codes "\",\"signal\":\""))
          (wtermsig status))
        closing
