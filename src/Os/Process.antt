-- ===== src/Os/Process.antt =====
-- The monad of a process that makes system calls.
use sandals.Prelude.{ℕ, ◌∷◌, Bytes, Bool, List, Option}
use sandals.Os.Calls.{
  Res, wrote, did_read, did_pread, spliced, received, got_recv_size, closed, logged, opened,
  made_timer, set_timer, polled, got_message, killed_spawner, Message, Trace, Kernel, Packet, Errno,
  called, called_pair, listed, assigned, stored_errno, ignored_sigpipe,
}
use sandals.Os.Syscalls.{Call, PairCall, Global}

-- `exits` is a call of `exit`; `starves` says that a loop has used up its fuel.
pub data Outcome {ℓ} (A : Type ℓ) : Type ℓ where
  returns : A → Outcome A
  exits : ℕ → Outcome A
  starves : Outcome A

abbrev pub M : Type 0 → Type 0
M A = Trace → Outcome A × Trace

abbrev pub pure : {A : Type 0} → A → M A
pure a t = (returns a, t)

abbrev pub exit : {A : Type 0} → ℕ → M A
exit code t = (exits code, t)

abbrev pub starve : {A : Type 0} → M A
starve t = (starves, t)

abbrev pub bind_from : {A B : Type 0} → Outcome A → Trace → (A → M B) → Outcome B × Trace
bind_from (returns a) t f = f a t
bind_from (exits c) t f = (exits c, t)
bind_from starves t f = (starves, t)

infixl 5 ◌>>=◌ ◌>>◌
abbrev pub ◌>>=◌ : {A B : Type 0} → M A → (A → M B) → M B
◌>>=◌ m f t = let (o, t') = m t in bind_from o t' f

abbrev pub ◌>>◌ : {B : Type 0} → M (Unit {0}) → M B → M B
m >> k = m >>= λ _. k

module _ (k : Kernel) where
  abbrev pub write : ℕ → Bytes → M (Res ℕ)
  write fd bs t = let r = k.write t fd bs in (returns r, wrote fd bs r ∷ t)

  abbrev pub read : ℕ → ℕ → M (Res Bytes)
  read fd n t = let r = k.read t fd n in (returns r, did_read fd n r ∷ t)

  abbrev pub pread : ℕ → ℕ → ℕ → M (Res Bytes)
  pread fd n offset t = let r = k.pread t fd n offset in (returns r, did_pread fd n offset r ∷ t)

  abbrev pub splice : ℕ → ℕ → ℕ → M (Res Bytes)
  splice from to n t = let r = k.splice t from to n in (returns r, spliced from to n r ∷ t)

  abbrev pub recvfrom : ℕ → ℕ → M (Res Packet)
  recvfrom fd n t = let r = k.recvfrom t fd n in (returns r, received fd n r ∷ t)

  abbrev pub recv_size : ℕ → M (Res ℕ)
  recv_size fd t = let r = k.recv_size t fd in (returns r, got_recv_size fd r ∷ t)

  abbrev pub open_file : Bytes → M (Res ℕ)
  open_file path t = let r = k.open_file t path in (returns r, opened path r ∷ t)

  abbrev pub timerfd_create : M (Res ℕ)
  timerfd_create t = let r = k.timerfd_create t in (returns r, made_timer r ∷ t)

  abbrev pub timerfd_settime : ℕ → ℕ × ℕ → M (Res (Unit {0}))
  timerfd_settime fd time t =
      let r = k.timerfd_settime t fd time in (returns r, set_timer fd time r ∷ t)

  abbrev pub poll : List (Option ℕ) → M (Res (List Bool))
  poll fds t = let r = k.poll t fds in (returns r, polled fds r ∷ t)

  abbrev pub recvmsg : ℕ → ℕ → M (Res Message)
  recvmsg fd n t = let r = k.recvmsg t fd n in (returns r, got_message fd n r ∷ t)

  abbrev pub call : Call → M (Res ℕ)
  call c t = let r = k.call t c in (returns r, called c r ∷ t)

  abbrev pub call_pair : PairCall → M (Res (ℕ × ℕ))
  call_pair c t = let r = k.call_pair t c in (returns r, called_pair c r ∷ t)

  abbrev pub readdir : ℕ → M (Res (Option Bytes))
  readdir fd t = let r = k.readdir t fd in (returns r, listed fd r ∷ t)

-- Assigns to a global variable.
abbrev pub assign : Global → M (Unit {0})
assign g t = (returns tt, assigned g ∷ t)

-- `*exec_errno = errno`, in the task.
abbrev pub store_errno : Errno → M (Unit {0})
store_errno e t = (returns tt, stored_errno e ∷ t)

-- `signal(SIGPIPE, SIG_IGN)`.
abbrev pub ignore_sigpipe : M (Unit {0})
ignore_sigpipe t = (returns tt, ignored_sigpipe ∷ t)

abbrev pub kill_spawner : M (Unit {0})
kill_spawner t = (returns tt, killed_spawner ∷ t)

abbrev pub close : ℕ → M (Unit {0})
close fd t = (returns tt, closed fd ∷ t)

abbrev pub log : Bytes → M (Unit {0})
log text t = (returns tt, logged text ∷ t)
