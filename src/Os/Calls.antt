-- ===== src/Os/Calls.antt =====
-- What the program asks of the kernel, and what is recorded of each call.
use sandals.Prelude.{
  ℕ, ◌+◌, ◌≡◌, refl, sym, ◌∙◌, ap, append-nil, Bool, false, Bool-cases, inl, inr, List, [], ◌∷◌,
  ◌++◌, Bytes, take, Option, if◌then◌else◌, ◌==◌,
}
use sandals.Os.Syscalls.{
  Call, PairCall, SpawnerPid, no_cleanup, Global, spawner_pid, cgroup_path, cgroupevents_fd,
}

pub data Errno : Type 0 where
  eintr eagain einval enoent ebusy enotsock : Errno
  other : ℕ → Errno

pub data Res {ℓ} (A : Type ℓ) : Type ℓ where
  ok : A → Res A
  err : Errno → Res A

-- A datagram and the path of the address that it came from.
pub record Packet : Type 0 where
  pub body : Bytes
  pub source : Bytes

-- What `recvmsg` received: the bytes, and the descriptors of a control message SCM_RIGHTS, if the
-- first control message is one.
pub record Message : Type 0 where
  pub body : Bytes
  pub rights : Option (List ℕ)

pub data Event : Type 0 where
  wrote : ℕ → Bytes → Res ℕ → Event
  did_read : ℕ → ℕ → Res Bytes → Event
  did_pread : ℕ → ℕ → ℕ → Res Bytes → Event
  spliced : ℕ → ℕ → ℕ → Res Bytes → Event
  received : ℕ → ℕ → Res Packet → Event
  got_recv_size : ℕ → Res ℕ → Event
  closed : ℕ → Event
  opened : Bytes → Res ℕ → Event
  made_timer : Res ℕ → Event
  set_timer : ℕ → ℕ × ℕ → Res (Unit {0}) → Event
  polled : List (Option ℕ) → Res (List Bool) → Event
  got_message : ℕ → ℕ → Res Message → Event
  killed_spawner : Event
  logged : Bytes → Event
  called : Call → Res ℕ → Event
  called_pair : PairCall → Res (ℕ × ℕ) → Event
  listed : ℕ → Res (Option Bytes) → Event
  assigned : Global → Event
  stored_errno : Errno → Event
  ignored_sigpipe : Event

-- The newest event stands first.
abbrev pub Trace : Type 0
Trace = List Event

-- `read fd n` and `pread fd n offset` answer with the bytes read, `splice in out n` with the bytes moved, and `recvfrom`
-- with a datagram that has been cut to the size of the buffer. `poll fds` takes `none` for -1 and
-- answers which entries have events. `timerfd_settime fd (s, ns)` takes seconds and nanoseconds.
-- `readdir` answers with the name of an entry. `exec_errno` is what the page holds that the spawner
-- shares with the task, and `pid` the number of the process.
pub record Kernel : Type 0 where
  pub write : Trace → ℕ → Bytes → Res ℕ
  pub read : Trace → ℕ → ℕ → Res Bytes
  pub pread : Trace → ℕ → ℕ → ℕ → Res Bytes
  pub splice : Trace → ℕ → ℕ → ℕ → Res Bytes
  pub recvfrom : Trace → ℕ → ℕ → Res Packet
  pub recv_size : Trace → ℕ → Res ℕ
  pub open_file : Trace → Bytes → Res ℕ
  pub timerfd_create : Trace → Res ℕ
  pub timerfd_settime : Trace → ℕ → ℕ × ℕ → Res (Unit {0})
  pub poll : Trace → List (Option ℕ) → Res (List Bool)
  pub recvmsg : Trace → ℕ → ℕ → Res Message
  pub call : Trace → Call → Res ℕ
  pub call_pair : Trace → PairCall → Res (ℕ × ℕ)
  pub readdir : Trace → ℕ → Res (Option Bytes)
  pub exec_errno : Trace → Option Errno
  pub pid : ℕ
  pub strerror : Errno → Bytes

-- The values of the globals: what was assigned last, or 0.
abbrev pub spawner_pid_of : Trace → SpawnerPid
spawner_pid_of [] = no_cleanup
spawner_pid_of (assigned (spawner_pid p) ∷ t) = p
spawner_pid_of (_ ∷ t) = spawner_pid_of t

abbrev pub cgroup_path_of : Trace → Bytes
cgroup_path_of [] = []
cgroup_path_of (assigned (cgroup_path path) ∷ t) = path
cgroup_path_of (_ ∷ t) = cgroup_path_of t

abbrev pub cgroupevents_fd_of : Trace → ℕ
cgroupevents_fd_of [] = 0
cgroupevents_fd_of (assigned (cgroupevents_fd fd) ∷ t) = fd
cgroupevents_fd_of (_ ∷ t) = cgroupevents_fd_of t

-- The bytes that a call has put into the file `fd`.
abbrev pub put_by : ℕ → Event → Bytes
put_by fd (wrote f bs (ok n)) = if f == fd then take n bs else []
put_by fd (spliced _ out _ (ok bs)) = if out == fd then bs else []
put_by _ _ = []

-- All that has been written to `fd`, oldest first.
abbrev pub written : ℕ → Trace → Bytes
written fd [] = []
written fd (e ∷ t) = written fd t ++ put_by fd e

abbrev pub interrupt : Event → ℕ
interrupt (wrote _ _ (err eintr)) = 1
interrupt _ = 0

-- How many writes a signal has interrupted.
abbrev pub interrupts : Trace → ℕ
interrupts [] = 0
interrupts (e ∷ t) = interrupt e + interrupts t

-- The bytes that a call has taken out of the pipe `fd`.
abbrev pub taken_by : ℕ → Event → Bytes
taken_by fd (did_read f _ (ok bs)) = if f == fd then bs else []
taken_by fd (spliced from _ _ (ok bs)) = if from == fd then bs else []
taken_by _ _ = []

-- All that has been taken out of `fd`, oldest first.
abbrev pub taken : ℕ → Trace → Bytes
taken fd [] = []
taken fd (e ∷ t) = taken fd t ++ taken_by fd e

-- Whether a call asks the pipe or the socket `fd` for data.
abbrev pub is_call_on : ℕ → Event → Bool
is_call_on fd (did_read f _ _) = f == fd
is_call_on fd (spliced from _ _ _) = from == fd
is_call_on fd (received f _ _) = f == fd
is_call_on _ _ = false

abbrev pub calls_on : ℕ → Trace → Trace
calls_on fd [] = []
calls_on fd (e ∷ t) = if is_call_on fd e then e ∷ calls_on fd t else calls_on fd t

taken_by-other : (fd : ℕ) (e : Event) → is_call_on fd e ≡ false → taken_by fd e ≡ []
taken_by-other fd (did_read f _ (ok bs)) h = rw h
taken_by-other fd (spliced from _ _ (ok bs)) h = rw h
taken_by-other fd _ h = refl

taken-calls_on : (fd : ℕ) (t : Trace) → taken fd t ≡ taken fd (calls_on fd t)
taken-calls_on fd [] = refl
taken-calls_on fd (e ∷ t) = elim (Bool-cases (is_call_on fd e)) [
  | inl on ↦ rw on (ap (λ x. x ++ taken_by fd e) (taken-calls_on fd t))
  | inr off ↦
      rw off
        (ap (λ x. taken fd t ++ x) (taken_by-other fd e off) ∙ append-nil _ ∙ taken-calls_on fd t)
]

-- Without new calls on it, nothing more has been taken.
pub taken_same : (fd : ℕ) (t t' : Trace) → calls_on fd t' ≡ calls_on fd t → taken fd t' ≡ taken fd t
taken_same fd t t' h = taken-calls_on fd t' ∙ ap (taken fd) h ∙ sym (taken-calls_on fd t)
