-- ===== src/Spawner/Given.antt =====
-- src/spawner.c: what the operations of `create_pipes` yield, and that they keep what was given.
use sandals.Prelude.{
  ℕ, zero, suc, ◌+◌, ◌<◌, ◌≡◌, refl, sym, ap, subst, Bool, List, [], ◌∷◌, Bytes, Option, none, some,
  arith, length, get_elem?, ◌||◌,
}
use sandals.Os.{
  Kernel, Trace, Event, Res, ok, err, opened, called, called_pair, socket_unix, pipe_ends, bind_to,
  connect_to, set_nonblock, make_fifo, pure, ◌>>=◌,
}
use sandals.Os.Returning.{Returning, Returning-bind, then-Returning, if-Returning, weaken-Returning}
use sandals.Fail.Never.{call_checked-Returning, die-Returning}
use sandals.File.Returns.{open_checked-Returning}
use sandals.File.{open_checked}
use sandals.Pipes.{Pipe, PipeType, regular, copyfile, stdstreams}
use sandals.Spawner.Channels.{
  store_fd, stdstreams_addr, create_socket, connect_checked, after_pipe, nonblocking_pipe,
  write_end, create_regular, create_copyfile,
}

abbrev pub a_pipe : PipeType → Bytes → Option Bytes → Bool → Bool → ℕ → Pipe
a_pipe type dest src as_stdout as_stderr limit = record {
  type = type;
  dest = dest;
  src = src;
  as_stdout = as_stdout;
  as_stderr = as_stderr;
  limit = limit;
}

-- The descriptor is one to receive from that the kernel has given for the pipe: the file that is to
-- be copied; the fifo, which has just been made; the end to read from of a pipe, for a pipe without a
-- name or for the standard streams; or the socket that is bound to the address of these.
pub data Given (p : Pipe) (fd : ℕ) : Trace → Type 0 where
  by_open :
      (path : Bytes) (t : Trace)
      → p.type ≡ copyfile
      → p.src ≡ some path
      → Given p fd (opened path (ok fd) ∷ t)
  by_fifo :
      (path : Bytes) (n : ℕ) (t : Trace)
      → p.type ≡ regular
      → p.src ≡ some path
      → Given p fd (opened path (ok fd) ∷ called (make_fifo path) (ok n) ∷ t)
  by_pipe :
      (to : ℕ) (t : Trace)
      → p.type ≡ regular
      → p.src ≡ none
      → Given p fd (called_pair pipe_ends (ok (fd, to)) ∷ t)
  by_proxy :
      (to : ℕ) (t : Trace)
      → p.type ≡ stdstreams
      → Given p fd (called_pair pipe_ends (ok (fd, to)) ∷ t)
  by_socket :
      (n : ℕ) (t : Trace)
      → p.type ≡ stdstreams
      → Given p fd (called (bind_to fd stdstreams_addr) (ok n) ∷ called socket_unix (ok fd) ∷ t)
  before : (e : Event) (t : Trace) → Given p fd t → Given p fd (e ∷ t)

-- The first `i` slots, for the pipes that are wanted there.
abbrev pub AreGiven : (ℕ → Pipe → Type 0) → ℕ → List ℕ → Trace → Type 0
AreGiven Wanted i fds t =
    (j fd : ℕ) (p : Pipe) → j < i → get_elem? fds j ≡ some fd → Wanted j p → Given p fd t

-- What was given stays given.
abbrev pub Keeps : Trace → Trace → Type 0
Keeps t t' = (p : Pipe) (fd : ℕ) → Given p fd t → Given p fd t'

pub length-store_fd : (i n : ℕ) (fds : List ℕ) → length (store_fd i n fds) ≡ length fds
unfolding store_fd
length-store_fd i n [] = refl
length-store_fd zero n (fd ∷ fds) = refl
length-store_fd (suc i) n (fd ∷ fds) = ap suc (length-store_fd i n fds)

some_eq : (a b : ℕ) → ◌≡◌ {A = Option ℕ} (some a) (some b) → a ≡ b
some_eq a b e = cc

none_ne : (a : ℕ) → ◌≡◌ {A = Option ℕ} none (some a) → ⊥
none_ne a e = cc

pub store_fd-AreGiven :
    (Wanted : ℕ → Pipe → Type 0) (i n : ℕ) (fds : List ℕ) (t t' : Trace)
    → AreGiven Wanted i fds t
    → Keeps t t'
    → ((p : Pipe) → Wanted i p → Given p n t')
    → AreGiven Wanted (i + 1) (store_fd i n fds) t'
unfolding store_fd
store_fd-AreGiven W i n [] t t' h keeps g j fd p lt e w = absurd (none_ne fd e)
store_fd-AreGiven W zero n (f ∷ fds) t t' h keeps g zero fd p lt e w =
    subst (λ x. Given p x t') (some_eq n fd e) (g p w)
store_fd-AreGiven W zero n (f ∷ fds) t t' h keeps g (suc j) fd p lt e w = absurd (omega (arith, lt))
store_fd-AreGiven W (suc i) n (f ∷ fds) t t' h keeps g zero fd p lt e w =
    keeps p fd (h zero fd p (omega arith) e w)
store_fd-AreGiven W (suc i) n (f ∷ fds) t t' h keeps g (suc j) fd p lt e w =
    store_fd-AreGiven (λ l. W (suc l)) i n fds t t'
      (λ j' fd' p' lt'. h (suc j') fd' p' (omega (arith, lt'))) keeps g j fd p (omega (arith, lt)) e
      w

-- A run that yields a descriptor for the pipe, and what was given before.
abbrev pub Yields : Pipe → Trace → ℕ → Trace → Type 0
Yields p t fd t' = Given p fd t' × Keeps t t'

abbrev pub YieldsEnds : Pipe → Trace → ℕ × ℕ → Trace → Type 0
YieldsEnds p t ends t' = Yields p t ends.0 t'

-- A socket that is bound to the address.
abbrev pub Bound : Bytes → Trace → ℕ → Trace → Type 0
Bound addr t fd t' =
    (n : ℕ) × (t' ≡ called (bind_to fd addr) (ok n) ∷ called socket_unix (ok fd) ∷ t)

pub Bound-Keeps : (addr : Bytes) (t : Trace) (fd : ℕ) (t' : Trace) → Bound addr t fd t' → Keeps t t'
Bound-Keeps addr t fd t' (n, e) p x g = subst (Given p x) (sym e) (before _ _ (before _ _ g))

-- The ends of a pipe.
abbrev pub Piped : Trace → ℕ × ℕ → Trace → Type 0
Piped t ends t' =
    (n : ℕ) × (t' ≡ called (set_nonblock ends.0) (ok n) ∷ called_pair pipe_ends (ok ends) ∷ t)

pub Piped-Keeps : (t : Trace) (ends : ℕ × ℕ) (t' : Trace) → Piped t ends t' → Keeps t t'
Piped-Keeps t ends t' (n, e) p x g = subst (Given p x) (sym e) (before _ _ (before _ _ g))

module _ (k : Kernel) (response_fd fuel : ℕ) where
  pub create_socket-Bound :
      (addr : Bytes) (t : Trace)
      → Returning (Bound addr t) (create_socket k response_fd fuel addr t)
  unfolding create_socket
  create_socket-Bound addr t =
      then-Returning (λ fd. called socket_unix (ok fd) ∷ t) _ _ _
        (call_checked-Returning k response_fd fuel _ socket_unix t)
        (λ fd.
          then-Returning (λ n. called (bind_to fd addr) (ok n) ∷ called socket_unix (ok fd) ∷ t) _ _
            _ (call_checked-Returning k response_fd fuel _ (bind_to fd addr) _) (λ n. (n, refl)))

  after_pipe-Returning :
      (r : Res (ℕ × ℕ)) (t : Trace)
      → Returning
          (λ ends t'. t' ≡ called_pair pipe_ends (ok ends) ∷ t)
          (after_pipe k response_fd fuel r (called_pair pipe_ends r ∷ t))
  unfolding after_pipe
  after_pipe-Returning (ok ends) t = refl
  after_pipe-Returning (err e) t = die-Returning k response_fd fuel _ _ _ _

  pub nonblocking_pipe-Piped :
      (t : Trace) → Returning (Piped t) (nonblocking_pipe k response_fd fuel t)
  unfolding nonblocking_pipe
  nonblocking_pipe-Piped t =
      then-Returning (λ ends. called_pair pipe_ends (ok ends) ∷ t) _ _ _
        (after_pipe-Returning (k.call_pair t pipe_ends) t)
        (λ ends.
          then-Returning
            (λ n. called (set_nonblock ends.0) (ok n) ∷ called_pair pipe_ends (ok ends) ∷ t) _ _ _
            (call_checked-Returning k response_fd fuel _ (set_nonblock ends.0) _) (λ n. (n, refl)))

  write_end-Keeps :
      (pipe : Pipe) (src : Bytes) (t : Trace)
      → Returning (λ _ t'. Keeps t t') (write_end k response_fd fuel pipe src t)
  unfolding write_end
  write_end-Keeps pipe src t =
      if-Returning _ (pipe.as_stdout || pipe.as_stderr) _ _ t
        (λ _.
          weaken-Returning (λ fd t'. t' ≡ opened src (ok fd) ∷ t) _ _
            (open_checked-Returning k response_fd fuel src t)
            (λ fd t' e p x g. subst (Given p x) (sym e) (before _ _ g)))
        (λ _ p x g. g)

  -- A file to read from, and one to write to if the task does.
  open_ends-Yields :
      (pipe : Pipe) (src : Bytes) (t : Trace)
      → ((fd : ℕ) → Given pipe fd (opened src (ok fd) ∷ t))
      → Returning (YieldsEnds pipe t) (
          (open_checked k response_fd fuel src >>= λ from.
          write_end k response_fd fuel pipe src >>= λ to. pure (from, to))
            t)
  open_ends-Yields pipe src t given =
      then-Returning (λ from. opened src (ok from) ∷ t) (YieldsEnds pipe t) _ _
        (open_checked-Returning k response_fd fuel src t)
        (λ from.
          Returning-bind (λ _ t'. Keeps (opened src (ok from) ∷ t) t') (YieldsEnds pipe t) _
            (λ to. pure (from, to)) (write_end-Keeps pipe src (opened src (ok from) ∷ t))
            (λ to u keeps. (keeps pipe from (given from), (λ p x g. keeps p x (before _ _ g)))))

  pub connect-Keeps :
      (fd : ℕ) (addr : Bytes) (t : Trace)
      → Returning (λ _ t'. Keeps t t') (connect_checked k response_fd fuel fd addr t)
  unfolding connect_checked
  connect-Keeps fd addr t =
      then-Returning (λ n. called (connect_to fd addr) (ok n) ∷ t) _ _ _
        (call_checked-Returning k response_fd fuel _ (connect_to fd addr) t)
        (λ n p x g. before _ _ g)

  pub create_regular-Yields :
      (src : Option Bytes) (dest : Bytes) (as_stdout as_stderr : Bool) (limit : ℕ) (t : Trace)
      → let pipe : Pipe = a_pipe regular dest src as_stdout as_stderr limit in
        Returning (YieldsEnds pipe t) (create_regular k response_fd fuel pipe t)
  unfolding create_regular
  create_regular-Yields none dest as_stdout as_stderr limit t =
      let pipe : Pipe = a_pipe regular dest none as_stdout as_stderr limit in
      weaken-Returning (Piped t) (YieldsEnds pipe t) _ (nonblocking_pipe-Piped t) (λ ends t' (n, e).
        (
          subst (Given pipe ends.0) (sym e) (before _ _ (by_pipe ends.1 t refl refl)),
          Piped-Keeps t ends t' (n, e),
        ))
  create_regular-Yields (some src) dest as_stdout as_stderr limit t =
      let pipe : Pipe = a_pipe regular dest (some src) as_stdout as_stderr limit in
      then-Returning (λ n. called (make_fifo src) (ok n) ∷ t) (YieldsEnds pipe t) _ _
        (call_checked-Returning k response_fd fuel _ (make_fifo src) t)
        (λ n.
          weaken-Returning (YieldsEnds pipe (called (make_fifo src) (ok n) ∷ t)) (YieldsEnds pipe t)
            _
            (open_ends-Yields pipe src (called (make_fifo src) (ok n) ∷ t)
              (λ fd. by_fifo src n t refl refl))
            (λ ends u (g, keeps). (g, (λ p x g'. keeps p x (before _ _ g')))))

  pub create_copyfile-Yields :
      (src dest : Bytes) (as_stdout as_stderr : Bool) (limit : ℕ) (t : Trace)
      → let pipe : Pipe = a_pipe copyfile dest (some src) as_stdout as_stderr limit in
        Returning (YieldsEnds pipe t) (create_copyfile k response_fd fuel pipe t)
  unfolding create_copyfile
  create_copyfile-Yields src dest as_stdout as_stderr limit t =
      open_ends-Yields (a_pipe copyfile dest (some src) as_stdout as_stderr limit) src t
        (λ fd. by_open src t refl refl)
