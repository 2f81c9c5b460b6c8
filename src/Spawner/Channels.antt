-- ===== src/Spawner/Channels.antt =====
-- src/spawner.c: the sockets, pipes and files that the output of the task goes through.
use sandals.Prelude.{
  ℕ, zero, suc, ◌||◌, List, [], ◌∷◌, ◌++◌, Bytes, codes, Option, none, some, ◌==◌, if◌then◌else◌,
}
use sandals.Os.{
  Kernel, M, pure, ◌>>=◌, call_pair, Res, ok, err, socket_unix, bind_to, connect_to, proxy,
  set_nonblock, make_fifo, pipe_ends,
}
use sandals.Fail.{die, call_checked}
use sandals.File.{open_checked}
use sandals.Json.{Tokens}
use sandals.Request.{Request}
use sandals.Pipes.{Pipe, regular, copyfile, stdstreams, pipe_count, pipe_foreach}
use sandals.Sink.{stdout_addr, stderr_addr}

-- `kStdStreamsAddr`.
abbrev pub stdstreams_addr : Bytes
stdstreams_addr = 0 ∷ codes "00001"

-- The descriptors that the callbacks of `create_pipes` have stored: those for the supervisor, and
-- `childstdout_fd` and `childstderr_fd`.
pub record Outputs : Type 0 where
  pub fds : List ℕ
  pub stdout_fd : ℕ
  pub stderr_fd : ℕ

-- `fd[index] = n`.
unfoldable pub store_fd : ℕ → ℕ → List ℕ → List ℕ
store_fd index n [] = []
store_fd zero n (fd ∷ fds) = n ∷ fds
store_fd (suc index) n (fd ∷ fds) = fd ∷ store_fd index n fds

-- The end of `create_pipe`. `write_end` is not looked at for a pipe that is neither.
unfoldable pub store_pipe : ℕ → Pipe → ℕ → ℕ → Outputs → Outputs
unfolding store_fd
store_pipe index pipe read_end write_end o = record {
  fds = store_fd index read_end o.fds;
  stdout_fd = if pipe.as_stdout then write_end else o.stdout_fd;
  stderr_fd = if pipe.as_stderr then write_end else o.stderr_fd;
}

-- `n` descriptors, which are not set yet.
unfoldable pub unset_fds : ℕ → List ℕ
unset_fds zero = []
unset_fds (suc n) = 0 ∷ unset_fds n

module _ (k : Kernel) (response_fd fuel : ℕ) where
  unfoldable pub create_socket : Bytes → M ℕ
  create_socket addr = do
    fd ← call_checked k response_fd fuel (codes "socket") socket_unix
    _ ← call_checked k response_fd fuel (codes "bind") (bind_to fd addr)
    pure fd

  unfoldable pub connect_checked : ℕ → Bytes → M (Unit {0})
  connect_checked fd addr =
      call_checked k response_fd fuel (codes "connect") (connect_to fd addr) >>= λ _. pure tt

  unfoldable pub after_pipe : Res (ℕ × ℕ) → M (ℕ × ℕ)
  after_pipe (ok ends) = pure ends
  after_pipe (err e) = die k response_fd fuel (0, 0) (codes "pipe2: " ++ k.strerror e)

  -- `pipe2`, and `fcntl` of the end that the supervisor reads.
  unfoldable pub nonblocking_pipe : M (ℕ × ℕ)
  unfolding after_pipe
  nonblocking_pipe = do
    r ← call_pair k pipe_ends
    ends ← after_pipe r
    _ ← call_checked k response_fd fuel (codes "fcntl(F_SETFL, O_NONBLOCK)") (set_nonblock ends.0)
    pure ends

  -- A datagram socket for the supervisor, and one for each stream of the task, which is connected
  -- to it.
  unfoldable pub create_sockets : ℕ → Outputs → M Outputs
  unfolding create_socket connect_checked
  create_sockets index o = do
    fd ← create_socket stdstreams_addr
    out ← create_socket stdout_addr
    _ ← connect_checked out stdstreams_addr
    error ← create_socket stderr_addr
    _ ← connect_checked error stdstreams_addr
    pure (record { fds = store_fd index fd o.fds; stdout_fd = out; stderr_fd = error })

  -- O_CLOEXEC, and `htonl(UINT32_C(0x80000000))` on a little-endian machine.
  abbrev pub o_cloexec : ℕ
  o_cloexec = 0x80000

  abbrev pub stderr_cookie : ℕ
  stderr_cookie = 0x80

  -- The descriptors that /dev/proxyfd makes for the pipe.
  unfoldable pub create_proxies : ℕ → ℕ → Outputs → M Outputs
  unfolding nonblocking_pipe
  create_proxies devproxyfd_fd index o = do
    ends ← nonblocking_pipe
    out ←
        call_checked k response_fd fuel (codes "/dev/proxyfd failure")
          (proxy devproxyfd_fd o_cloexec 0 ends.1)
    error ←
        call_checked k response_fd fuel (codes "/dev/proxyfd failure")
          (proxy devproxyfd_fd o_cloexec stderr_cookie ends.1)
    pure (record { fds = store_fd index ends.0 o.fds; stdout_fd = out; stderr_fd = error })

  -- The end that the task writes to, where it is asked for.
  unfoldable pub write_end : Pipe → Bytes → M ℕ
  write_end pipe src =
      if pipe.as_stdout || pipe.as_stderr then open_checked k response_fd fuel src else pure 0

  unfoldable pub create_regular : Pipe → M (ℕ × ℕ)
  unfolding write_end nonblocking_pipe
  create_regular pipe = elim pipe.src [
    | none ↦ nonblocking_pipe
    | some src ↦ do
      _ ←
          call_checked k response_fd fuel (codes "Creating fifo '" ++ src ++ codes "'")
            (make_fifo src)
      from ← open_checked k response_fd fuel src
      to ← write_end pipe src
      pure (from, to)
  ]

  -- `pipe_foreach` has made sure that `src` is not NULL.
  unfoldable pub create_copyfile : Pipe → M (ℕ × ℕ)
  unfolding write_end
  create_copyfile pipe =
      let src : Bytes = elim pipe.src [ none ↦ [] | some src ↦ src ] in
      do from ← open_checked k response_fd fuel src; to ← write_end pipe src; pure (from, to)

  -- `devproxyfd` is `none` if /dev/proxyfd could not be opened.
  unfoldable pub create_pipe : Option ℕ → ℕ → Pipe → Outputs → M Outputs
  unfolding create_sockets create_proxies create_regular create_copyfile store_pipe
  create_pipe devproxyfd index pipe o = elim pipe.type [
    | stdstreams ↦ elim devproxyfd [
      | none ↦ create_sockets index o
      | some fd ↦ create_proxies fd index o
    ]
    | regular ↦ create_regular pipe >>= λ ends. pure (store_pipe index pipe ends.0 ends.1 o)
    | copyfile ↦ create_copyfile pipe >>= λ ends. pure (store_pipe index pipe ends.0 ends.1 o)
  ]

  -- The allocation succeeds. Without pipes nothing is allocated, and nothing is sent later.
  unfoldable pub create_pipes : Tokens → Option ℕ → Request → ℕ → M Outputs
  unfolding create_pipe unset_fds
  create_pipes toks devproxyfd request devnull_fd =
      let npipe = pipe_count toks request in
      let o : Outputs = record {
        fds = unset_fds npipe;
        stdout_fd = devnull_fd;
        stderr_fd = devnull_fd;
      } in
      if npipe == 0
      then pure o
      else (pipe_foreach toks k response_fd fuel (create_pipe devproxyfd) request o >>= λ r.
          pure (r.1))
