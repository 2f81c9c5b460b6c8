-- ===== src/Sink.antt =====
-- src/supervisor.c: the sinks, which copy what the task has written to its pipes, and the handlers
-- that a sink goes through. src/stdstreams.c has the addresses of the two standard streams.
pub mod Push
pub mod Copy
pub mod Frames
pub mod Steady
use sandals.Prelude.{
  ℕ, zero, suc, ◌+◌, ◌/◌, ◌%◌, ◌^◌, Bool, true, false, ◌&&◌, ◌||◌, not, [], ◌∷◌, ◌++◌, Bytes, codes,
  str_eq, Option, none, some, length, take, drop, ltb, leb, ◌==◌, if◌then◌else◌,
}
use sandals.Os.{
  Kernel, M, pure, starve, close, ◌>>=◌, ◌>>◌, write, read, splice, recvfrom, recv_size, Res, ok,
  err, eintr, eagain, einval, enotsock, Packet,
}
use sandals.Fail.{internal_error, fail, die}
use sandals.Pipes.{Pipe}

-- The functions that `handler` points to.
pub data Handler : Type 0 where
  regular_pipe regular_pipe_no_splice stdstreams_pipe_init stdstreams_pipe : Handler

-- `struct sandals_sink`. The size of the receive buffer stands in the supervisor in the source;
-- only the one sink of the standard streams uses it.
pub record Sink : Type 0 where
  pub handler : Handler
  pub limit : ℕ
  pub fd : ℕ
  pub pipe : Pipe
  pub szrecvbuf : ℕ

-- `kStdoutAddr` and `kStderrAddr`.
abbrev pub stdout_addr : Bytes
stdout_addr = 0 ∷ codes "00002"

abbrev pub stderr_addr : Bytes
stderr_addr = 0 ∷ codes "00003"

abbrev pub pipe_buf : ℕ
pipe_buf = 4096

-- The bytes of `htonl(n)`.
unfoldable pub htonl : ℕ → Bytes
htonl n = n / 2 ^ 24 % 256 ∷ n / 2 ^ 16 % 256 ∷ n / 2 ^ 8 % 256 ∷ n % 256 ∷ []

-- A packet behind its size, with the highest bit for standard error. The size is below 2 ^ 31, so
-- that the bit is added.
unfoldable pub framed : Bool → Bytes → Bytes
unfolding htonl
framed to_stderr body = htonl (if to_stderr then 0x80000000 + length body else length body) ++ body

-- The name of the source in messages; `sink_init` has put it where it is not NULL.
abbrev src_name : Sink → Bytes
src_name sink = elim sink.pipe.src [ none ↦ [] | some src ↦ src ]

-- What a handler leaves: its result, `none` for -1, and the sink.
abbrev pub Handled : Type 0
Handled = Option ℕ × Sink

module _ (k : Kernel) (response_fd fuel : ℕ) where
  -- The body of the loop in `sink_push`, after `write` has answered.
  after_push : (Bytes → M (Unit {0})) → Sink → Bytes → Res ℕ → M (Unit {0})
  after_push again sink bs (ok n) = again (drop n bs)
  after_push again sink bs (err eintr) = again bs
  after_push again sink bs (err e) =
      fail k response_fd fuel internal_error
        (some (codes "Writing '" ++ sink.pipe.dest ++ codes "': " ++ k.strerror e))

  pub push_loop : ℕ → Sink → Bytes → M (Unit {0})
  unfolding after_push
  push_loop rounds sink [] = pure tt
  push_loop zero sink (b ∷ bs) = starve
  push_loop (suc rounds) sink (b ∷ bs) =
      write k sink.fd (b ∷ bs) >>= after_push (push_loop rounds sink) sink (b ∷ bs)

  -- At most `limit` bytes are written, and the size of the whole is returned.
  unfoldable pub sink_push : Sink → Bytes → M ℕ
  unfolding push_loop
  sink_push sink buf = push_loop fuel sink (take sink.limit buf) >> pure (length buf)

  pushed : Sink → Bytes → M Handled
  unfolding sink_push
  pushed sink buf = do n ← sink_push sink buf; pure (some n, sink)

  -- After `read`. EWOULDBLOCK is EAGAIN.
  after_read : Sink → Res Bytes → M Handled
  unfolding pushed
  after_read sink (ok buf) = pushed sink buf
  after_read sink (err eagain) = pure (none, sink)
  after_read sink (err e) =
      die k response_fd fuel (none, sink)
        (codes "Reading '" ++ src_name sink ++ codes "': " ++ k.strerror e)

  unfoldable pub regular_pipe_no_splice_handler : Sink → ℕ → M Handled
  unfolding after_read
  regular_pipe_no_splice_handler sink fd = read k fd pipe_buf >>= after_read sink

  -- After `splice`.
  after_splice : Sink → ℕ → Res Bytes → M Handled
  unfolding regular_pipe_no_splice_handler
  after_splice sink fd (ok moved) = pure (some (length moved), sink)
  after_splice sink fd (err einval) =
      regular_pipe_no_splice_handler (record sink { handler = regular_pipe_no_splice }) fd
  after_splice sink fd (err eagain) = pure (none, sink)
  after_splice sink fd (err e) =
      die k response_fd fuel (none, sink)
        (codes "Splicing '"
          ++ src_name sink
          ++ codes "' and '"
          ++ sink.pipe.dest
          ++ codes "': "
          ++ k.strerror e)

  unfoldable pub regular_pipe_handler : Sink → ℕ → M Handled
  unfolding after_splice regular_pipe_no_splice_handler
  regular_pipe_handler sink fd =
      if sink.limit == 0
      then regular_pipe_no_splice_handler sink fd
      else (splice k fd sink.fd sink.limit >>= after_splice sink fd)

  -- After `recvfrom`: the packet with its header, or what `again` does with one from elsewhere.
  after_recvfrom : M Handled → Sink → Res Packet → M Handled
  unfolding pushed
  after_recvfrom again sink (err eagain) = pure (none, sink)
  after_recvfrom again sink (err e) =
      die k response_fd fuel (none, sink) (codes "Receiving stdstreams packet: " ++ k.strerror e)
  after_recvfrom again sink (ok packet) =
      let rc = length packet.body in
      if rc == 0
      then pure (some 0, sink)
      else if str_eq packet.source stdout_addr
      then pushed sink (framed false packet.body)
      else if str_eq packet.source stderr_addr
      then pushed sink (framed true packet.body)
      else again

  -- `do … while (s->exiting)`; `rounds` bounds the packets that are rejected.
  stdstreams_loop : ℕ → Bool → Sink → ℕ → M Handled
  unfolding after_recvfrom
  stdstreams_loop zero exiting sink fd = starve
  stdstreams_loop (suc rounds) exiting sink fd =
      let again = stdstreams_loop rounds exiting sink fd in
      recvfrom k fd sink.szrecvbuf
      >>= after_recvfrom (if exiting then again else pure (none, sink)) sink

  unfoldable pub stdstreams_pipe_handler : Bool → Sink → ℕ → M Handled
  unfolding stdstreams_loop
  stdstreams_pipe_handler = stdstreams_loop fuel

  -- After `getsockopt(fd, SOL_SOCKET, SO_RCVBUF, …)`. The allocation that follows succeeds.
  after_recv_size : Bool → Sink → ℕ → Res ℕ → M Handled
  unfolding regular_pipe_handler stdstreams_pipe_handler
  after_recv_size exiting sink fd (ok size) =
      stdstreams_pipe_handler exiting (record sink { szrecvbuf = size; handler = stdstreams_pipe })
        fd
  after_recv_size exiting sink fd (err enotsock) =
      regular_pipe_handler (record sink { handler = regular_pipe }) fd
  after_recv_size exiting sink fd (err e) =
      die k response_fd fuel (none, sink) (codes "getsockopt: " ++ k.strerror e)

  unfoldable pub stdstreams_pipe_init_handler : Bool → Sink → ℕ → M Handled
  unfolding after_recv_size
  stdstreams_pipe_init_handler exiting sink fd = recv_size k fd >>= after_recv_size exiting sink fd

  -- `sink->handler(s, i, fd)`.
  unfoldable pub handle : Handler → Bool → Sink → ℕ → M Handled
  unfolding regular_pipe_handler regular_pipe_no_splice_handler stdstreams_pipe_init_handler
      stdstreams_pipe_handler
  handle regular_pipe exiting sink fd = regular_pipe_handler sink fd
  handle regular_pipe_no_splice exiting sink fd = regular_pipe_no_splice_handler sink fd
  handle stdstreams_pipe_init exiting sink fd = stdstreams_pipe_init_handler exiting sink fd
  handle stdstreams_pipe exiting sink fd = stdstreams_pipe_handler exiting sink fd
