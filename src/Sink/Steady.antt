-- ===== src/Sink/Steady.antt =====
-- src/supervisor.c: what the handlers of the sinks leave alone, however they end.
use sandals.Prelude.{
  ℕ, zero, suc, refl, Bool, true, false, [], ◌∷◌, Bytes, some, none, length, drop, take, ◌==◌,
  if◌then◌else◌, str_eq,
}
use sandals.Os.{
  Kernel, Trace, M, Res, ok, err, eintr, eagain, einval, enotsock, pure, wrote, did_read, spliced,
  received, got_recv_size, Packet,
}
use sandals.Os.Ending.{Ending, Ending-bind, if-Ending, IsSteady}
use sandals.Fail.{internal_error}
use sandals.Fail.Steady.{fail_only-Ending, die-Ending}
use sandals.Sink.{
  Sink, Handler, Handled, regular_pipe, regular_pipe_no_splice, stdstreams_pipe,
  stdstreams_pipe_init, stdout_addr, stderr_addr, framed, pipe_buf, after_push, push_loop,
  sink_push, pushed, after_read, regular_pipe_no_splice_handler, after_splice, regular_pipe_handler,
  after_recvfrom, stdstreams_loop, stdstreams_pipe_handler, after_recv_size,
  stdstreams_pipe_init_handler, handle,
}

module _ (k : Kernel) (response_fd fuel : ℕ) (P : Trace → Type 0) (steady : IsSteady P) where
  after_push-Ending :
      (again : Bytes → M (Unit {0})) (sink : Sink) (bs : Bytes) (r : Res ℕ) (t : Trace)
      → ((bs' : Bytes) → Ending P (again bs' t))
      → P t
      → Ending P (after_push k response_fd fuel again sink bs r t)
  unfolding after_push
  after_push-Ending again sink bs (ok n) t h p = h (drop n bs)
  after_push-Ending again sink bs (err eintr) t h p = h bs
  after_push-Ending again sink bs (err _) t h p =
      fail_only-Ending k response_fd fuel P steady internal_error _ t p

  push_loop-Ending :
      (rounds : ℕ) (sink : Sink) (bs : Bytes) (t : Trace)
      → P t
      → Ending P (push_loop k response_fd fuel rounds sink bs t)
  unfolding push_loop
  push_loop-Ending rounds sink [] t p = record { end = p }
  push_loop-Ending zero sink (b ∷ bs) t p = record { end = p }
  push_loop-Ending (suc rounds) sink (b ∷ bs) t p =
      let q = steady (wrote sink.fd (b ∷ bs) (k.write t sink.fd (b ∷ bs))) t refl p in
      after_push-Ending (push_loop k response_fd fuel rounds sink) sink (b ∷ bs)
        (k.write t sink.fd (b ∷ bs)) _ (λ bs'. push_loop-Ending rounds sink bs' _ q) q

  pushed-Ending :
      (sink : Sink) (buf : Bytes) (t : Trace)
      → P t
      → Ending P (pushed k response_fd fuel sink buf t)
  unfolding pushed sink_push
  pushed-Ending sink buf t p =
      Ending-bind P _ _
        (Ending-bind P _ _ (push_loop-Ending fuel sink (take sink.limit buf) t p)
          (λ _ t' p'. record { end = p' }))
        (λ n t' p'. record { end = p' })

  after_read-Ending :
      (sink : Sink) (r : Res Bytes) (t : Trace)
      → P t
      → Ending P (after_read k response_fd fuel sink r t)
  unfolding after_read
  after_read-Ending sink (ok buf) t p = pushed-Ending sink buf t p
  after_read-Ending sink (err eagain) t p = record { end = p }
  after_read-Ending sink (err _) t p = die-Ending k response_fd fuel P steady _ _ t p

  no_splice-Ending :
      (sink : Sink) (fd : ℕ) (t : Trace)
      → P t
      → Ending P (regular_pipe_no_splice_handler k response_fd fuel sink fd t)
  unfolding regular_pipe_no_splice_handler
  no_splice-Ending sink fd t p =
      after_read-Ending sink (k.read t fd pipe_buf) _
        (steady (did_read fd pipe_buf (k.read t fd pipe_buf)) t refl p)

  after_splice-Ending :
      (sink : Sink) (fd : ℕ) (r : Res Bytes) (t : Trace)
      → P t
      → Ending P (after_splice k response_fd fuel sink fd r t)
  unfolding after_splice
  after_splice-Ending sink fd (ok moved) t p = record { end = p }
  after_splice-Ending sink fd (err einval) t p = no_splice-Ending _ fd t p
  after_splice-Ending sink fd (err eagain) t p = record { end = p }
  after_splice-Ending sink fd (err _) t p = die-Ending k response_fd fuel P steady _ _ t p

  regular_pipe-Ending :
      (sink : Sink) (fd : ℕ) (t : Trace)
      → P t
      → Ending P (regular_pipe_handler k response_fd fuel sink fd t)
  unfolding regular_pipe_handler
  regular_pipe-Ending sink fd t p =
      if-Ending P (sink.limit == 0) _ _ t (no_splice-Ending sink fd t p) (
        after_splice-Ending sink fd (k.splice t fd sink.fd sink.limit) _
          (steady (spliced fd sink.fd sink.limit (k.splice t fd sink.fd sink.limit)) t refl p))

  after_recvfrom-Ending :
      (again : M Handled) (sink : Sink) (r : Res Packet) (t : Trace)
      → Ending P (again t)
      → P t
      → Ending P (after_recvfrom k response_fd fuel again sink r t)
  unfolding after_recvfrom
  after_recvfrom-Ending again sink (err eagain) t h p = record { end = p }
  after_recvfrom-Ending again sink (err _) t h p = die-Ending k response_fd fuel P steady _ _ t p
  after_recvfrom-Ending again sink (ok packet) t h p =
      if-Ending P (length packet.body == 0) (pure (some 0, sink)) _ t (record { end = p })
        (if-Ending P (str_eq packet.source stdout_addr) _ _ t
          (pushed-Ending sink (framed false packet.body) t p)
          (if-Ending P (str_eq packet.source stderr_addr) _ again t
            (pushed-Ending sink (framed true packet.body) t p) h))

  stdstreams_loop-Ending :
      (rounds : ℕ) (exiting : Bool) (sink : Sink) (fd : ℕ) (t : Trace)
      → P t
      → Ending P (stdstreams_loop k response_fd fuel rounds exiting sink fd t)
  unfolding stdstreams_loop
  stdstreams_loop-Ending zero exiting sink fd t p = record { end = p }
  stdstreams_loop-Ending (suc rounds) exiting sink fd t p =
      let r = k.recvfrom t fd sink.szrecvbuf in
      let q = steady (received fd sink.szrecvbuf r) t refl p in
      after_recvfrom-Ending
        (if exiting
          then stdstreams_loop k response_fd fuel rounds exiting sink fd
          else pure (none, sink))
        sink r _
        (if-Ending P exiting _ (pure (none, sink)) _
          (stdstreams_loop-Ending rounds exiting sink fd _ q) (record { end = q }))
        q

  stdstreams_pipe-Ending :
      (exiting : Bool) (sink : Sink) (fd : ℕ) (t : Trace)
      → P t
      → Ending P (stdstreams_pipe_handler k response_fd fuel exiting sink fd t)
  unfolding stdstreams_pipe_handler
  stdstreams_pipe-Ending = stdstreams_loop-Ending fuel

  after_recv_size-Ending :
      (exiting : Bool) (sink : Sink) (fd : ℕ) (r : Res ℕ) (t : Trace)
      → P t
      → Ending P (after_recv_size k response_fd fuel exiting sink fd r t)
  unfolding after_recv_size
  after_recv_size-Ending exiting sink fd (ok size) t p = stdstreams_pipe-Ending exiting _ fd t p
  after_recv_size-Ending exiting sink fd (err enotsock) t p = regular_pipe-Ending _ fd t p
  after_recv_size-Ending exiting sink fd (err _) t p =
      die-Ending k response_fd fuel P steady _ _ t p

  pub handle-Ending :
      (handler : Handler) (exiting : Bool) (sink : Sink) (fd : ℕ) (t : Trace)
      → P t
      → Ending P (handle k response_fd fuel handler exiting sink fd t)
  unfolding handle stdstreams_pipe_init_handler
  handle-Ending regular_pipe exiting sink fd t p = regular_pipe-Ending sink fd t p
  handle-Ending regular_pipe_no_splice exiting sink fd t p = no_splice-Ending sink fd t p
  handle-Ending stdstreams_pipe_init exiting sink fd t p =
      after_recv_size-Ending exiting sink fd (k.recv_size t fd) _
        (steady (got_recv_size fd (k.recv_size t fd)) t refl p)
  handle-Ending stdstreams_pipe exiting sink fd t p = stdstreams_pipe-Ending exiting sink fd t p
