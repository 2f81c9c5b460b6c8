-- ===== src/Spawner/Slots.antt =====
-- src/spawner.c: the descriptors that `create_pipes` prepares for the supervisor.
use sandals.Prelude.{
  ℕ, zero, suc, ◌+◌, ◌≤◌, ◌≡◌, ◌≢◌, refl, sym, ap, ◌∙◌, subst, Bool, true, false, List, ◌∷◌, Bytes,
  Option, none, some, arith, length, get_elem?, ◌==◌, if◌then◌else◌,
}
use sandals.Os.{Kernel, Trace, ok, called, proxy, pure}
use sandals.Os.Laws.{IsDocumented}
use sandals.Os.Returning.{Returning, Returning-bind, then-Returning, if-Returning}
use sandals.Fail.Never.{call_checked-Returning}
use sandals.Json.{Tokens}
use sandals.Request.{Request, long_max}
use sandals.Pipes.{Pipe, PipeType, regular, copyfile, stdstreams, pipe_count}
use sandals.Pipes.Asked.{asked}
use sandals.Pipes.Slots.{IsReached, Called, pipe_foreach-Returning}
use sandals.Sink.{stdout_addr, stderr_addr}
use sandals.Spawner.Channels.{
  Outputs, store_fd, store_pipe, stdstreams_addr, create_sockets, create_proxies, create_pipe,
  unset_fds, create_pipes,
}
use sandals.Spawner.Given.{
  Given, by_socket, by_proxy, before, a_pipe, AreGiven, Keeps, Yields, YieldsEnds, Bound,
  Bound-Keeps, Piped, Piped-Keeps, length-store_fd, store_fd-AreGiven, create_socket-Bound,
  nonblocking_pipe-Piped, connect-Keeps, create_regular-Yields, create_copyfile-Yields,
}

-- All slots are there, and the first `i` are filled for their pipes, those of `qs`.
abbrev pub Filled : List Pipe → ℕ → ℕ → Outputs → Trace → Type 0
Filled qs npipe i o t = (length o.fds ≡ npipe) × AreGiven (λ j p. get_elem? qs j ≡ some p) i o.fds t

same_pipe : (q : Option Pipe) (p p' : Pipe) → q ≡ some p → q ≡ some p' → p ≡ p'
same_pipe q p p' e e' = cc

true_ne : false ≡ true → ⊥
true_ne e = cc

module _ (k : Kernel) (response_fd fuel : ℕ) (qs : List Pipe) (npipe : ℕ) where
  stored-Filled :
      (pipe : Pipe) (i fd stdout_fd stderr_fd : ℕ) (fds : List ℕ) (t t' : Trace)
      → get_elem? qs i ≡ some pipe
      → (length fds ≡ npipe) × AreGiven (λ j p. get_elem? qs j ≡ some p) i fds t
      → Yields pipe t fd t'
      → Filled qs npipe
          (i + 1)
          (record { fds = store_fd i fd fds; stdout_fd = stdout_fd; stderr_fd = stderr_fd })
          t'
  stored-Filled pipe i fd stdout_fd stderr_fd fds t t' at (size, given) (g, keeps) = (
    length-store_fd i fd fds ∙ size,
    store_fd-AreGiven (λ j p. get_elem? qs j ≡ some p) i fd fds t t' given keeps
        (λ p at'. subst (λ x. Given x fd t') (same_pipe (get_elem? qs i) pipe p at at') g),
  )

  create_sockets-Filled :
      (pipe : Pipe) (i : ℕ) (o : Outputs) (t : Trace)
      → pipe.type ≡ stdstreams
      → get_elem? qs i ≡ some pipe
      → Filled qs npipe i o t
      → Returning (Filled qs npipe (i + 1)) (create_sockets k response_fd fuel i o t)
  unfolding create_sockets
  create_sockets-Filled pipe i o t type at f =
      Returning-bind (Bound stdstreams_addr t) (Filled qs npipe (i + 1)) _ _
        (create_socket-Bound k response_fd fuel stdstreams_addr t)
        (λ fd t1 b1.
          Returning-bind (Bound stdout_addr t1) (Filled qs npipe (i + 1)) _ _
            (create_socket-Bound k response_fd fuel stdout_addr t1)
            (λ out t2 b2.
              Returning-bind (λ _ t'. Keeps t2 t') (Filled qs npipe (i + 1)) _ _
                (connect-Keeps k response_fd fuel out stdstreams_addr t2)
                (λ _ t3 keeps3.
                  Returning-bind (Bound stderr_addr t3) (Filled qs npipe (i + 1)) _ _
                    (create_socket-Bound k response_fd fuel stderr_addr t3)
                    (λ error t4 b4.
                      Returning-bind (λ _ t'. Keeps t4 t') (Filled qs npipe (i + 1)) _ _
                        (connect-Keeps k response_fd fuel error stdstreams_addr t4)
                        (λ _ t5 keeps5.
                          let from1 : Keeps t1 t5 = λ p x g. keeps5 p x (
                            Bound-Keeps stderr_addr t3 error t4 b4 p x
                              (keeps3 p x (Bound-Keeps stdout_addr t1 out t2 b2 p x g))) in
                          stored-Filled pipe i fd out error o.fds t t5 at f (
                            from1 pipe fd
                                (subst (Given pipe fd) (sym (b1.1)) (by_socket (b1.0) t type)),
                            (λ p x g. from1 p x (Bound-Keeps stdstreams_addr t fd t1 b1 p x g)),
                          ))))))

  create_proxies-Filled :
      (pipe : Pipe) (devproxyfd i : ℕ) (o : Outputs) (t : Trace)
      → pipe.type ≡ stdstreams
      → get_elem? qs i ≡ some pipe
      → Filled qs npipe i o t
      → Returning (Filled qs npipe (i + 1)) (create_proxies k response_fd fuel devproxyfd i o t)
  unfolding create_proxies
  create_proxies-Filled pipe devproxyfd i o t type at f =
      Returning-bind (Piped t) (Filled qs npipe (i + 1)) _ _
        (nonblocking_pipe-Piped k response_fd fuel t)
        (λ (from, to) t1 piped.
          then-Returning (λ out. called (proxy devproxyfd 0x80000 0 to) (ok out) ∷ t1) _ _ _
            (call_checked-Returning k response_fd fuel _ (proxy devproxyfd 0x80000 0 to) t1)
            (λ out.
              then-Returning
                (λ error.
                  called (proxy devproxyfd 0x80000 0x80 to) (ok error)
                  ∷ called (proxy devproxyfd 0x80000 0 to) (ok out)
                  ∷ t1)
                _ _ _
                (call_checked-Returning k response_fd fuel _ (proxy devproxyfd 0x80000 0x80 to) _)
                (λ error. stored-Filled pipe i from out error o.fds t _ at f (
                  before _ _ (
                      before _ _ (
                        subst (Given pipe from) (sym (piped.1)) (before _ _ (by_proxy to t type)))),
                  (λ p x g. before _ _ (before _ _ (Piped-Keeps t (from, to) t1 piped p x g))),
                ))))

  create_pipe-Filled :
      (devproxyfd : Option ℕ) (i : ℕ) (type : PipeType) (dest : Bytes) (src : Option Bytes)
      (as_stdout as_stderr : Bool) (limit : ℕ) (o : Outputs) (t : Trace)
      → get_elem? qs i ≡ some (a_pipe type dest src as_stdout as_stderr limit)
      → ((type ≡ copyfile) → src ≢ none)
      → Filled qs npipe i o t
      → Returning (Filled qs npipe (i + 1)) (
          create_pipe k response_fd fuel devproxyfd i
            (a_pipe type dest src as_stdout as_stderr limit)
            o
            t)
  unfolding create_pipe store_pipe
  create_pipe-Filled none i stdstreams dest src as_stdout as_stderr limit o t at named f =
      create_sockets-Filled (a_pipe stdstreams dest src as_stdout as_stderr limit) i o t refl at f
  create_pipe-Filled (some fd) i stdstreams dest src as_stdout as_stderr limit o t at named f =
      create_proxies-Filled (a_pipe stdstreams dest src as_stdout as_stderr limit) fd i o t refl at
        f
  create_pipe-Filled devproxyfd i regular dest src as_stdout as_stderr limit o t at named f =
      let pipe : Pipe = a_pipe regular dest src as_stdout as_stderr limit in
      Returning-bind (YieldsEnds pipe t) (Filled qs npipe (i + 1)) _ _
        (create_regular-Yields k response_fd fuel src dest as_stdout as_stderr limit t)
        (λ ends u y.
          stored-Filled pipe i ends.0 (if as_stdout then ends.1 else o.stdout_fd)
            (if as_stderr then ends.1 else o.stderr_fd) o.fds t u at f y)
  create_pipe-Filled devproxyfd i copyfile dest none as_stdout as_stderr limit o t at named f =
      absurd (named refl refl)
  create_pipe-Filled devproxyfd i copyfile dest (some src) as_stdout as_stderr limit o t at named
        f =
      let pipe : Pipe = a_pipe copyfile dest (some src) as_stdout as_stderr limit in
      Returning-bind (YieldsEnds pipe t) (Filled qs npipe (i + 1)) _ _
        (create_copyfile-Yields k response_fd fuel src dest as_stdout as_stderr limit t)
        (λ ends u y.
          stored-Filled pipe i ends.0 (if as_stdout then ends.1 else o.stdout_fd)
            (if as_stderr then ends.1 else o.stderr_fd) o.fds t u at f y)

length-unset_fds : (n : ℕ) → length (unset_fds n) ≡ n
unfolding unset_fds
length-unset_fds zero = refl
length-unset_fds (suc n) = ap suc (length-unset_fds n)

-- A pipe to be copied has a source.
reached-named :
    (toks : Tokens) (request : Request) (p : Pipe)
    → IsReached toks request p.type p
    → (p.type ≡ copyfile)
    → p.src ≢ none
reached-named toks request p reached e unnamed = true_ne (
    ap (λ src. elim src as (λ _. Bool) [ none ↦ false | some _ ↦ true ]) (sym unnamed)
    ∙ subst (λ x. IsReached toks request x p) e reached)

module _ (toks : Tokens) (k : Kernel) (response_fd fuel : ℕ) (laws : IsDocumented k)
    (request : Request) where
  -- Whenever `create_pipes` returns, there is one descriptor for each pipe of the request, and each
  -- is one to receive from that the kernel has given for the pipe that the tokens describe in its
  -- place: the file that is to be copied; the fifo at `src`, which has just been made; the end to
  -- read from of a pipe, if there is no `src` or the pipe is for the standard streams; or for these
  -- the socket that is bound to their address. The limit for the standard streams is at most
  -- LONG_MAX.
  pub create_pipes-Filled :
      (devproxyfd : Option ℕ) (devnull_fd : ℕ) (t : Trace)
      → request.stdstreams_limit ≤ long_max
      → Returning
          (Filled (asked toks request) (pipe_count toks request) (pipe_count toks request))
          (create_pipes k response_fd fuel toks devproxyfd request devnull_fd t)
  unfolding create_pipes
  create_pipes-Filled devproxyfd devnull_fd t bounded =
      if-Returning (Filled qs npipe npipe) (npipe == 0) _ _ t
        (λ none_asked.
          (length-unset_fds npipe, (λ j fd p lt e at. absurd (ground (arith, none_asked, lt)))))
        (λ _.
          Returning-bind (Called (Filled qs npipe) npipe) (Filled qs npipe npipe) _
            (λ r. pure (r.1))
            (pipe_foreach-Returning toks k response_fd fuel laws request _ (Filled qs npipe)
              (λ i p o u slot f.
                create_pipe-Filled k response_fd fuel qs npipe devproxyfd i p.type p.dest p.src
                  p.as_stdout p.as_stderr p.limit o u slot.same
                  (reached-named toks request p slot.reached) f)
              (start devnull_fd) t bounded
              (length-unset_fds npipe, (λ j fd p lt e at. absurd (omega (arith, lt)))))
            (λ (n, o) u (e, f). subst (λ i. Filled qs npipe i o u) e f))
    where
      npipe : ℕ
      npipe = pipe_count toks request

      qs : List Pipe
      qs = asked toks request

      start : ℕ → Outputs
      start devnull_fd = record {
        fds = unset_fds (pipe_count toks request);
        stdout_fd = devnull_fd;
        stderr_fd = devnull_fd;
      }
