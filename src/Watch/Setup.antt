-- ===== src/Watch/Setup.antt =====
-- src/supervisor.c and src/spawner.c: the sinks of the supervisor, and the descriptors they are given.
use sandals.Prelude.{
  ℕ, ◌+◌, ◌≤◌, ◌≡◌, inl, inr, refl, sym, ◌∙◌, subst, List, [], ◌∷◌, Bytes, Option, some, arith,
  length, get_elem?, length-append,
}
use sandals.Os.{Kernel, Trace, Event, ok, opened}
use sandals.Os.Laws.{IsDocumented}
use sandals.Os.Returning.{Returning, Returning-bind, then-Returning, weaken-Returning}
use sandals.File.Returns.{open_checked-Returning}
use sandals.Json.{Tokens}
use sandals.Request.{Request, long_max}
use sandals.Pipes.{Pipe, stdstreams, pipe_count, pipe_foreach}
use sandals.Pipes.Asked.{asked}
use sandals.Pipes.Slots.{IsPlaced, IsSlot, Called, pipe_foreach-Returning}
use sandals.Sink.{Sink, regular_pipe, stdstreams_pipe_init}
use sandals.Supervisor.{Channel}
use sandals.Spawner.Channels.{Outputs, create_pipes}
use sandals.Spawner.Given.{Given}
use sandals.Spawner.Slots.{Filled, create_pipes-Filled}
use sandals.Watch.State.{attach}
use sandals.Watch.Start.{sink_init, store_sink}
use sandals.Watch.Attach.{
  no_channel, get_elem?-append_one, length-attach, get_elem?-below, attach-IsAttached,
}

-- The file was opened under the path.
pub data Opened (path : Bytes) (fd : ℕ) : Trace → Type 0 where
  last : (t : Trace) → Opened path fd (opened path (ok fd) ∷ t)
  earlier : (e : Event) (t : Trace) → Opened path fd t → Opened path fd (e ∷ t)

-- The sink of the pipe `p`, which is the one with the number `i`.
pub record IsReady (toks : Tokens) (request : Request) (p : Pipe) (i : ℕ) (s : Sink) (t : Trace)
    : Type 0 where
  pub asks : get_elem? (asked toks request) i ≡ some p
  pub same_type : s.pipe.type ≡ p.type
  pub same_dest : s.pipe.dest ≡ p.dest
  pub same_limit : s.limit ≡ p.limit
  pub opens : Opened s.pipe.dest s.fd t
  pub placed : IsPlaced toks request i s.pipe.type
  pub handles :
      s.handler ≡ elim s.pipe.type [ stdstreams ↦ stdstreams_pipe_init | _ ↦ regular_pipe ]
  pub limit_le : s.limit ≤ long_max

module _ (toks : Tokens) (k : Kernel) (response_fd fuel : ℕ) (request : Request) where
  -- A pipe that the sink is ready for.
  abbrev Ready : ℕ → Sink → Trace → Type 0
  Ready i s t = (p : Pipe) × IsReady toks request p i s t

  -- The sinks so far.
  abbrev AllReady : ℕ → List Channel → Trace → Type 0
  AllReady i cs t =
      (length cs ≡ i) × ((j : ℕ) (c : Channel) → get_elem? cs j ≡ some c → Ready j c.sink t)

  later_Ready : (j : ℕ) (s : Sink) (e : Event) (t : Trace) → Ready j s t → Ready j s (e ∷ t)
  later_Ready j s e t (p, r) = (
    p,
    record {
      asks = r.asks;
      same_type = r.same_type;
      same_dest = r.same_dest;
      same_limit = r.same_limit;
      opens = earlier e t r.opens;
      placed = r.placed;
      handles = r.handles;
      limit_le = r.limit_le;
    },
  )

  sink_init-Ready :
      (i : ℕ) (p : Pipe) (t : Trace)
      → IsSlot toks request i p
      → Returning
          (λ c t'. Ready i c.sink t' × ((e : Event) × (t' ≡ e ∷ t)))
          (sink_init k response_fd fuel p t)
  unfolding sink_init
  sink_init-Ready i p t slot =
      then-Returning (λ fd. opened p.dest (ok fd) ∷ t)
        (λ c t'. Ready i c.sink t' × ((e : Event) × (t' ≡ e ∷ t))) _ _
        (open_checked-Returning k response_fd fuel p.dest t)
        (λ fd. (
          (
            p,
            record {
              asks = slot.same;
              same_type = refl;
              same_dest = refl;
              same_limit = refl;
              opens = last t;
              placed = slot.placed;
              handles = refl;
              limit_le = slot.limit_le;
            },
          ),
          (opened p.dest (ok fd), refl),
        ))

  store_sink-AllReady :
      (i : ℕ) (p : Pipe) (cs : List Channel) (t : Trace)
      → IsSlot toks request i p
      → AllReady i cs t
      → Returning (AllReady (i + 1)) (store_sink k response_fd fuel i p cs t)
  unfolding store_sink
  store_sink-AllReady i p cs t slot (size, ready) =
      Returning-bind (λ c t'. Ready i c.sink t' × ((e : Event) × (t' ≡ e ∷ t))) (AllReady (i + 1)) _
        _ (sink_init-Ready i p t slot)
        (λ c t' (new, (event, grown)). (
          omega (arith, size, length-append cs (c ∷ [])),
          (λ j d e. elim (get_elem?-append_one cs c d j e) [
            | inl old ↦
                subst (Ready j d.sink) (sym grown) (later_Ready j d.sink event t (ready j d old))
            | inr (at, same) ↦
                subst (λ x. Ready j x.sink t') same
                  (subst (λ n. Ready n c.sink t') (sym (at ∙ size)) new)
          ]),
        ))

  -- Each channel reads from the descriptor of its index, which was given for the pipe of that index
  -- in the run `v` of the spawner, and its sink was made ready for that pipe in the run `u` of the
  -- supervisor.
  abbrev pub Attached : List ℕ → Trace → Trace → List Channel → Type 0
  Attached fds u v cs =
      (length cs ≡ pipe_count toks request)
      × ((j : ℕ) (c : Channel)
          → get_elem? cs j ≡ some c
          → (p : Pipe) × IsReady toks request p j c.sink u
            × ((fd : ℕ) × (c.fd ≡ some fd) × (get_elem? fds j ≡ some fd) × Given p fd v))

  attach-Attached :
      (o : Outputs) (cs : List Channel) (u v : Trace)
      → AllReady (pipe_count toks request) cs u
      → Filled (asked toks request) (pipe_count toks request) (pipe_count toks request) o v
      → Attached o.fds u v (attach o.fds cs)
  attach-Attached o cs u v (size, ready) (same, given) = (
    length-attach o.fds cs ∙ size,
    (λ j d e.
        let a = attach-IsAttached o.fds cs j d (same ∙ sym size) e in
        let (p, r) = subst (λ s. Ready j s u) (sym a.same_sink) (ready j a.channel a.at) in
        let below = get_elem?-below o.fds j a.fd (pipe_count toks request) same a.fd_at in
        (p, r, (a.fd, a.reads, a.fd_at, given j a.fd p below a.fd_at r.asks))),
  )

  -- Whenever the supervisor has made its sinks and the spawner its pipes for the same request, there
  -- are as many descriptors as channels. Once they are attached, each channel is for the pipe that
  -- the tokens describe in its place: it reads from the descriptor that the kernel has given to the
  -- spawner for this pipe, the file to be copied, the fifo at `src`, the end of a pipe, or the bound
  -- socket; and its sink writes to a file that was opened under the `dest` of this pipe, with the
  -- handler for its type and its limit, which is at most LONG_MAX. The limit for the standard streams
  -- is at most LONG_MAX.
  pub store_sink-Attached :
      IsDocumented k
      → (devproxyfd : Option ℕ) (devnull_fd : ℕ) (t t' : Trace)
      → request.stdstreams_limit ≤ long_max
      → Returning
          (λ sinks u.
            Returning
              (λ o v.
                (length o.fds ≡ length (sinks.1)) × Attached o.fds u v (attach o.fds (sinks.1)))
              (create_pipes k response_fd fuel toks devproxyfd request devnull_fd t'))
          (pipe_foreach toks k response_fd fuel (store_sink k response_fd fuel) request [] t)
  store_sink-Attached laws devproxyfd devnull_fd t t' bounded =
      weaken-Returning (Called AllReady (pipe_count toks request)) _ _
        (pipe_foreach-Returning toks k response_fd fuel laws request (store_sink k response_fd fuel)
          AllReady store_sink-AllReady [] t bounded (refl, (λ j c e. absurd (no_channel c e))))
        (λ (n, cs) u (e, made).
          let ready = subst (λ i. AllReady i cs u) e made in
          weaken-Returning
            (Filled (asked toks request) (pipe_count toks request) (pipe_count toks request)) _ _
            (create_pipes-Filled toks k response_fd fuel laws request devproxyfd devnull_fd t'
              bounded)
            (λ o v filled. (filled.0 ∙ sym (ready.0), attach-Attached o cs u v ready filled)))
