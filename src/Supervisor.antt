-- ===== src/Supervisor.antt =====
-- src/supervisor.c: the state of the supervisor, and the pass over the pipes.
pub mod Settle
pub mod Drain
pub mod Plans
pub mod Pass
pub mod Steady
use sandals.Prelude.{
  ℕ, zero, suc, ◌+◌, ◌-◌, Bool, true, false, not, ◌&&◌, ◌||◌, List, [], ◌∷◌, ◌++◌, Bytes, Option,
  none, some, length, leb, ◌==◌, if◌then◌else◌,
}
use sandals.Os.{Kernel, M, pure, starve, close, ◌>>=◌, ◌>>◌}
use sandals.Sink.{Sink, Handled, handle}

-- One index of the arrays `sink` and `pollfd`, which go in step. `fd` is `none` for -1.
pub record Channel : Type 0 where
  pub sink : Sink
  pub fd : Option ℕ
  pub revents : Bool

-- What one round leaves: the channel, whether its limit is exceeded, and whether the same index is
-- looked at again.
pub record Round : Type 0 where
  pub channel : Channel
  pub exceeded : Bool
  pub again : Bool

-- The body of the loop in `do_pipes`, after the handler of a channel with the file `fd`.
unfoldable pub settle : Bool → Channel → ℕ → Handled → M Round
settle exiting c fd (none, sink) =
    pure (record { channel = record c { sink = sink }; exceeded = false; again = false })
settle exiting c fd (some rc, sink) =
    if not (rc == 0) && leb rc sink.limit
    then pure (record {
      channel = record c { sink = record sink { limit = sink.limit - rc } };
      exceeded = false;
      again = exiting;
    })
    else (close fd
        >> pure (record {
          channel = record c { sink = sink; fd = none };
          exceeded = not (rc == 0);
          again = false;
        }))

-- `i += s->exiting` lets the loop come back to the same index.
abbrev next : (Channel → M (Channel × Bool)) → Round → M (Channel × Bool)
next again r = elim r.again [ true ↦ again r.channel | false ↦ pure (r.channel, r.exceeded) ]

module _ (k : Kernel) (response_fd fuel : ℕ) where
  -- The rounds on one index. There are at most `rounds`.
  unfoldable pub drain : ℕ → Bool → Channel → M (Channel × Bool)
  drain zero exiting c = starve
  drain (suc rounds) exiting c = elim c.fd [
    | none ↦ pure (c, false)
    | some fd ↦ if not c.revents && not exiting then pure (c, false) else (do
      handled ← handle k response_fd fuel c.sink.handler exiting c.sink fd
      r ← settle exiting c fd handled
      next (drain rounds exiting) r)
  ]

  -- The loop of `do_pipes` over the first `n` channels, from the last one to the first. The flag
  -- says that some limit is exceeded.
  unfoldable pub pass : ℕ → Bool → ℕ → List Channel → M (List Channel × Bool)
  pass rounds exiting zero cs = pure (cs, false)
  pass rounds exiting (suc n) [] = pure ([], false)
  pass rounds exiting (suc n) (c ∷ cs) = do
    later ← pass rounds exiting n cs
    done ← drain rounds exiting c
    pure (done.0 ∷ later.0, later.1 || done.1)
