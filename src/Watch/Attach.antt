-- ===== src/Watch/Attach.antt =====
-- src/supervisor.c: what the channels are once they have their descriptors.
use sandals.Prelude.{
  ℕ, zero, suc, false, ◌<◌, ◌≡◌, ◌⊎◌, inl, inr, refl, sym, ap, List, [], ◌∷◌, ◌++◌, Option, none,
  some, arith, length, get_elem?,
}
use sandals.Supervisor.{Channel}
use sandals.Watch.State.{attach}

pub some_channel : (a b : Channel) → ◌≡◌ {A = Option Channel} (some a) (some b) → a ≡ b
some_channel a b e = cc

pub no_channel : (a : Channel) → ◌≡◌ {A = Option Channel} none (some a) → ⊥
no_channel a e = cc

no_fd : (fd : ℕ) → ◌≡◌ {A = Option ℕ} none (some fd) → ⊥
no_fd fd e = cc

-- An element of a list with one more is one of the list, or the last one.
pub get_elem?-append_one :
    (cs : List Channel) (c d : Channel) (j : ℕ)
    → get_elem? (cs ++ c ∷ []) j ≡ some d
    → (get_elem? cs j ≡ some d) ⊎ ((j ≡ length cs) × (c ≡ d))
get_elem?-append_one [] c d zero e = inr (refl, some_channel c d e)
get_elem?-append_one [] c d (suc j) e = absurd (no_channel d e)
get_elem?-append_one (b ∷ cs) c d zero e = inl e
get_elem?-append_one (b ∷ cs) c d (suc j) e = elim (get_elem?-append_one cs c d j e) [
  | inl old ↦ inl old
  | inr (at, same) ↦ inr (ap suc at, same)
]

pub length-attach : (fds : List ℕ) (cs : List Channel) → length (attach fds cs) ≡ length cs
unfolding attach
length-attach [] [] = refl
length-attach [] (c ∷ cs) = refl
length-attach (fd ∷ fds) [] = refl
length-attach (fd ∷ fds) (c ∷ cs) = ap suc (length-attach fds cs)

-- What an element of the attached channels comes from.
pub record IsAttached (fds : List ℕ) (cs : List Channel) (j : ℕ) (d : Channel) : Type 0 where
  pub channel : Channel
  pub at : get_elem? cs j ≡ some channel
  pub same_sink : d.sink ≡ channel.sink
  pub fd : ℕ
  pub reads : d.fd ≡ some fd
  pub fd_at : get_elem? fds j ≡ some fd

pub get_elem?-below :
    (fds : List ℕ) (j fd n : ℕ) → length fds ≡ n → get_elem? fds j ≡ some fd → j < n
get_elem?-below [] j fd n e at = absurd (no_fd fd at)
get_elem?-below (f ∷ fds) zero fd n e at = omega (arith, e)
get_elem?-below (f ∷ fds) (suc j) fd n e at =
    omega (arith, e, get_elem?-below fds j fd (length fds) refl at)

pub attach-IsAttached :
    (fds : List ℕ) (cs : List Channel) (j : ℕ) (d : Channel)
    → length fds ≡ length cs
    → get_elem? (attach fds cs) j ≡ some d
    → IsAttached fds cs j d
unfolding attach
attach-IsAttached [] [] j d e at = absurd (no_channel d at)
attach-IsAttached [] (c ∷ cs) j d e at = absurd (omega (arith, e))
attach-IsAttached (f ∷ fds) [] j d e at = absurd (omega (arith, e))
attach-IsAttached (f ∷ fds) (c ∷ cs) zero d e at =
    let same = some_channel (record c { fd = some f; revents = false }) d at in
    record {
      channel = c;
      at = refl;
      same_sink = ap (λ x. x.sink) (sym same);
      fd = f;
      reads = ap (λ x. x.fd) (sym same);
      fd_at = refl;
    }
attach-IsAttached (f ∷ fds) (c ∷ cs) (suc j) d e at =
    let a = attach-IsAttached fds cs j d (omega (arith, e)) at in
    record {
      channel = a.channel;
      at = a.at;
      same_sink = a.same_sink;
      fd = a.fd;
      reads = a.reads;
      fd_at = a.fd_at;
    }
