-- ===== src/Pipes/Slots.antt =====
-- src/pipes.c: the callbacks of `pipe_foreach`, and `pipe_count`.
use sandals.Prelude.{
  ℕ, ◌+◌, ◌≤◌, ◌<◌, ◌≡◌, inl, inr, refl, sym, subst, true, false, List, [], ◌∷◌, Bytes, none, some,
  arith, length, Option-cases, ap, ◌∙◌, ◌++◌, drop, get_elem?,
}
use sandals.Os.{Kernel, Trace, M, Outcome, returns, exits, starves, bind_from, ◌>>=◌}
use sandals.Os.Laws.{IsDocumented}
use sandals.Os.Returning.{Returning, Returning-bind}
use sandals.Json.{Tokens}
use sandals.Json.Access.{Parses}
use sandals.Request.{Request, long_max}
use sandals.Pipes.{
  PipeType, regular, copyfile, stdstreams, Pipe, stdstreams_pipes, items_of, pipe_count, call_pipes,
  call_copyfiles, call_stdstreams, pipe_foreach, has_src,
}
use sandals.Pipes.Asked.{
  pipe_at, pipes_at, asked, drop-get_elem?, drop-asked_regular, drop-asked_copyfile,
}
use sandals.Pipes.Init.{
  IsNamed, Made, MadeRegular, MadeCopyfile, pipe_init-Parses, check_pipe-Parses,
  check_copyfile-Parses,
}

module _ (toks : Tokens) (request : Request) where
  abbrev first_regular : ℕ
  first_regular = length (stdstreams_pipes request)

  abbrev first_copyfile : ℕ
  first_copyfile = first_regular + length (items_of toks request.pipes)

  -- Where the pipes of each type stand: the one of the standard streams, then those of `pipes`, then
  -- those of `copyFiles`.
  abbrev pub IsPlaced : ℕ → PipeType → Type 0
  IsPlaced i stdstreams = (i ≡ 0) × (i < first_regular)
  IsPlaced i regular = (first_regular ≤ i) × (i < first_copyfile)
  IsPlaced i copyfile = (first_copyfile ≤ i) × (i < pipe_count toks request)

  abbrev pub IsReached : PipeType → Pipe → Type 0
  IsReached stdstreams p = Unit
  IsReached regular p = IsNamed p
  IsReached copyfile p = has_src p ≡ true

  -- What a callback is given.
  pub record IsSlot (i : ℕ) (p : Pipe) : Type 0 where
    pub below : i < pipe_count toks request
    pub same : get_elem? (asked toks request) i ≡ some p
    pub placed : IsPlaced i p.type
    pub reached : IsReached p.type p
    pub limit_le : p.limit ≤ long_max

abbrev the_stdstreams : Bytes → ℕ → Pipe
the_stdstreams dest limit = record {
  type = stdstreams;
  dest = dest;
  src = none;
  as_stdout = false;
  as_stderr = false;
  limit = limit;
}

length-stdstreams_pipes :
    (request : Request) (dest : Bytes)
    → request.stdstreams_dest ≡ some dest
    → length (stdstreams_pipes request) ≡ 1
length-stdstreams_pipes request dest e = rw e refl

-- The returned value is used at the same point of the run.
parsed-Returning :
    {A B : Type 0} (P : A → Type 0) (Q : B → Trace → Type 0) (fuel : ℕ) (t : Trace)
    (r : Outcome A × Trace) (f : A → M B)
    → Parses P fuel t r
    → ((a : A) → P a → Returning Q (f a t))
    → Returning Q (bind_from r.0 r.1 f)
parsed-Returning P Q fuel t (returns a, t') f (p, same) h = rw same (h a p)
parsed-Returning P Q fuel t (exits _, t') f p h = tt
parsed-Returning P Q fuel t (starves, t') f p h = tt

made-IsSlot :
    (toks : Tokens) (request : Request) (i : ℕ) (p : Pipe) (type : PipeType) (qs : List Pipe)
    (q : Pipe)
    → (p ≡ q) × (p.limit ≤ long_max)
    → q.type ≡ type
    → drop i (asked toks request) ≡ q ∷ qs
    → i < pipe_count toks request
    → IsPlaced toks request i type
    → IsReached toks request type p
    → IsSlot toks request i p
made-IsSlot toks request i p type qs q (e, bounded) same_type left lt placed named =
    let its : p.type ≡ type = ap (λ x. x.type) e ∙ same_type in
    record {
      below = lt;
      same = (drop-get_elem? (asked toks request) qs q i left).0 ∙ ap some (sym e);
      placed = subst (IsPlaced toks request i) (sym its) placed;
      reached = subst (λ x. IsReached toks request x p) (sym its) named;
      limit_le = bounded;
    }

-- What the callbacks have left, `n` of them.
abbrev pub Called : {A : Type 0} → (ℕ → A → Trace → Type 0) → ℕ → ℕ × A → Trace → Type 0
Called Q n (i, a) t = (i ≡ n) × Q i a t

module _ (toks : Tokens) (k : Kernel) (response_fd fuel : ℕ) (laws : IsDocumented k)
    (request : Request) {A : Type 0} (fn : ℕ → Pipe → A → M A) (Q : ℕ → A → Trace → Type 0)
    (keeps : (i : ℕ) (p : Pipe) (a : A) (t : Trace)
      → IsSlot toks request i p
      → Q i a t
      → Returning (Q (i + 1)) (fn i p a t)) where
  -- One more callback, for a pipe that is checked first.
  next-Returning :
      (n i : ℕ) (a : A) (t : Trace) (P : Pipe → Type 0) (r : Outcome Pipe × Trace)
      (next : A → M (ℕ × A))
      → Q i a t
      → ((p : Pipe) → P p → IsSlot toks request i p)
      → Parses P fuel t r
      → ((a' : A) (t' : Trace) → Q (i + 1) a' t' → Returning (Called Q n) (next a' t'))
      → Returning (Called Q n) (bind_from r.0 r.1 (λ p. fn i p a >>= next))
  next-Returning n i a t P (returns p, t') next q slot (made, same) h =
      rw same (
        Returning-bind (Q (i + 1)) (Called Q n) (fn i p a t) next (keeps i p a t (slot p made) q) h)
  next-Returning n i a t P (exits _, t') next q slot p h = tt
  next-Returning n i a t P (starves, t') next q slot p h = tt

  call_pipes-Returning :
      (i : ℕ) (a : A) (pipedefs : List ℕ) (t : Trace)
      → first_regular toks request ≤ i
      → i + length pipedefs ≡ first_copyfile toks request
      → drop i (asked toks request) ≡ (
          pipes_at toks regular pipedefs
          ++ pipes_at toks copyfile (items_of toks request.copy_files))
      → Q i a t
      → Returning
          (Called Q (first_copyfile toks request))
          (call_pipes toks k response_fd fuel fn request.json_root i a pipedefs t)
  unfolding call_pipes pipe_count
  call_pipes-Returning i a [] t from to left q = (omega arith, q)
  call_pipes-Returning i a (pipedef ∷ pipedefs) t from to left q =
      parsed-Returning (Made toks regular pipedef) _ fuel t _ _
        (pipe_init-Parses toks k response_fd fuel laws request.json_root t regular pipedef)
        (λ p made.
          next-Returning _ i a t (MadeRegular toks pipedef) _ _ q
            (λ p' (m, named).
              made-IsSlot toks request i p' regular _ (pipe_at toks regular pipedef) m refl left
                (omega arith) (from, omega arith) named)
            (check_pipe-Parses toks k response_fd fuel laws request.json_root t pipedef p made)
            (λ a' t' q'.
              call_pipes-Returning (i + 1) a' pipedefs t' (omega arith) (omega arith)
                ((drop-get_elem? (asked toks request) _ (pipe_at toks regular pipedef) i left).1)
                q'))

  call_copyfiles-Returning :
      (i : ℕ) (a : A) (pipedefs : List ℕ) (t : Trace)
      → first_copyfile toks request ≤ i
      → i + length pipedefs ≡ pipe_count toks request
      → drop i (asked toks request) ≡ pipes_at toks copyfile pipedefs
      → Q i a t
      → Returning
          (Called Q (pipe_count toks request))
          (call_copyfiles toks k response_fd fuel fn request.json_root i a pipedefs t)
  unfolding call_copyfiles pipe_count
  call_copyfiles-Returning i a [] t from to left q = (omega arith, q)
  call_copyfiles-Returning i a (pipedef ∷ pipedefs) t from to left q =
      parsed-Returning (Made toks copyfile pipedef) _ fuel t _ _
        (pipe_init-Parses toks k response_fd fuel laws request.json_root t copyfile pipedef)
        (λ p made.
          next-Returning _ i a t (MadeCopyfile toks pipedef) _ _ q
            (λ p' (m, named).
              made-IsSlot toks request i p' copyfile _ (pipe_at toks copyfile pipedef) m refl left
                (omega arith) (from, omega arith) named)
            (check_copyfile-Parses toks k response_fd fuel laws request.json_root t pipedef p made)
            (λ a' t' q'.
              call_copyfiles-Returning (i + 1) a' pipedefs t' (omega arith) (omega arith)
                ((drop-get_elem? (asked toks request) _ (pipe_at toks copyfile pipedef) i left).1)
                q'))

  first_asked :
      (dest : Bytes)
      → request.stdstreams_dest ≡ some dest
      → drop 0 (asked toks request)
        ≡ the_stdstreams dest request.stdstreams_limit
          ∷ (pipes_at toks regular (items_of toks request.pipes)
              ++ pipes_at toks copyfile (items_of toks request.copy_files))
  first_asked dest e = rw e refl

  call_stdstreams-Returning :
      (a : A) (t : Trace)
      → request.stdstreams_limit ≤ long_max
      → Q 0 a t
      → Returning
          (Called Q (first_regular toks request))
          (call_stdstreams toks k response_fd fuel fn a (stdstreams_pipes request) t)
  unfolding call_stdstreams pipe_count
  call_stdstreams-Returning a t bounded q = elim (Option-cases request.stdstreams_dest) [
    | inl e ↦ rw e (refl, q)
    | inr (dest, e) ↦
        let one = length-stdstreams_pipes request dest e in
        let slot =
          made-IsSlot toks request 0 (the_stdstreams dest request.stdstreams_limit) stdstreams _
            (the_stdstreams dest request.stdstreams_limit) (refl, bounded) refl (first_asked dest e)
            (omega (arith, one)) (refl, omega (arith, one)) tt in
        rw e (
          Returning-bind (Q 1) (Called Q 1) (fn 0 _ a t) _ (keeps 0 _ a t slot q)
            (λ a' t' q'. (refl, q')))
  ]

  -- If each call of `fn` keeps `Q`, which may speak of the number of calls, then whenever
  -- `pipe_foreach` returns, `Q` holds and `fn` has been called `pipe_count` times; and `fn` is only
  -- called with its turn, below `pipe_count`, and with the pipe that the tokens of the request describe
  -- for that turn, which stands in the place of its type, can be reached by the task and has a limit
  -- of at most LONG_MAX.
  pub pipe_foreach-Returning :
      (a : A) (t : Trace)
      → request.stdstreams_limit ≤ long_max
      → Q 0 a t
      → Returning
          (Called Q (pipe_count toks request))
          (pipe_foreach toks k response_fd fuel fn request a t)
  unfolding pipe_foreach pipe_count
  pipe_foreach-Returning a t bounded q =
      Returning-bind (Called Q (first_regular toks request)) _ _ _
        (call_stdstreams-Returning a t bounded q)
        (λ (i, a1) t1 (e1, q1).
          Returning-bind (Called Q (first_copyfile toks request)) _ _ _
            (call_pipes-Returning i a1 (items_of toks request.pipes) t1 (omega (arith, e1))
              (omega (arith, e1))
              (ap (λ n. drop n (asked toks request)) e1 ∙ drop-asked_regular toks request) q1)
            (λ (j, a2) t2 (e2, q2).
              call_copyfiles-Returning j a2 (items_of toks request.copy_files) t2
                (omega (arith, e2)) (omega (arith, e2))
                (ap (λ n. drop n (asked toks request)) e2 ∙ drop-asked_copyfile toks request) q2))
