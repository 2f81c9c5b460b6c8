-- ===== src/Pipes/Init.antt =====
-- src/pipes.c: what holds of a pipe that `pipe_init` and the tests behind it accept.
use sandals.Prelude.{
  ℕ, ◌≤◌, ◌≡◌, inl, inr, refl, sym, ap, ◌∙◌, subst, List, [], ◌∷◌, none, Bool, true, false, not,
  ◌&&◌, Bytes, codes, str_eq, some, arith, Option-cases, if◌then◌else◌, ◌||◌,
}
use sandals.Os.{Kernel, Trace, Outcome, pure, ◌>>=◌, bind_from}
use sandals.Os.Laws.{IsDocumented}
use sandals.Json.{Tokens, key_of_member, for_each, object_members, Double, is_negative}
use sandals.Json.Access.{
  Parses, Parses-bind, for_each-Parses, if-Parses, jserror-Parses, jsget_object-Parses,
  jsunknown-Parses, jsget_str-Parses, jsget_bool-Parses, jsget_udouble-Parses, both-Parses,
  choose-Parses,
}
use sandals.Json.Stores.{str-Parses, bool-Parses, double-Parses}
use sandals.Request.{clamp_long, long_max}
use sandals.Request.Limits.{clamp_long-le}
use sandals.Pipes.Asked.{described_by, described, draft_at, pipe_at}
use sandals.Pipes.{
  PipeType, regular, copyfile, Pipe, Draft, new_draft, pipe_member, check_dest, pipe_init,
  check_pipe, check_copyfile, has_src, pipe_error, finish_draft,
}

-- The task can reach the pipe: it is its output, or has a name.
abbrev pub IsNamed : Pipe → Type 0
IsNamed p = (p.as_stdout || p.as_stderr || has_src p) ≡ true

reached :
    (out err named : Bool)
    → (not out && not err && not named) ≡ false
    → (out || err || named) ≡ true
reached out err named h = ground arith

abbrev Bounded : Draft → Type 0
Bounded d = d.limit ≤ long_max

-- The pipe is the one that the token describes.
abbrev pub Made : Tokens → PipeType → ℕ → Pipe → Type 0
Made toks type pipedef p = (p ≡ pipe_at toks type pipedef) × (p.limit ≤ long_max)

abbrev pub MadeRegular : Tokens → ℕ → Pipe → Type 0
MadeRegular toks pipedef p = Made toks regular pipedef p × IsNamed p

abbrev pub MadeCopyfile : Tokens → ℕ → Pipe → Type 0
MadeCopyfile toks pipedef p = Made toks copyfile pipedef p × (has_src p ≡ true)

module _ (toks : Tokens) (k : Kernel) (response_fd fuel : ℕ) (laws : IsDocumented k) (root : ℕ)
    (t : Trace) where
  member-Parses :
      (d : Draft) (value : ℕ)
      → Bounded d
      → Parses Bounded fuel t (pipe_member toks k response_fd fuel root d value t)
  unfolding pipe_member
  member-Parses d value h =
      if-Parses Bounded fuel t (str_eq (key_of_member toks value) (codes "dest")) _ _
        (str-Parses toks k response_fd fuel laws root t Bounded value _ (λ s. h))
        (if-Parses Bounded fuel t (str_eq (key_of_member toks value) (codes "src")) _ _
          (str-Parses toks k response_fd fuel laws root t Bounded value _ (λ s. h))
          (if-Parses Bounded fuel t (str_eq (key_of_member toks value) (codes "stdout")) _ _
            (bool-Parses toks k response_fd fuel laws root t Bounded value _ (λ b. h))
            (if-Parses Bounded fuel t (str_eq (key_of_member toks value) (codes "stderr")) _ _
              (bool-Parses toks k response_fd fuel laws root t Bounded value _ (λ b. h))
              (if-Parses Bounded fuel t (str_eq (key_of_member toks value) (codes "limit")) _ _
                (double-Parses toks k response_fd fuel laws root t Bounded value
                  (λ v. record d { limit = clamp_long v }) (λ v e. clamp_long-le v))
                (jsunknown-Parses k response_fd fuel laws toks (some root) value t Bounded d)))))

  -- What is stored is what the member says.
  member-described :
      (d : Draft) (value : ℕ)
      → Parses
          (λ d'. d' ≡ described_by toks d value)
          fuel
          t
          (pipe_member toks k response_fd fuel root d value t)
  unfolding pipe_member
  member-described d value =
      choose-Parses fuel t (str_eq (key_of_member toks value) (codes "dest")) _ _ _ _
        (stored-Parses (λ s. record d { dest = some s }) _ _ _
          (jsget_str-Parses k response_fd fuel laws toks (some root) value t))
        (choose-Parses fuel t (str_eq (key_of_member toks value) (codes "src")) _ _ _ _
          (stored-Parses (λ s. record d { src = some s }) _ _ _
            (jsget_str-Parses k response_fd fuel laws toks (some root) value t))
          (choose-Parses fuel t (str_eq (key_of_member toks value) (codes "stdout")) _ _ _ _
            (stored-Parses (λ b. record d { as_stdout = b }) _ _ _
              (jsget_bool-Parses k response_fd fuel laws toks (some root) value t))
            (choose-Parses fuel t (str_eq (key_of_member toks value) (codes "stderr")) _ _ _ _
              (stored-Parses (λ b. record d { as_stderr = b }) _ _ _
                (jsget_bool-Parses k response_fd fuel laws toks (some root) value t))
              (choose-Parses fuel t (str_eq (key_of_member toks value) (codes "limit")) _ _ _ _
                (number-Parses (λ v. record d { limit = clamp_long v }) _ _ _
                  (jsget_udouble-Parses k response_fd fuel laws toks (some root) value t))
                (jsunknown-Parses k response_fd fuel laws toks (some root) value t _ d)))))
    where
      stored-Parses :
          {A : Type 0} (f : A → Draft) (a : A) (r : Outcome A × Trace) (u : Trace)
          → Parses (λ x. x ≡ a) fuel u r
          → Parses (λ d'. d' ≡ f a) fuel u (bind_from r.0 r.1 (λ x. pure (f x)))
      stored-Parses f a r u h =
          Parses-bind (λ x. x ≡ a) _ fuel u r (λ x. pure (f x)) h (λ x e. (ap f e, refl))

      number-Parses :
          (f : Double → Draft) (a : Double) (r : Outcome Double × Trace) (u : Trace)
          → Parses (λ x. (x ≡ a) × (is_negative x ≡ false)) fuel u r
          → Parses (λ d'. d' ≡ f a) fuel u (bind_from r.0 r.1 (λ x. pure (f x)))
      number-Parses f a r u h =
          Parses-bind (λ x. (x ≡ a) × (is_negative x ≡ false)) _ fuel u r (λ x. pure (f x)) h
            (λ x (e, _). (ap f e, refl))

  members-described :
      (d : Draft) (values : List ℕ)
      → Parses
          (λ d'. d' ≡ described toks d values)
          fuel
          t
          (for_each (pipe_member toks k response_fd fuel root) d values t)
  unfolding for_each
  members-described d [] = (refl, refl)
  members-described d (value ∷ values) =
      Parses-bind (λ d'. d' ≡ described_by toks d value) _ fuel t _ _ (member-described d value)
        (λ d' e.
          subst
            (λ x.
              Parses (λ d''. d'' ≡ described toks x values) fuel t
                (for_each (pipe_member toks k response_fd fuel root) d' values t))
            e (members-described d' values))

  dest-Parses :
      (type : PipeType) (pipedef : ℕ) (d : Draft)
      → d ≡ draft_at toks pipedef
      → Bounded d
      → Parses
          (Made toks type pipedef)
          fuel
          t
          (check_dest toks k response_fd fuel type root pipedef d t)
  unfolding check_dest
  dest-Parses type pipedef d same bounded = elim (Option-cases d.dest) [
    | inl e ↦ rw e (
        jserror-Parses k response_fd fuel laws toks (Made toks type pipedef) (some root) pipedef _ _
          t)
    | inr (dest, e) ↦ rw e ((finished dest e ∙ ap with_dest same, bounded), refl)
  ]
    where
      with_dest : Draft → Pipe
      with_dest x = finish_draft type x (elim x.dest [ none ↦ [] | some dest ↦ dest ])

      finished : (dest : Bytes) → d.dest ≡ some dest → finish_draft type d dest ≡ with_dest d
      finished dest e = rw e refl

  pub pipe_init-Parses :
      (type : PipeType) (pipedef : ℕ)
      → Parses
          (Made toks type pipedef)
          fuel
          t
          (pipe_init toks k response_fd fuel type root pipedef t)
  unfolding pipe_init
  pipe_init-Parses type pipedef =
      Parses-bind (λ o. o ≡ pipedef) (Made toks type pipedef) fuel t _ _
        (jsget_object-Parses k response_fd fuel laws toks (some root) pipedef t)
        (λ o e.
          subst
            (λ x. Parses (Made toks type pipedef) fuel t (
              (for_each (pipe_member toks k response_fd fuel root) new_draft (object_members toks x)
                  >>= check_dest toks k response_fd fuel type root pipedef)
                t))
            (sym e)
            (Parses-bind (λ d. (d ≡ draft_at toks pipedef) × Bounded d) (Made toks type pipedef)
              fuel t _ _
              (both-Parses _ Bounded fuel t _ (members-described new_draft _)
                (for_each-Parses Bounded fuel t _ member-Parses new_draft _ (omega arith)))
              (λ d (same, bounded). dest-Parses type pipedef d same bounded)))

  -- A pipe is passed on unless a test refuses it.
  guard-Parses :
      (P : Pipe → Type 0) (refused : Bool) (pipedef : ℕ) (p : Pipe) (text : Bytes)
      → (refused ≡ false → P p)
      → Parses P fuel t
          ((if refused then pipe_error toks k response_fd fuel p root pipedef text else pure p) t)
  guard-Parses P true pipedef p text h =
      jserror-Parses k response_fd fuel laws toks P (some root) pipedef text p t
  guard-Parses P false pipedef p text h = (h refl, refl)

  pub check_pipe-Parses :
      (pipedef : ℕ) (p : Pipe)
      → Made toks regular pipedef p
      → Parses
          (MadeRegular toks pipedef)
          fuel
          t
          (check_pipe toks k response_fd fuel root pipedef p t)
  unfolding check_pipe
  check_pipe-Parses pipedef p h =
      guard-Parses (MadeRegular toks pipedef)
        (not p.as_stdout && not p.as_stderr && not (has_src p)) pipedef p _
        (λ named. (h, reached p.as_stdout p.as_stderr (has_src p) named))

  pub check_copyfile-Parses :
      (pipedef : ℕ) (p : Pipe)
      → Made toks copyfile pipedef p
      → Parses
          (MadeCopyfile toks pipedef)
          fuel
          t
          (check_copyfile toks k response_fd fuel root pipedef p t)
  unfolding check_copyfile
  check_copyfile-Parses pipedef p h =
      guard-Parses (MadeCopyfile toks pipedef) (not (has_src p)) pipedef p _
        (λ named. (h, ground (arith, named)))
