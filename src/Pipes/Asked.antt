-- ===== src/Pipes/Asked.antt =====
-- src/pipes.c: the pipes that a request asks for, read off its tokens.
use sandals.Prelude.{
  ℕ, zero, suc, ◌+◌, ◌≡◌, ◌≢◌, refl, sym, ap, ◌∙◌, List, [], ◌∷◌, ◌++◌, codes, str_eq, Option, none,
  some, arith, length, drop, get_elem?, if◌then◌else◌,
}
use sandals.Json.{Tokens, is_true, key_of_member, object_members}
use sandals.Request.{Request, clamp_long}
use sandals.Pipes.{
  PipeType, regular, copyfile, Pipe, Draft, new_draft, finish_draft, stdstreams_pipes, items_of,
}

module _ (toks : Tokens) where
  -- What one member of the object says.
  abbrev pub described_by : Draft → ℕ → Draft
  described_by d value =
      if str_eq (key_of_member toks value) (codes "dest")
      then record d { dest = some (toks.value_of value) }
      else if str_eq (key_of_member toks value) (codes "src")
      then record d { src = some (toks.value_of value) }
      else if str_eq (key_of_member toks value) (codes "stdout")
      then record d { as_stdout = is_true (toks.type_of value) }
      else if str_eq (key_of_member toks value) (codes "stderr")
      then record d { as_stderr = is_true (toks.type_of value) }
      else if str_eq (key_of_member toks value) (codes "limit")
      then record d { limit = clamp_long (toks.number_of value) }
      else d

  abbrev pub described : Draft → List ℕ → Draft
  described d [] = d
  described d (value ∷ values) = described (described_by d value) values

  -- What the whole object says.
  abbrev pub draft_at : ℕ → Draft
  draft_at pipedef = described new_draft (object_members toks pipedef)

  abbrev pub pipe_at : PipeType → ℕ → Pipe
  pipe_at type pipedef =
      let d = draft_at pipedef in finish_draft type d (elim d.dest [ none ↦ [] | some dest ↦ dest ])

  abbrev pub pipes_at : PipeType → List ℕ → List Pipe
  pipes_at type [] = []
  pipes_at type (pipedef ∷ pipedefs) = pipe_at type pipedef ∷ pipes_at type pipedefs

  -- The pipe of the standard streams, those of `pipes`, and those of `copyFiles`.
  abbrev pub asked : Request → List Pipe
  asked request =
      stdstreams_pipes request
      ++ (pipes_at regular (items_of toks request.pipes)
          ++ pipes_at copyfile (items_of toks request.copy_files))

  pub length-pipes_at :
      (type : PipeType) (items : List ℕ) → length (pipes_at type items) ≡ length items
  length-pipes_at type [] = refl
  length-pipes_at type (item ∷ items) = ap suc (length-pipes_at type items)

abbrev get_first : List Pipe → Option Pipe
get_first ps = get_elem? ps 0

nil_ne : (p : Pipe) (ps : List Pipe) → ◌≢◌ {A = List Pipe} [] (p ∷ ps)
nil_ne p ps e = cc

-- The element that what is left of a list begins with.
pub drop-get_elem? :
    (ps qs : List Pipe) (p : Pipe) (i : ℕ)
    → drop i ps ≡ p ∷ qs
    → (get_elem? ps i ≡ some p) × (drop (i + 1) ps ≡ qs)
drop-get_elem? [] qs p zero e = absurd (nil_ne p qs e)
drop-get_elem? [] qs p (suc i) e = absurd (nil_ne p qs e)
drop-get_elem? (x ∷ ps) qs p zero e = (ap get_first e, ap (drop 1) e)
drop-get_elem? (x ∷ ps) qs p (suc i) e =
    let next : suc i + 1 ≡ suc (i + 1) = omega arith in rw next (drop-get_elem? ps qs p i e)

pub drop-past : (xs ys : List Pipe) (n : ℕ) → drop (length xs + n) (xs ++ ys) ≡ drop n ys
drop-past [] ys n = let e : 0 + n ≡ n = omega arith in rw e refl
drop-past (x ∷ xs) ys n =
    let e : suc (length xs) + n ≡ suc (length xs + n) = omega arith in rw e (drop-past xs ys n)

-- What is left behind the pipe of the standard streams, and behind those of `pipes`.
pub drop-asked_regular :
    (toks : Tokens) (request : Request)
    → drop (length (stdstreams_pipes request)) (asked toks request)
      ≡ pipes_at toks regular (items_of toks request.pipes)
        ++ pipes_at toks copyfile (items_of toks request.copy_files)
drop-asked_regular toks request =
    let n = length (stdstreams_pipes request) in
    let e : n + 0 ≡ n = omega arith in
    ap (λ i. drop i (asked toks request)) (sym e) ∙ drop-past (stdstreams_pipes request) _ 0

pub drop-asked_copyfile :
    (toks : Tokens) (request : Request)
    → drop
        (length (stdstreams_pipes request) + length (items_of toks request.pipes))
        (asked toks request)
      ≡ pipes_at toks copyfile (items_of toks request.copy_files)
drop-asked_copyfile toks request =
    let ps = items_of toks request.pipes in
    let e : length ps ≡ length (pipes_at toks regular ps) + 0 =
      omega (arith, length-pipes_at toks regular ps) in
    drop-past (stdstreams_pipes request) _ (length ps)
    ∙ ap
        (λ n.
          drop n
            (pipes_at toks regular ps ++ pipes_at toks copyfile (items_of toks request.copy_files)))
        e
    ∙ drop-past (pipes_at toks regular ps) _ 0
