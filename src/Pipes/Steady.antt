-- ===== src/Pipes/Steady.antt =====
-- src/pipes.c: what `pipe_foreach` leaves alone, however it ends, with a callback that does.
use sandals.Prelude.{
  ℕ, ◌+◌, Bool, not, ◌&&◌, List, [], ◌∷◌, Bytes, Option, some, none, codes, str_eq,
}
use sandals.Os.{Kernel, Trace, M, pure, ◌>>=◌}
use sandals.Os.Ending.{Ending, Ending-bind, if-Ending, IsSteady}
use sandals.Json.{Tokens, object_members, key_of_member, jsget_str, jsget_bool, jsget_udouble}
use sandals.Json.Steady.{
  for_each-Ending, jserror-Ending, jsget_str-Ending, jsget_object-Ending, jsget_bool-Ending,
  jsget_udouble-Ending, jsunknown-Ending,
}
use sandals.Request.{Request, clamp_long}
use sandals.Pipes.{
  PipeType, regular, copyfile, Pipe, Draft, stdstreams_pipes, items_of, has_src, pipe_member,
  check_dest, pipe_init, check_pipe, check_copyfile, call_pipes, call_copyfiles, call_stdstreams,
  pipe_foreach,
}

module _ (toks : Tokens) (k : Kernel) (response_fd fuel : ℕ) (P : Trace → Type 0)
    (steady : IsSteady P) where
  pipe_member-Ending :
      (root : ℕ) (d : Draft) (value : ℕ) (t : Trace)
      → P t
      → Ending P (pipe_member toks k response_fd fuel root d value t)
  unfolding pipe_member
  pipe_member-Ending root d value t p =
      if-Ending P (str_eq (key_of_member toks value) (codes "dest")) _ _ t (string _) (
        if-Ending P (str_eq (key_of_member toks value) (codes "src")) _ _ t (string _) (
          if-Ending P (str_eq (key_of_member toks value) (codes "stdout")) _ _ t (bool _) (
            if-Ending P (str_eq (key_of_member toks value) (codes "stderr")) _ _ t (bool _) (
              if-Ending P (str_eq (key_of_member toks value) (codes "limit")) _ _ t number
                (jsunknown-Ending toks k response_fd fuel P steady (some root) value d t p)))))
    where
      string :
          (put : Bytes → Draft)
          → Ending P ((jsget_str toks k response_fd fuel (some root) value >>= λ s. pure (put s)) t)
      string put =
          Ending-bind P _ _
            (jsget_str-Ending toks k response_fd fuel P steady (some root) value t p)
            (λ s t' p'. record { end = p' })

      bool :
          (put : Bool → Draft)
          → Ending P
              ((jsget_bool toks k response_fd fuel (some root) value >>= λ b. pure (put b)) t)
      bool put =
          Ending-bind P _ _
            (jsget_bool-Ending toks k response_fd fuel P steady (some root) value t p)
            (λ b t' p'. record { end = p' })

      number : Ending P (
          (jsget_udouble toks k response_fd fuel (some root) value >>= λ v.
          pure (record d { limit = clamp_long v }))
            t)
      number =
          Ending-bind P _ _
            (jsget_udouble-Ending toks k response_fd fuel P steady (some root) value t p)
            (λ v t' p'. record { end = p' })

  finish-Ending :
      (type : PipeType) (root pipedef : ℕ) (dest : Option Bytes) (src : Option Bytes)
      (as_stdout as_stderr : Bool) (limit : ℕ) (t : Trace)
      → P t
      → Ending P (
          check_dest toks k response_fd fuel type root pipedef
            (record {
              dest = dest;
              src = src;
              as_stdout = as_stdout;
              as_stderr = as_stderr;
              limit = limit;
            })
            t)
  unfolding check_dest
  finish-Ending type root pipedef none src as_stdout as_stderr limit t p =
      jserror-Ending toks k response_fd fuel P steady (some root) pipedef _ _ t p
  finish-Ending type root pipedef (some dest) src as_stdout as_stderr limit t p = record { end = p }

  pipe_init-Ending :
      (type : PipeType) (root pipedef : ℕ) (t : Trace)
      → P t
      → Ending P (pipe_init toks k response_fd fuel type root pipedef t)
  unfolding pipe_init
  pipe_init-Ending type root pipedef t p =
      Ending-bind P _ _
        (jsget_object-Ending toks k response_fd fuel P steady (some root) pipedef t p)
        (λ o u q.
          Ending-bind P _ _
            (for_each-Ending P (pipe_member toks k response_fd fuel root) (object_members toks o) _
              u (λ d v t' p'. pipe_member-Ending root d v t' p') q)
            (λ d v q'.
              finish-Ending type root pipedef d.dest d.src d.as_stdout d.as_stderr d.limit v q'))

  check_pipe-Ending :
      (root pipedef : ℕ) (p : Pipe) (t : Trace)
      → P t
      → Ending P (check_pipe toks k response_fd fuel root pipedef p t)
  unfolding check_pipe
  check_pipe-Ending root pipedef p t q =
      if-Ending P (not p.as_stdout && not p.as_stderr && not (has_src p)) _ (pure p) t
        (jserror-Ending toks k response_fd fuel P steady (some root) pipedef _ p t q)
        (record { end = q })

  check_copyfile-Ending :
      (root pipedef : ℕ) (p : Pipe) (t : Trace)
      → P t
      → Ending P (check_copyfile toks k response_fd fuel root pipedef p t)
  unfolding check_copyfile
  check_copyfile-Ending root pipedef p t q =
      if-Ending P (not (has_src p)) _ (pure p) t
        (jserror-Ending toks k response_fd fuel P steady (some root) pipedef _ p t q)
        (record { end = q })

  module _ {A : Type 0} (fn : ℕ → Pipe → A → M A)
      (keeps : (i : ℕ) (p : Pipe) (a : A) (t : Trace) → P t → Ending P (fn i p a t)) where
    call_pipes-Ending :
        (root index : ℕ) (a : A) (pipedefs : List ℕ) (t : Trace)
        → P t
        → Ending P (call_pipes toks k response_fd fuel fn root index a pipedefs t)
    unfolding call_pipes
    call_pipes-Ending root index a [] t p = record { end = p }
    call_pipes-Ending root index a (pipedef ∷ pipedefs) t p =
        Ending-bind P _ _ (pipe_init-Ending regular root pipedef t p) (λ d u q.
          Ending-bind P _ _ (check_pipe-Ending root pipedef d u q) (λ d' v q'.
            Ending-bind P _ _ (keeps index d' a v q')
              (λ a' w q''. call_pipes-Ending root (index + 1) a' pipedefs w q'')))

    call_copyfiles-Ending :
        (root index : ℕ) (a : A) (pipedefs : List ℕ) (t : Trace)
        → P t
        → Ending P (call_copyfiles toks k response_fd fuel fn root index a pipedefs t)
    unfolding call_copyfiles
    call_copyfiles-Ending root index a [] t p = record { end = p }
    call_copyfiles-Ending root index a (pipedef ∷ pipedefs) t p =
        Ending-bind P _ _ (pipe_init-Ending copyfile root pipedef t p) (λ d u q.
          Ending-bind P _ _ (check_copyfile-Ending root pipedef d u q) (λ d' v q'.
            Ending-bind P _ _ (keeps index d' a v q')
              (λ a' w q''. call_copyfiles-Ending root (index + 1) a' pipedefs w q'')))

    call_stdstreams-Ending :
        (a : A) (ps : List Pipe) (t : Trace)
        → P t
        → Ending P (call_stdstreams toks k response_fd fuel fn a ps t)
    unfolding call_stdstreams
    call_stdstreams-Ending a [] t p = record { end = p }
    call_stdstreams-Ending a (d ∷ ps) t p =
        Ending-bind P _ _ (keeps 0 d a t p) (λ a' t' p'. record { end = p' })

    pub pipe_foreach-Ending :
        (request : Request) (a : A) (t : Trace)
        → P t
        → Ending P (pipe_foreach toks k response_fd fuel fn request a t)
    unfolding pipe_foreach
    pipe_foreach-Ending request a t p =
        Ending-bind P _ _ (call_stdstreams-Ending a (stdstreams_pipes request) t p) (λ s u q.
          Ending-bind P _ _
            (call_pipes-Ending request.json_root s.0 s.1 (items_of toks request.pipes) u q)
            (λ s' v q'.
              call_copyfiles-Ending request.json_root s'.0 s'.1 (items_of toks request.copy_files) v
                q'))
