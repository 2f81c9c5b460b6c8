-- ===== src/Pipes.antt =====
-- src/pipes.c, and the types for pipes of src/sandals.h: the channels that a request asks for.
pub mod Asked
pub mod Init
pub mod Slots
pub mod Steady
use sandals.Prelude.{
  ℕ, zero, suc, ◌+◌, ◌-◌, Bool, true, false, not, ◌&&◌, List, [], ◌∷◌, ◌++◌, Bytes, codes, str_eq,
  Option, none, some, length, if◌then◌else◌,
}
use sandals.Os.{Kernel, M, pure, ◌>>=◌, ◌>>◌}
use sandals.Json.{
  Tokens, array_items, object_members, key_of_member, jserror, jsget_object, jsget_str,
  jsget_udouble, jsget_bool, jsunknown, for_each,
}
use sandals.Request.{Request, clamp_long, long_max}

-- `enum pipe_type`.
pub data PipeType : Type 0 where
  regular copyfile stdstreams : PipeType

-- `struct sandals_pipe`. `src` is NULL for a pipe with no name in the file system.
pub record Pipe : Type 0 where
  pub type : PipeType
  pub dest : Bytes
  pub src : Option Bytes
  pub as_stdout : Bool
  pub as_stderr : Bool
  pub limit : ℕ

-- `pipe.src` is not NULL.
abbrev pub has_src : Pipe → Bool
has_src p = elim p.src [ none ↦ false | some _ ↦ true ]

-- A pipe whose members are being read: `dest` may still be NULL.
pub record Draft : Type 0 where
  pub dest : Option Bytes
  pub src : Option Bytes
  pub as_stdout : Bool
  pub as_stderr : Bool
  pub limit : ℕ

abbrev pub new_draft : Draft
new_draft = record {
  dest = none;
  src = none;
  as_stdout = false;
  as_stderr = false;
  limit = long_max;
}

abbrev pub finish_draft : PipeType → Draft → Bytes → Pipe
finish_draft type d dest = record {
  type = type;
  dest = dest;
  src = d.src;
  as_stdout = d.as_stdout;
  as_stderr = d.as_stderr;
  limit = d.limit;
}

-- `request->stdstreams_dest` as a pipe.
abbrev pub stdstreams_pipes : Request → List Pipe
stdstreams_pipes request = elim request.stdstreams_dest [
  | none ↦ []
  | some dest ↦
      record {
        type = stdstreams;
        dest = dest;
        src = none;
        as_stdout = false;
        as_stderr = false;
        limit = request.stdstreams_limit;
      }
      ∷ []
]

module _ (toks : Tokens) where
  -- The items of an array that may be NULL.
  abbrev pub items_of : Option ℕ → List ℕ
  items_of a = elim a [ none ↦ [] | some array ↦ array_items toks array ]

  unfoldable pub pipe_count : Request → ℕ
  pipe_count request =
      length (stdstreams_pipes request)
      + length (items_of request.pipes)
      + length (items_of request.copy_files)

  module _ (k : Kernel) (response_fd fuel : ℕ) where
    -- The body of the loop in `pipe_init`.
    unfoldable pub pipe_member : ℕ → Draft → ℕ → M Draft
    pipe_member root d value =
        let key = key_of_member toks value in
        if str_eq key (codes "dest")
        then (jsget_str toks k response_fd fuel (some root) value >>= λ s.
            pure (record d { dest = some s }))
        else if str_eq key (codes "src")
        then (jsget_str toks k response_fd fuel (some root) value >>= λ s.
            pure (record d { src = some s }))
        else if str_eq key (codes "stdout")
        then (jsget_bool toks k response_fd fuel (some root) value >>= λ b.
            pure (record d { as_stdout = b }))
        else if str_eq key (codes "stderr")
        then (jsget_bool toks k response_fd fuel (some root) value >>= λ b.
            pure (record d { as_stderr = b }))
        else if str_eq key (codes "limit")
        then (jsget_udouble toks k response_fd fuel (some root) value >>= λ v.
            pure (record d { limit = clamp_long v }))
        else (jsunknown toks k response_fd fuel (some root) value >> pure d)

    abbrev pipe_error : {A : Type 0} → A → ℕ → ℕ → Bytes → M A
    pipe_error a root pipedef text =
        jserror toks k response_fd fuel (some root) pipedef text >> pure a

    -- The end of `pipe_init`.
    check_dest : PipeType → ℕ → ℕ → Draft → M Pipe
    check_dest type root pipedef d = elim d.dest [
      | none ↦ pipe_error (finish_draft type d []) root pipedef (codes "'dest' missing")
      | some dest ↦ pure (finish_draft type d dest)
    ]

    unfoldable pub pipe_init : PipeType → ℕ → ℕ → M Pipe
    unfolding pipe_member check_dest
    pipe_init type root pipedef = do
      o ← jsget_object toks k response_fd fuel (some root) pipedef
      d ← for_each (pipe_member root) new_draft (object_members toks o)
      check_dest type root pipedef d

    -- What `pipe_foreach` asks of a pipe of the array `pipes`.
    pub check_pipe : ℕ → ℕ → Pipe → M Pipe
    check_pipe root pipedef p =
        if not p.as_stdout && not p.as_stderr && not (has_src p)
        then pipe_error p root pipedef (codes "'stdout' or 'stderr' or 'src' is required")
        else pure p

    pub check_copyfile : ℕ → ℕ → Pipe → M Pipe
    check_copyfile root pipedef p =
        if not (has_src p) then pipe_error p root pipedef (codes "'src' missing") else pure p

    -- The two loops of `pipe_foreach`. `fn` gets the index and what it has left at the last pipe.
    module _ {A : Type 0} (fn : ℕ → Pipe → A → M A) where
      unfoldable pub call_pipes : ℕ → ℕ → A → List ℕ → M (ℕ × A)
      unfolding pipe_init check_pipe
      call_pipes root index a [] = pure (index, a)
      call_pipes root index a (pipedef ∷ pipedefs) = do
        p ← pipe_init regular root pipedef
        checked ← check_pipe root pipedef p
        a' ← fn index checked a
        call_pipes root (index + 1) a' pipedefs

      unfoldable pub call_copyfiles : ℕ → ℕ → A → List ℕ → M (ℕ × A)
      unfolding pipe_init check_copyfile
      call_copyfiles root index a [] = pure (index, a)
      call_copyfiles root index a (pipedef ∷ pipedefs) = do
        p ← pipe_init copyfile root pipedef
        checked ← check_copyfile root pipedef p
        a' ← fn index checked a
        call_copyfiles root (index + 1) a' pipedefs

      unfoldable pub call_stdstreams : A → List Pipe → M (ℕ × A)
      call_stdstreams a [] = pure (0, a)
      call_stdstreams a (p ∷ ps) = fn 0 p a >>= λ a'. pure (1, a')

      unfoldable pub pipe_foreach : Request → A → M (ℕ × A)
      unfolding call_stdstreams call_pipes call_copyfiles
      pipe_foreach request a = do
        s ← call_stdstreams a (stdstreams_pipes request)
        p ← call_pipes request.json_root s.0 s.1 (items_of request.pipes)
        call_copyfiles request.json_root p.0 p.1 (items_of request.copy_files)
