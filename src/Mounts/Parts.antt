-- ===== src/Mounts/Parts.antt =====
-- src/mounts.c: what the second loop of `create_node` leaves in the buffer.
use sandals.Prelude.{
  ℕ, zero, suc, ◌+◌, ◌≡◌, refl, ◌∙◌, Bool, true, false, [], ◌∷◌, Bytes, length, drop, ◌==◌, Option,
  none, some,
}
use sandals.Os.{
  Kernel, Trace, Event, M, Outcome, ok, called, closed, mount, make_dir_at, open_dir_at, create_at,
  ◌>>=◌, pure,
}
use sandals.Os.Returning.{Returning, then-Returning, if-Returning}
use sandals.Fail.Never.{call_checked-Returning}
use sandals.Paths.{char_at}
use sandals.Mounts.Nodes.{c_str, set_at, close_dir, middle_part, last_part, create_parts}
use sandals.Mounts.Cuts.{IsCut, whole-IsOpen, set_at-IsOpen, component-IsCut, skip-IsCut}

-- The calls of `mount`.
abbrev pub mounting : Event → Trace → Trace
mounting (called (mount src dest type binds ro options) r) t =
    called (mount src dest type binds ro options) r ∷ t
mounting _ t = t

abbrev pub mounts_of : Trace → Trace
mounts_of [] = []
mounts_of (e ∷ t) = mounting e (mounts_of t)

-- The buffer is as it was, and nothing has been mounted.
abbrev pub Restored : Bytes → Trace → Bytes → Trace → Type 0
Restored dest0 ms dest t = (dest ≡ dest0) × (mounts_of t ≡ ms)

module _ (k : Kernel) (response_fd fuel : ℕ) where
  close_dir-Returning :
      {B : Type 0} (Q : B → Trace → Type 0) (dirfd : Option ℕ) (next : M B) (t : Trace)
      → ((t' : Trace) → mounts_of t' ≡ mounts_of t → Returning Q (next t'))
      → Returning Q ((close_dir k response_fd fuel dirfd >>= λ _. next) t)
  close_dir-Returning Q none next t h = h t refl
  close_dir-Returning Q (some fd) next t h = h (closed fd ∷ t) refl

  module _ (dest0 : Bytes) (ms : Trace) where
    abbrev pub Restores : Outcome Bytes × Trace → Type 0
    Restores r = Returning (Restored dest0 ms) r

    pub last_part-Restores :
        (dir : Bool) (dirfd : Option ℕ) (p : ℕ) (dest : Bytes) (t : Trace)
        → dest ≡ dest0
        → mounts_of t ≡ ms
        → Restores (last_part k response_fd fuel dir dirfd p dest t)
    unfolding last_part
    last_part-Restores true dirfd p dest t e h =
        then-Returning (λ n. called (make_dir_at dirfd (c_str (drop p dest))) (ok n) ∷ t) _ _ _
          (call_checked-Returning k response_fd fuel _ (make_dir_at dirfd (c_str (drop p dest))) t)
          (λ n. close_dir-Returning _ dirfd (pure dest) _ (λ t' h'. (e, h' ∙ h)))
    last_part-Restores false dirfd p dest t e h =
        then-Returning (λ n. called (create_at dirfd (c_str (drop p dest))) (ok n) ∷ t) _ _ _
          (call_checked-Returning k response_fd fuel _ (create_at dirfd (c_str (drop p dest))) t)
          (λ n. close_dir-Returning _ dirfd _ _ (λ t' h'. (e, h' ∙ h)))

    pub middle_part-Restores :
        (again : Option ℕ → ℕ → Bytes → M Bytes) (dirfd : Option ℕ) (p : ℕ) (dest : Bytes)
        (t : Trace)
        → mounts_of t ≡ ms
        → ((fd : Option ℕ) (t' : Trace)
            → mounts_of t' ≡ ms
            → Restores (again fd (p + length (c_str (drop p dest))) dest t'))
        → Restores (middle_part k response_fd fuel again dirfd p dest t)
    unfolding middle_part
    middle_part-Restores again dirfd p dest t h next =
        then-Returning (λ n. called (make_dir_at dirfd (c_str (drop p dest))) (ok n) ∷ t) _ _ _
          (call_checked-Returning k response_fd fuel _ (make_dir_at dirfd (c_str (drop p dest))) t)
          (λ n.
            then-Returning (λ fd. called (open_dir_at dirfd (c_str (drop p dest))) (ok fd) ∷ _) _ _
              _
              (call_checked-Returning k response_fd fuel _ (open_dir_at dirfd (c_str (drop p dest)))
                _)
              (λ fd. close_dir-Returning _ dirfd _ _ (λ t' h'. next (some fd) t' (h' ∙ h))))

    pub create_parts-Restores :
        (dir : Bool) (n : ℕ) (dirfd : Option ℕ) (p : ℕ) (dest : Bytes) (t : Trace)
        → IsCut dest0 n p dest
        → mounts_of t ≡ ms
        → Restores (create_parts k response_fd fuel dir n dirfd p dest t)
    unfolding create_parts
    create_parts-Restores dir zero dirfd p dest t c h =
        let e = whole-IsOpen dest0 _ (p + 1) (set_at-IsOpen dest0 dest zero p c) in
        if-Returning _ (char_at (set_at p b'/' dest) (p + 1) == 0) _ _ t
          (λ _. close_dir-Returning _ dirfd _ t (λ t' h'. (e, h' ∙ h)))
          (λ _. last_part-Restores dir dirfd (p + 1) _ t e h)
    create_parts-Restores dir (suc n) dirfd p dest t c h =
        let o = set_at-IsOpen dest0 dest (suc n) p c in
        if-Returning _ (char_at (set_at p b'/' dest) (p + 1) == 0) _ _ t
          (λ last.
            create_parts-Restores dir n dirfd (p + 1) _ t (skip-IsCut dest0 _ n (p + 1) last o) h)
          (λ _.
            middle_part-Restores (create_parts k response_fd fuel dir n) dirfd (p + 1) _ t h
              (λ fd t' h'.
                create_parts-Restores dir n fd _ _ t' (component-IsCut dest0 _ n (p + 1) o) h'))
