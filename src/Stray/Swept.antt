-- ===== src/Stray/Swept.antt =====
-- src/file.c: which files `close_stray_fds_except` closes.
use sandals.Prelude.{
  ℕ, zero, suc, ◌+◌, ◌<◌, ◌≡◌, refl, sym, ap, ◌∙◌, true, false, Bool-cases, inl, inr, [], ◌∷◌,
  Bytes, Option, none, some, arith, ◌==◌, if◌then◌else◌,
}
use sandals.Os.{Kernel, Trace, Event, M, Res, ok, err, listed, closed, called, open_listing}
use sandals.Os.Returning.{Returning, then-Returning, weaken-Returning}
use sandals.Fail.Never.{call_checked-Returning, die-Returning}
use sandals.Stray.{
  fd_dir, number_from, is_stray, after_entry, close_entries, close_stray_fds_except,
}

-- The file that an entry of the directory names.
abbrev pub file_of : Bytes → ℕ
file_of name = number_from 0 name

-- The traces after some entries: the file of an entry has been closed exactly if it is a stray one.
pub data Swept (except dir : ℕ) (t : Trace) : ℕ → Trace → Type 0 where
  begin : Swept except dir t 0 t
  kept :
      (n : ℕ) (u : Trace) (name : Bytes)
      → Swept except dir t n u
      → is_stray except dir (file_of name) ≡ false
      → Swept except dir t (suc n) (listed dir (ok (some name)) ∷ u)
  swept :
      (n : ℕ) (u : Trace) (name : Bytes)
      → Swept except dir t n u
      → is_stray except dir (file_of name) ≡ true
      → Swept except dir t (suc n) (closed (file_of name) ∷ listed dir (ok (some name)) ∷ u)

abbrev pub close_by : ℕ → Event → ℕ
close_by fd (closed f) = if f == fd then 1 else 0
close_by fd _ = 0

-- How often `fd` has been closed.
abbrev pub closes : ℕ → Trace → ℕ
closes fd [] = 0
closes fd (e ∷ t) = close_by fd e + closes fd t

Swept-closes :
    (except dir fd : ℕ) (t : Trace) {n : ℕ} {u : Trace}
    → Swept except dir t n u
    → is_stray except dir fd ≡ false
    → closes fd u ≡ closes fd t
Swept-closes except dir fd t begin h = refl
Swept-closes except dir fd t (kept n u name s no_stray) h =
    omega (arith, Swept-closes except dir fd t s h)
Swept-closes except dir fd t (swept n u name s stray) h = elim (Bool-cases (file_of name == fd)) [
  | inl same ↦
      let e : file_of name ≡ fd = ground (arith, same) in
      absurd (ground (arith, sym (ap (is_stray except dir) e) ∙ stray, h))
  | inr other ↦ rw other (omega (arith, Swept-closes except dir fd t s h))
]

abbrev pub SweptAll : ℕ → ℕ → Trace → ℕ → Trace → Type 0
SweptAll except total t dir t' =
    (n : ℕ) × (u : Trace) × (n < total)
    × Swept except dir t n u
    × (t' ≡ closed dir ∷ listed dir (ok none) ∷ u)

module _ (k : Kernel) (response_fd fuel : ℕ) (except dir total : ℕ) (t : Trace) where
  after_entry-SweptAll :
      (again : M (Unit {0})) (r : Res (Option Bytes)) (n : ℕ) (u : Trace)
      → n < total
      → Swept except dir t n u
      → ((u' : Trace)
          → Swept except dir t (suc n) u'
          → Returning (λ _. SweptAll except total t dir) (again u'))
      → Returning
          (λ _. SweptAll except total t dir)
          (after_entry k response_fd fuel again except dir r (listed dir r ∷ u))
  unfolding after_entry
  after_entry-SweptAll again (ok none) n u lt s h = (n, u, lt, s, refl)
  after_entry-SweptAll again (ok (some name)) n u lt s h =
      elim (Bool-cases (is_stray except dir (file_of name))) [
        | inl stray ↦ rw stray (h _ (swept n u name s stray))
        | inr no_stray ↦ rw no_stray (h _ (kept n u name s no_stray))
      ]
  after_entry-SweptAll again (err e) n u lt s h = die-Returning k response_fd fuel _ tt _ _

  close_entries-SweptAll :
      (rounds n : ℕ) (u : Trace)
      → n + rounds ≡ total
      → Swept except dir t n u
      → Returning
          (λ _. SweptAll except total t dir)
          (close_entries k response_fd fuel rounds except dir u)
  unfolding close_entries
  close_entries-SweptAll zero n u e s = tt
  close_entries-SweptAll (suc rounds) n u e s =
      after_entry-SweptAll (close_entries k response_fd fuel rounds except dir) (k.readdir u dir) n
        u (omega (arith, e)) s
        (λ u' s'. close_entries-SweptAll rounds (suc n) u' (omega (arith, e)) s')

-- Whenever `close_stray_fds_except` returns, it has gone through all entries of /proc/self/fd, in
-- fewer than `rounds` steps. For each entry it has closed the file exactly if that is none of the
-- standard ones, not `except`, and not the directory, which is closed last. A file that is not stray
-- has been closed no more often than before.
pub close_stray_fds_except-SweptAll :
    (k : Kernel) (response_fd fuel rounds except : ℕ) (t : Trace)
    → Returning
        (λ _ t'.
          (dir n : ℕ) × (u : Trace) × (n < rounds)
          × Swept except dir (called (open_listing fd_dir) (ok dir) ∷ t) n u
          × (t' ≡ closed dir ∷ listed dir (ok none) ∷ u)
          × ((fd : ℕ) → is_stray except dir fd ≡ false → closes fd u ≡ closes fd t))
        (close_stray_fds_except k response_fd fuel rounds except t)
unfolding close_stray_fds_except
close_stray_fds_except-SweptAll k response_fd fuel rounds except t =
    then-Returning (λ dir. called (open_listing fd_dir) (ok dir) ∷ t) _ _ _
      (call_checked-Returning k response_fd fuel _ (open_listing fd_dir) t)
      (λ dir.
        weaken-Returning
          (λ _. SweptAll except rounds (called (open_listing fd_dir) (ok dir) ∷ t) dir) _ _
          (close_entries-SweptAll k response_fd fuel except dir rounds _ rounds 0 _ (omega arith)
            begin)
          (λ _ t' (n, u, lt, s, e). (
            dir,
            n,
            u,
            lt,
            s,
            e,
            (λ fd h. omega (
              arith,
              Swept-closes except dir fd (called (open_listing fd_dir) (ok dir) ∷ t) s h,
            )),
          )))
