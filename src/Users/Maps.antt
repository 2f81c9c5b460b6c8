-- ===== src/Users/Maps.antt =====
-- src/usrgrp.c: the calls of `map_user_and_group`.
use sandals.Prelude.{ℕ, ◌≡◌, refl, ap, ◌∙◌, ◌∷◌, Bytes, codes, length}
use sandals.Os.{
  Kernel, Trace, Outcome, returns, exits, starves, ok, opened, wrote, closed, ◌>>◌, close,
}
use sandals.Os.Returning.{Returning, Returning-bind, then-Returning}
use sandals.File.Returns.{open_checked-Returning, write_checked-Returning}
use sandals.Request.{Request}
use sandals.File.{write_checked}
use sandals.Users.{setgroups_path, uidmap_path, gidmap_path, id_map, write_file, map_user_and_group}

-- The calls that write a whole file, in front of those before.
abbrev pub wrote_file : ℕ → Bytes → Bytes → Trace → Trace
wrote_file fd path text t = closed fd ∷ wrote fd text (ok (length text)) ∷ opened path (ok fd) ∷ t

abbrev Wrote : Bytes → Bytes → Trace → Unit {0} → Trace → Type 0
Wrote path text t _ t' = (fd : ℕ) × (t' ≡ wrote_file fd path text t)

abbrev Both : ℕ → Request → Trace → Unit {0} → Trace → Type 0
Both uid request t _ t' =
    (f : ℕ) × (g : ℕ) × (t'
      ≡ wrote_file g uidmap_path (id_map request.uid uid)
          (wrote_file f setgroups_path (codes "deny") t))

abbrev pub Mapped : ℕ → ℕ → Request → Trace → Unit {0} → Trace → Type 0
Mapped uid gid request t _ t' =
    (f g h : ℕ) × (t'
      ≡ wrote_file h gidmap_path (id_map request.gid gid) (
          wrote_file g uidmap_path (id_map request.uid uid)
            (wrote_file f setgroups_path (codes "deny") t)))

-- What follows from a file that has been written.
widen :
    (path text : Bytes) (t : Trace) (P : Unit {0} → Trace → Type 0) (r : Outcome (Unit {0}) × Trace)
    → ((fd : ℕ) (t' : Trace) → t' ≡ wrote_file fd path text t → P tt t')
    → Returning (Wrote path text t) r
    → Returning P r
widen path text t P (returns tt, t') h (fd, e) = h fd t' e
widen path text t P (exits _, t') h w = tt
widen path text t P (starves, t') h w = tt

module _ (k : Kernel) (response_fd fuel : ℕ) where
  write_file-Returning :
      (path text : Bytes) (t : Trace)
      → Returning (Wrote path text t) (write_file k response_fd fuel path text t)
  unfolding write_file
  write_file-Returning path text t =
      then-Returning (λ fd. opened path (ok fd) ∷ t) (Wrote path text t) _
        (λ fd. write_checked k response_fd fuel fd text path >> close fd)
        (open_checked-Returning k response_fd fuel path t)
        (λ fd.
          then-Returning (λ _. wrote fd text (ok (length text)) ∷ opened path (ok fd) ∷ t)
            (Wrote path text t) _ (λ _. close fd)
            (write_checked-Returning k response_fd fuel fd text path _) (λ _. (fd, refl)))

  -- Whenever `map_user_and_group` returns, it has made just these calls: it has denied `setgroups`,
  -- then written the whole map of the user, and then the whole map of the group, each to its file,
  -- which it has closed.
  pub map_user_and_group-Returning :
      (uid gid : ℕ) (request : Request) (t : Trace)
      → Returning
          (Mapped uid gid request t)
          (map_user_and_group k response_fd fuel uid gid request t)
  unfolding map_user_and_group
  map_user_and_group-Returning uid gid request t =
      Returning-bind (Both uid request t) _ _
        (λ _. write_file k response_fd fuel gidmap_path (id_map request.gid gid))
        (Returning-bind (Wrote setgroups_path (codes "deny") t) (Both uid request t) _
          (λ _. write_file k response_fd fuel uidmap_path (id_map request.uid uid))
          (write_file-Returning setgroups_path (codes "deny") t)
          (λ _ u (f, e).
            widen uidmap_path (id_map request.uid uid) u (Both uid request t) _
              (λ g u' e'. (f, g, e' ∙ ap (wrote_file g uidmap_path (id_map request.uid uid)) e))
              (write_file-Returning uidmap_path (id_map request.uid uid) u)))
        (λ _ v (f, g, e).
          widen gidmap_path (id_map request.gid gid) v _ _
            (λ h v' e'. (f, g, h, e' ∙ ap (wrote_file h gidmap_path (id_map request.gid gid)) e))
            (write_file-Returning gidmap_path (id_map request.gid gid) v))
