-- ===== src/Mounts/Target.antt =====
-- src/mounts.c: the path of a target below the new root.
use sandals.Prelude.{
  ℕ, zero, suc, ◌≤◌, ◌<◌, ◌≡◌, ◌≢◌, refl, ap, ◌∙◌, [], ◌∷◌, ◌++◌, Bytes, arith, length, take, drop,
  Bool-cases, inl, inr, ◌==◌, leb, leb-false→lt,
}
use sandals.Os.{Kernel, Trace}
use sandals.Os.Returning.{Returning, if-Returning}
use sandals.Fail.Never.{die-Returning}
use sandals.Paths.{path_max, strip_end, skip_slashes, char_at}
use sandals.Mounts.Nodes.{chroot_relative}

-- `chroot` without the slashes at its end, a slash, and `path` without those at its start.
pub record IsTarget (chroot path text : Bytes) : Type 0 where
  pub kept : ℕ
  pub skipped : ℕ
  pub text_is : text ≡ take kept chroot ++ b'/' ∷ drop skipped path
  pub bounded : length text < path_max
  pub kept_le : kept ≤ length chroot
  pub only_slashes : (i : ℕ) → kept ≤ i → i < length chroot → char_at chroot i ≡ b'/'
  pub no_slash_before : (i : ℕ) → kept ≡ suc i → char_at chroot i ≢ b'/'
  pub slashes_skipped : (i : ℕ) → i < skipped → char_at path i ≡ b'/'
  pub no_slash_behind : char_at path skipped ≢ b'/'

strip_end-le : (s : Bytes) (n : ℕ) → strip_end s n ≤ n
unfolding strip_end
strip_end-le s zero = omega arith
strip_end-le s (suc n) = elim (Bool-cases (char_at s n == b'/')) [
  | inl slash ↦ rw slash (omega (arith, strip_end-le s n))
  | inr other ↦ rw other (omega arith)
]

strip_end-slashes : (s : Bytes) (n i : ℕ) → strip_end s n ≤ i → i < n → char_at s i ≡ b'/'
unfolding strip_end
strip_end-slashes s zero i from below = absurd (omega (arith, below))
strip_end-slashes s (suc n) i from below = elim (Bool-cases (char_at s n == b'/')) [
  | inl slash ↦ elim (Bool-cases (i == n)) [
    | inl last ↦
        let same : i ≡ n = ground (arith, last) in ap (char_at s) same ∙ ground (arith, slash)
    | inr before ↦ strip_end-slashes s n i (rw slash at from) (ground (arith, before, below))
  ]
  | inr other ↦ absurd (omega (arith, rw other at from, below))
]

strip_end-no_slash : (s : Bytes) (n i : ℕ) → strip_end s n ≡ suc i → char_at s i ≢ b'/'
unfolding strip_end
strip_end-no_slash s zero i e = absurd (omega (arith, e))
strip_end-no_slash s (suc n) i e = elim (Bool-cases (char_at s n == b'/')) [
  | inl slash ↦ strip_end-no_slash s n i (rw slash at e)
  | inr other ↦ λ same.
      let last : n ≡ i = omega (arith, rw other at e) in
      ground (arith, other, ap (char_at s) last, same)
]

abbrev Skips : Bytes → Type 0
Skips s =
    (m : ℕ) × (skip_slashes s ≡ drop m s)
    × ((i : ℕ) → i < m → char_at s i ≡ b'/')
    × (char_at s m ≢ b'/')

skip_slashes-splits : (s : Bytes) → Skips s
unfolding skip_slashes char_at
skip_slashes-splits [] = (0, refl, λ i h. absurd (omega (arith, h)), λ e. omega (arith, e))
skip_slashes-splits (c ∷ s) = elim (Bool-cases (c == b'/')) [
  | inl slash ↦
      let (m, e, all, end) = skip_slashes-splits s in
      (
        suc m,
        rw slash e,
        (λ i. elim i as (λ i. i < suc m → char_at (c ∷ s) i ≡ b'/') [
          | zero ↦ λ h. ground (arith, slash)
          | suc i ↦ λ h. all i (omega (arith, h))
        ]),
        end,
      )
  | inr other ↦
      (0, rw other refl, (λ i h. absurd (omega (arith, h))), (λ e. ground (arith, other, e)))
]

module _ (k : Kernel) (response_fd fuel : ℕ) where
  -- Whenever `chroot_relative` returns, it has made no call, and the path is that of the root without
  -- the slashes at its end, one slash, and the path without the slashes at its start; with its NUL it
  -- fits into the buffer.
  pub chroot_relative-IsTarget :
      (chroot path : Bytes) (t : Trace)
      → Returning
          (λ text t'. IsTarget chroot path text × (t' ≡ t))
          (chroot_relative k response_fd fuel chroot path t)
  unfolding chroot_relative
  chroot_relative-IsTarget chroot path t =
      if-Returning _ (leb path_max (length text)) _ _ t
        (λ _. die-Returning k response_fd fuel _ text _ t)
        (λ short. (
          record {
            kept = kept;
            skipped = rest.0;
            text_is = ap (λ p. take kept chroot ++ b'/' ∷ p) rest.1;
            bounded = leb-false→lt path_max (length text) short;
            kept_le = strip_end-le chroot (length chroot);
            only_slashes = strip_end-slashes chroot (length chroot);
            no_slash_before = strip_end-no_slash chroot (length chroot);
            slashes_skipped = rest.2;
            no_slash_behind = rest.3;
          },
          refl,
        ))
    where
      kept : ℕ
      kept = strip_end chroot (length chroot)

      text : Bytes
      text = take kept chroot ++ b'/' ∷ skip_slashes path

      rest : Skips path
      rest = skip_slashes-splits path
