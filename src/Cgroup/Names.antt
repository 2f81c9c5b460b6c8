-- ===== src/Cgroup/Names.antt =====
-- src/cgroup.c: the path of the new cgroup.
use sandals.Prelude.{
  ℕ, zero, suc, ◌+◌, ◌-◌, ◌<◌, ◌≡◌, refl, sym, ap, ◌∙◌, Bool, true, false, Bool-cases, inl, inr, [],
  ◌∷◌, ◌++◌, append_assoc, Bytes, codes, arith, ◌==◌, if◌then◌else◌, length, length-append, take,
  leb,
}
use sandals.Paths.{char_at}
use sandals.Cgroup.Create.{sys_fs_cgroup_path, parent_length, parent_cgroup, is_cgroup_line, offset}

-- No byte is a slash.
abbrev pub no_slash : Bytes → Bool
no_slash [] = true
no_slash (c ∷ s) = if c == b'/' then false else no_slash s

add_zero : (i : ℕ) → 0 + i ≡ i
add_zero i = omega arith

suc_add : (n i : ℕ) → suc n + i ≡ suc (n + i)
suc_add n i = omega arith

char_at-append : (a b : Bytes) (i : ℕ) → char_at (a ++ b) (length a + i) ≡ char_at b i
unfolding char_at
char_at-append [] b i = ap (char_at b) (add_zero i)
char_at-append (c ∷ a) b i =
    ap (char_at (c ∷ (a ++ b))) (suc_add (length a) i) ∙ char_at-append a b i

no_slash-char_at : (s : Bytes) (i : ℕ) → no_slash s ≡ true → (char_at s i == b'/') ≡ false
unfolding char_at
no_slash-char_at [] i h = refl
no_slash-char_at (c ∷ s) zero h = ground (arith, h)
no_slash-char_at (c ∷ s) (suc i) h = no_slash-char_at s i (ground (arith, h))

take-append : (a b : Bytes) → take (length a) (a ++ b) ≡ a
take-append [] b = refl
take-append (c ∷ a) b = ap (λ x. c ∷ x) (take-append a b)

add_suc : (n i : ℕ) → n + suc i ≡ suc (n + i)
add_suc n i = omega arith

-- The slash between two parts, and what follows it.
at_slash :
    (a name : Bytes) (n : ℕ) → char_at (a ++ b'/' ∷ name) (length a + n) ≡ char_at (b'/' ∷ name) n
at_slash a name n = char_at-append a (b'/' ∷ name) n

-- The line for the cgroup `name` in `dir`.
abbrev pub cgroup_line : Bytes → Bytes → Bytes
cgroup_line dir name = codes "0::" ++ (dir ++ b'/' ∷ (name ++ b'\n' ∷ []))

last_char :
    (dir name : Bytes) → char_at (cgroup_line dir name) (length (cgroup_line dir name) - 1) ≡ b'\n'
unfolding char_at
last_char dir name =
    ap (char_at (cgroup_line dir name)) size
    ∙ ap (λ p. char_at (codes "0::" ++ p) (length front + 0))
        (sym (append_assoc dir (b'/' ∷ name) (b'\n' ∷ [])))
    ∙ char_at-append front (b'\n' ∷ []) 0
  where
    front : Bytes
    front = codes "0::" ++ (dir ++ b'/' ∷ name)

    size : length (cgroup_line dir name) - 1 ≡ length front + 0
    size = omega (
      arith,
      length-append dir (b'/' ∷ (name ++ b'\n' ∷ [])),
      length-append name (b'\n' ∷ []),
      length-append dir (b'/' ∷ name),
    )

long_enough : (n : ℕ) → leb 3 (suc (suc (suc n))) ≡ true
long_enough n = ground arith

accepted : (dir name : Bytes) → is_cgroup_line (cgroup_line dir name) ≡ true
unfolding is_cgroup_line
accepted dir name =
    rw (last_char dir name, long_enough (length (dir ++ b'/' ∷ (name ++ b'\n' ∷ [])))) refl

no_slash-newline : (name : Bytes) → no_slash name ≡ true → no_slash (name ++ b'\n' ∷ []) ≡ true
no_slash-newline [] h = refl
no_slash-newline (c ∷ name) h = elim (Bool-cases (c == b'/')) [
  | inl slash ↦ absurd (ground (arith, slash, h))
  | inr other ↦ rw other (no_slash-newline name (ground (arith, other, h)))
]

parent_length-stop :
    (path : Bytes) (len : ℕ)
    → (char_at path len == b'/') ≡ true
    → parent_length path (suc len) ≡ len
unfolding parent_length
parent_length-stop path len h = rw h (ground arith)

parent_length-step :
    (path : Bytes) (len : ℕ)
    → (char_at path len == b'/') ≡ false
    → 0 < len
    → parent_length path (suc len) ≡ parent_length path len
unfolding parent_length
parent_length-step path len h pos = rw h (ground (arith, pos))

-- Back over a name without slashes, to the slash before it.
parent_length-name :
    (a name : Bytes) (n : ℕ)
    → no_slash name ≡ true
    → parent_length (a ++ b'/' ∷ name) (suc (length a + n)) ≡ length a
unfolding char_at
parent_length-name a name zero h =
    parent_length-stop (a ++ b'/' ∷ name) (length a + 0) (ap (λ c. c == b'/') (at_slash a name 0))
    ∙ omega arith
parent_length-name a name (suc n) h =
    parent_length-step (a ++ b'/' ∷ name) (length a + suc n)
      (ap (λ c. c == b'/') (at_slash a name (suc n)) ∙ no_slash-char_at name n h) (omega arith)
    ∙ ap (parent_length (a ++ b'/' ∷ name)) (add_suc (length a) n)
    ∙ parent_length-name a name n h

-- For a cgroup below another one, as the kernel writes it to /proc/self/cgroup, the line is accepted,
-- and the new cgroup is made in the directory of that other one. The name of the cgroup contains no
-- slash.
pub parent_cgroup-parent :
    (dir name : Bytes)
    → no_slash name ≡ true
    → (is_cgroup_line (cgroup_line dir name) ≡ true)
      × (parent_cgroup (cgroup_line dir name) ≡ sys_fs_cgroup_path ++ dir)
unfolding parent_cgroup
parent_cgroup-parent dir name h = (accepted dir name, found)
  where
    last : Bytes
    last = name ++ b'\n' ∷ []

    same : sys_fs_cgroup_path ++ (dir ++ b'/' ∷ last) ≡ (sys_fs_cgroup_path ++ dir) ++ b'/' ∷ last
    same = sym (append_assoc sys_fs_cgroup_path dir (b'/' ∷ last))

    size :
        offset + length (cgroup_line dir name)
        ≡ suc (length (sys_fs_cgroup_path ++ dir) + length last)
    size = omega (arith, length-append dir (b'/' ∷ last), length-append sys_fs_cgroup_path dir)

    found : parent_cgroup (cgroup_line dir name) ≡ sys_fs_cgroup_path ++ dir
    found =
        ap
          (λ n.
            take (parent_length (sys_fs_cgroup_path ++ (dir ++ b'/' ∷ last)) n)
              (sys_fs_cgroup_path ++ (dir ++ b'/' ∷ last)))
          size
        ∙ ap
            (λ p. take (parent_length p (suc (length (sys_fs_cgroup_path ++ dir) + length last))) p)
            same
        ∙ ap (λ n. take n ((sys_fs_cgroup_path ++ dir) ++ b'/' ∷ last))
            (parent_length-name (sys_fs_cgroup_path ++ dir) last (length last)
              (no_slash-newline name h))
        ∙ take-append (sys_fs_cgroup_path ++ dir) (b'/' ∷ last)
