-- ===== src/Mounts/Buffers.antt =====
-- The buffer that src/mounts.c cuts at slashes, split at a place: what stands before it, the nearest
-- character first, and what stands from it on.
use sandals.Prelude.{
  ℕ, suc, ◌+◌, ◌≡◌, refl, ap, ◌∙◌, [], ◌∷◌, ◌++◌, Bytes, arith, length, drop, Bool-cases, inl, inr,
  ◌==◌, if◌then◌else◌,
}
use sandals.Paths.{char_at}
use sandals.Mounts.Nodes.{c_str, set_at}

-- The whole buffer.
abbrev pub joined : Bytes → Bytes → Bytes
joined [] b = b
joined (c ∷ r) b = joined r (c ∷ b)

-- How many NULs there are.
abbrev pub nuls : Bytes → ℕ
nuls [] = 0
nuls (c ∷ b) = (if c == 0 then 1 else 0) + nuls b

-- The buffer with all its slashes.
abbrev pub slashed : Bytes → Bytes
slashed [] = []
slashed (c ∷ b) = (if c == 0 then b'/' else c) ∷ slashed b

pub char_at-joined : (r b : Bytes) (i : ℕ) → char_at (joined r b) (length r + i) ≡ char_at b i
unfolding char_at
char_at-joined [] b i = ap (char_at b) (omega arith)
char_at-joined (c ∷ r) b i =
    ap (char_at (joined r (c ∷ b))) (omega arith) ∙ char_at-joined r (c ∷ b) (suc i)

pub set_at-joined :
    (v : ℕ) (r b : Bytes) (i : ℕ) → set_at (length r + i) v (joined r b) ≡ joined r (set_at i v b)
unfolding set_at
set_at-joined v [] b i = ap (λ j. set_at j v b) (omega arith)
set_at-joined v (c ∷ r) b i =
    ap (λ j. set_at j v (joined r (c ∷ b))) (omega arith) ∙ set_at-joined v r (c ∷ b) (suc i)

pub drop-joined : (r b : Bytes) (i : ℕ) → drop (length r + i) (joined r b) ≡ drop i b
drop-joined [] b i = ap (λ j. drop j b) (omega arith)
drop-joined (c ∷ r) b i =
    ap (λ j. drop j (joined r (c ∷ b))) (omega arith) ∙ drop-joined r (c ∷ b) (suc i)

-- The place moves on by `c`.
pub joined-joined : (c r b : Bytes) → joined (joined c r) b ≡ joined r (c ++ b)
joined-joined [] r b = refl
joined-joined (x ∷ c) r b = joined-joined c (x ∷ r) b

pub length-joined : (c r : Bytes) → length (joined c r) ≡ length c + length r
length-joined [] r = omega arith
length-joined (x ∷ c) r = omega (arith, length-joined c (x ∷ r))

pub nuls-joined : (c r : Bytes) → nuls (joined c r) ≡ nuls c + nuls r
nuls-joined [] r = omega arith
nuls-joined (x ∷ c) r = omega (arith, nuls-joined c (x ∷ r))

pub slashed_same : (b : Bytes) → nuls b ≡ 0 → slashed b ≡ b
slashed_same [] h = refl
slashed_same (c ∷ b) h = elim (Bool-cases (c == 0)) [
  | inl nul ↦ absurd (ground (arith, nul, h))
  | inr other ↦ rw other (ap (λ x. c ∷ x) (slashed_same b (ground (arith, other, h))))
]

pub slashed-joined : (r b : Bytes) → nuls r ≡ 0 → slashed (joined r b) ≡ joined r (slashed b)
slashed-joined [] b h = refl
slashed-joined (c ∷ r) b h = elim (Bool-cases (c == 0)) [
  | inl nul ↦ absurd (ground (arith, nul, h))
  | inr other ↦
      slashed-joined r (c ∷ b) (ground (arith, other, h))
      ∙ ap (λ x. joined r (x ∷ slashed b)) (rw other refl)
]

pub c_str_same : (b : Bytes) → nuls b ≡ 0 → c_str b ≡ b
unfolding c_str
c_str_same [] h = refl
c_str_same (c ∷ b) h = elim (Bool-cases (c == 0)) [
  | inl nul ↦ absurd (ground (arith, nul, h))
  | inr other ↦ rw other (ap (λ x. c ∷ x) (c_str_same b (ground (arith, other, h))))
]

-- A string before a NUL.
pub record IsSplit (b : Bytes) (n : ℕ) : Type 0 where
  pub after : Bytes
  pub whole : b ≡ c_str b ++ 0 ∷ after
  pub nuls_after : nuls after ≡ n
  pub slashed_whole : slashed b ≡ c_str b ++ b'/' ∷ slashed after

pub c_str-IsSplit : (b : Bytes) (n : ℕ) → nuls b ≡ suc n → IsSplit b n
unfolding c_str
c_str-IsSplit [] n h = absurd (omega (arith, h))
c_str-IsSplit (c ∷ b) n h = elim (Bool-cases (c == 0)) [
  | inl nul ↦ record {
    after = b;
    whole = rw nul (ap (λ x. x ∷ b) (ground (arith, nul)));
    nuls_after = ground (arith, nul, h);
    slashed_whole = rw nul refl;
  }
  | inr other ↦
      let s = c_str-IsSplit b n (ground (arith, other, h)) in
      record {
        after = s.after;
        whole = rw other (ap (λ x. c ∷ x) s.whole);
        nuls_after = s.nuls_after;
        slashed_whole = rw other (ap (λ x. c ∷ x) s.slashed_whole);
      }
]
