-- ===== src/Mounts/Cuts.antt =====
-- The places where src/mounts.c has cut the path of a node.
use sandals.Prelude.{
  ℕ, suc, ◌+◌, ◌≡◌, refl, sym, ap, ◌∙◌, true, [], ◌∷◌, Bytes, arith, length, drop, ◌==◌, subst,
}
use sandals.Paths.{char_at}
use sandals.Mounts.Nodes.{c_str, set_at}
use sandals.Mounts.Buffers.{
  joined, nuls, slashed, char_at-joined, set_at-joined, drop-joined, joined-joined, length-joined,
  slashed_same, c_str-IsSplit,
}

-- The buffer is cut in `n` places from `p` on, and `dest0` before.
pub record IsOpen (dest0 : Bytes) (n p : ℕ) (dest : Bytes) : Type 0 where
  pub before : Bytes
  pub behind : Bytes
  pub here : dest ≡ joined before behind
  pub place : p ≡ length before
  pub cuts : nuls behind ≡ n
  pub origin : dest0 ≡ joined before (slashed behind)

-- The buffer is cut at `p`, and in `n` places behind it.
pub record IsCut (dest0 : Bytes) (n p : ℕ) (dest : Bytes) : Type 0 where
  pub before : Bytes
  pub behind : Bytes
  pub here : dest ≡ joined before (0 ∷ behind)
  pub place : p ≡ length before
  pub cuts : nuls behind ≡ n
  pub origin : dest0 ≡ joined before (b'/' ∷ slashed behind)

at_place : (r b : Bytes) → char_at (joined r b) (length r) ≡ char_at b 0
at_place r b = ap (char_at (joined r b)) (omega arith) ∙ char_at-joined r b 0

drop_place : (r b : Bytes) → drop (length r) (joined r b) ≡ b
drop_place r b = ap (λ i. drop i (joined r b)) (omega arith) ∙ drop-joined r b 0

set_place : (v : ℕ) (r b : Bytes) → set_at (length r) v (joined r b) ≡ joined r (set_at 0 v b)
set_place v r b = ap (λ i. set_at i v (joined r b)) (omega arith) ∙ set_at-joined v r b 0

pub at_head : (r b : Bytes) (c : ℕ) → char_at (joined r (c ∷ b)) (length r) ≡ c
unfolding char_at
at_head r b c = at_place r (c ∷ b)

pub cut_head : (r b : Bytes) (c : ℕ) → set_at (length r) 0 (joined r (c ∷ b)) ≡ joined r (0 ∷ b)
unfolding set_at
cut_head r b c = set_place 0 r (c ∷ b)

pub whole-IsOpen : (dest0 dest : Bytes) (p : ℕ) → IsOpen dest0 0 p dest → dest ≡ dest0
whole-IsOpen dest0 dest p o =
    o.here ∙ sym (o.origin ∙ ap (joined o.before) (slashed_same o.behind o.cuts))

pub set_at-IsOpen :
    (dest0 dest : Bytes) (n p : ℕ)
    → IsCut dest0 n p dest
    → IsOpen dest0 n (p + 1) (set_at p b'/' dest)
unfolding set_at
set_at-IsOpen dest0 dest n p c = record {
  before = b'/' ∷ c.before;
  behind = c.behind;
  here = rw (c.here, c.place) (set_place b'/' c.before (0 ∷ c.behind));
  place = omega (arith, c.place);
  cuts = c.cuts;
  origin = c.origin;
}

-- The next cut is behind the component at `p`.
pub component-IsCut :
    (dest0 dest : Bytes) (n p : ℕ)
    → IsOpen dest0 (suc n) p dest
    → IsCut dest0 n (p + length (c_str (drop p dest))) dest
component-IsCut dest0 dest n p o =
    let s = c_str-IsSplit o.behind n o.cuts in
    let c = c_str o.behind in
    let same : c_str (drop p dest) ≡ c =
      rw (o.here, o.place) (ap c_str (drop_place o.before o.behind)) in
    record {
      before = joined c o.before;
      behind = s.after;
      here = o.here ∙ ap (joined o.before) s.whole ∙ sym (joined-joined c o.before (0 ∷ s.after));
      place = omega (arith, o.place, length-joined c o.before, ap length same);
      cuts = s.nuls_after;
      origin =
          o.origin
          ∙ ap (joined o.before) s.slashed_whole
          ∙ sym (joined-joined c o.before (b'/' ∷ slashed s.after));
    }

no_component : (b : Bytes) → char_at b 0 ≡ 0 → c_str b ≡ []
unfolding c_str char_at
no_component [] h = refl
no_component (c ∷ b) h = rw h refl

-- Without a component, it is at `p`.
pub skip-IsCut :
    (dest0 dest : Bytes) (n p : ℕ)
    → (char_at dest p == 0) ≡ true
    → IsOpen dest0 (suc n) p dest
    → IsCut dest0 n p dest
skip-IsCut dest0 dest n p h o =
    subst (λ m. IsCut dest0 n m dest) (omega (arith, ap length empty))
      (component-IsCut dest0 dest n p o)
  where
    first : char_at o.behind 0 ≡ 0
    first =
        sym (
          ap (λ d. char_at d p) o.here
          ∙ ap (char_at (joined o.before o.behind)) o.place
          ∙ at_place o.before o.behind)
        ∙ ground (arith, h)

    empty : c_str (drop p dest) ≡ []
    empty =
        ap (λ d. c_str (drop p d)) o.here
        ∙ ap (λ i. c_str (drop i (joined o.before o.behind))) o.place
        ∙ ap c_str (drop_place o.before o.behind)
        ∙ no_component o.behind first
