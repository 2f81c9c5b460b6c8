-- ===== src/Mounts/Restore.antt =====
-- src/mounts.c: what `create_node` leaves in the buffer that it cuts.
use sandals.Prelude.{
  ℕ, zero, suc, ◌+◌, ◌≡◌, refl, sym, ap, ◌∙◌, Bool, false, [], ◌∷◌, Bytes, append-nil, arith,
  length, ◌==◌, subst, Option, none, some,
}
use sandals.Os.{Kernel, Trace, M, Res, ok, err, enoent, called, stat_mode, open_dir}
use sandals.Os.Returning.{Returning, then-Returning, if-Returning, Returning-bind}
use sandals.Fail.Never.{call_checked-Returning, die-Returning}
use sandals.Paths.{char_at}
use sandals.Mounts.Nodes.{
  c_str, Spot, source_mode, after_open_dir, walk_back, create_parts, create_from, create_node,
}
use sandals.Mounts.Buffers.{
  joined, nuls, slashed, joined-joined, nuls-joined, length-joined, slashed-joined,
}
use sandals.Mounts.Cuts.{IsOpen, IsCut, whole-IsOpen, component-IsCut, at_head, cut_head}
use sandals.Mounts.Parts.{
  mounts_of, Restored, Restores, last_part-Restores, middle_part-Restores, create_parts-Restores,
}

module _ (k : Kernel) (response_fd fuel : ℕ) where
  module _ (dest0 : Bytes) (ms : Trace) where
    -- Where the first loop ends.
    abbrev IsSpotAt : Option ℕ → ℕ → ℕ → Bytes → Type 0
    IsSpotAt (some fd) p n dest = IsCut dest0 n p dest
    IsSpotAt none p n dest = (p ≡ 0) × IsOpen dest0 n 0 dest

    abbrev Found : Spot → Trace → Type 0
    Found s t = IsSpotAt s.dirfd s.at s.missing s.dest × (mounts_of t ≡ ms)

    start-Found :
        (r b : Bytes) (t : Trace)
        → nuls r ≡ 0
        → dest0 ≡ joined r (slashed b)
        → mounts_of t ≡ ms
        → Found (record { dirfd = none; at = 0; missing = nuls b; dest = joined r b }) t
    start-Found r b t clean origin h = (
      (
        refl,
        record {
          before = [];
          behind = joined r b;
          here = refl;
          place = refl;
          cuts = omega (arith, nuls-joined r b, clean);
          origin = origin ∙ sym (slashed-joined r b clean);
        },
      ),
      h,
    )

    open_dir-Found :
        (again : ℕ → Bytes → M Spot) (r b : Bytes) (res : Res ℕ) (t : Trace)
        → dest0 ≡ joined r (b'/' ∷ slashed b)
        → mounts_of t ≡ ms
        → Returning Found (again (nuls b + 1) (joined r (0 ∷ b)) t)
        → Returning Found
            (after_open_dir k response_fd fuel again (length r) (nuls b) (joined r (0 ∷ b)) res t)
    unfolding after_open_dir
    open_dir-Found again r b (ok fd) t origin h next = (
      record { before = r; behind = b; here = refl; place = refl; cuts = refl; origin = origin },
      h,
    )
    open_dir-Found again r b (err enoent) t origin h next = next
    open_dir-Found again r b (err e) t origin h next = die-Returning k response_fd fuel _ _ _ t

    walk_back-Found :
        (r b : Bytes) (t : Trace)
        → nuls r ≡ 0
        → dest0 ≡ joined r (slashed b)
        → mounts_of t ≡ ms
        → Returning Found (walk_back k response_fd fuel (length r) (nuls b) (joined r b) t)
    unfolding walk_back
    walk_back-Found [] b t clean origin h = start-Found [] b t clean origin h
    walk_back-Found (c ∷ r) b t clean origin h =
        if-Returning Found (length r == 0) _ _ t (λ _. start-Found (c ∷ r) b t clean origin h)
          (λ _.
            if-Returning Found (char_at (joined r (c ∷ b)) (length r) == b'/') _ _ t
              (λ slash.
                let is_slash : c ≡ b'/' = sym (at_head r b c) ∙ ground (arith, slash) in
                rw (cut_head r b c) (
                  open_dir-Found (walk_back k response_fd fuel (length r)) r b _ _
                    (origin ∙ ap (λ x. joined r (x ∷ slashed b)) is_slash) h
                    (subst
                      (λ n.
                        Returning Found
                          (walk_back k response_fd fuel (length r) n (joined r (0 ∷ b)) cut))
                      (omega arith)
                      (walk_back-Found r (0 ∷ b) _ rest
                        (origin ∙ ap (λ x. joined r (x ∷ slashed b)) is_slash) h))))
              (λ _.
                subst
                  (λ n.
                    Returning Found
                      (walk_back k response_fd fuel (length r) n (joined r (c ∷ b)) t))
                  (rw plain (omega arith))
                  (walk_back-Found r (c ∷ b) t rest
                    (origin ∙ ap (λ x. joined r (x ∷ slashed b)) (rw plain refl)) h)))
      where
        plain : (c == 0) ≡ false
        plain = ground (arith, clean)

        cut : Trace
        cut = let c = open_dir (c_str (joined r (0 ∷ b))) in called c (k.call t c) ∷ t

        rest : nuls r ≡ 0
        rest = ground (arith, clean)

    spot-Restores :
        (dir : Bool) (dirfd : Option ℕ) (p n : ℕ) (dest : Bytes) (t : Trace)
        → IsSpotAt dirfd p n dest
        → mounts_of t ≡ ms
        → Restores k response_fd fuel dest0 ms (
            create_from k response_fd fuel dir
              (record { dirfd = dirfd; at = p; missing = n; dest = dest })
              t)
    unfolding create_from
    spot-Restores dir (some fd) p n dest t c h =
        create_parts-Restores k response_fd fuel dest0 ms dir n (some fd) p dest t c h
    spot-Restores dir none p zero dest t (e, o) h =
        last_part-Restores k response_fd fuel dest0 ms dir none p dest t
          (whole-IsOpen dest0 dest 0 o) h
    spot-Restores dir none p (suc n) dest t (e, o) h =
        middle_part-Restores k response_fd fuel dest0 ms (create_parts k response_fd fuel dir n)
          none p dest t h
          (λ fd t' h'.
            create_parts-Restores k response_fd fuel dest0 ms dir n fd _ dest t'
              (component-IsCut dest0 dest n p (subst (λ i. IsOpen dest0 (suc n) i dest) (sym e) o))
              h')

    source_mode-Returning :
        (src : Option Bytes) (t : Trace)
        → mounts_of t ≡ ms
        → Returning (λ _ t'. mounts_of t' ≡ ms) (source_mode k response_fd fuel src t)
    unfolding source_mode
    source_mode-Returning none t h = h
    source_mode-Returning (some src) t h =
        then-Returning (λ n. called (stat_mode src) (ok n) ∷ t) _ _ _
          (call_checked-Returning k response_fd fuel _ (stat_mode src) t) (λ n. h)

  -- Whenever `create_node` returns, the path that it has cut at its slashes is whole again, whatever
  -- was missing: it is the path that it was given, which contains no NUL. It has mounted nothing.
  pub create_node-Restored :
      (src : Option Bytes) (dest : Bytes) (t : Trace)
      → nuls dest ≡ 0
      → Returning (Restored dest (mounts_of t)) (create_node k response_fd fuel src dest t)
  unfolding create_node
  create_node-Restored src dest t clean =
      Returning-bind (λ _ u. mounts_of u ≡ mounts_of t) _ _ _
        (source_mode-Returning dest (mounts_of t) src t refl)
        (λ dir u h.
          Returning-bind (Found dest (mounts_of t)) _ _ _ (from_end u h) (λ s v (found, h').
            spot-Restores dest (mounts_of t) dir s.dirfd s.at s.missing s.dest v found h'))
    where
      whole : joined (joined dest []) [] ≡ dest
      whole = joined-joined dest [] [] ∙ append-nil dest

      size : length (joined dest []) ≡ length dest
      size = omega (arith, length-joined dest [])

      from_end :
          (u : Trace)
          → mounts_of u ≡ mounts_of t
          → Returning
              (Found dest (mounts_of t))
              (walk_back k response_fd fuel (length dest) 0 dest u)
      from_end u h =
          subst
            (λ d.
              Returning (Found dest (mounts_of t))
                (walk_back k response_fd fuel (length dest) 0 d u))
            whole
            (subst
              (λ n.
                Returning (Found dest (mounts_of t))
                  (walk_back k response_fd fuel n 0 (joined (joined dest []) []) u))
              size
              (walk_back-Found dest (mounts_of t) (joined dest []) [] u
                (omega (arith, nuls-joined dest [], clean)) (sym whole) h))
