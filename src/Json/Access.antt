-- ===== src/Json/Access.antt =====
-- src/jshelper.c: how the typed access to tokens ends.
use sandals.Prelude.{
  ℕ, suc, ◌+◌, ◌<◌, ◌≡◌, refl, Bool, true, false, List, [], ◌∷◌, ◌++◌, Bytes, Option, none, some,
  arith, length, leb, ◌||◌, codes, ◌≤◌, if◌then◌else◌,
}
use sandals.Os.{
  Kernel, Trace, Outcome, M, returns, exits, starves, interrupts, bind_from, pure, ◌>>◌,
}
use sandals.Os.Laws.{IsDocumented}
use sandals.Response.{buf_size}
use sandals.Fail.{Status, fail, request_invalid, response_too_big}
use sandals.Fail.Ends.{Ends, fail_text, fail-Ends, length-fail_text}
use sandals.Json.{
  Tokens, is_true, negative, is_negative, path_prefix, json_path, jserror, expecting, jsget_object,
  jsget_array, jsget_str, jsget_udouble, jsget_bool, jsunknown, for_each,
}

-- Access to the request asks nothing of the kernel: it returns what satisfies `P`, or ends in
-- `fail`, which starves only below one buffer and the interrupts.
abbrev pub Parses : {A : Type 0} → (A → Type 0) → ℕ → Trace → Outcome A × Trace → Type 0
Parses P fuel t (returns a, t') = P a × (t' ≡ t)
Parses P fuel t (exits c, t') = c ≡ 1
Parses P fuel t (starves, t') = fuel + interrupts t < buf_size + interrupts t'

pub Parses-bind :
    {A B : Type 0} (P : A → Type 0) (Q : B → Type 0) (fuel : ℕ) (t : Trace) (r : Outcome A × Trace)
    (f : A → M B)
    → Parses P fuel t r
    → ((a : A) → P a → Parses Q fuel t (f a t))
    → Parses Q fuel t (bind_from r.0 r.1 f)
Parses-bind P Q fuel t (returns a, t') f (p, same) q = rw same (q a p)
Parses-bind P Q fuel t (exits c, t') f p q = p
Parses-bind P Q fuel t (starves, t') f p q = p

pub for_each-Parses :
    {A : Type 0} (P : A → Type 0) (fuel : ℕ) (t : Trace) (body : A → ℕ → M A)
    → ((a : A) (v : ℕ) → P a → Parses P fuel t (body a v t))
    → (a : A) (vs : List ℕ) → P a
    → Parses P fuel t (for_each body a vs t)
unfolding for_each
for_each-Parses P fuel t body h a [] p = (p, refl)
for_each-Parses P fuel t body h a (v ∷ vs) p =
    Parses-bind P P fuel t (body a v t) (λ a'. for_each body a' vs) (h a v p)
      (λ a' p'. for_each-Parses P fuel t body h a' vs p')

pub if-Parses :
    {A : Type 0} (P : A → Type 0) (fuel : ℕ) (t : Trace) (b : Bool) (m n : M A)
    → Parses P fuel t (m t)
    → Parses P fuel t (n t)
    → Parses P fuel t ((if b then m else n) t)
if-Parses P fuel t true m n x y = x
if-Parses P fuel t false m n x y = y

pub both-Parses :
    {A : Type 0} (P Q : A → Type 0) (fuel : ℕ) (t : Trace) (r : Outcome A × Trace)
    → Parses P fuel t r
    → Parses Q fuel t r
    → Parses (λ a. P a × Q a) fuel t r
both-Parses P Q fuel t (returns a, t') (p, same) (q, _) = ((p, q), same)
both-Parses P Q fuel t (exits c, t') p q = p
both-Parses P Q fuel t (starves, t') p q = p

-- The branch that is taken yields what is chosen by the same test.
pub choose-Parses :
    {A : Type 0} (fuel : ℕ) (t : Trace) (b : Bool) (x y : A) (m n : M A)
    → Parses (λ a. a ≡ x) fuel t (m t)
    → Parses (λ a. a ≡ y) fuel t (n t)
    → Parses (λ a. a ≡ (if b then x else y)) fuel t ((if b then m else n) t)
choose-Parses fuel t true x y m n p q = p
choose-Parses fuel t false x y m n p q = q

-- A run that ends in `fail`, whatever would follow.
Ends-Parses :
    {A : Type 0} (P : A → Type 0) (fd fuel : ℕ) (text : Bytes) (t : Trace)
    (r : Outcome (Unit {0}) × Trace) (a : A)
    → length text ≤ buf_size
    → Ends fd text fuel t r
    → Parses P fuel t (bind_from r.0 r.1 (λ _. pure a))
Ends-Parses P fd fuel text t (returns _, t') a h e = absurd e
Ends-Parses P fd fuel text t (exits c, t') a h e = e.0
Ends-Parses P fd fuel text t (starves, t') a h e = omega arith

module _ (k : Kernel) (response_fd fuel : ℕ) (laws : IsDocumented k) where
  pub fail-Parses :
      {A : Type 0} (P : A → Type 0) (status : Status) (message : Option Bytes) (a : A) (t : Trace)
      → Parses P fuel t ((fail k response_fd fuel status message >> pure a) t)
  fail-Parses P status message a t =
      Ends-Parses P response_fd fuel (fail_text status message) t _ a
        (length-fail_text status message) (fail-Ends k response_fd fuel laws status message t)

  module _ (toks : Tokens) where
    refused-Parses :
        {A : Type 0} (P : A → Type 0) (long : Bool) (text : Bytes) (a : A) (t : Trace)
        → Parses P fuel t (
            ((if long
                  then fail k response_fd fuel response_too_big none
                  else fail k response_fd fuel request_invalid (some text))
                >> pure a)
              t)
    refused-Parses P true text a t = fail-Parses P response_too_big none a t
    refused-Parses P false text a t = fail-Parses P request_invalid (some text) a t

    pub jserror-Parses :
        {A : Type 0} (P : A → Type 0) (root : Option ℕ) (value : ℕ) (text : Bytes) (a : A)
        (t : Trace)
        → Parses P fuel t ((jserror toks k response_fd fuel root value text >> pure a) t)
    unfolding jserror
    jserror-Parses P root value text a t =
        refused-Parses P
          (leb buf_size (length prefix) || leb buf_size (length prefix + length text))
          (prefix ++ text) a t
      where
        start : ℕ
        start = elim root [ none ↦ value | some r ↦ r ]

        prefix : Bytes
        prefix = path_prefix toks (json_path toks (suc value) start value [])

    -- A value of the type asked for, or an error.
    checked-Parses :
        {A : Type 0} (P : A → Type 0) (b : Bool) (found instead : A) (root : Option ℕ) (value : ℕ)
        (what : Bytes) (t : Trace)
        → (b ≡ true → P found)
        → Parses P fuel t (
            (if b then pure found else expecting toks k response_fd fuel instead root value what) t)
    checked-Parses P true found instead root value what t h = (h refl, refl)
    checked-Parses P false found instead root value what t h =
        jserror-Parses P root value (codes "Expecting " ++ what) instead t

    module _ (root : Option ℕ) (value : ℕ) (t : Trace) where
      pub jsget_object-Parses :
          Parses (λ v. v ≡ value) fuel t (jsget_object toks k response_fd fuel root value t)
      unfolding jsget_object
      jsget_object-Parses = checked-Parses _ _ value value root value _ t (λ _. refl)

      pub jsget_array-Parses :
          Parses (λ v. v ≡ value) fuel t (jsget_array toks k response_fd fuel root value t)
      unfolding jsget_array
      jsget_array-Parses = checked-Parses _ _ value value root value _ t (λ _. refl)

      pub jsget_str-Parses :
          Parses
            (λ s. s ≡ toks.value_of value)
            fuel
            t
            (jsget_str toks k response_fd fuel root value t)
      unfolding jsget_str
      jsget_str-Parses = checked-Parses _ _ _ [] root value _ t (λ _. refl)

      pub jsget_udouble-Parses :
          Parses
            (λ v. (v ≡ toks.number_of value) × (is_negative v ≡ false))
            fuel
            t
            (jsget_udouble toks k response_fd fuel root value t)
      unfolding jsget_udouble
      jsget_udouble-Parses =
          checked-Parses _ _ _ negative root value _ t (λ h. (refl, ground (arith, h)))

      pub jsget_bool-Parses :
          Parses
            (λ b. b ≡ is_true (toks.type_of value))
            fuel
            t
            (jsget_bool toks k response_fd fuel root value t)
      unfolding jsget_bool
      jsget_bool-Parses = checked-Parses _ _ _ false root value _ t (λ _. refl)

      pub jsunknown-Parses :
          {A : Type 0} (P : A → Type 0) (a : A)
          → Parses P fuel t ((jsunknown toks k response_fd fuel root value >> pure a) t)
      unfolding jsunknown
      jsunknown-Parses P a = jserror-Parses P root value _ a t
