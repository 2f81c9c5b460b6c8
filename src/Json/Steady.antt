-- ===== src/Json/Steady.antt =====
-- src/jshelper.c: what the access to tokens leaves alone, however it ends.
use sandals.Prelude.{
  ℕ, suc, ◌+◌, Bool, true, false, List, [], ◌∷◌, ◌++◌, Bytes, Option, none, some, leb, ◌||◌, ◌&&◌,
  not, length, if◌then◌else◌, codes,
}
use sandals.Os.{Kernel, Trace, M, pure, ◌>>◌}
use sandals.Os.Ending.{Ending, Ending-bind, if-Ending, IsSteady}
use sandals.Response.{buf_size}
use sandals.Fail.{fail, request_invalid, response_too_big}
use sandals.Fail.Steady.{fail-Ending}
use sandals.Json.{
  Tokens, path_prefix, json_path, is_string, is_object, is_array, jsget_array, is_true, is_false,
  is_number, is_negative, negative, jsget_object, jsget_bool, jsget_udouble, jsunknown, jserror,
  jsget_str, for_each,
}

pub for_each-Ending :
    {A : Type 0} (P : Trace → Type 0) (body : A → ℕ → M A) (values : List ℕ) (a : A) (t : Trace)
    → ((a' : A) (v : ℕ) (t' : Trace) → P t' → Ending P (body a' v t'))
    → P t
    → Ending P (for_each body a values t)
unfolding for_each
for_each-Ending P body [] a t h p = record { end = p }
for_each-Ending P body (v ∷ values) a t h p =
    Ending-bind P (body a v t) (λ a'. for_each body a' values) (h a v t p)
      (λ a' t' p'. for_each-Ending P body values a' t' h p')

module _ (toks : Tokens) (k : Kernel) (response_fd fuel : ℕ) (P : Trace → Type 0)
    (steady : IsSteady P) where
  refused-Ending :
      {A : Type 0} (long : Bool) (text : Bytes) (a : A) (t : Trace)
      → P t
      → Ending P (
          ((if long
                then fail k response_fd fuel response_too_big none
                else fail k response_fd fuel request_invalid (some text))
              >> pure a)
            t)
  refused-Ending true text a t p =
      fail-Ending k response_fd fuel P steady response_too_big none a t p
  refused-Ending false text a t p =
      fail-Ending k response_fd fuel P steady request_invalid (some text) a t p

  pub jserror-Ending :
      {A : Type 0} (root : Option ℕ) (value : ℕ) (text : Bytes) (a : A) (t : Trace)
      → P t
      → Ending P ((jserror toks k response_fd fuel root value text >> pure a) t)
  unfolding jserror
  jserror-Ending root value text a t p =
      refused-Ending (leb buf_size (length prefix) || leb buf_size (length prefix + length text))
        (prefix ++ text) a t p
    where
      start : ℕ
      start = elim root [ none ↦ value | some r ↦ r ]

      prefix : Bytes
      prefix = path_prefix toks (json_path toks (suc value) start value [])

  pub jsget_str-Ending :
      (root : Option ℕ) (value : ℕ) (t : Trace)
      → P t
      → Ending P (jsget_str toks k response_fd fuel root value t)
  unfolding jsget_str
  jsget_str-Ending root value t p =
      if-Ending P (is_string (toks.type_of value)) (pure (toks.value_of value)) _ t
        (record { end = p }) (jserror-Ending root value (codes "Expecting a string") [] t p)

  pub jsget_object-Ending :
      (root : Option ℕ) (value : ℕ) (t : Trace)
      → P t
      → Ending P (jsget_object toks k response_fd fuel root value t)
  unfolding jsget_object
  jsget_object-Ending root value t p =
      if-Ending P (is_object (toks.type_of value)) (pure value) _ t (record { end = p })
        (jserror-Ending root value (codes "Expecting an object") value t p)

  pub jsget_array-Ending :
      (root : Option ℕ) (value : ℕ) (t : Trace)
      → P t
      → Ending P (jsget_array toks k response_fd fuel root value t)
  unfolding jsget_array
  jsget_array-Ending root value t p =
      if-Ending P (is_array (toks.type_of value)) (pure value) _ t (record { end = p })
        (jserror-Ending root value (codes "Expecting an array") value t p)

  pub jsget_bool-Ending :
      (root : Option ℕ) (value : ℕ) (t : Trace)
      → P t
      → Ending P (jsget_bool toks k response_fd fuel root value t)
  unfolding jsget_bool
  jsget_bool-Ending root value t p =
      if-Ending P (is_true (toks.type_of value) || is_false (toks.type_of value)) (pure _) _ t
        (record { end = p }) (jserror-Ending root value (codes "Expecting a boolean") false t p)

  pub jsget_udouble-Ending :
      (root : Option ℕ) (value : ℕ) (t : Trace)
      → P t
      → Ending P (jsget_udouble toks k response_fd fuel root value t)
  unfolding jsget_udouble
  jsget_udouble-Ending root value t p =
      if-Ending P (is_number (toks.type_of value) && not (is_negative (toks.number_of value)))
        (pure _) _ t (record { end = p })
        (jserror-Ending root value (codes "Expecting non-negative number") negative t p)

  pub jsunknown-Ending :
      {A : Type 0} (root : Option ℕ) (value : ℕ) (a : A) (t : Trace)
      → P t
      → Ending P ((jsunknown toks k response_fd fuel root value >> pure a) t)
  unfolding jsunknown
  jsunknown-Ending root value a t p = jserror-Ending root value (codes "Unknown key") a t p
