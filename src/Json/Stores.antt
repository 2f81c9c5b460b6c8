-- ===== src/Json/Stores.antt =====
-- src/jshelper.c: values of a request that are checked and then stored.
use sandals.Prelude.{ℕ, ◌≡◌, refl, Bool, Bytes, some}
use sandals.Os.{Kernel, Trace, pure, ◌>>=◌}
use sandals.Os.Laws.{IsDocumented}
use sandals.Json.{Tokens, Double, jsget_object, jsget_array, jsget_str, jsget_udouble, jsget_bool}
use sandals.Json.Access.{
  Parses, Parses-bind, jsget_object-Parses, jsget_array-Parses, jsget_str-Parses,
  jsget_udouble-Parses, jsget_bool-Parses,
}

-- Each lemma says that what is stored satisfies `P`, if it does for any value of the type.
module _ (toks : Tokens) (k : Kernel) (response_fd fuel : ℕ) (laws : IsDocumented k) (root : ℕ)
    (t : Trace) where
  module _ {A : Type 0} (P : A → Type 0) (value : ℕ) where
    pub str-Parses :
        (put : Bytes → A)
        → ((s : Bytes) → P (put s))
        → Parses P fuel t
            ((jsget_str toks k response_fd fuel (some root) value >>= λ s. pure (put s)) t)
    str-Parses put h =
        Parses-bind _ P fuel t _ _
          (jsget_str-Parses k response_fd fuel laws toks (some root) value t) (λ s _. (h s, refl))

    pub array-Parses :
        (put : ℕ → A)
        → ((s : ℕ) → P (put s))
        → Parses P fuel t
            ((jsget_array toks k response_fd fuel (some root) value >>= λ s. pure (put s)) t)
    array-Parses put h =
        Parses-bind _ P fuel t _ _
          (jsget_array-Parses k response_fd fuel laws toks (some root) value t) (λ s _. (h s, refl))

    pub object-Parses :
        (put : ℕ → A)
        → ((s : ℕ) → P (put s))
        → Parses P fuel t
            ((jsget_object toks k response_fd fuel (some root) value >>= λ s. pure (put s)) t)
    object-Parses put h =
        Parses-bind _ P fuel t _ _
          (jsget_object-Parses k response_fd fuel laws toks (some root) value t)
          (λ s _. (h s, refl))

    pub bool-Parses :
        (put : Bool → A)
        → ((s : Bool) → P (put s))
        → Parses P fuel t
            ((jsget_bool toks k response_fd fuel (some root) value >>= λ s. pure (put s)) t)
    bool-Parses put h =
        Parses-bind _ P fuel t _ _
          (jsget_bool-Parses k response_fd fuel laws toks (some root) value t) (λ s _. (h s, refl))

    pub double-Parses :
        (put : Double → A)
        → ((v : Double) → v ≡ toks.number_of value → P (put v))
        → Parses P fuel t
            ((jsget_udouble toks k response_fd fuel (some root) value >>= λ v. pure (put v)) t)
    double-Parses put h =
        Parses-bind _ P fuel t _ _
          (jsget_udouble-Parses k response_fd fuel laws toks (some root) value t)
          (λ v (e, _). (h v e, refl))
