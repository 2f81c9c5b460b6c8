-- ===== src/Json.antt =====
-- src/jshelper.c and src/jshelper.h: the typed access to the tokens of a request, and the error with
-- a path. The tokens are those of the parser in jstr/, which is not modelled.
pub mod Access
pub mod Stores
pub mod Steady
use sandals.Prelude.{
  ℕ, zero, suc, ◌+◌, ◌-◌, Bool, true, false, not, ◌&&◌, ◌||◌, List, [], ◌∷◌, ◌++◌, Bytes, codes,
  Option, none, some, length, ltb, leb, ◌==◌, if◌then◌else◌,
}
use sandals.Os.{Kernel, M, pure, starve, ◌>>=◌, ◌>>◌}
use sandals.Response.{buf_size, decimal}
use sandals.Fail.{fail, request_invalid, response_too_big}

pub data JsonType : Type 0 where
  object array string number json_true json_false json_null : JsonType

-- Comparisons of a type with a constant.
abbrev pub is_object : JsonType → Bool
is_object object = true
is_object _ = false

abbrev pub is_array : JsonType → Bool
is_array array = true
is_array _ = false

abbrev pub is_string : JsonType → Bool
is_string string = true
is_string _ = false

abbrev pub is_number : JsonType → Bool
is_number number = true
is_number _ = false

abbrev pub is_true : JsonType → Bool
is_true json_true = true
is_true _ = false

abbrev pub is_false : JsonType → Bool
is_false json_false = true
is_false _ = false

-- What the program sees of a `double` that `strtod` returns: its sign, or its whole part, whether
-- there is a fraction, and `(long)(fraction * 1e9)`.
pub data Double : Type 0 where
  negative : Double
  finite : ℕ → Bool → ℕ → Double
  infinite : Double

-- A token is named by its place in the array. `next` is the token behind it and all it holds;
-- `number` is `strtod` of its text.
pub record Tokens : Type 0 where
  pub type_of : ℕ → JsonType
  pub value_of : ℕ → Bytes
  pub next : ℕ → ℕ
  pub number_of : ℕ → Double

-- `v < 0.0`; the zero with a sign is not.
abbrev pub is_negative : Double → Bool
is_negative negative = true
is_negative _ = false

-- A loop over members or items, which carries what it has stored so far.
unfoldable pub for_each : {A : Type 0} → (A → ℕ → M A) → A → List ℕ → M A
for_each body a [] = pure a
for_each body a (value ∷ values) = body a value >>= λ a'. for_each body a' values

module _ (toks : Tokens) where
  -- The items from `item` on, as far as `stop`.
  unfoldable pub items_from : ℕ → ℕ → ℕ → List ℕ
  items_from zero item stop = []
  items_from (suc fuel) item stop =
      let rest = items_from fuel (toks.next item) stop in if item == stop then [] else item ∷ rest

  -- The tokens that JSARRAY_FOREACH visits. An item takes at least one token.
  unfoldable pub array_items : ℕ → List ℕ
  unfolding items_from
  array_items a = items_from (toks.next a - a) (a + 1) (toks.next a)

  unfoldable pub members_from : ℕ → ℕ → ℕ → List ℕ
  members_from zero value stop = []
  members_from (suc fuel) value stop =
      let rest = members_from fuel (toks.next value + 1) stop in
      if ltb value stop then value ∷ rest else []

  -- The values that JSOBJECT_FOREACH visits.
  unfoldable pub object_members : ℕ → List ℕ
  unfolding members_from
  object_members o = members_from (toks.next o - o) (o + 2) (toks.next o)

  -- The key of a member stands before its value.
  abbrev pub key_of_member : ℕ → Bytes
  key_of_member value = toks.value_of (value - 1)

  -- `next <= value && jstr_next(next) > value`.
  holds_token : ℕ → ℕ → Bool
  holds_token value item = leb item value && ltb value (toks.next item)

  -- The text of a step into an object: the dot is left out at the start.
  abbrev key_step : Bytes → Bytes → Bytes
  key_step msg key = elim msg [ [] ↦ key | _ ↦ b'.' ∷ key ]

  abbrev index_step : ℕ → Bytes
  index_step index = b'[' ∷ decimal index ++ codes "]"

  -- The member on the path to `value`, and the message with its key.
  find_member : ℕ → Bytes → List ℕ → Option (ℕ × Bytes)
  unfolding holds_token
  find_member value msg [] = none
  find_member value msg (item ∷ items) =
      if holds_token value item
      then some (item, msg ++ key_step msg (key_of_member item))
      else find_member value msg items

  find_item : ℕ → Bytes → ℕ → List ℕ → Option (ℕ × Bytes)
  unfolding holds_token
  find_item value msg index [] = none
  find_item value msg index (item ∷ items) =
      if holds_token value item
      then some (item, msg ++ index_step index)
      else find_item value msg (index + 1) items

  find_step : ℕ → Bytes → ℕ → Option (ℕ × Bytes)
  unfolding find_member find_item object_members array_items
  find_step value msg root = elim (toks.type_of root) [
    | object ↦ find_member value msg (object_members root)
    | array ↦ find_item value msg 0 (array_items root)
    | _ ↦ none
  ]

  -- The loop of `jserror` from `root` down to `value`. The text may run beyond the buffer, where
  -- `snprintf` counts it only. Each step goes to a token inside the last one.
  unfoldable pub json_path : ℕ → ℕ → ℕ → Bytes → Bytes
  unfolding find_step
  json_path zero root value msg = []
  json_path (suc depth) root value msg =
      let go_on = λ (s : ℕ × Bytes). json_path depth s.0 value s.1 in
      if root == value || leb buf_size (length msg)
      then msg
      else elim (find_step value msg root) [ none ↦ [] | some s ↦ go_on s ]

  -- `": "` behind a path that leaves room for it.
  abbrev pub path_prefix : Bytes → Bytes
  path_prefix msg =
      if ltb 0 (length msg) && ltb (length msg + 2) buf_size then msg ++ codes ": " else msg

  module _ (k : Kernel) (response_fd fuel : ℕ) where
    -- The end of `jserror`, with the path and the formatted text.
    abbrev report : Bytes → Bytes → M (Unit {0})
    report prefix text =
        if leb buf_size (length prefix) || leb buf_size (length prefix + length text)
        then fail k response_fd fuel response_too_big none
        else fail k response_fd fuel request_invalid (some (prefix ++ text))

    -- `root` is `none` for NULL. It never returns.
    unfoldable pub jserror : Option ℕ → ℕ → Bytes → M (Unit {0})
    unfolding json_path
    jserror root value text =
        let start : ℕ = elim root [ none ↦ value | some r ↦ r ] in
        report (path_prefix (json_path (suc value) start value [])) text

    abbrev pub expecting : {A : Type 0} → A → Option ℕ → ℕ → Bytes → M A
    expecting a root value what = jserror root value (codes "Expecting " ++ what) >> pure a

    unfoldable pub jsget_object : Option ℕ → ℕ → M ℕ
    jsget_object root value =
        if is_object (toks.type_of value)
        then pure value
        else expecting value root value (codes "an object")

    unfoldable pub jsget_array : Option ℕ → ℕ → M ℕ
    jsget_array root value =
        if is_array (toks.type_of value)
        then pure value
        else expecting value root value (codes "an array")

    unfoldable pub jsget_str : Option ℕ → ℕ → M Bytes
    jsget_str root value =
        if is_string (toks.type_of value)
        then pure (toks.value_of value)
        else expecting [] root value (codes "a string")

    unfoldable pub jsget_udouble : Option ℕ → ℕ → M Double
    jsget_udouble root value =
        if is_number (toks.type_of value) && not (is_negative (toks.number_of value))
        then pure (toks.number_of value)
        else expecting negative root value (codes "non-negative number")

    unfoldable pub jsget_bool : Option ℕ → ℕ → M Bool
    jsget_bool root value =
        let t = toks.type_of value in
        if is_true t || is_false t
        then pure (is_true t)
        else expecting false root value (codes "a boolean")

    unfoldable pub jsunknown : Option ℕ → ℕ → M (Unit {0})
    jsunknown root value = jserror root value (codes "Unknown key")
