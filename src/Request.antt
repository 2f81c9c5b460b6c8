-- ===== src/Request.antt =====
-- src/request.c, and `struct sandals_request` of src/sandals.h.
pub mod Limits
pub mod Accept
pub mod Receive
pub mod Reads
pub mod Steady
pub mod Unchanged
use sandals.Prelude.{
  ℕ, zero, suc, ◌+◌, ◌-◌, ◌*◌, ◌/◌, ◌^◌, Bool, true, false, not, ◌&&◌, ◌||◌, List, [], ◌∷◌, ◌++◌,
  Bytes, codes, str_eq, Option, none, some, length, ltb, leb, ◌==◌, if◌then◌else◌,
}
use sandals.Os.{Kernel, M, pure, starve, ◌>>=◌, ◌>>◌, read, Res, ok, err, eintr}
use sandals.Fail.{fail, request_invalid, die}
use sandals.Json.{
  Tokens, Double, negative, finite, infinite, array_items, object_members, key_of_member, jserror,
  jsget_object, jsget_array, jsget_str, jsget_udouble, jsget_bool, jsunknown, for_each,
}

-- `none` is NULL. Arrays and objects are kept as tokens.
pub record Request : Type 0 where
  pub host_name : Bytes
  pub domain_name : Bytes
  pub uid : ℕ
  pub gid : ℕ
  pub chroot : Bytes
  pub mounts : Option ℕ
  pub cgroup : Option Bytes
  pub cgroup_root : Option Bytes
  pub cgroup_config : Option ℕ
  pub seccomp_policy : Option Bytes
  pub va_randomize : Bool
  pub cmd : Option (List Bytes)
  pub env : List Bytes
  pub work_dir : Bytes
  pub time_limit : ℕ × ℕ
  pub stdstreams_dest : Option Bytes
  pub stdstreams_limit : ℕ
  pub pipes : Option ℕ
  pub copy_files : Option ℕ
  pub json_root : ℕ

-- The request of `main`, before anything is read.
abbrev pub default_request : Request
default_request = record {
  host_name = codes "sandals";
  domain_name = codes "sandals";
  uid = 0;
  gid = 0;
  chroot = codes "/";
  mounts = none;
  cgroup = none;
  cgroup_root = none;
  cgroup_config = none;
  seccomp_policy = none;
  va_randomize = true;
  cmd = none;
  env = [];
  work_dir = codes "/";
  time_limit = (2 ^ 63 - 1, 0);
  stdstreams_dest = none;
  stdstreams_limit = 2 ^ 63 - 1;
  pipes = none;
  copy_files = none;
  json_root = 0;
}

abbrev pub int32_max : ℕ
int32_max = 2 ^ 31 - 1

abbrev pub long_max : ℕ
long_max = 2 ^ 63 - 1

-- `v > INT32_MAX`.
unfoldable pub exceeds_int32 : Double → Bool
exceeds_int32 negative = false
exceeds_int32 (finite whole fraction nanos) =
    ltb int32_max whole || (whole == int32_max && fraction)
exceeds_int32 infinite = true

-- `(uid_t)v`.
abbrev whole_part : Double → ℕ
whole_part (finite whole fraction nanos) = whole
whole_part _ = 0

-- `v < LONG_MAX ? (long)v : LONG_MAX`, where LONG_MAX is converted to 2 ^ 63.
unfoldable pub clamp_long : Double → ℕ
clamp_long negative = 0
clamp_long (finite whole fraction nanos) = if ltb whole (2 ^ 63) then whole else long_max
clamp_long infinite = long_max

-- The seconds and nanoseconds. `v > LONG_MAX` compares with 2 ^ 63; at 2 ^ 63 itself the conversion
-- to `time_t` is out of range, and the number stands here as it is.
unfoldable pub time_of : Double → ℕ × ℕ
time_of negative = (0, 0)
time_of (finite whole fraction nanos) = (if ltb (2 ^ 63) whole then long_max else whole, nanos)
time_of infinite = (long_max, 0)

-- The request and the token of `stdStreams`, which is looked at last.
pub record Parsing : Type 0 where
  pub request : Request
  pub stdstreams : Option ℕ

module _ (toks : Tokens) (k : Kernel) (response_fd fuel : ℕ) where
  unfoldable pub copy_str_array : ℕ → ℕ → M (List Bytes)
  copy_str_array root a = jsget_array toks k response_fd fuel (some root) a >>= λ _.
      for_each
        (λ vec value.
          jsget_str toks k response_fd fuel (some root) value >>= λ s. pure (vec ++ s ∷ []))
        [] (array_items toks a)

  abbrev put_str : ℕ → ℕ → (Bytes → Parsing) → M Parsing
  put_str root value put = jsget_str toks k response_fd fuel (some root) value >>= λ s. pure (put s)

  abbrev put_array : ℕ → ℕ → (ℕ → Parsing) → M Parsing
  put_array root value put =
      jsget_array toks k response_fd fuel (some root) value >>= λ a. pure (put a)

  abbrev put_object : ℕ → ℕ → (ℕ → Parsing) → M Parsing
  put_object root value put =
      jsget_object toks k response_fd fuel (some root) value >>= λ o. pure (put o)

  -- `uid` and `gid`.
  put_id : ℕ → ℕ → (ℕ → Parsing) → M Parsing
  unfolding exceeds_int32
  put_id root value put = jsget_udouble toks k response_fd fuel (some root) value >>= λ v.
      if exceeds_int32 v
      then (jserror toks k response_fd fuel (some root) value (codes "Value too big")
          >> pure (put 0))
      else pure (put (whole_part v))

  -- The body of the loop over the members of the request.
  unfoldable pub request_member : ℕ → Parsing → ℕ → M Parsing
  unfolding copy_str_array put_id
  request_member root p value =
      let key = key_of_member toks value in
      let r = p.request in
      let store = λ (r' : Request). record p { request = r' } in
      if str_eq key (codes "hostName")
      then put_str root value (λ s. store (record r { host_name = s }))
      else if str_eq key (codes "domainName")
      then put_str root value (λ s. store (record r { domain_name = s }))
      else if str_eq key (codes "uid")
      then put_id root value (λ n. store (record r { uid = n }))
      else if str_eq key (codes "gid")
      then put_id root value (λ n. store (record r { gid = n }))
      else if str_eq key (codes "chroot")
      then put_str root value (λ s. store (record r { chroot = s }))
      else if str_eq key (codes "mounts")
      then put_array root value (λ a. store (record r { mounts = some a }))
      else if str_eq key (codes "cgroup")
      then put_str root value (λ s. store (record r { cgroup = some s }))
      else if str_eq key (codes "cgroupRoot")
      then put_str root value (λ s. store (record r { cgroup_root = some s }))
      else if str_eq key (codes "cgroupConfig")
      then put_object root value (λ o. store (record r { cgroup_config = some o }))
      else if str_eq key (codes "seccompPolicy")
      then put_str root value (λ s. store (record r { seccomp_policy = some s }))
      else if str_eq key (codes "vaRandomize")
      then (jsget_bool toks k response_fd fuel (some root) value >>= λ b.
          pure (store (record r { va_randomize = b })))
      else if str_eq key (codes "cmd")
      then (copy_str_array root value >>= λ v. pure (store (record r { cmd = some v })))
      else if str_eq key (codes "env")
      then (copy_str_array root value >>= λ v. pure (store (record r { env = v })))
      else if str_eq key (codes "workDir")
      then put_str root value (λ s. store (record r { work_dir = s }))
      else if str_eq key (codes "timeLimit")
      then (jsget_udouble toks k response_fd fuel (some root) value >>= λ v.
          pure (store (record r { time_limit = time_of v })))
      else if str_eq key (codes "stdStreams")
      then put_object root value (λ o. record p { stdstreams = some o })
      else if str_eq key (codes "pipes")
      then put_array root value (λ a. store (record r { pipes = some a }))
      else if str_eq key (codes "copyFiles")
      then put_array root value (λ a. store (record r { copy_files = some a }))
      else (jsunknown toks k response_fd fuel (some root) value >> pure p)

  -- The body of the loop over the members of `stdStreams`.
  unfoldable pub stdstreams_member : ℕ → Request → ℕ → M Request
  stdstreams_member root r value =
      let key = key_of_member toks value in
      if str_eq key (codes "dest")
      then (jsget_str toks k response_fd fuel (some root) value >>= λ s.
          pure (record r { stdstreams_dest = some s }))
      else if str_eq key (codes "limit")
      then (jsget_udouble toks k response_fd fuel (some root) value >>= λ v.
          pure (record r { stdstreams_limit = clamp_long v }))
      else (jsunknown toks k response_fd fuel (some root) value >> pure r)

  stdstreams_parse : ℕ → Option ℕ → Request → M Request
  unfolding stdstreams_member
  stdstreams_parse root none r = pure r
  stdstreams_parse root (some o) r = do
    r' ← for_each (stdstreams_member root) r (object_members toks o)
    elim r'.stdstreams_dest [
      | none ↦ jserror toks k response_fd fuel (some root) o (codes "'dest' missing") >> pure r'
      | some _ ↦ pure r'
    ]

  -- `!request->cmd || !request->cmd[0]`.
  check_cmd : Request → M Request
  check_cmd r =
      let missing : M Request =
        fail k response_fd fuel request_invalid (some (codes "'cmd' missing or empty")) >> pure r in
      elim r.cmd [ none ↦ missing | some [] ↦ missing | some (c ∷ cs) ↦ pure r ]

  unfoldable pub request_parse : Request → ℕ → M Request
  unfolding request_member stdstreams_parse check_cmd
  request_parse request root = do
    root' ← jsget_object toks k response_fd fuel none root
    p ←
        for_each (request_member root)
          (record { request = record request { json_root = root' }; stdstreams = none })
          (object_members toks root)
    r ← stdstreams_parse root p.stdstreams p.request
    check_cmd r
