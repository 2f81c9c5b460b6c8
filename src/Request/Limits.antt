-- ===== src/Request/Limits.antt =====
-- src/request.c: the bounds of the numbers in a request.
use sandals.Prelude.{ℕ, ◌+◌, ◌≤◌, ◌<◌, ◌≡◌, Bool, false, List, ◌∷◌, Bytes, some, arith, sym}
use sandals.Json.{Tokens, Double, negative, finite, infinite}
use sandals.Request.{Request, int32_max, long_max, exceeds_int32, whole_part, clamp_long, time_of}

-- The numbers of a request. `seconds` may be one more than LONG_MAX, where the conversion is out of
-- range.
pub record Within (uid gid limit : ℕ) (time : ℕ × ℕ) : Type 0 where
  pub uid_le : uid ≤ int32_max
  pub gid_le : gid ≤ int32_max
  pub limit_le : limit ≤ long_max
  pub seconds_le : time.0 ≤ long_max + 1
  pub nanos_lt : time.1 < 1000000000

abbrev pub IsWithin : Request → Type 0
IsWithin r = Within r.uid r.gid r.stdstreams_limit r.time_limit

-- A fraction is less than one second.
abbrev pub HasFractions : Tokens → Type 0
HasFractions toks =
    (value whole : ℕ) (fraction : Bool) (nanos : ℕ)
    → toks.number_of value ≡ finite whole fraction nanos
    → nanos < 1000000000

-- The first argument of the command is there.
abbrev pub HasCommand : Request → Type 0
HasCommand r = (c : Bytes) × (cs : List Bytes) × (r.cmd ≡ some (c ∷ cs))

-- A request that may be run.
abbrev pub Accepted : Request → Type 0
Accepted r = IsWithin r × HasCommand r

pub clamp_long-le : (v : Double) → clamp_long v ≤ long_max
unfolding clamp_long
clamp_long-le negative = omega arith
clamp_long-le (finite whole fraction nanos) = ground arith
clamp_long-le infinite = omega arith

pub whole_part-le : (v : Double) → exceeds_int32 v ≡ false → whole_part v ≤ int32_max
unfolding exceeds_int32
whole_part-le negative h = omega arith
whole_part-le (finite whole fraction nanos) h = ground arith
whole_part-le infinite h = omega arith

abbrev IsTime : ℕ × ℕ → Type 0
IsTime t = (t.0 ≤ long_max + 1) × (t.1 < 1000000000)

pub time_of-IsTime :
    (toks : Tokens) (value : ℕ) (v : Double)
    → HasFractions toks
    → v ≡ toks.number_of value
    → IsTime (time_of v)
unfolding time_of
time_of-IsTime toks value negative h e = (omega arith, omega arith)
time_of-IsTime toks value (finite whole fraction nanos) h e =
    (ground arith, h value whole fraction nanos (sym e))
time_of-IsTime toks value infinite h e = (omega arith, omega arith)
