-- ===== src/Request/Accept.antt =====
-- src/request.c: what holds of a request that `request_parse` accepts.
use sandals.Json.Stores.{str-Parses, array-Parses, object-Parses, bool-Parses, double-Parses}
use sandals.Prelude.{
  ℕ, ◌≤◌, refl, List, [], ◌∷◌, Bytes, Option, none, some, str_eq, codes, Bool-cases, inl, inr,
  Option-cases,
}
use sandals.Os.{Kernel, Trace, pure, ◌>>=◌}
use sandals.Os.Laws.{IsDocumented}
use sandals.Fail.{request_invalid}
use sandals.Json.{Tokens, Double, key_of_member}
use sandals.Json.Access.{
  Parses, Parses-bind, for_each-Parses, if-Parses, fail-Parses, jserror-Parses, jsget_object-Parses,
  jsget_array-Parses, jsget_str-Parses, jsget_udouble-Parses, jsunknown-Parses,
}
use sandals.Request.{
  Request, Parsing, int32_max, exceeds_int32, whole_part, clamp_long, copy_str_array, put_id,
  request_member, stdstreams_member, stdstreams_parse, check_cmd, request_parse,
}
use sandals.Request.Limits.{
  IsWithin, HasFractions, clamp_long-le, whole_part-le, time_of-IsTime, Accepted,
}

module _ (toks : Tokens) (k : Kernel) (response_fd fuel : ℕ) (laws : IsDocumented k) (root : ℕ)
    (t : Trace) where
  strs-Parses :
      {A : Type 0} (P : A → Type 0) (value : ℕ) (put : List Bytes → A)
      → ((s : List Bytes) → P (put s))
      → Parses P fuel t
          ((copy_str_array toks k response_fd fuel root value >>= λ s. pure (put s)) t)
  unfolding copy_str_array
  strs-Parses P value put h =
      Parses-bind (λ _. Unit {0}) P fuel t _ _
        (Parses-bind _ _ fuel t _ _
          (jsget_array-Parses k response_fd fuel laws toks (some root) value t)
          (λ a _.
            for_each-Parses (λ _. Unit {0}) fuel t _
              (λ vec v _.
                Parses-bind _ _ fuel t _ _
                  (jsget_str-Parses k response_fd fuel laws toks (some root) v t)
                  (λ s _. (tt, refl)))
              [] _ tt))
        (λ s _. (h s, refl))

  id-Parses :
      (P : Parsing → Type 0) (value : ℕ) (put : ℕ → Parsing)
      → ((n : ℕ) → n ≤ int32_max → P (put n))
      → Parses P fuel t (put_id toks k response_fd fuel root value put t)
  unfolding put_id
  id-Parses P value put h =
      Parses-bind _ P fuel t _ _
        (jsget_udouble-Parses k response_fd fuel laws toks (some root) value t)
        (λ v _. elim (Bool-cases (exceeds_int32 v)) [
          | inl big ↦
              rw big (jserror-Parses k response_fd fuel laws toks P (some root) value _ (put 0) t)
          | inr small ↦ rw small (h (whole_part v) (whole_part-le v small), refl)
        ])

  module _ (fractions : HasFractions toks) where
    abbrev P : Parsing → Type 0
    P p = IsWithin p.request

    member-Parses :
        (p : Parsing) (value : ℕ)
        → IsWithin p.request
        → Parses P fuel t (request_member toks k response_fd fuel root p value t)
    unfolding request_member
    member-Parses p value v =
        (if-Parses P fuel t (str_eq key (codes "hostName")) _ _
          (str-Parses toks k response_fd fuel laws root t P value _ (λ s. v))
          (if-Parses P fuel t (str_eq key (codes "domainName")) _ _
            (str-Parses toks k response_fd fuel laws root t P value _ (λ s. v))
            (if-Parses P fuel t (str_eq key (codes "uid")) _ _
              (id-Parses P value (λ n. record p { request = record p.request { uid = n } })
                (λ n h. record {
                  uid_le = h;
                  gid_le = v.gid_le;
                  limit_le = v.limit_le;
                  seconds_le = v.seconds_le;
                  nanos_lt = v.nanos_lt;
                }))
              (if-Parses P fuel t (str_eq key (codes "gid")) _ _
                (id-Parses P value (λ n. record p { request = record p.request { gid = n } })
                  (λ n h. record {
                    uid_le = v.uid_le;
                    gid_le = h;
                    limit_le = v.limit_le;
                    seconds_le = v.seconds_le;
                    nanos_lt = v.nanos_lt;
                  }))
                (if-Parses P fuel t (str_eq key (codes "chroot")) _ _
                  (str-Parses toks k response_fd fuel laws root t P value _ (λ s. v))
                  (if-Parses P fuel t (str_eq key (codes "mounts")) _ _
                    (array-Parses toks k response_fd fuel laws root t P value _ (λ a. v))
                    (if-Parses P fuel t (str_eq key (codes "cgroup")) _ _
                      (str-Parses toks k response_fd fuel laws root t P value _ (λ s. v))
                      (if-Parses P fuel t (str_eq key (codes "cgroupRoot")) _ _
                        (str-Parses toks k response_fd fuel laws root t P value _ (λ s. v))
                        (if-Parses P fuel t (str_eq key (codes "cgroupConfig")) _ _
                          (object-Parses toks k response_fd fuel laws root t P value _ (λ o. v))
                          (if-Parses P fuel t (str_eq key (codes "seccompPolicy")) _ _
                            (str-Parses toks k response_fd fuel laws root t P value _ (λ s. v))
                            (if-Parses P fuel t (str_eq key (codes "vaRandomize")) _ _
                              (bool-Parses toks k response_fd fuel laws root t P value _ (λ b. v))
                              (if-Parses P fuel t (str_eq key (codes "cmd")) _ _
                                (strs-Parses P value _ (λ s. v))
                                (if-Parses P fuel t (str_eq key (codes "env")) _ _
                                  (strs-Parses P value _ (λ s. v))
                                  (if-Parses P fuel t (str_eq key (codes "workDir")) _ _
                                    (str-Parses toks k response_fd fuel laws root t P value _
                                      (λ s. v))
                                    (if-Parses P fuel t (str_eq key (codes "timeLimit")) _ _
                                      (double-Parses toks k response_fd fuel laws root t P value _
                                        (λ d e.
                                          let (s, n) = time_of-IsTime toks value d fractions e in
                                          record {
                                            uid_le = v.uid_le;
                                            gid_le = v.gid_le;
                                            limit_le = v.limit_le;
                                            seconds_le = s;
                                            nanos_lt = n;
                                          }))
                                      (if-Parses P fuel t (str_eq key (codes "stdStreams")) _ _
                                        (object-Parses toks k response_fd fuel laws root t P value _
                                          (λ o. v))
                                        (if-Parses P fuel t (str_eq key (codes "pipes")) _ _
                                          (array-Parses toks k response_fd fuel laws root t P value
                                            _ (λ a. v))
                                          (if-Parses P fuel t (str_eq key (codes "copyFiles")) _ _
                                            (array-Parses toks k response_fd fuel laws root t P
                                              value _ (λ a. v))
                                            (jsunknown-Parses k response_fd fuel laws toks
                                              (some root) value t P p)))))))))))))))))))
      where
        key : Bytes
        key = key_of_member toks value

    limit-Within :
        (r : Request) (d : Double)
        → IsWithin r
        → IsWithin (record r { stdstreams_limit = clamp_long d })
    limit-Within r d v = record {
      uid_le = v.uid_le;
      gid_le = v.gid_le;
      limit_le = clamp_long-le d;
      seconds_le = v.seconds_le;
      nanos_lt = v.nanos_lt;
    }

    stdstreams_member-Parses :
        (a : Request) (value : ℕ)
        → IsWithin a
        → Parses IsWithin fuel t (stdstreams_member toks k response_fd fuel root a value t)
    unfolding stdstreams_member
    stdstreams_member-Parses a value w =
        if-Parses IsWithin fuel t (str_eq (key_of_member toks value) (codes "dest")) _ _
          (str-Parses toks k response_fd fuel laws root t IsWithin value _ (λ s. w))
          (if-Parses IsWithin fuel t (str_eq (key_of_member toks value) (codes "limit")) _ _
            (double-Parses toks k response_fd fuel laws root t IsWithin value
              (λ d. record a { stdstreams_limit = clamp_long d }) (λ d e. limit-Within a d w))
            (jsunknown-Parses k response_fd fuel laws toks (some root) value t IsWithin a))

    stdstreams-Parses :
        (o : Option ℕ) (r : Request)
        → IsWithin r
        → Parses IsWithin fuel t (stdstreams_parse toks k response_fd fuel root o r t)
    unfolding stdstreams_parse
    stdstreams-Parses none r v = (v, refl)
    stdstreams-Parses (some o) r v =
        Parses-bind IsWithin IsWithin fuel t _ _
          (for_each-Parses IsWithin fuel t _ (λ a value w. stdstreams_member-Parses a value w) r _
            v)
          (λ r' w. elim (Option-cases r'.stdstreams_dest) [
            | inl no_dest ↦
                rw no_dest
                  (jserror-Parses k response_fd fuel laws toks IsWithin (some root) o _ _ t)
            | inr (dest, e) ↦ rw e (w, refl)
          ])

    cmd-Parses :
        (r : Request) → IsWithin r → Parses Accepted fuel t (check_cmd toks k response_fd fuel r t)
    unfolding check_cmd
    cmd-Parses r v = elim (Option-cases r.cmd) [
      | inl e ↦ rw e (fail-Parses k response_fd fuel laws Accepted request_invalid _ _ t)
      | inr ([], e) ↦ rw e (fail-Parses k response_fd fuel laws Accepted request_invalid _ _ t)
      | inr (c ∷ cs, e) ↦ rw e ((v, (c, cs, refl)), refl)
    ]

    -- If `request_parse` returns, it has asked nothing of the kernel, the numbers are within their
    -- bounds, and the command has a first argument; otherwise it exits with EXIT_FAILURE, or the
    -- fuel is below one buffer and the interrupts.
    pub request_parse-Parses :
        (request : Request)
        → IsWithin request
        → Parses Accepted fuel t (request_parse toks k response_fd fuel request root t)
    unfolding request_parse
    request_parse-Parses request v =
        Parses-bind _ Accepted fuel t _ _
          (jsget_object-Parses k response_fd fuel laws toks none root t)
          (λ root' _.
            Parses-bind P Accepted fuel t _ _
              (for_each-Parses P fuel t _ (λ p value w. member-Parses p value w) _ _ v)
              (λ p w.
                Parses-bind IsWithin Accepted fuel t _ _
                  (stdstreams-Parses p.stdstreams p.request w) cmd-Parses))
