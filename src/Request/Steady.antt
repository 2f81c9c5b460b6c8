-- ===== src/Request/Steady.antt =====
-- src/request.c: what reading and parsing a request leaves alone, however it ends.
use sandals.Prelude.{ℕ, List, [], ◌∷◌, Bytes, str_eq, Option, some, none, codes}
use sandals.Os.{Kernel, Trace, M, pure, ◌>>=◌, ◌>>◌}
use sandals.Os.Ending.{Ending, Ending-bind, if-Ending, IsSteady}
use sandals.Fail.{fail, request_invalid}
use sandals.Fail.Steady.{fail-Ending}
use sandals.Json.{
  Tokens, object_members, array_items, key_of_member, jserror, jsget_str, jsget_array, jsget_object,
  jsget_bool, jsget_udouble,
}
use sandals.Json.Steady.{
  for_each-Ending, jserror-Ending, jsget_str-Ending, jsget_array-Ending, jsget_object-Ending,
  jsget_bool-Ending, jsget_udouble-Ending, jsunknown-Ending,
}
use sandals.Request.{
  Request, Parsing, exceeds_int32, whole_part, time_of, copy_str_array, put_id, request_member,
  stdstreams_member, stdstreams_parse, check_cmd, request_parse,
}

module _ (toks : Tokens) (k : Kernel) (response_fd fuel : ℕ) (P : Trace → Type 0)
    (steady : IsSteady P) where
  copy_str_array-Ending :
      (root a : ℕ) (t : Trace) → P t → Ending P (copy_str_array toks k response_fd fuel root a t)
  unfolding copy_str_array
  copy_str_array-Ending root a t p =
      Ending-bind P _ _ (jsget_array-Ending toks k response_fd fuel P steady (some root) a t p)
        (λ _ u q.
          for_each-Ending P _ (array_items toks a) [] u
            (λ vec v t' p'.
              Ending-bind P _ _
                (jsget_str-Ending toks k response_fd fuel P steady (some root) v t' p')
                (λ s w q'. record { end = q' }))
            q)

  put_id-Ending :
      (root value : ℕ) (put : ℕ → Parsing) (t : Trace)
      → P t
      → Ending P (put_id toks k response_fd fuel root value put t)
  unfolding put_id
  put_id-Ending root value put t p =
      Ending-bind P _ _
        (jsget_udouble-Ending toks k response_fd fuel P steady (some root) value t p)
        (λ v u q.
          if-Ending P (exceeds_int32 v) _ (pure (put (whole_part v))) u
            (jserror-Ending toks k response_fd fuel P steady (some root) value _ _ u q)
            (record { end = q }))

  request_member-Ending :
      (root : ℕ) (p : Parsing) (value : ℕ) (t : Trace)
      → P t
      → Ending P (request_member toks k response_fd fuel root p value t)
  unfolding request_member
  request_member-Ending root p value t h =
      if-Ending P (str_eq (key_of_member toks value) (codes "hostName")) _ _ t (string _) (
        if-Ending P (str_eq (key_of_member toks value) (codes "domainName")) _ _ t (string _) (
          if-Ending P (str_eq (key_of_member toks value) (codes "uid")) _ _ t
            (id (λ n. record p { request = record (p.request) { uid = n } }))
            (if-Ending P (str_eq (key_of_member toks value) (codes "gid")) _ _ t
              (id (λ n. record p { request = record (p.request) { gid = n } }))
              (if-Ending P (str_eq (key_of_member toks value) (codes "chroot")) _ _ t (string _) (
                if-Ending P (str_eq (key_of_member toks value) (codes "mounts")) _ _ t (array _) (
                  if-Ending P (str_eq (key_of_member toks value) (codes "cgroup")) _ _ t (string _)
                    (if-Ending P (str_eq (key_of_member toks value) (codes "cgroupRoot")) _ _ t
                      (string _)
                      (if-Ending P (str_eq (key_of_member toks value) (codes "cgroupConfig")) _ _ t
                        (object _)
                        (if-Ending P (str_eq (key_of_member toks value) (codes "seccompPolicy")) _ _
                          t (string _)
                          (if-Ending P (str_eq (key_of_member toks value) (codes "vaRandomize")) _ _
                            t (bool)
                            (if-Ending P (str_eq (key_of_member toks value) (codes "cmd")) _ _ t
                              (words _)
                              (if-Ending P (str_eq (key_of_member toks value) (codes "env")) _ _ t
                                (words _)
                                (if-Ending P (str_eq (key_of_member toks value) (codes "workDir")) _
                                  _ t (string _)
                                  (if-Ending P
                                    (str_eq (key_of_member toks value) (codes "timeLimit")) _ _ t
                                    (number)
                                    (if-Ending P
                                      (str_eq (key_of_member toks value) (codes "stdStreams")) _ _ t
                                      (object _)
                                      (if-Ending P
                                        (str_eq (key_of_member toks value) (codes "pipes")) _ _ t
                                        (array _)
                                        (if-Ending P
                                          (str_eq (key_of_member toks value) (codes "copyFiles")) _
                                          _ t (array _)
                                          (jsunknown-Ending toks k response_fd fuel P steady
                                            (some root) value p t h))))))))))))))))))
    where
      string :
          (put : Bytes → Parsing)
          → Ending P ((jsget_str toks k response_fd fuel (some root) value >>= λ s. pure (put s)) t)
      string put =
          Ending-bind P _ _
            (jsget_str-Ending toks k response_fd fuel P steady (some root) value t h)
            (λ s u q. record { end = q })

      array :
          (put : ℕ → Parsing)
          → Ending P
              ((jsget_array toks k response_fd fuel (some root) value >>= λ a. pure (put a)) t)
      array put =
          Ending-bind P _ _
            (jsget_array-Ending toks k response_fd fuel P steady (some root) value t h)
            (λ s u q. record { end = q })

      object :
          (put : ℕ → Parsing)
          → Ending P
              ((jsget_object toks k response_fd fuel (some root) value >>= λ o. pure (put o)) t)
      object put =
          Ending-bind P _ _
            (jsget_object-Ending toks k response_fd fuel P steady (some root) value t h)
            (λ s u q. record { end = q })

      words :
          (put : List Bytes → Parsing)
          → Ending P ((copy_str_array toks k response_fd fuel root value >>= λ v. pure (put v)) t)
      words put =
          Ending-bind P _ _ (copy_str_array-Ending root value t h) (λ s u q. record { end = q })

      id : (put : ℕ → Parsing) → Ending P (put_id toks k response_fd fuel root value put t)
      id put = put_id-Ending root value put t h

      bool : Ending P (
          (jsget_bool toks k response_fd fuel (some root) value >>= λ b.
          pure (record p { request = record (p.request) { va_randomize = b } }))
            t)
      bool =
          Ending-bind P _ _
            (jsget_bool-Ending toks k response_fd fuel P steady (some root) value t h)
            (λ s u q. record { end = q })

      number : Ending P (
          (jsget_udouble toks k response_fd fuel (some root) value >>= λ v.
          pure (record p { request = record (p.request) { time_limit = time_of v } }))
            t)
      number =
          Ending-bind P _ _
            (jsget_udouble-Ending toks k response_fd fuel P steady (some root) value t h)
            (λ s u q. record { end = q })

  stdstreams_member-Ending :
      (root : ℕ) (r : Request) (value : ℕ) (t : Trace)
      → P t
      → Ending P (stdstreams_member toks k response_fd fuel root r value t)
  unfolding stdstreams_member
  stdstreams_member-Ending root r value t h =
      if-Ending P (str_eq (key_of_member toks value) (codes "dest")) _ _ t
        (Ending-bind P _ _ (jsget_str-Ending toks k response_fd fuel P steady (some root) value t h)
          (λ s u q. record { end = q }))
        (if-Ending P (str_eq (key_of_member toks value) (codes "limit")) _ _ t
          (Ending-bind P _ _
            (jsget_udouble-Ending toks k response_fd fuel P steady (some root) value t h)
            (λ s u q. record { end = q }))
          (jsunknown-Ending toks k response_fd fuel P steady (some root) value r t h))

  dest-Ending :
      (dest : Option Bytes) (root o : ℕ) (r : Request) (t : Trace)
      → P t
      → Ending P (
          (elim dest as (λ _. M Request) [
            | none ↦
                jserror toks k response_fd fuel (some root) o (codes "'dest' missing") >> pure r
            | some _ ↦ pure r
          ])
            t)
  dest-Ending none root o r t p =
      jserror-Ending toks k response_fd fuel P steady (some root) o _ r t p
  dest-Ending (some _) root o r t p = record { end = p }

  stdstreams_parse-Ending :
      (root : ℕ) (o : Option ℕ) (r : Request) (t : Trace)
      → P t
      → Ending P (stdstreams_parse toks k response_fd fuel root o r t)
  unfolding stdstreams_parse
  stdstreams_parse-Ending root none r t p = record { end = p }
  stdstreams_parse-Ending root (some o) r t p =
      Ending-bind P _ _
        (for_each-Ending P (stdstreams_member toks k response_fd fuel root) (object_members toks o)
          r t (stdstreams_member-Ending root) p)
        (λ r' u q. dest-Ending r'.stdstreams_dest root o r' u q)

  cmd-Ending :
      (cmd : Option (List Bytes)) (r : Request) (t : Trace)
      → P t
      → Ending P (
          (elim cmd as (λ _. M Request) [
            | none ↦
                fail k response_fd fuel request_invalid (some (codes "'cmd' missing or empty"))
                >> pure r
            | some [] ↦
                fail k response_fd fuel request_invalid (some (codes "'cmd' missing or empty"))
                >> pure r
            | some (c ∷ cs) ↦ pure r
          ])
            t)
  cmd-Ending none r t p = fail-Ending k response_fd fuel P steady request_invalid _ r t p
  cmd-Ending (some []) r t p = fail-Ending k response_fd fuel P steady request_invalid _ r t p
  cmd-Ending (some (c ∷ cs)) r t p = record { end = p }

  pub request_parse-Ending :
      (request : Request) (root : ℕ) (t : Trace)
      → P t
      → Ending P (request_parse toks k response_fd fuel request root t)
  unfolding request_parse check_cmd
  request_parse-Ending request root t p =
      Ending-bind P _ _ (jsget_object-Ending toks k response_fd fuel P steady none root t p)
        (λ root' u q.
          Ending-bind P _ _
            (for_each-Ending P (request_member toks k response_fd fuel root)
              (object_members toks root) _ u (request_member-Ending root) q)
            (λ d v q'.
              Ending-bind P _ _ (stdstreams_parse-Ending root d.stdstreams d.request v q')
                (λ r w q''. cmd-Ending r.cmd r w q'')))
