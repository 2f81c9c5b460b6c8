-- ===== src/Watch/Conclude.antt =====
-- src/supervisor.c: the end of `supervisor`, which copies what is left and sends the response.
use sandals.Prelude.{
  ℕ, ◌+◌, ◌-◌, ◌≤◌, ◌<◌, ◌≡◌, inl, inr, refl, sym, ◌∙◌, Bool, true, false, List, [], ◌∷◌, ◌++◌,
  append-nil, Bytes, none, arith, length, if◌then◌else◌, Bool-cases, leb, leb→le, leb-false→lt,
}
use sandals.Os.{
  Kernel, Trace, M, Outcome, returns, exits, starves, pure, written, interrupts, bind_from,
  killed_spawner, ◌>>◌, ◌>>=◌, assigned, spawner_pid, pending,
}
use sandals.Os.Laws.{IsDocumented}
use sandals.Os.Ending.{Ending}
use sandals.Watch.Reset.{IsReset, conclude-IsReset}
use sandals.Os.Quiet.{Quiet}
use sandals.Response.{Response, buf_size}
use sandals.Fail.{Status, open_response, output_limit, response_too_big, response_send}
use sandals.Fail.Reply.{reply, holding, append_raw-closing}
use sandals.Fail.Ends.{Ends, response_send-Sends, response_send-Ends, length-reply-none}
use sandals.Fail.Send.{Sends}
use sandals.Supervisor.{Channel}
use sandals.Supervisor.Plans.{
  Plan, NoFile, AllApart, AllBelow, AllCopied, over, AllDone, AllSame, AllCopied-AllSame,
  over-AllSame, AllDone-AllSame,
}
use sandals.Supervisor.Pass.{Passes, pass-Passes}
use sandals.Watch.State.{Supervisor, pipe0_index, verdict}
use sandals.Watch.Checks.{after_pass, do_pipes}
use sandals.Watch.Loop.{conclude}

-- The text of a verdict is whole.
pub verdict_lem : (status : Status) → verdict status ≡ holding (reply status none)
unfolding verdict open_response
verdict_lem status = append_raw-closing status

-- What is stored is what is counted.
pub record IsStored (r : Response) : Type 0 where
  pub stored : length r.buf ≡ r.size

-- The response that is sent: the one of the loop, unless a pipe has now given too much.
abbrev pub last_text : Bool → Response → Bytes
last_text exceeded r = if exceeded then reply output_limit none else r.buf

-- How the end of `supervisor` ends. It starves only below two buffers and the interrupts.
abbrev pub Concludes : List Plan → ℕ → ℕ → ℕ → Supervisor → Trace → Outcome ℕ × Trace → Type 0
Concludes ps n response_fd fuel s t (returns code, t') =
    (cs : List Channel) × AllCopied ps cs t'
    × AllDone n ps cs t'
    × (code ≡ 0)
    × (written response_fd t'
        ≡ written response_fd t ++ last_text (over n ps s.channels t') s.response)
Concludes ps n response_fd fuel s t (exits code, t') = code ≡ 1
Concludes ps n response_fd fuel s t (starves, t') =
    fuel + interrupts t < buf_size + buf_size + interrupts t'

-- A run that only writes a file that no plan has.
Quiet-AllSame :
    (fd : ℕ) (ps : List Plan) (t t' : Trace) → NoFile fd ps → Quiet fd t t' → AllSame ps t t'
Quiet-AllSame fd [] t t' h q = tt
Quiet-AllSame fd (p ∷ ps) t t' (ne, h) q =
    ((q.untaken p.pipe, q.others p.file (λ e. ne (sym e))), Quiet-AllSame fd ps t t' h q)

-- The spawner is killed, and `spawner_pid` is -1.
abbrev released : Trace → Trace
released t = assigned (spawner_pid pending) ∷ killed_spawner ∷ t

released-AllSame : (ps : List Plan) (t : Trace) → AllSame ps t (released t)
released-AllSame [] t = tt
released-AllSame (p ∷ ps) t = ((refl, append-nil _ ∙ append-nil _), released-AllSame ps t)

module _ (fuel : ℕ) (ps : List Plan) (n response_fd : ℕ) (s : Supervisor) (t : Trace)
    (apart : NoFile response_fd ps) where
  sent-Concludes :
      (cs : List Channel) (flag : Bool) (text : Bytes) (u : Trace) (r : Outcome (Unit {0}) × Trace)
      → Passes ps true fuel n s.channels (released t) (returns (cs, flag), u)
      → text ≡ last_text (over n ps s.channels u) s.response
      → length text ≤ buf_size
      → Sends response_fd text fuel u r
      → Concludes ps n response_fd fuel s t (bind_from r.0 r.1 (λ _. pure 0))
  sent-Concludes cs flag text u (returns _, t') (cop, e, done, frames) same short (sent, quiet) =
      let still = Quiet-AllSame response_fd ps u t' apart quiet in
      (
        cs,
        AllCopied-AllSame ps cs u t' still cop,
        AllDone-AllSame n ps cs u t' still (done refl),
        refl,
        rw
            (
              over-AllSame n ps s.channels u t' still,
              ← same,
              sent,
              frames.others response_fd apart,
              append-nil,
              append-nil,
            )
            refl,
      )
  sent-Concludes cs flag text u (exits code, t') p same short (m, h, e, f) = e
  sent-Concludes cs flag text u (starves, t') (cop, e, done, frames) same short h =
      omega (arith, frames.later)

  ended-Concludes :
      (text : Bytes) (u : Trace) (r : Outcome (Unit {0}) × Trace)
      → interrupts t ≤ interrupts u
      → length text ≤ buf_size
      → Ends response_fd text fuel u r
      → Concludes ps n response_fd fuel s t (bind_from r.0 r.1 (λ _. pure 0))
  ended-Concludes text u (returns _, t') later short h = absurd h
  ended-Concludes text u (exits code, t') later short h = h.0
  ended-Concludes text u (starves, t') later short h = omega arith

  module _ (k : Kernel) (laws : IsDocumented k) (safe : IsStored s.response) where
    abbrev send : Response → M ℕ
    send r = response_send k response_fd fuel r >> pure 0

    -- No pipe has given too much: the response of the loop is sent.
    kept-Concludes :
        (cs : List Channel) (flag : Bool) (u : Trace)
        → Passes ps true fuel n s.channels (released t) (returns (cs, flag), u)
        → flag ≡ false
        → Concludes ps n response_fd fuel s t (send s.response u)
    kept-Concludes cs flag u h no1 = elim (Bool-cases (leb s.response.size buf_size)) [
      | inl short ↦
          sent-Concludes cs flag s.response.buf u _ h ((let (_, e, _, _) = h in rw (← e, no1) refl))
            (omega (arith, leb→le _ _ short, safe.stored))
            (response_send-Sends k response_fd fuel laws s.response u (leb→le _ _ short))
      | inr long ↦
          ended-Concludes (reply response_too_big none) u _
            (let (_, _, _, frames) = h in omega (arith, frames.later))
            (length-reply-none response_too_big)
            (response_send-Ends k response_fd fuel laws s.response u (leb-false→lt _ _ long))
    ]

    -- Some pipe has: that is what is sent.
    exceeded-Concludes :
        (cs : List Channel) (flag : Bool) (u : Trace)
        → Passes ps true fuel n s.channels (released t) (returns (cs, flag), u)
        → flag ≡ true
        → Concludes ps n response_fd fuel s t (send (verdict output_limit) u)
    exceeded-Concludes cs flag u h yes1 = rw (verdict_lem output_limit) (
        sent-Concludes cs flag (reply output_limit none) u _ h
          ((let (_, e, _, _) = h in rw (← e, yes1) refl)) (length-reply-none output_limit)
          (response_send-Sends k response_fd fuel laws (holding (reply output_limit none)) u
            (length-reply-none output_limit)))

    passed-Concludes :
        (s' : Supervisor) (r : Outcome (List Channel × Bool) × Trace)
        → s'.response ≡ s.response
        → Passes ps true fuel n s.channels (released t) r
        → Concludes ps n response_fd fuel s t (
            ((λ _. r)
                >>= (λ x. pure (after_pass k response_fd fuel s' x))
                >>= (λ x. send x.0.response))
              t)
    passed-Concludes s' (returns (cs, flag), u) e h = elim (Bool-cases flag) [
      | inl yes1 ↦ rw yes1 (exceeded-Concludes cs flag u h yes1)
      | inr no1 ↦ rw (no1, e) (kept-Concludes cs flag u h no1)
    ]
    passed-Concludes s' (exits code, u) e h = h
    passed-Concludes s' (starves, u) e h = omega arith

module _ (k : Kernel) (response_fd fuel : ℕ) (laws : IsDocumented k) where
  -- The end of `supervisor`, for channels with the handlers of regular pipes, which copy different
  -- pipes into different files, none of them the one of the response, with fewer bytes than the
  -- fuel, and a response that is stored as far as it is counted. If it returns, it returns
  -- EXIT_SUCCESS; each polled pipe is closed or was found empty; each file holds what its pipe gave,
  -- cut at its limit; and one response is sent: `outputLimit` if an open pipe gave more than its
  -- limit, otherwise that of the loop. It exits only with EXIT_FAILURE, and starves only below two
  -- buffers and the interrupts. However it ends, spawner_pid is -1.
  pub conclude-Concludes :
      (ps : List Plan) (s : Supervisor) (t : Trace)
      → AllApart ps
      → AllBelow fuel ps
      → NoFile response_fd ps
      → AllCopied ps s.channels t
      → IsStored s.response
      → Concludes ps
          (s.npollfd + s.ncopyfile - pipe0_index)
          response_fd
          fuel
          s
          t
          (conclude k response_fd fuel s t)
        × Ending IsReset (conclude k response_fd fuel s t)
  unfolding conclude do_pipes
  conclude-Concludes ps s t apart below no_file cop safe = (
    passed-Concludes fuel ps (s.npollfd + s.ncopyfile - pipe0_index) response_fd s t no_file k laws
        safe (record s { exiting = true; npollfd = s.npollfd + s.ncopyfile }) _ refl
        (pass-Passes k response_fd fuel laws true fuel (s.npollfd + s.ncopyfile - pipe0_index) ps
          s.channels (released t) apart below
          (AllCopied-AllSame ps s.channels t (released t) (released-AllSame ps t) cop)),
    conclude-IsReset k response_fd fuel s t,
  )
