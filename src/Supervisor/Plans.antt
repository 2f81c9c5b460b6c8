-- ===== src/Supervisor/Plans.antt =====
-- src/supervisor.c: several pipes at once, each copied into a file of its own.
use sandals.Prelude.{
  ℕ, zero, suc, ◌≤◌, ◌<◌, ◌≡◌, ◌≢◌, ◌⊎◌, refl, sym, ◌∙◌, Bool, true, false, ◌&&◌, ◌||◌, List, [],
  ◌∷◌, Option, none, some, arith, length, ltb,
}
use sandals.Os.{Trace, written, taken, calls_on, interrupts, taken_same}
use sandals.Sink.Copy.{IsIdle}
use sandals.Supervisor.{Channel}
use sandals.Supervisor.Settle.{CopiedAt, Copied}
use sandals.Supervisor.Drain.{Frame}

-- The pipe, the file it goes to, and the bytes that the file may take.
pub record Plan : Type 0 where
  pub pipe : ℕ
  pub file : ℕ
  pub total : ℕ

-- No plan reads from the pipe `i`.
abbrev pub NoPipe : ℕ → List Plan → Type 0
NoPipe i [] = Unit
NoPipe i (q ∷ ps) = (i ≢ q.pipe) × NoPipe i ps

-- No plan writes to the file `f`.
abbrev pub NoFile : ℕ → List Plan → Type 0
NoFile f [] = Unit
NoFile f (q ∷ ps) = (f ≢ q.file) × NoFile f ps

abbrev pub AllApart : List Plan → Type 0
AllApart [] = Unit
AllApart (p ∷ ps) = NoPipe p.pipe ps × NoFile p.file ps × AllApart ps

abbrev pub AllBelow : ℕ → List Plan → Type 0
AllBelow rounds [] = Unit
AllBelow rounds (p ∷ ps) = (p.total < rounds) × AllBelow rounds ps

-- Each channel copies by its plan.
abbrev pub AllCopied : List Plan → List Channel → Trace → Type 0
AllCopied [] [] t = Unit
AllCopied (p ∷ ps) (c ∷ cs) t = Copied p.pipe p.file p.total c t × AllCopied ps cs t
AllCopied _ _ t = ⊥

abbrev pub is_open : Channel → Bool
is_open c = elim c.fd [ none ↦ false | some _ ↦ true ]

-- Some of the first `n` channels, open in `cs`, has given more than its file may take.
abbrev pub over : ℕ → List Plan → List Channel → Trace → Bool
over (suc n) (p ∷ ps) (c ∷ cs) t =
    over n ps cs t || (is_open c && ltb p.total (length (taken p.pipe t)))
over _ _ _ t = false

abbrev pub IsDone : ℕ → Channel → Trace → Type 0
IsDone i c t = (c.fd ≡ none) ⊎ IsIdle i t

-- The first `n` channels are closed, or the last call found the pipe empty.
abbrev pub AllDone : ℕ → List Plan → List Channel → Trace → Type 0
AllDone (suc n) (p ∷ ps) (c ∷ cs) t = IsDone p.pipe c t × AllDone n ps cs t
AllDone _ _ _ t = Unit

-- Nothing has happened to what the plan is about.
abbrev pub Same : Plan → Trace → Trace → Type 0
Same p t t' = (calls_on p.pipe t' ≡ calls_on p.pipe t) × (written p.file t' ≡ written p.file t)

abbrev pub AllSame : List Plan → Trace → Trace → Type 0
AllSame [] t t' = Unit
AllSame (p ∷ ps) t t' = Same p t t' × AllSame ps t t'

-- What a run leaves alone, besides the pipes and the files of the plans.
pub record Frames (ps : List Plan) (t t' : Trace) : Type 0 where
  pub others : (f : ℕ) → NoFile f ps → written f t' ≡ written f t
  pub untaken : (j : ℕ) → NoPipe j ps → calls_on j t' ≡ calls_on j t
  pub later : interrupts t ≤ interrupts t'

pub same_Frames : (ps : List Plan) (t : Trace) → Frames ps t t
same_Frames ps t = record { others = λ f no. refl; untaken = λ j no. refl; later = omega arith }

-- The channels behind, and then the first one.
pub Frames-Frame :
    (p : Plan) (ps : List Plan) (t u t' : Trace)
    → Frames ps t u
    → Frame p.pipe p.file u t'
    → Frames (p ∷ ps) t t'
Frames-Frame p ps t u t' a b = record {
  others = λ f (ne, nos). b.others f ne ∙ a.others f nos;
  untaken = λ j (ne, nos). b.untaken j ne ∙ a.untaken j nos;
  later = omega (arith, a.later, b.later);
}

pub Frame-AllSame :
    (p : Plan) (ps : List Plan) (t t' : Trace)
    → NoPipe p.pipe ps
    → NoFile p.file ps
    → Frame p.pipe p.file t t'
    → AllSame ps t t'
Frame-AllSame p [] t t' i o f = tt
Frame-AllSame p (q ∷ ps) t t' (i, is) (o, os) f = (
  (f.untaken q.pipe (λ e. i (sym e)), f.others q.file (λ e. o (sym e))),
  Frame-AllSame p ps t t' is os f,
)

CopiedAt-Same :
    (p : Plan) (lim : ℕ) (fd : Option ℕ) (t t' : Trace)
    → Same p t t'
    → CopiedAt p.pipe p.file p.total lim fd t
    → CopiedAt p.pipe p.file p.total lim fd t'
CopiedAt-Same p lim none t t' (c, w) h = rw (w, taken_same p.pipe t t' c) h
CopiedAt-Same p lim (some f) t t' (c, w) h = rw (w, taken_same p.pipe t t' c) h

pub Copied-Same :
    (p : Plan) (c : Channel) (t t' : Trace)
    → Same p t t'
    → Copied p.pipe p.file p.total c t
    → Copied p.pipe p.file p.total c t'
Copied-Same p c t t' s h = record {
  same_file = h.same_file;
  kind = h.kind;
  so_far = CopiedAt-Same p c.sink.limit c.fd t t' s h.so_far;
}

pub AllCopied-AllSame :
    (ps : List Plan) (cs : List Channel) (t t' : Trace)
    → AllSame ps t t'
    → AllCopied ps cs t
    → AllCopied ps cs t'
AllCopied-AllSame [] [] t t' s h = tt
AllCopied-AllSame [] (c ∷ cs) t t' s h = absurd h
AllCopied-AllSame (p ∷ ps) [] t t' s h = absurd h
AllCopied-AllSame (p ∷ ps) (c ∷ cs) t t' (s, ss) (h, hs) =
    (Copied-Same p c t t' s h, AllCopied-AllSame ps cs t t' ss hs)

pub over-AllSame :
    (n : ℕ) (ps : List Plan) (cs : List Channel) (t t' : Trace)
    → AllSame ps t t'
    → over n ps cs t' ≡ over n ps cs t
over-AllSame zero ps cs t t' s = refl
over-AllSame (suc n) [] cs t t' s = refl
over-AllSame (suc n) (p ∷ ps) [] t t' s = refl
over-AllSame (suc n) (p ∷ ps) (c ∷ cs) t t' ((same, w), ss) =
    rw (taken_same p.pipe t t' same, over-AllSame n ps cs t t' ss)

pub AllDone-AllSame :
    (n : ℕ) (ps : List Plan) (cs : List Channel) (t t' : Trace)
    → AllSame ps t t'
    → AllDone n ps cs t
    → AllDone n ps cs t'
AllDone-AllSame zero ps cs t t' s d = tt
AllDone-AllSame (suc n) [] cs t t' s d = tt
AllDone-AllSame (suc n) (p ∷ ps) [] t t' s d = tt
AllDone-AllSame (suc n) (p ∷ ps) (c ∷ cs) t t' ((same, w), ss) (d, ds) =
    (rw same d, AllDone-AllSame n ps cs t t' ss ds)
