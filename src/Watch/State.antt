-- ===== src/Watch/State.antt =====
-- src/supervisor.c: the state of the supervisor, and how events and messages change it.
use sandals.Prelude.{
  ℕ, ◌+◌, ◌-◌, Bool, true, false, List, [], ◌∷◌, ◌++◌, Bytes, Option, none, some, length, take,
  get_elem?, map, ◌==◌,
}
use sandals.Os.{M, pure}
use sandals.Response.{Response, empty, append_raw, append_esc}
use sandals.Fail.{Status, status_text, opening, closing}
use sandals.Pipes.{copyfile}
use sandals.Supervisor.{Channel}

-- `revents` of the first four entries of `pollfd`.
pub record Revents : Type 0 where
  pub memory_events : Bool
  pub pids_events : Bool
  pub timer : Bool
  pub spawner_out : Bool

-- `npollfd` counts the entries of `pollfd` that are polled, of which the first four are not pipes;
-- the arrays `sink` and the rest of `pollfd` are the channels, and `npipe` is their number.
pub record Supervisor : Type 0 where
  pub exiting : Bool
  pub ncopyfile : ℕ
  pub npollfd : ℕ
  pub memory_fd : Option ℕ
  pub pids_fd : Option ℕ
  pub timer_fd : ℕ
  pub spawnerout_fd : ℕ
  pub revents : Revents
  pub channels : List Channel
  pub response : Response

abbrev pub pipe0_index : ℕ
pipe0_index = 4

-- The response that a verdict leaves: `size = 0` and three appends.
unfoldable pub verdict : Status → Response
verdict status = append_raw (append_esc (append_raw empty opening) (status_text status)) closing

-- The entries that `poll` is given.
abbrev pub pollfds : Supervisor → List (Option ℕ)
pollfds s =
    s.memory_fd
    ∷ s.pids_fd
    ∷ some s.timer_fd
    ∷ some s.spawnerout_fd
    ∷ map (λ c. c.fd) (take (s.npollfd - pipe0_index) s.channels)

-- Whether the entry `i` has events.
abbrev has_event : List Bool → ℕ → Bool
has_event events i = elim (get_elem? events i) [ none ↦ false | some b ↦ b ]

mark_channels : List Bool → List Channel → List Channel
mark_channels (b ∷ bs) (c ∷ cs) = record c { revents = b } ∷ mark_channels bs cs
mark_channels _ cs = cs

-- `poll` has stored the events in `pollfd`.
unfoldable pub mark : List Bool → Supervisor → Supervisor
unfolding mark_channels
mark (m ∷ p ∷ t ∷ o ∷ events) s = record s {
  revents = record { memory_events = m; pids_events = p; timer = t; spawner_out = o };
  channels = mark_channels events s.channels;
}
mark _ s = s

-- The descriptors of the pipes arrive.
unfoldable pub attach : List ℕ → List Channel → List Channel
attach (f ∷ fs) (c ∷ cs) = record c { fd = some f; revents = false } ∷ attach fs cs
attach _ cs = cs

abbrev is_copyfile : Channel → ℕ
is_copyfile c = elim c.sink.pipe.type [ copyfile ↦ 1 | _ ↦ 0 ]

unfoldable pub count_copyfile : List Channel → ℕ
count_copyfile [] = 0
count_copyfile (c ∷ cs) = is_copyfile c + count_copyfile cs

-- The descriptors are stored, and the pipes polled from now on. The spawner sends them once, so
-- that `ncopyfile` stays below the number of pipes.
unfoldable pub take_rights : List ℕ → Supervisor → Supervisor
unfolding attach count_copyfile
take_rights fds s =
    let ncopyfile = s.ncopyfile + count_copyfile s.channels in
    record s {
      channels = attach fds s.channels;
      ncopyfile = ncopyfile;
      npollfd = pipe0_index + length s.channels - ncopyfile;
    }

-- `s->response.size += rc`, behind which the bytes have been stored.
unfoldable pub take_body : Bytes → Supervisor → Supervisor
take_body body s = record s {
  response = record { size = s.response.size + length body; buf = s.response.buf ++ body };
}

-- `buf[size-1] == '\n'`.
abbrev pub ends_line : Response → Bool
ends_line r = elim (get_elem? r.buf (r.size - 1)) [ none ↦ false | some c ↦ c == b'\n' ]

-- What a check leaves: the state, and whether the loop is left.
abbrev pub Checked : Type 0
Checked = Supervisor × Bool

-- The body of a message that is not empty, and no descriptors with it.
abbrev pub received_text : Bytes → Supervisor → Checked
received_text body s = let s' = take_body body s in (s', ends_line s'.response)

-- The next check, unless this one leaves the loop.
abbrev pub otherwise : (Supervisor → M Checked) → Checked → M Checked
otherwise next (s, true) = pure (s, true)
otherwise next (s, false) = next s
