-- ===== src/Partial.antt =====
-- The worker of ocaml/src/tools/alba_partial_read_stubs.c, which sends slices of a file over a socket. The system calls are an interface. The fields of the job that do not change are
-- arguments, and offsets and lengths are not negative.
pub mod Loops
pub mod Delivery
use alba.Base.{
  ℕ, zero, suc, ◌+◌, ◌-◌, List, [], ◌∷◌, Bool, true, false, ◌&&◌, Option, none, some, ltb, ◌==◌,
  if◌then◌else◌,
}

pub data Advice : Type 0 where
  random willneed dontneed : Advice

-- The calls; none is -1, of which `errno` tells more. `poll` waits until the socket can be written, and
-- also gives `revents`. `sendfile` is given the offset, which it moves by what it returns.
pub record Kernel : Type 1 where
  pub State : Type 0
  pub errno : State → ℕ
  pub open_ : List ℕ → State → Option ℕ × State
  pub close : ℕ → State → State
  pub fadvise : ℕ → ℕ → ℕ → Advice → State → ℕ × State
  pub sendfile : ℕ → ℕ → ℕ → State → Option ℕ × State
  pub poll : State → (Option ℕ × ℕ) × State
  pub took : State → ℕ

pub record FileSlice : Type 0 where
  pub offset : ℕ
  pub len : ℕ

-- The fields that the worker sets: `result`, where none is -1, and `errno_copy` and `took`, none while
-- they are not set.
pub record JobResult : Type 0 where
  pub result : Option ℕ
  pub errno_copy : Option ℕ
  pub took : Option ℕ

-- How a loop ends: at its end, at a `return`, or not within its fuel.
pub data Ending : Type 0 where
  complete failed looping : Ending

-- What one round of the inner loop sends; none where the worker returns.
abbrev pub Round : Type 0
Round = Option ℕ

module _ (K : Kernel) where
  -- The wait for a socket that would block; POLLOUT is 4.
  unfoldable pub waited : (Option ℕ × ℕ) × K.State → Round × K.State
  waited ((none, revents), s) = (none, s)
  waited ((some r, revents), s) = ((if r == 1 && (revents == 4) then some 0 else none), s)

  -- EAGAIN and EWOULDBLOCK are 11.
  unfoldable pub check_sent : Option ℕ × K.State → Round × K.State
  check_sent (some n, s) = (some n, s)
  check_sent (none, s) = if K.errno s == 11 then waited (K.poll s) else (none, s)

  unfoldable pub next_round :
      ℕ → Round × K.State → (ℕ → K.State → Ending × K.State) → Ending × K.State
  next_round todo (none, s) rest = (Ending.failed, s)
  next_round todo (some n, s) rest = if ltb 0 (todo - n) then rest n s else (Ending.complete, s)

  -- The inner loop, on fuel.
  unfoldable pub send_slice : ℕ → ℕ → ℕ → ℕ → K.State → Ending × K.State
  send_slice zero fd offset todo s = (Ending.looping, s)
  send_slice (suc fuel) fd offset todo s =
      next_round todo (check_sent (K.sendfile fd offset todo s))
        (λ n s'. send_slice fuel fd (offset + n) (todo - n) s')

  unfoldable pub next_slice : Ending × K.State → (K.State → Ending × K.State) → Ending × K.State
  next_slice (Ending.complete, s) rest = rest s
  next_slice (Ending.failed, s) rest = (Ending.failed, s)
  next_slice (Ending.looping, s) rest = (Ending.looping, s)

  unfoldable pub send_slices : ℕ → ℕ → List FileSlice → K.State → Ending × K.State
  send_slices fuel fd [] s = (Ending.complete, s)
  send_slices fuel fd (x ∷ xs) s =
      next_slice (send_slice fuel fd x.offset x.len s) (send_slices fuel fd xs)

  -- The loops of advice: the first code that is not 0.
  unfoldable pub next_advice : ℕ × K.State → (K.State → ℕ × K.State) → ℕ × K.State
  next_advice (zero, s) rest = rest s
  next_advice (suc r, s) rest = (suc r, s)

  unfoldable pub advise : ℕ → Advice → List FileSlice → K.State → ℕ × K.State
  advise fd advice [] s = (0, s)
  advise fd advice (x ∷ xs) s =
      next_advice (K.fadvise fd x.offset x.len advice s) (advise fd advice xs)

  abbrev pub fails : ℕ → K.State → Option JobResult × K.State
  fails fd s =
      (some (record { result = none; errno_copy = some (K.errno s); took = none }), K.close fd s)

  -- Where advice was refused, the worker returns with its code as the result.
  unfoldable pub advised :
      ℕ → ℕ × K.State → (K.State → Option JobResult × K.State) → Option JobResult × K.State
  advised fd (zero, s) rest = rest s
  advised fd (suc r, s) rest = (
    some (record { result = some (suc r); errno_copy = some (suc r); took = none }),
    K.close fd s,
  )

  unfoldable pub finish : ℕ → K.State → Option JobResult × K.State
  finish fd s =
      let s' = K.close fd s in
      (some (record { result = some 0; errno_copy = none; took = some (K.took s') }), s')

  unfoldable pub after_sending :
      Bool → ℕ → List FileSlice → Ending × K.State → Option JobResult × K.State
  after_sending use_fadvise fd slices (Ending.complete, s) =
      if use_fadvise
      then advised fd (advise fd Advice.dontneed slices s) (finish fd)
      else finish fd s
  after_sending use_fadvise fd slices (Ending.failed, s) = fails fd s
  after_sending use_fadvise fd slices (Ending.looping, s) = (none, s)

  unfoldable pub opened :
      ℕ → Bool → List FileSlice → Option ℕ × K.State → Option JobResult × K.State
  opened fuel use_fadvise slices (none, s) =
      (some (record { result = none; errno_copy = some (K.errno s); took = none }), s)
  opened fuel use_fadvise slices (some fd, s) =
      let send : K.State → Option JobResult × K.State =
        λ t. after_sending use_fadvise fd slices (send_slices fuel fd slices t) in
      if use_fadvise
      then advised fd
          (next_advice (K.fadvise fd 0 0 Advice.random s) (advise fd Advice.willneed slices)) send
      else send s

  unfoldable pub worker_partial_read :
      ℕ → Bool → List ℕ → List FileSlice → K.State → Option JobResult × K.State
  worker_partial_read fuel use_fadvise path slices s =
      opened fuel use_fadvise slices (K.open_ path s)

-- What the caller gets: an error with its number, or the time; each may not have been set.
pub data Reply : Type 0 where
  unix_error : Option ℕ → Reply
  time_taken : Option ℕ → Reply

unfoldable pub result_partial_read : JobResult → Reply
result_partial_read j = elim j.result [
  | none ↦ unix_error j.errno_copy
  | some r ↦ time_taken j.took
]
