-- ===== src/Partial/Delivery.antt =====
-- About what the worker reports.
use alba.Base.{
  ℕ, zero, suc, ◌+◌, ◌≤◌, ◌<◌, arith, ◌≡◌, refl, subst, ◌∙◌, List, [], ◌∷◌, ◌++◌, Bool, true, false,
  All, Option, none, some,
}
use alba.Partial.{
  Advice, JobResult, time_taken, result_partial_read, next_advice, advise, advised, finish,
  after_sending, opened, worker_partial_read, Kernel, Ending, FileSlice, send_slices,
}
use alba.Partial.Loops.{IsSocket, IsInside, slices_of, Sends, send_slices-Sends}

module _ (K : Kernel) (fd : ℕ) (file : List ℕ) (I : IsSocket K fd file) where
  -- How a job that had its file open ends: with 0 the bytes were sent, below 0 the connection failed,
  -- and above 0 advice was refused, which the caller takes for a time that was not set.
  abbrev Reported : List ℕ → Option ℕ → JobResult → K.State → Type 0
  Reported bytes none j s = I.HasFailed s
  Reported bytes (some zero) j s = I.sent s ≡ bytes
  Reported bytes (some (suc r)) j s = result_partial_read j ≡ time_taken none

  abbrev pub Reports : List ℕ → Option JobResult × K.State → Type 0
  Reports bytes (none, s) = ⊥
  Reports bytes (some j, s) = Reported bytes j.result j s

  -- What advice keeps.
  abbrev Kept : List ℕ → ℕ → K.State → Type 0
  Kept bytes w s = (I.sent s ≡ bytes) × (I.waits s ≤ w)

  Kept-next_advice :
      (bytes : List ℕ) (w : ℕ) (r : ℕ × K.State) (rest : K.State → ℕ × K.State)
      → Kept bytes w r.1
      → ((s : K.State) → Kept bytes w s → Kept bytes w (rest s).1)
      → Kept bytes w (next_advice K r rest).1
  unfolding next_advice
  Kept-next_advice bytes w (zero, s) rest h f = f s h
  Kept-next_advice bytes w (suc r, s) rest h f = h

  Kept-fadvise :
      (bytes : List ℕ) (w offset len : ℕ) (advice : Advice) (s : K.State)
      → Kept bytes w s
      → Kept bytes w (K.fadvise fd offset len advice s).1
  Kept-fadvise bytes w offset len advice s (h, l) =
      let (k, v) = I.fadvise-keeps offset len advice s in (k ∙ h, omega (arith, l, v))

  Kept-advise :
      (bytes : List ℕ) (w : ℕ) (advice : Advice) (xs : List FileSlice) (s : K.State)
      → Kept bytes w s
      → Kept bytes w (advise K fd advice xs s).1
  unfolding advise
  Kept-advise bytes w advice [] s h = h
  Kept-advise bytes w advice (x ∷ xs) s h =
      Kept-next_advice bytes w _ (advise K fd advice xs)
        (Kept-fadvise bytes w x.offset x.len advice s h)
        (λ s' k. Kept-advise bytes w advice xs s' k)

  Reports-advised :
      (bytes : List ℕ) (r : ℕ × K.State) (rest : K.State → Option JobResult × K.State)
      → (r.0 ≡ 0 → Reports bytes (rest r.1))
      → Reports bytes (advised K fd r rest)
  unfolding advised result_partial_read
  Reports-advised bytes (zero, s) rest f = f refl
  Reports-advised bytes (suc r, s) rest f = refl

  Reports-finish : (bytes : List ℕ) (s : K.State) → I.sent s ≡ bytes → Reports bytes (finish K fd s)
  unfolding finish
  Reports-finish bytes s h = I.sent-close s ∙ h

  Reports-after_sending :
      (bytes : List ℕ) (w : ℕ) (use_fadvise : Bool) (xs : List FileSlice) (r : Ending × K.State)
      → Sends K fd file I bytes w r
      → Reports bytes (after_sending K use_fadvise fd xs r)
  unfolding after_sending
  Reports-after_sending bytes w true xs (Ending.complete, s) h =
      Reports-advised bytes _ (finish K fd)
        (λ e. Reports-finish bytes _ (Kept-advise bytes w Advice.dontneed xs s h).0)
  Reports-after_sending bytes w false xs (Ending.complete, s) h = Reports-finish bytes s h.0
  Reports-after_sending bytes w b xs (Ending.failed, s) h = I.HasFailed-close s h
  Reports-after_sending bytes w b xs (Ending.looping, s) h = absurd h

  Reports-sent :
      (fuel w : ℕ) (use_fadvise : Bool) (bytes : List ℕ) (xs : List FileSlice) (s : K.State)
      → All (λ x. IsInside file x × (x.len + w < fuel)) xs
      → Kept bytes w s
      → Reports
          (bytes ++ slices_of file xs)
          (after_sending K use_fadvise fd xs (send_slices K fuel fd xs s))
  Reports-sent fuel w use_fadvise bytes xs s h (e, l) = Reports-after_sending _ w use_fadvise xs _ (
      subst (λ b. Sends K fd file I (b ++ slices_of file xs) w (send_slices K fuel fd xs s)) e
        (send_slices-Sends K fd file I fuel w xs s h l))

  opened-Reports :
      (fuel w : ℕ) (use_fadvise : Bool) (bytes : List ℕ) (xs : List FileSlice) (s : K.State)
      → All (λ x. IsInside file x × (x.len + w < fuel)) xs
      → Kept bytes w s
      → Reports (bytes ++ slices_of file xs) (opened K fuel use_fadvise xs (some fd, s))
  unfolding opened
  opened-Reports fuel w true bytes xs s h k = Reports-advised _ _ _ (λ e.
      Reports-sent fuel w true bytes xs _ h (
        Kept-next_advice bytes w _ (advise K fd Advice.willneed xs)
          (Kept-fadvise bytes w 0 0 Advice.random s k)
          (λ s' k. Kept-advise bytes w Advice.willneed xs s' k)))
  opened-Reports fuel w false bytes xs s h k = Reports-sent fuel w false bytes xs s h k

  -- Where the file opens and the slices lie inside it, over a socket that is not ready only so often:
  -- the worker ends, with as many rounds as fuel as a slice has bytes and the socket is not ready, and
  -- one more. It reports 0 only with the bytes of all slices sent in order and once, and an error only
  -- where the connection failed; where advice was refused, the caller is given a time that was not set.
  pub worker_partial_read-Reports :
      (fuel : ℕ) (use_fadvise : Bool) (path : List ℕ) (xs : List FileSlice) (s s' : K.State)
      → K.open_ path s ≡ (some fd, s')
      → All (λ x. IsInside file x × (x.len + I.waits s < fuel)) xs
      → Reports (I.sent s ++ slices_of file xs) (worker_partial_read K fuel use_fadvise path xs s)
  unfolding worker_partial_read
  worker_partial_read-Reports fuel use_fadvise path xs s s' o h = rw o (
      opened-Reports fuel (I.waits s) use_fadvise (I.sent s) xs s' h
        (subst (λ r. Kept (I.sent s) (I.waits s) r.1) o (I.open-keeps path s)))
