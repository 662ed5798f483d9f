-- ===== src/Partial/Loops.antt =====
-- About the loops that send, over a socket that may have to be waited for.
use mathlib.Core.Option.{none-ne-some}
use mathlib.Core.Bool.{true≢false}
use alba.Base.{
  ℕ, zero, suc, ◌+◌, ◌-◌, ◌≤◌, ◌<◌, ◌≡◌, refl, subst, sym, ap, ◌∙◌, List, [], ◌∷◌, ◌++◌,
  append_assoc, append-nil, Bool, false, Bool-cases, All, Option, none, some, length, take, drop,
  drop-add, take-take-drop, ◌≢◌, inl, inr, ltb, lt→ltb, ltb→lt, le_of_ltb-false, ==_false, ◌==◌,
  ◌⊎◌, ◌&&◌, arith,
}
use alba.Partial.{
  Advice, Kernel, Round, Ending, FileSlice, waited, check_sent, next_round, send_slice, next_slice,
  send_slices,
}

-- A file descriptor of a file with these bytes, and a socket, which may block or not. Reading from inside
-- the file sends at least a byte. `waits` bounds how often the socket will still not be ready for more;
-- after a wait it is, unless the connection failed, which is the only other way for a call to fail.
pub record IsSocket (K : Kernel) (fd : ℕ) (file : List ℕ) : Type 1 where
  pub sent : K.State → List ℕ
  pub waits : K.State → ℕ
  pub HasFailed : K.State → Type 0
  pub sendfile-some :
      (offset count : ℕ) (s : K.State) (n : ℕ)
      → (K.sendfile fd offset count s).0 ≡ some n
      → (sent (K.sendfile fd offset count s).1 ≡ sent s ++ take n (drop offset file))
        × ((n ≤ count)
            × ((offset + count ≤ length file → 1 ≤ count → 1 ≤ n)
                × (waits (K.sendfile fd offset count s).1 ≤ waits s)))
  pub sendfile-none :
      (offset count : ℕ) (s : K.State)
      → (K.sendfile fd offset count s).0 ≡ none
      → ((K.errno (K.sendfile fd offset count s).1 ≡ 11)
          × ((sent (K.sendfile fd offset count s).1 ≡ sent s)
              × (waits (K.sendfile fd offset count s).1 < waits s)))
        ⊎ ((K.errno (K.sendfile fd offset count s).1 ≢ 11)
            × HasFailed (K.sendfile fd offset count s).1)
  pub poll-ready : (s : K.State) → ((K.poll s).0 ≡ (some 1, 4)) ⊎ HasFailed (K.poll s).1
  pub poll-keeps : (s : K.State) → (sent (K.poll s).1 ≡ sent s) × (waits (K.poll s).1 ≤ waits s)
  pub fadvise-keeps :
      (offset count : ℕ) (advice : Advice) (s : K.State)
      → (sent (K.fadvise fd offset count advice s).1 ≡ sent s)
        × (waits (K.fadvise fd offset count advice s).1 ≤ waits s)
  pub open-keeps :
      (path : List ℕ) (s : K.State)
      → (sent (K.open_ path s).1 ≡ sent s) × (waits (K.open_ path s).1 ≤ waits s)
  pub sent-close : (s : K.State) → sent (K.close fd s) ≡ sent s
  pub HasFailed-close : (s : K.State) → HasFailed s → HasFailed (K.close fd s)

abbrev pub IsInside : List ℕ → FileSlice → Type 0
IsInside file x = x.offset + x.len ≤ length file

abbrev pub slice_of : List ℕ → FileSlice → List ℕ
slice_of file x = take x.len (drop x.offset file)

abbrev pub slices_of : List ℕ → List FileSlice → List ℕ
slices_of file [] = []
slices_of file (x ∷ xs) = slice_of file x ++ slices_of file xs

module _ (K : Kernel) (fd : ℕ) (file : List ℕ) (I : IsSocket K fd file) where
  -- The loop ended with all bytes sent, unless the connection failed; the socket will be not ready at
  -- most so often from then on.
  abbrev pub Sends : List ℕ → ℕ → Ending × K.State → Type 0
  Sends bytes w (Ending.complete, s) = (I.sent s ≡ bytes) × (I.waits s ≤ w)
  Sends bytes w (Ending.failed, s) = I.HasFailed s
  Sends bytes w (Ending.looping, s) = ⊥

  Sends-next_slice :
      (bytes bytes' : List ℕ) (w : ℕ) (r : Ending × K.State) (rest : K.State → Ending × K.State)
      → Sends bytes w r
      → ((s : K.State) → I.sent s ≡ bytes → I.waits s ≤ w → Sends bytes' w (rest s))
      → Sends bytes' w (next_slice K r rest)
  unfolding next_slice
  Sends-next_slice bytes bytes' w (Ending.complete, s) rest (h, k) f = f s h k
  Sends-next_slice bytes bytes' w (Ending.failed, s) rest h f = h
  Sends-next_slice bytes bytes' w (Ending.looping, s) rest h f = absurd h

  -- One round: a byte at least was sent, or a wait was used up, or the worker gives up.
  abbrev HasSent : List ℕ → ℕ → ℕ → ℕ → Round × K.State → Type 0
  HasSent before w offset todo (none, s) = I.HasFailed s
  HasSent before w offset todo (some n, s) =
      (I.sent s ≡ before ++ take n (drop offset file))
      × ((n ≤ todo) × ((I.waits s ≤ w) × (1 ≤ todo → I.waits s + 1 ≤ w + n)))

  is_one : Option ℕ → Bool
  is_one none = false
  is_one (some r) = r == 1

  -- A wait sends nothing.
  waited-HasSent :
      (before : List ℕ) (w offset todo : ℕ) (r : (Option ℕ × ℕ) × K.State)
      → (r.0 ≡ (some 1, 4)) ⊎ I.HasFailed r.1
      → I.sent r.1 ≡ before
      → I.waits r.1 < w
      → HasSent before w offset todo (waited K r)
  unfolding waited is_one
  waited-HasSent before w offset todo ((none, revents), s) (inl e) h l =
      absurd (none-ne-some 1 (ap (λ p. p.0) e))
  waited-HasSent before w offset todo ((none, revents), s) (inr down) h l = down
  waited-HasSent before w offset todo ((some r, revents), s) ready h l =
      let again : HasSent before w offset todo (some 0, s) =
        (h ∙ sym (append-nil before), (omega arith, (omega (arith, l), λ c. omega (arith, l)))) in
      elim (Bool-cases (r == 1 && (revents == 4))) [
        | inl b ↦ rw b again
        | inr b ↦ rw b (elim ready [
          | inl e ↦ absurd (true≢false (sym (ap (λ p. is_one p.0 && (p.1 == 4)) e) ∙ b))
          | inr down ↦ down
        ])
      ]

  check_sent-HasSent :
      (offset todo : ℕ) (s : K.State) (r : Option ℕ × K.State)
      → K.sendfile fd offset todo s ≡ r
      → offset + todo ≤ length file
      → HasSent (I.sent s) (I.waits s) offset todo (check_sent K r)
  unfolding check_sent
  check_sent-HasSent offset todo s (some n, s') e inside =
      let (h, (l, (p, w))) = I.sendfile-some offset todo s n (ap (λ r. r.0) e) in
      let w' : I.waits s' ≤ I.waits s = subst (λ r. I.waits r.1 ≤ I.waits s) e w in
      (ap (λ r. I.sent r.1) (sym e) ∙ h, (l, (w', λ c. omega (arith, w', p inside c))))
  check_sent-HasSent offset todo s (none, s') e inside =
      elim (I.sendfile-none offset todo s (ap (λ r. r.0) e)) [
        | inl (again, (h, w)) ↦
            let errno : K.errno s' ≡ 11 = ap (λ r. K.errno r.1) (sym e) ∙ again in
            let w' : I.waits s' < I.waits s = subst (λ r. I.waits r.1 < I.waits s) e w in
            let (k, v) = I.poll-keeps s' in
            rw errno (
              waited-HasSent (I.sent s) (I.waits s) offset todo (K.poll s') (I.poll-ready s')
                (k ∙ ap (λ r. I.sent r.1) (sym e) ∙ h) (omega (arith, w', v)))
        | inr (other, down) ↦
            let ne : K.errno s' ≢ 11 = λ z. other (ap (λ r. K.errno r.1) e ∙ z) in
            rw (==_false (K.errno s') 11 ne) (subst (λ r. I.HasFailed r.1) e down)
      ]

  Sends-next_round :
      (before : List ℕ) (w offset todo : ℕ) (r : Round × K.State)
      (rest : ℕ → K.State → Ending × K.State)
      → HasSent before w offset todo r
      → ((n : ℕ) (s : K.State)
          → n < todo
          → I.waits s ≤ w
          → I.waits s + 1 ≤ w + n
          → I.sent s ≡ before ++ take n (drop offset file)
          → Sends (before ++ take todo (drop offset file)) w (rest n s))
      → Sends (before ++ take todo (drop offset file)) w (next_round K todo r rest)
  unfolding next_round
  Sends-next_round before w offset todo (none, s) rest h f = h
  Sends-next_round before w offset todo (some n, s) rest (h, (l, (v, p))) f =
      elim (Bool-cases (ltb 0 (todo - n))) [
        | inl b ↦
            let g = ltb→lt 0 (todo - n) b in
            rw b (f n s (omega (arith, g)) v (p (omega (arith, g))) h)
        | inr b ↦
            let e : n ≡ todo = omega (arith, l, le_of_ltb-false 0 (todo - n) b) in
            rw b (rw (← e) h, v)
      ]

  joined :
      (n todo offset : ℕ)
      → n < todo
      → take n (drop offset file) ++ take (todo - n) (drop (offset + n) file)
        ≡ take todo (drop offset file)
  joined n todo offset l =
      let e : n + (todo - n) ≡ todo = omega (arith, l) in
      rw (drop-add offset n file, ← take-take-drop n (todo - n) (drop offset file), e) refl

  Sends-fewer :
      (bytes : List ℕ) (v w : ℕ) (r : Ending × K.State) → v ≤ w → Sends bytes v r → Sends bytes w r
  Sends-fewer bytes v w (Ending.complete, s) l (h, k) = (h, omega (arith, l, k))
  Sends-fewer bytes v w (Ending.failed, s) l h = h
  Sends-fewer bytes v w (Ending.looping, s) l h = absurd h

  send_slice-Sends :
      (fuel offset todo : ℕ) (s : K.State)
      → todo + I.waits s < fuel
      → offset + todo ≤ length file
      → Sends
          (I.sent s ++ take todo (drop offset file))
          (I.waits s)
          (send_slice K fuel fd offset todo s)
  unfolding send_slice
  send_slice-Sends zero offset todo s f inside = absurd (omega (arith, f))
  send_slice-Sends (suc fuel) offset todo s f inside =
      Sends-next_round (I.sent s) (I.waits s) offset todo
        (check_sent K (K.sendfile fd offset todo s))
        (λ n s'. send_slice K fuel fd (offset + n) (todo - n) s')
        (check_sent-HasSent offset todo s _ refl inside)
        λ n s' l v p h.
          subst (λ bytes. Sends bytes (I.waits s) (send_slice K fuel fd (offset + n) (todo - n) s'))
            (ap (λ xs. xs ++ take (todo - n) (drop (offset + n) file)) h
              ∙ append_assoc (I.sent s) _ _
              ∙ ap (◌++◌ (I.sent s)) (joined n todo offset l))
            (Sends-fewer _ (I.waits s') (I.waits s) _ v (
              send_slice-Sends fuel (offset + n) (todo - n) s' (omega (arith, f, p, l))
                (omega (arith, inside, l))))

  pub send_slices-Sends :
      (fuel w : ℕ) (xs : List FileSlice) (s : K.State)
      → All (λ x. IsInside file x × (x.len + w < fuel)) xs
      → I.waits s ≤ w
      → Sends (I.sent s ++ slices_of file xs) w (send_slices K fuel fd xs s)
  unfolding send_slices
  send_slices-Sends fuel w [] s h l = (sym (append-nil (I.sent s)), l)
  send_slices-Sends fuel w (x ∷ xs) s ((inside, f), h) l =
      Sends-next_slice (I.sent s ++ slice_of file x) _ w _ (send_slices K fuel fd xs)
        (Sends-fewer _ (I.waits s) w _ l
          (send_slice-Sends fuel x.offset x.len s (omega (arith, f, l)) inside))
        λ s' e v.
          subst (λ bytes. Sends bytes w (send_slices K fuel fd xs s'))
            (ap (λ b. b ++ slices_of file xs) e ∙ append_assoc (I.sent s) _ _)
            (send_slices-Sends fuel w xs s' h v)

-- Past the end of the file `sendfile` sends nothing, and the loop goes on for ever.
pub send_slice-looping :
    (K : Kernel) (fd offset todo : ℕ) (s : K.State)
    → K.sendfile fd offset (suc todo) s ≡ (some 0, s)
    → (fuel : ℕ) → send_slice K fuel fd offset (suc todo) s ≡ (Ending.looping, s)
unfolding send_slice next_round check_sent
send_slice-looping K fd offset todo s h zero = refl
send_slice-looping K fd offset todo s h (suc fuel) =
    let e : offset + 0 ≡ offset = omega arith in
    let left : suc todo - 0 ≡ suc todo = omega arith in
    rw (h, e, left, lt→ltb 0 (suc todo) (omega arith))
      (send_slice-looping K fd offset todo s h fuel)
