-- ===== src/Rdma/Sending.antt =====
-- About `write_exact`, over sockets that are streams.
use alba.Base.{
  ℕ, zero, suc, ◌+◌, ◌-◌, ◌≤◌, ◌<◌, ◌^◌, ◌≡◌, refl, sym, ap, ◌∙◌, List, [], ◌∷◌, ◌++◌, append_assoc,
  append-nil, false, ◌&&◌, Option, none, some, ◌⊎◌, inl, inr, length, take, take-length,
  take-take-drop, drop, length-drop, ltb, ==_false, leb-false, arith,
}
use alba.Exec.{pure}
use alba.Exec.Triples.{
  Triple-given, Ends, Triple, Triple-weaken, Triple-pure, Triple-raise, Triple-gets, Triple-if,
  Triple-bind,
}
use alba.Rdma.{
  Event, Rsocket, RdmaTransport, is_positive, milliseconds, time_remaining, check_poll, check_sent,
  write_rounds, write_exact,
}
use alba.Rdma.Streams.{IsStream, Triple-on_socket, complete_or_IsLate, IsLate, goes_on}

module _ (S : Rsocket) (I : IsStream S) where
  -- The bytes that were taken end with this part of the buffer.
  abbrev pub HasTaken : List ℕ → RdmaTransport S → Type 0
  HasTaken bytes c = I.taken c.socket ≡ bytes

  abbrev Sent : List ℕ → List ℕ → Option ℕ → RdmaTransport S → Type 0
  Sent base rest none c = HasTaken base c
  Sent base rest (some n) c = HasTaken (base ++ take n rest) c × ((1 ≤ n) × (n ≤ length rest))

  abbrev pub AllSent : List ℕ → List ℕ → ℕ → RdmaTransport S → Type 0
  AllSent base rest n c =
      HasTaken (base ++ take n rest) c × ((n ≤ length rest) × ((n ≡ length rest) ⊎ IsLate S c))

  abbrev pub Broken : List ℕ → List ℕ → RdmaTransport S → Type 0
  Broken base rest c = (n : ℕ) × HasTaken (base ++ take n rest) c

  module _ (base rest : List ℕ) where
    at_once : (c : RdmaTransport S) → HasTaken base c → Broken base rest c
    at_once c h = (0, h ∙ sym (append-nil base))

    check_poll-Triple :
        (rc : Option ℕ)
        → Triple (HasTaken base) (check_poll S rc) (λ u. HasTaken base) (Broken base rest)
    unfolding check_poll
    check_poll-Triple none = Triple-raise _ at_once
    check_poll-Triple (some zero) = Triple-raise _ at_once
    check_poll-Triple (some (suc n)) = Triple-pure tt (λ c h. h)

    check_sent-Triple :
        (o : Option ℕ)
        → Triple
            (Sent base rest o)
            (check_sent S o)
            (λ n. Sent base rest (some n))
            (Broken base rest)
    unfolding check_sent
    check_sent-Triple none = Triple-raise _ at_once
    check_sent-Triple (some n) = Triple-pure n (λ c h. h)

    rsend-Sent :
        (c : RdmaTransport S) (o : Option ℕ)
        → 1 ≤ length rest
        → HasTaken base c
        → (S.rsend rest c.socket).0 ≡ o
        → Sent base rest o (record c { socket = (S.rsend rest c.socket).1 })
    rsend-Sent c none p h e = I.rsend-none rest c.socket e ∙ h
    rsend-Sent c (some n) p h e =
        let (k, l) = I.rsend-some rest c.socket n e p in (k ∙ ap (λ xs. xs ++ take n rest) h, l)

  -- After one round: the rest is sent, or none is left, or it is late.
  module _ (base rest : List ℕ) (n : ℕ) where
    joined : (m : ℕ) → (base ++ take n rest) ++ take m (drop n rest) ≡ base ++ take (n + m) rest
    joined m = append_assoc base (take n rest) _ ∙ ap (◌++◌ base) (sym (take-take-drop n m rest))

    AllSent-drop :
        (m : ℕ) (c : RdmaTransport S)
        → n ≤ length rest
        → AllSent (base ++ take n rest) (drop n rest) m c
        → AllSent base rest (n + m) c
    AllSent-drop m c l (h, (k, e)) =
        let d = length-drop n rest in
        (
          h ∙ joined m,
          (
            omega (arith, d, k, l),
            elim e [ inl f ↦ inl (omega (arith, d, f, l)) | inr late ↦ inr late ],
          ),
        )

    Broken-drop :
        (c : RdmaTransport S) → Broken (base ++ take n rest) (drop n rest) c → Broken base rest c
    Broken-drop c (m, h) = (n + m, h ∙ joined m)

    AllSent-last :
        (c : RdmaTransport S) (t : ℕ)
        → Sent base rest (some n) c
        → t ≡ time_remaining S c
        → (ltb 0 (length rest - n) && is_positive t) ≡ false
        → AllSent base rest n c
    AllSent-last c t (h, (p, l)) e d = (h, (l, complete_or_IsLate S n (length rest) c t l e d))

  write_rounds-AllSent :
      (fuel t : ℕ) (base rest : List ℕ)
      → length rest ≤ fuel
      → 1 ≤ length rest
      → Triple
          (HasTaken base)
          (write_rounds S fuel rest t)
          (λ u c. (n : ℕ) × AllSent base rest n c)
          (Broken base rest)
  unfolding write_rounds
  write_rounds-AllSent zero t base rest f p = absurd (omega (arith, f, p))
  write_rounds-AllSent (suc fuel) t base rest f p =
      Triple-bind
        (Triple-on_socket S _ (λ c h. I.rpoll-taken Event.pollout (milliseconds t) c.socket ∙ h))
        λ rc. Triple-bind (check_poll-Triple base rest rc) λ u.
          Triple-bind
            (Triple-on_socket S {Q = Sent base rest} (S.rsend rest)
              (λ c h. rsend-Sent base rest c _ p h refl))
            λ o. Triple-bind (check_sent-Triple base rest o) λ n.
              Triple-bind
                (Triple-gets {Q = λ t' c. Sent base rest (some n) c × (t' ≡ time_remaining S c)}
                  (time_remaining S) (λ c h. (h, refl)))
                λ t'. Triple-given λ c0 ((h0, (p0, l0)), e0).
                  Triple-if _
                    (λ b.
                      Triple-weaken (λ c ((h, k), e). h)
                        (λ u c (m, h). (n + m, AllSent-drop base rest n m c l0 h))
                        (λ c h. Broken-drop base rest n c h)
                        (write_rounds-AllSent fuel t' (base ++ take n rest) (drop n rest)
                          (omega (arith, length-drop n rest, f, p0))
                          (rw (length-drop n rest) (goes_on (length rest - n) (is_positive t') b))))
                    (λ b. Triple-pure tt (λ c (h, e). (n, AllSent-last base rest n c t' h e b)))

  -- Writing a buffer of less than 2^31 bytes: it returns with the bytes at the front of the buffer
  -- taken by the socket, in order and once, all of them unless the deadline has passed, and where it
  -- throws a part at the front was taken.
  pub write_exact-Delivers :
      (buf : List ℕ) (c : RdmaTransport S)
      → length buf < 2 ^ 31
      → Ends
          (λ u c'. (n : ℕ) × AllSent (I.taken c.socket) buf n c')
          (Broken (I.taken c.socket) buf)
          (write_exact S buf (length buf) c)
  unfolding write_exact pure
  write_exact-Delivers [] c h = (0, (sym (append-nil _), (omega arith, inl refl)))
  write_exact-Delivers (b ∷ bs) c h =
      rw
        (
          ==_false (length (b ∷ bs)) 0 (λ z. omega (arith, z)),
          leb-false (2 ^ 31) (length (b ∷ bs)) h,
          take-length (b ∷ bs),
        )
        ((Triple-bind (Triple-gets (time_remaining S) (λ c h. h)) λ t.
            write_rounds-AllSent (length (b ∷ bs)) t (I.taken c.socket) (b ∷ bs) (omega arith)
              (omega arith)).at
          c refl)
