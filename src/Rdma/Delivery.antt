-- ===== src/Rdma/Delivery.antt =====
-- About `read_exact`, over sockets that are streams.
use alba.Base.{
  ℕ, zero, suc, ◌-◌, ◌≤◌, ◌<◌, ◌^◌, ◌≡◌, refl, sym, ap, ◌∙◌, List, [], ◌∷◌, ◌++◌, append_assoc,
  append-nil, false, ◌&&◌, Option, none, some, ◌⊎◌, inl, inr, length, length-append, drop, ltb,
  ==_false, leb-false, arith,
}
use alba.Exec.{pure}
use alba.Exec.Triples.{
  Triple-given, Ends, Triple, Triple-weaken, Triple-pure, Triple-raise, Triple-gets, Triple-if,
  Triple-bind,
}
use alba.Rdma.{
  Event, Rsocket, RdmaTransport, is_positive, milliseconds, time_remaining, check_poll, check_read,
  read_rounds, read_exact,
}
use alba.Rdma.Streams.{IsStream, Triple-on_socket, complete_or_IsLate, IsLate}

module _ (S : Rsocket) (I : IsStream S) where
  -- Of all the bytes, those that have come.
  abbrev pub HasCome : List ℕ → List ℕ → RdmaTransport S → Type 0
  HasCome all bytes c = all ≡ bytes ++ I.coming c.socket

  abbrev Received : List ℕ → List ℕ → ℕ → Option (List ℕ) → RdmaTransport S → Type 0
  Received all before todo none c = HasCome all before c
  Received all before todo (some bytes) c = HasCome all (before ++ bytes) c × (length bytes ≤ todo)

  abbrev Read : List ℕ → List ℕ → ℕ → List ℕ → RdmaTransport S → Type 0
  Read all before todo bytes c =
      HasCome all (before ++ bytes) c × ((1 ≤ length bytes) × (length bytes ≤ todo))

  abbrev pub AllRead : List ℕ → List ℕ → ℕ → List ℕ → RdmaTransport S → Type 0
  AllRead all before todo bytes c =
      HasCome all (before ++ bytes) c
      × ((length bytes ≤ todo) × ((length bytes ≡ todo) ⊎ IsLate S c))

  abbrev pub Stopped : List ℕ → RdmaTransport S → Type 0
  Stopped all c = (bytes : List ℕ) × HasCome all bytes c

  module _ (all before : List ℕ) where
    check_poll-Triple :
        (rc : Option ℕ)
        → Triple (HasCome all before) (check_poll S rc) (λ u. HasCome all before) (Stopped all)
    unfolding check_poll
    check_poll-Triple none = Triple-raise _ (λ c h. (before, h))
    check_poll-Triple (some zero) = Triple-raise _ (λ c h. (before, h))
    check_poll-Triple (some (suc n)) = Triple-pure tt (λ c h. h)

    check_read-Triple :
        (todo : ℕ) (o : Option (List ℕ))
        → Triple (Received all before todo o) (check_read S o) (Read all before todo) (Stopped all)
    unfolding check_read
    check_read-Triple todo none = Triple-raise _ (λ c h. (before, h))
    check_read-Triple todo (some []) = Triple-raise _ (λ c (h, l). (before ++ [], h))
    check_read-Triple todo (some (b ∷ bs)) =
        Triple-pure (b ∷ bs) (λ c (h, l). (h, (omega arith, l)))

    received :
        (todo : ℕ) (c : RdmaTransport S) (o : Option (List ℕ))
        → HasCome all before c
        → (S.rrecv todo c.socket).0 ≡ o
        → Received all before todo o (record c { socket = (S.rrecv todo c.socket).1 })
    received todo c none h e = h ∙ ap (◌++◌ before) (sym (I.rrecv-none todo c.socket e))
    received todo c (some bytes) h e =
        let (k, l) = I.rrecv-some todo c.socket bytes e in
        (h ∙ ap (◌++◌ before) k ∙ sym (append_assoc before bytes _), l)

  -- After the bytes of one round: the rest is read, or none is left, or it is late.
  module _ (all before : List ℕ) (todo : ℕ) (bytes : List ℕ) where
    AllRead-append :
        (more : List ℕ) (c : RdmaTransport S)
        → length bytes ≤ todo
        → AllRead all (before ++ bytes) (todo - length bytes) more c
        → AllRead all before todo (bytes ++ more) c
    AllRead-append more c l (h, (k, e)) =
        let n = length-append bytes more in
        (
          h ∙ ap (λ xs. xs ++ I.coming c.socket) (append_assoc before bytes more),
          (
            omega (arith, n, k, l),
            elim e [ inl d ↦ inl (omega (arith, n, d, l)) | inr late ↦ inr late ],
          ),
        )

    AllRead-last :
        (c : RdmaTransport S) (t : ℕ)
        → Read all before todo bytes c
        → t ≡ time_remaining S c
        → (ltb 0 (todo - length bytes) && is_positive t) ≡ false
        → AllRead all before todo bytes c
    AllRead-last c t (h, (p, l)) e d = (h, (l, complete_or_IsLate S (length bytes) todo c t l e d))

  read_rounds-AllRead :
      (fuel todo t : ℕ) (all before : List ℕ)
      → todo ≤ fuel
      → Triple
          (HasCome all before)
          (read_rounds S fuel todo t)
          (AllRead all before todo)
          (Stopped all)
  unfolding read_rounds
  read_rounds-AllRead zero todo t all before f =
      Triple-pure [] (λ c h. (rw (append-nil before) h, (omega arith, inl (omega (arith, f)))))
  read_rounds-AllRead (suc fuel) todo t all before f =
      Triple-bind
        (Triple-on_socket S _ (λ c h.
          h ∙ ap (◌++◌ before) (sym (I.rpoll-coming Event.pollin (milliseconds t) c.socket))))
        λ rc. Triple-bind (check_poll-Triple all before rc) λ u.
          Triple-bind
            (Triple-on_socket S {Q = Received all before todo} (S.rrecv todo)
              (λ c h. received all before todo c _ h refl))
            λ o. Triple-bind (check_read-Triple all before todo o) λ bytes.
              Triple-bind
                (Triple-gets {Q = λ t' c. Read all before todo bytes c × (t' ≡ time_remaining S c)}
                  (time_remaining S) (λ c h. (h, refl)))
                λ t'. Triple-given λ c0 ((h0, (p0, l0)), e0).
                  Triple-if _
                    (λ b.
                      Triple-bind
                        (Triple-weaken (λ c ((h, k), e). h) (λ more c h. h) (λ c h. h)
                          (read_rounds-AllRead fuel (todo - length bytes) t' all (before ++ bytes)
                            (omega (arith, f, p0))))
                        λ more.
                          Triple-pure _ (λ c h. AllRead-append all before todo bytes more c l0 h))
                    (λ b.
                      Triple-pure bytes (λ c (h, e). AllRead-last all before todo bytes c t' h e b))

  -- Reading into a buffer of less than 2^31 bytes: it returns with the bytes that came next on the
  -- stream at the front of the buffer, all that were asked for unless the deadline has passed, and
  -- where it throws it has taken the bytes that came next.
  pub read_exact-Delivers :
      (buf : List ℕ) (c : RdmaTransport S)
      → length buf < 2 ^ 31
      → Ends
          (λ after c'.
            (bytes : List ℕ) × ((after ≡ bytes ++ drop (length bytes) buf)
              × AllRead (I.coming c.socket) [] (length buf) bytes c'))
          (Stopped (I.coming c.socket))
          (read_exact S buf (length buf) c)
  unfolding read_exact pure
  read_exact-Delivers [] c h = ([], (refl, (refl, (omega arith, inl refl))))
  read_exact-Delivers (b ∷ bs) c h =
      rw
        (
          ==_false (length (b ∷ bs)) 0 (λ z. omega (arith, z)),
          leb-false (2 ^ 31) (length (b ∷ bs)) h,
        )
        ((Triple-bind (Triple-gets (time_remaining S) (λ c h. h)) λ t.
            Triple-bind
              (read_rounds-AllRead (length (b ∷ bs)) (length (b ∷ bs)) t (I.coming c.socket) []
                (omega arith))
              λ bytes. Triple-pure _ (λ c h. (bytes, (refl, h)))).at
          c refl)
