-- ===== src/Asd/PoolSize.antt =====
-- The pool under any sequence of its operations, and when an asd is disqualified.
use alba.Base.{
  ℕ, zero, suc, ◌+◌, ◌-◌, ◌*◌, ◌/◌, ◌≤◌, ◌<◌, ◌≡◌, refl, List, [], ◌∷◌, true, Option, none, some,
  ltb, ltb→lt, lt→ltb, le_of_ltb-false, leb, le→leb, length, length-take, length-reverse, take,
  Bool-cases, inl, inr, arith,
}
use alba.Asd.Pool.{
  Pool, second, max_failures, penalty, new_pool, report_failure, release_connection,
  is_disqualified, pop, or_make_one, get_connection, set_capacity,
}

-- One call on a pool, with the time of the call and, for `get_connection`, what a new connection
-- would be.
pub data Op (C : Type 0) : Type 0 where
  release_op : ℕ → Option C → Op C
  failure_op : ℕ → Op C
  get_op : ℕ → Option C → Op C
  capacity_op : ℕ → Op C

module _ {C : Type 0} where
  abbrev pub step : Op C → Pool C → Pool C
  step (release_op now conn) p = release_connection now conn p
  step (failure_op now) p = report_failure now p
  step (get_op now made) p = (get_connection now made p).1
  step (capacity_op cap) p = set_capacity cap p

  abbrev pub steps : List (Op C) → Pool C → Pool C
  steps [] p = p
  steps (o ∷ os) p = steps os (step o p)

  abbrev pub IsWithin : Pool C → Type 0
  IsWithin p = length p.connections ≤ p.capacity

  length-pop : (cs : List C) → length (pop cs).1 ≤ length cs
  unfolding pop
  length-pop [] = omega arith
  length-pop (c ∷ cs) = omega arith

  step-IsWithin : (o : Op C) (p : Pool C) → IsWithin p → IsWithin (step o p)
  unfolding release_connection report_failure get_connection set_capacity
  step-IsWithin (release_op now (some conn)) p h =
      elim (Bool-cases (ltb (length p.connections) p.capacity)) [
        | inl room ↦ rw room (omega (arith, ltb→lt _ _ room))
        | inr full ↦ rw full h
      ]
  step-IsWithin (release_op now none) p h = h
  step-IsWithin (failure_op now) p h = h
  step-IsWithin (get_op now made) p h = elim (Bool-cases (is_disqualified now p)) [
    | inl out ↦ rw (step, get_connection, out) h
    | inr in_ ↦ rw (step, get_connection, in_) (omega (arith, h, length-pop p.connections))
  ]
  step-IsWithin (capacity_op cap) p h = elim (Bool-cases (ltb cap (length p.connections))) [
    | inl less ↦
        rw less
          (omega (arith, length-reverse (take cap p.connections), length-take cap p.connections))
    | inr more ↦ rw more (omega (arith, le_of_ltb-false _ _ more))
  ]

  -- Whatever is called on a new pool, and whatever comes of the connections, the pool never keeps
  -- more connections than its capacity at that time.
  pub steps-IsWithin : (capacity : ℕ) (os : List (Op C)) → IsWithin (steps os (new_pool capacity))
  unfolding new_pool
  steps-IsWithin capacity os = go os (new_pool capacity) (omega arith)
    where
      go : (os : List (Op C)) (p : Pool C) → IsWithin p → IsWithin (steps os p)
      go [] p h = h
      go (o ∷ os) p h = go os (step o p) (step-IsWithin o p h)

  -- A failure is reported n times, the last time at `now`.
  abbrev pub fail : ℕ → ℕ → Pool C → Pool C
  fail zero now p = p
  fail (suc n) now p = report_failure now (fail n now p)

  failures-fail :
      (n now : ℕ) (p : Pool C) → (fail n now p).fast_path_failures ≡ n + p.fast_path_failures
  unfolding report_failure
  failures-fail zero now p = omega arith
  failures-fail (suc n) now p = omega (arith, failures-fail n now p)

  connections-fail :
      (n now : ℕ) (p : Pool C)
      → ((fail n now p).connections ≡ p.connections) × ((fail n now p).capacity ≡ p.capacity)
  unfolding report_failure
  connections-fail zero now p = (refl, refl)
  connections-fail (suc n) now p = connections-fail n now p

  refuses :
      (n now later : ℕ) (made : Option C) (p : Pool C)
      → 14 ≤ n
      → later < now + penalty * second
      → get_connection later made (fail (suc n) now p) ≡ (none, fail (suc n) now p)
  unfolding get_connection is_disqualified report_failure
  refuses n now later made p h k =
      let many : leb max_failures (suc (fail n now p).fast_path_failures) ≡ true =
        le→leb _ _ (omega (arith, failures-fail n now p, h)) in
      let recent : ltb ((later - now) / second) penalty ≡ true = lt→ltb _ _ (omega (arith, k)) in
      rw (many, recent) refl

  hands_out :
      (later : ℕ) (made : Option C) (conn : C) (p : Pool C)
      → length p.connections < p.capacity
      → (get_connection later made (release_connection later (some conn) p)).0 ≡ some conn
  unfolding get_connection release_connection is_disqualified pop or_make_one
  hands_out later made conn p room = rw (lt→ltb _ _ room) refl

  -- After fifteen failures or more in a row no connection is handed out for 120 seconds from the last
  -- of them, even where the pool has one, and the pool stays as it is; a connection that is released
  -- meanwhile ends that at once, and is the next to be handed out where there is room for it.
  pub get_connection-fail :
      (n now later : ℕ) (made : Option C) (conn : C) (p : Pool C)
      → 14 ≤ n
      → later < now + penalty * second
      → length p.connections < p.capacity
      → (get_connection later made (fail (suc n) now p) ≡ (none, fail (suc n) now p))
        × ((get_connection later made (release_connection later (some conn) (fail (suc n) now p))).0
            ≡ some conn)
  get_connection-fail n now later made conn p h k room = (
    refuses n now later made p h k,
    hands_out later made conn (fail (suc n) now p)
        (rw (connections-fail (suc n) now p).0 (rw (connections-fail (suc n) now p).1 room)),
  )
