-- ===== src/Rora/Choice.antt =====
-- Which path a read takes: a fast path that failed too often is shut, and opened again in time.
use alba.Base.{
  ℕ, ◌+◌, ◌*◌, ◌-◌, ◌/◌, ◌≤◌, ◌≡◌, refl, List, Bool, true, false, ◌&&◌, ltb, lt→ltb,
  le_of_ltb-false, Bool-cases, inl, inr, arith,
}
use alba.Exec.{returns, gets, modify, pure, ◌>>=◌}
use alba.Asd.Pool.{second}
use alba.Rora.Client.{World, RoraClient}
use alba.Rora.Reads.{
  ObjectTargets, retry_after, max_fast_path_failures, choose_path, fast_path, read_objects_slices,
}

module _ (W : World) (start : ℕ) (consistent_read : Bool) (s : RoraClient W) where
  abbrev wants_proxy : Bool
  wants_proxy = consistent_read && s.has_local_fragment_cache

  abbrev waited : ℕ
  waited = (start - s.failure_time) / second

  pub choose_path-open :
      ltb max_fast_path_failures s.fast_path_failures ≡ false
      → choose_path W start consistent_read s ≡ (returns wants_proxy, s)
  unfolding choose_path gets pure ◌>>=◌
  choose_path-open e = rw (e, choose_path) refl

  pub choose_path-reopened :
      ltb max_fast_path_failures s.fast_path_failures ≡ true
      → ltb retry_after waited ≡ true
      → choose_path W start consistent_read s
        ≡ (returns wants_proxy, record s { fast_path_failures = 0 })
  unfolding choose_path gets modify pure ◌>>=◌
  choose_path-reopened e f = rw (e, f, choose_path) refl

  pub choose_path-shut :
      ltb max_fast_path_failures s.fast_path_failures ≡ true
      → ltb retry_after waited ≡ false
      → choose_path W start consistent_read s ≡ (returns true, s)
  unfolding choose_path gets pure ◌>>=◌
  choose_path-shut e f = rw (e, f, choose_path) refl

-- However many reads failed, a read that does not want the proxy goes to the osds again 121 seconds after
-- the last failure, with the same client but for a count of at most a hundred failures.
pub read_objects_slices-reopened :
    (W : World) (start end : ℕ) (namespace_ : List ℕ) (slices : List ObjectTargets)
    (consistent_read : Bool) (s : RoraClient W)
    → (consistent_read && s.has_local_fragment_cache) ≡ false
    → s.failure_time + 121 * second ≤ start
    → (n : ℕ) × ((n ≤ 100)
        × (read_objects_slices W start end namespace_ slices consistent_read s
            ≡ fast_path W start end namespace_ slices consistent_read
                (record s { fast_path_failures = n })))
unfolding read_objects_slices ◌>>=◌
read_objects_slices-reopened W start end namespace_ slices consistent_read s wants late =
    elim (Bool-cases (ltb max_fast_path_failures s.fast_path_failures)) [
      | inl many ↦
          let waited_enough : ltb retry_after ((start - s.failure_time) / second) ≡ true =
            lt→ltb _ _ (omega (arith, late)) in
          (
            0,
            (
              omega arith,
              rw
                  (
                    choose_path-reopened W start consistent_read s many waited_enough,
                    wants,
                    read_objects_slices,
                  )
                  refl,
            ),
          )
      | inr few ↦ (
        s.fast_path_failures,
        (
          le_of_ltb-false _ _ few,
          rw (choose_path-open W start consistent_read s few, wants, read_objects_slices) refl,
        ),
      )
    ]
