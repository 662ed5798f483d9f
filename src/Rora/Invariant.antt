-- ===== src/Rora/Invariant.antt =====
-- What holds of a client between two reads: the count of failures is small, so that it does not
-- overflow, and each key is kept under its digest.
use alba.Base.{
  ℕ, ◌-◌, ◌/◌, ◌≤◌, ◌≡◌, refl, List, [], ◌∷◌, Option, none, some, Bool, true, false, ltb,
  le_of_ltb-false, Bool-cases, inl, inr, All, if◌then◌else◌, arith,
}
use alba.Exec.{Exec}
use alba.Exec.Triples.{
  Triple, Keeps, Triple-weaken, Keeps-pure, Triple-modify, Triple-bind, Keeps-after,
}
use alba.Cache.{assoc}
use alba.Asd.Direct.{Rc, read, failed, disqualified}
use alba.Rora.Slices.{Location}
use alba.Rora.Client.{World, RoraClient}
use alba.Rora.Keys.{Keys, emplace}
use alba.Rora.Reads.{
  max_fast_path_failures, retry_after, ObjectTargets, choose_path, by_proxy, settle, remaining,
  fast_path, read_objects_slices,
}
use alba.Rora.Choice.{choose_path-open, choose_path-reopened, choose_path-shut}
use alba.Asd.Pool.{second}
use alba.Rora.Upkeep.{IsStable, Keeps-get_alba_levels, Keeps-short_path}
use alba.Rora.Upkeep.Reads.{Keeps-decrypt_read, Keeps-by_proxy, Keeps-route_all}

module _ (W : World) where
  -- At most n failures, and each key under its digest.
  pub record IsWithin (n : ℕ) (s : RoraClient W) : Type 0 where
    pub few : s.fast_path_failures ≤ n
    pub keyed : All (λ p. W.sha256 p.1 ≡ some p.0) s.enc_keys

  All-emplace :
      (id key : List ℕ) (keys : Keys) (o : Option (List ℕ))
      → assoc id keys ≡ o
      → W.sha256 key ≡ some id
      → All (λ p. W.sha256 p.1 ≡ some p.0) keys
      → All (λ p. W.sha256 p.1 ≡ some p.0) (emplace id key keys)
  unfolding emplace
  All-emplace id key keys none e h k = rw (e, emplace, All) (h, k)
  All-emplace id key keys (some other) e h k = rw (e, emplace, All) k

  pub IsWithin-IsStable : (n : ℕ) → IsStable W (IsWithin n)
  IsWithin-IsStable n = record {
    delegate = λ d s h. record { few = h.few; keyed = h.keyed };
    manifests = λ m s h. record { few = h.few; keyed = h.keyed };
    access = λ a s h. record { few = h.few; keyed = h.keyed };
    fkb = λ b s h. record { few = h.few; keyed = h.keyed };
    enc_keys = λ id key s e h. record {
      few = h.few;
      keyed = All-emplace id key s.enc_keys (assoc id s.enc_keys) refl e h.keyed;
    };
  }

  IsWithin-widen : (s : RoraClient W) → IsWithin 100 s → IsWithin 101 s
  IsWithin-widen s h = record { few = omega (arith, h.few); keyed = h.keyed }

  -- The fast path is only taken with at most a hundred failures.
  pub choose_path-IsWithin :
      (start : ℕ) (consistent_read : Bool)
      → Triple
          (IsWithin 101)
          (choose_path W start consistent_read)
          (λ slow s. IsWithin (if slow then 101 else 100) s)
          (IsWithin 101)
  choose_path-IsWithin start consistent_read = record {
    at = λ s h. elim (Bool-cases (ltb max_fast_path_failures s.fast_path_failures)) [
      | inl many ↦ elim (Bool-cases (ltb retry_after ((start - s.failure_time) / second))) [
        | inl late ↦
            rw (choose_path-reopened W start consistent_read s many late)
              (either _ _ (record { few = omega arith; keyed = h.keyed }))
        | inr early ↦ rw (choose_path-shut W start consistent_read s many early) h
      ]
      | inr few ↦
          rw (choose_path-open W start consistent_read s few)
            (either _ s (record { few = le_of_ltb-false _ _ few; keyed = h.keyed }))
    ];
  }
    where
      either :
          (slow : Bool) (s : RoraClient W) → IsWithin 100 s → IsWithin (if slow then 101 else 100) s
      either true s h = IsWithin-widen s h
      either false s h = h

  settle-IsWithin :
      (end : ℕ) (slices : List ObjectTargets) (routes : List (ℕ × Location) × List ObjectTargets)
      (rc : Rc)
      → Triple (IsWithin 100) (settle W end slices routes rc) (λ r. IsWithin 101) (IsWithin 101)
  unfolding settle
  settle-IsWithin end slices (short, via_proxy) read =
      Triple-bind (Triple-modify _ (λ s h. record { few = omega arith; keyed = h.keyed }))
        λ u. Keeps-pure _
  settle-IsWithin end slices (short, via_proxy) failed =
      Triple-bind (Triple-modify _ (λ s h. record { few = omega (arith, h.few); keyed = h.keyed }))
        λ u. Keeps-pure _
  settle-IsWithin end slices (short, via_proxy) disqualified =
      Triple-bind (Triple-modify _ (λ s h. record { few = omega (arith, h.few); keyed = h.keyed }))
        λ u. Keeps-pure _

  remaining-IsWithin :
      (namespace_ : List ℕ) (consistent_read : Bool)
      (settled : List (ℕ × Location) × List ObjectTargets)
      → Keeps (IsWithin 101) (remaining W namespace_ consistent_read settled)
  unfolding remaining
  remaining-IsWithin namespace_ consistent_read (direct, []) = Keeps-pure _
  remaining-IsWithin namespace_ consistent_read (direct, o ∷ via_proxy) =
      Keeps-by_proxy W (IsWithin 101) (IsWithin-IsStable 101) namespace_ (o ∷ via_proxy)
        consistent_read direct

  before_settling :
      {A : Type 0} {m : Exec (RoraClient W) A}
      → Keeps (IsWithin 100) m
      → Triple (IsWithin 100) m (λ a. IsWithin 100) (IsWithin 101)
  before_settling k = Triple-weaken (λ s h. h) (λ a s h. h) IsWithin-widen k

  fast_path-IsWithin :
      (start end : ℕ) (namespace_ : List ℕ) (slices : List ObjectTargets) (consistent_read : Bool)
      → Triple
          (IsWithin 100)
          (fast_path W start end namespace_ slices consistent_read)
          (λ served. IsWithin 101)
          (IsWithin 101)
  unfolding fast_path
  fast_path-IsWithin start end namespace_ slices consistent_read =
      let stable = IsWithin-IsStable 100 in
      Triple-bind (before_settling (Keeps-get_alba_levels W (IsWithin 100) stable)) λ levels.
        Triple-bind
          (before_settling (Keeps-route_all W (IsWithin 100) stable levels namespace_ slices))
          λ routes.
            Triple-bind (before_settling (Keeps-short_path W (IsWithin 100) stable start routes.0))
              λ rc.
                Triple-bind
                  (before_settling (Keeps-decrypt_read W (IsWithin 100) stable levels routes.0 rc))
                  λ rc'.
                    Triple-bind (settle-IsWithin end slices routes rc')
                      λ settled. remaining-IsWithin namespace_ consistent_read settled

  Keeps-read_objects_slices :
      (start end : ℕ) (namespace_ : List ℕ) (slices : List ObjectTargets) (consistent_read : Bool)
      → Keeps (IsWithin 101) (read_objects_slices W start end namespace_ slices consistent_read)
  unfolding read_objects_slices
  Keeps-read_objects_slices start end namespace_ slices consistent_read =
      Triple-bind (choose_path-IsWithin start consistent_read) by_either
    where
      by_either :
          (slow : Bool)
          → Triple
              (IsWithin (if slow then 101 else 100))
              (if slow
                then by_proxy W namespace_ slices consistent_read []
                else fast_path W start end namespace_ slices consistent_read)
              (λ served. IsWithin 101)
              (IsWithin 101)
      by_either true =
          Keeps-by_proxy W (IsWithin 101) (IsWithin-IsStable 101) namespace_ slices consistent_read
            []
      by_either false = fast_path-IsWithin start end namespace_ slices consistent_read

  -- Whatever a read of slices does, also where it throws: with at most 101 failures before it there are
  -- at most 101 after it, and keys that were each kept under their digest still are.
  pub read_objects_slices-IsWithin :
      (start end : ℕ) (namespace_ : List ℕ) (slices : List ObjectTargets) (consistent_read : Bool)
      (s : RoraClient W)
      → IsWithin 101 s
      → IsWithin 101 (read_objects_slices W start end namespace_ slices consistent_read s).1
  read_objects_slices-IsWithin start end namespace_ slices consistent_read =
      Keeps-after (Keeps-read_objects_slices start end namespace_ slices consistent_read)
