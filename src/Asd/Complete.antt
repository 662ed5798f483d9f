-- ===== src/Asd/Complete.antt =====
-- What a read that returns zero has done.
use alba.Base.{
  ℕ, ◌≡◌, refl, ap, List, [], ◌∷◌, Bool, true, false, Option, none, some, All, Bool-cases, inl, inr,
}
use mathlib.Core.Bool.{false≢true}
use alba.Asd.Pool.{Pool}
use alba.Osd.{OsdInfo}
use alba.Asd.Direct.{
  Rc, read, failed, disqualified, get_connection_pool, partial_gets, read_over, read_pool,
  read_osd_slices, use_pool, continue, read_osds_slices,
}

abbrev is_read : Rc → Bool
is_read read = true
is_read failed = false
is_read disqualified = false

module _ {C S : Type 0} (connect : List ℕ → Option C) (partial_get : C → S → Bool) where
  -- The slices were all read over one connection, from an asd that is known.
  abbrev pub WasRead : Option OsdInfo × List S → Type 0
  WasRead (info, slices) =
      ((i : OsdInfo) × ((info ≡ some i) × (i.kind_asd ≡ true)))
      × ((conn : C) × All (λ slice. partial_get conn slice ≡ true) slices)

  partial_gets-All :
      (conn : C) (slices : List S)
      → partial_gets connect partial_get conn slices ≡ true
      → All (λ slice. partial_get conn slice ≡ true) slices
  unfolding partial_gets
  partial_gets-All conn [] h = tt
  partial_gets-All conn (slice ∷ slices) h = elim (Bool-cases (partial_get conn slice)) [
    | inl got ↦ (got, partial_gets-All conn slices (rw got at h))
    | inr not_got ↦ absurd (false≢true (rw not_got at h))
  ]

  read_over-read :
      (now : ℕ) (conn : Option C) (slices : List S) (p : Pool C)
      → (read_over connect partial_get now conn slices p).0 ≡ read
      → (c : C) × All (λ slice. partial_get c slice ≡ true) slices
  unfolding read_over
  read_over-read now none slices p h = absurd (false≢true (ap is_read h))
  read_over-read now (some conn) slices p h =
      elim (Bool-cases (partial_gets connect partial_get conn slices)) [
        | inl all ↦ (conn, partial_gets-All conn slices all)
        | inr some_not ↦ absurd (false≢true (ap is_read (rw some_not at h)))
      ]

  use_pool-read :
      (now : ℕ) (id : List ℕ) (slices : List S) (pools : List (List ℕ × Pool C))
      (o : Option (Pool C × List (List ℕ × Pool C)))
      → (use_pool connect partial_get now id slices pools o).0 ≡ read
      → (c : C) × All (λ slice. partial_get c slice ≡ true) slices
  unfolding use_pool read_pool
  use_pool-read now id slices pools none h = absurd (false≢true (ap is_read h))
  use_pool-read now id slices pools (some (p, pools')) h = read_over-read now _ slices _ h

  continue-read :
      (rc : Rc) (pools : List (List ℕ × Pool C))
      (rest : List (List ℕ × Pool C) → Rc × List (List ℕ × Pool C))
      → (continue connect partial_get rc pools rest).0 ≡ read
      → (rc ≡ read) × ((rest pools).0 ≡ read)
  continue-read read pools rest h = (refl, h)
  continue-read failed pools rest h = absurd (false≢true (ap is_read h))
  continue-read disqualified pools rest h = absurd (false≢true (ap is_read h))

  read_osd_slices-WasRead :
      (now size : ℕ) (info : Option OsdInfo) (slices : List S) (pools : List (List ℕ × Pool C))
      → (read_osd_slices connect partial_get now size info slices pools).0 ≡ read
      → WasRead (info, slices)
  unfolding read_osd_slices get_connection_pool use_pool
  read_osd_slices-WasRead now size none slices pools h = absurd (false≢true (ap is_read h))
  read_osd_slices-WasRead now size (some info) slices pools h = elim (Bool-cases info.kind_asd) [
    | inl asd ↦ ((info, (refl, asd)), use_pool-read now info.long_id slices pools _ h)
    | inr other ↦ absurd (false≢true (ap is_read (rw other at h)))
  ]

  -- The slices of several osds are reported as read only where for each of them the osd is known and
  -- an asd, and all its slices were read over one connection.
  pub read_osds_slices-WasRead :
      (now size : ℕ) (per_osd : List (Option OsdInfo × List S)) (pools : List (List ℕ × Pool C))
      → (read_osds_slices connect partial_get now size per_osd pools).0 ≡ read
      → All WasRead per_osd
  unfolding read_osds_slices
  read_osds_slices-WasRead now size [] pools h = tt
  read_osds_slices-WasRead now size ((info, slices) ∷ per_osd) pools h =
      let (first, others) =
        continue-read _ _ (read_osds_slices connect partial_get now size per_osd) h in
      (
        read_osd_slices-WasRead now size info slices pools first,
        read_osds_slices-WasRead now size per_osd _ others,
      )
