-- ===== src/Asd/Direct.antt =====
-- `OsdAccess` of cpp/src/lib/osd_access.cc, as far as it reads slices, and
-- `ConnectionPools::get_connection_pool` of cpp/src/lib/asd_access.cc. The pools and the maps of osds
-- are lists of pairs, a map in the order of its keys. What a connection does is a parameter: the
-- connection that can be made to an asd, and whether the read of a slice over a connection succeeds.
use alba.Base.{
  ℕ, List, [], ◌∷◌, Bool, true, false, Option, none, some, ◌==◌, if◌then◌else◌, string_eq,
}
use alba.Base.Options.{◌>>=◌}
use alba.Osd.{OsdInfo}
use alba.Asd.Pool.{Pool, new_pool, report_failure, release_connection, get_connection}

-- Zero, -1 and -2.
pub data Rc : Type 0 where
  read failed disqualified : Rc

abbrev pub OsdMap : Type 0
OsdMap = List (ℕ × OsdInfo)

abbrev pub lookup_osd : ℕ → OsdMap → Option OsdInfo
lookup_osd osd [] = none
lookup_osd osd ((i, info) ∷ m) = if osd == i then some info else lookup_osd osd m

-- The last of the maps is the one of the osds; without any map the access is undefined.
abbrev pub last {ℓ} : {A : Type ℓ} → List A → Option A
last [] = none
last (a ∷ []) = some a
last (a ∷ b ∷ rest) = last (b ∷ rest)

unfoldable pub osd_is_unknown : ℕ → List (List ℕ × OsdMap) → Option Bool
osd_is_unknown osd maps = do
  (_, m) ← last maps
  some (elim (lookup_osd osd m) [ none ↦ true | some _ ↦ false ])

unfoldable pub find_osd : ℕ → List (List ℕ × OsdMap) → Option (Option OsdInfo)
find_osd osd maps = do (_, m) ← last maps; some (lookup_osd osd m)

module _ {C S : Type 0} (connect : List ℕ → Option C) (partial_get : C → S → Bool) where
  abbrev pub Pools : Type 0
  Pools = List (List ℕ × Pool C)

  abbrev pub lookup_pool : List ℕ → Pools → Option (Pool C)
  lookup_pool id [] = none
  lookup_pool id ((i, p) ∷ ps) = if string_eq id i then some p else lookup_pool id ps

  abbrev pub set_pool : List ℕ → Pool C → Pools → Pools
  set_pool id p [] = (id, p) ∷ []
  set_pool id p ((i, q) ∷ ps) = if string_eq id i then (i, p) ∷ ps else (i, q) ∷ set_pool id p ps

  -- The pool of the asd, which is new where there is none yet; nothing for another kind of osd.
  unfoldable pub get_connection_pool : OsdInfo → ℕ → Pools → Option (Pool C × Pools)
  get_connection_pool info size pools =
      if info.kind_asd
      then elim (lookup_pool info.long_id pools) [
        | some p ↦ some (p, pools)
        | none ↦ some (new_pool size, set_pool info.long_id (new_pool size) pools)
      ]
      else none

  -- The loop of the try block: whether it comes to its end. The first read that throws ends it.
  unfoldable pub partial_gets : C → List S → Bool
  partial_gets conn [] = true
  partial_gets conn (slice ∷ slices) =
      let rest = partial_gets conn slices in if partial_get conn slice then rest else false

  -- The try block and its handler, with the connection of the pool.
  unfoldable pub read_over : ℕ → Option C → List S → Pool C → Rc × Pool C
  read_over now none slices p = (disqualified, p)
  read_over now (some conn) slices p =
      if partial_gets conn slices
      then (read, release_connection now (some conn) p)
      else (failed, report_failure now p)

  unfoldable pub read_pool : ℕ → List ℕ → List S → Pool C → Rc × Pool C
  read_pool now id slices p =
      let (conn, p') = get_connection now (connect id) p in read_over now conn slices p'

  unfoldable pub use_pool : ℕ → List ℕ → List S → Pools → Option (Pool C × Pools) → Rc × Pools
  use_pool now id slices pools none = (failed, pools)
  use_pool now id slices pools (some (p, pools')) =
      let (rc, p') = read_pool now id slices p in (rc, set_pool id p' pools')

  -- `_read_osd_slices_asd_direct_path`, with the outcome of `_find_osd`.
  unfoldable pub read_osd_slices : ℕ → ℕ → Option OsdInfo → List S → Pools → Rc × Pools
  read_osd_slices now size none slices pools = (failed, pools)
  read_osd_slices now size (some info) slices pools =
      use_pool now info.long_id slices pools (get_connection_pool info size pools)

  abbrev pub continue : Rc → Pools → (Pools → Rc × Pools) → Rc × Pools
  continue read pools rest = rest pools
  continue failed pools rest = (failed, pools)
  continue disqualified pools rest = (disqualified, pools)

  -- `read_osds_slices`, for osds with what `_find_osd` says of them: it stops at the first failure.
  unfoldable pub read_osds_slices : ℕ → ℕ → List (Option OsdInfo × List S) → Pools → Rc × Pools
  read_osds_slices now size [] pools = (read, pools)
  read_osds_slices now size ((info, slices) ∷ per_osd) pools =
      let (rc, pools') = read_osd_slices now size info slices pools in
      continue rc pools' (read_osds_slices now size per_osd)
