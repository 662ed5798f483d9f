-- ===== src/Runs/Osds.antt =====
-- A pool of two connections, and a read from two osds.
use alba.Base.{string_eq, ℕ, ◌≡◌, refl, List, [], ◌∷◌, Bool, true, Option, none, some, All, arith}
use alba.Asd.Pool.{
  Pool, new_pool, get_connection, or_make_one, pop, is_disqualified, release_connection,
}
use alba.Asd.PoolSize.{
  release_op, capacity_op, get_op, steps, IsWithin, fail, steps-IsWithin, get_connection-fail,
}
use alba.Osd.{OsdInfo, other_kind}
use alba.Asd.Direct.{
  read_osds_slices, read_osd_slices, get_connection_pool, use_pool, read_pool, partial_gets,
  read_over,
}
use alba.Asd.Complete.{WasRead, read_osds_slices-WasRead}

steps-IsWithin_example : IsWithin (
    steps
      (release_op 1 (some 7) ∷ release_op 2 (some 8) ∷ capacity_op 1 ∷ get_op 3 none ∷ [])
      (new_pool {C = ℕ} 2))
steps-IsWithin_example =
    steps-IsWithin 2
      (release_op 1 (some 7) ∷ release_op 2 (some 8) ∷ capacity_op 1 ∷ get_op 3 none ∷ [])

abbrev pool : Pool ℕ
pool = record { connections = 7 ∷ []; capacity = 2; fast_path_failures = 0; failure_time = 0 }

get_connection-fail_example :
    (get_connection 60 (some 9) (fail 15 5 pool) ≡ (none, fail 15 5 pool))
    × ((get_connection 60 (some 9) (release_connection 60 (some 8) (fail 15 5 pool))).0 ≡ some 8)
get_connection-fail_example =
    get_connection-fail 14 5 60 (some 9) 8 pool (omega arith) (omega arith) (omega arith)

abbrev connect : List ℕ → Option ℕ
connect id = some 7

abbrev gets : ℕ → ℕ → Bool
gets conn slice = true

abbrev osds : List (Option OsdInfo × List ℕ)
osds =
    (some (record other_kind { kind_asd = true; long_id = 1 ∷ [] }), 4 ∷ [])
    ∷ (some (record other_kind { kind_asd = true; long_id = 2 ∷ [] }), 5 ∷ [])
    ∷ []

read_osds_slices-WasRead_example : All (WasRead connect gets) osds
unfolding read_osds_slices read_osd_slices get_connection_pool use_pool read_pool read_over
    partial_gets get_connection or_make_one pop is_disqualified new_pool string_eq
read_osds_slices-WasRead_example = read_osds_slices-WasRead connect gets 0 5 osds [] refl
