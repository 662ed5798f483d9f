-- ===== src/Rora/Access.antt =====
-- `OsdAccess` of cpp/src/lib/osd_access.cc, as far as it is filled through the proxy, and
-- `_maybe_update_osd_infos` of cpp/src/lib/rora_proxy_client.cc. One thread: nothing else fills, so
-- that a wait for `_filling` to be cleared never ends.
use alba.Base.{
  ℕ, List, [], ◌∷◌, Bool, true, false, Option, none, some, map, ◌==◌, ltb, if◌then◌else◌,
}
use alba.Exec.{
  Fault, transport_error, bad_message, proxy_exception, asd_exception, osd_access_exception,
  other_exception, thrown_int, process_down, Exec, pure, raise, gets, defined, modify, ◌>>=◌, ◌>>◌,
  catch,
}
use alba.Llio.Reader.{Exception, deserialisation_exception, length_error, thrown}
use alba.Osd.{OsdInfo, OsdCapabilities}
use alba.Asd.Direct.{OsdMap, osd_is_unknown}
use alba.Client.Calls.{osd_info2}
use alba.Rora.Client.{World, OsdAccess, RoraClient, delegated, AsdSlice}

-- What the handler of a std::exception catches.
unfoldable pub is_exception : Exception → Bool
is_exception deserialisation_exception = true
is_exception length_error = true
is_exception thrown = false

unfoldable pub is_std : Fault → Bool
unfolding is_exception
is_std transport_error = true
is_std (bad_message e) = is_exception e
is_std (proxy_exception rc what) = true
is_std (asd_exception rc) = true
is_std osd_access_exception = true
is_std other_exception = true
is_std thrown_int = false
is_std process_down = false

-- `result[osd_id] = p` on a map in the order of its keys.
unfoldable pub set_osd : ℕ → OsdInfo → OsdMap → OsdMap
set_osd osd info [] = (osd, info) ∷ []
set_osd osd info ((i, other) ∷ m) =
    let rest = set_osd osd info m in
    if osd == i
    then (osd, info) ∷ m
    else if ltb osd i
    then (osd, info) ∷ (i, other) ∷ m
    else (i, other) ∷ rest

-- The map that the entries of one alba are read into.
unfoldable pub osd_map : OsdMap → List (ℕ × OsdInfo × OsdCapabilities) → OsdMap
osd_map m [] = m
osd_map m ((osd, info, caps) ∷ entries) = osd_map (set_osd osd info m) entries

unfoldable pub named_map : List ℕ × List (ℕ × OsdInfo × OsdCapabilities) → List ℕ × OsdMap
named_map (alba_id, entries) = (alba_id, osd_map [] entries)

abbrev pub alba_id_of : List ℕ × OsdMap → List ℕ
alba_id_of (alba_id, m) = alba_id

-- After a refusal `infos` is as it was made, which is empty.
abbrev pub infos_or_none {ℓ} : {A : Type ℓ} → Option (List A) → List A
infos_or_none none = []
infos_or_none (some infos) = infos

unfoldable pub fill : {C : Type 0} → List (List ℕ × OsdMap) → OsdAccess C → OsdAccess C
fill maps a = record a { alba_levels = map alba_id_of maps; osd_maps = maps }

-- The loop of `_maybe_update_osd_infos`: whether all osds are known; it stops at one that is not.
unfoldable pub all_known : List (List ℕ × OsdMap) → List (ℕ × List AsdSlice) → Option Bool
all_known maps [] = some true
all_known maps ((osd, slices) ∷ per_osd) =
    let rest = all_known maps per_osd in
    elim (osd_is_unknown osd maps) [
      | none ↦ none
      | some unknown ↦ if unknown then some false else rest
    ]

module _ (W : World) where
  unfoldable pub fill_up : Exec (RoraClient W) Bool
  fill_up = do
    infos ← delegated W (osd_info2 W.transport)
    modify (λ s. record s { access = fill (map named_map (infos_or_none infos)) s.access })
    pure true

  unfoldable pub failed_update : Fault → Exec (RoraClient W) Bool
  failed_update f = if is_std f then pure false else raise f

  unfoldable pub set_filling : Bool → Exec (RoraClient W) (Unit {0})
  set_filling filling = modify (λ s. record s { access = record s.access { filling = filling } })

  -- What is no std::exception leaves `_filling` set.
  unfoldable pub guarded_fill : Exec (RoraClient W) Bool
  guarded_fill = do
    set_filling true
    result ← catch fill_up failed_update
    set_filling false
    pure result

  unfoldable pub update : Exec (RoraClient W) Bool
  update = do
    filling ← gets (λ s. s.access.filling)
    if filling then raise process_down else guarded_fill

  abbrev pub is_empty {ℓ} : {A : Type ℓ} → List A → Bool
  is_empty [] = true
  is_empty (a ∷ rest) = false

  unfoldable pub first_update : Exec (RoraClient W) (Unit {0})
  first_update = do updated ← update; if updated then pure tt else raise osd_access_exception

  unfoldable pub get_alba_levels : Exec (RoraClient W) (List (List ℕ))
  get_alba_levels = do
    levels ← gets (λ s. s.access.alba_levels)
    if is_empty levels then first_update else pure tt
    gets (λ s. s.access.alba_levels)

  unfoldable pub maybe_update_osd_infos : List (ℕ × List AsdSlice) → Exec (RoraClient W) (Unit {0})
  maybe_update_osd_infos per_osd = do
    maps ← gets (λ s. s.access.osd_maps)
    ok ← defined (all_known maps per_osd)
    if ok then pure tt else (do _ ← update; pure tt)
