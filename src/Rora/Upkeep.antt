-- ===== src/Rora/Upkeep.antt =====
-- What the reads of slices leave alone: a property of the client that does not depend on the delegate,
-- the manifests, the osds or the builder of keys, and that goes on to hold with a key under its digest.
pub mod Reads
use alba.Base.{string_eq, ℕ, ◌≡◌, refl, List, [], ◌∷◌, Option, none, some, Bool, true, false}
use alba.Exec.{Fault, Exec, process_down}
use alba.Exec.Triples.{
  Triple, Keeps, Triple-weaken, Keeps-pure, Keeps-raise, Keeps-gets, Keeps-defined, Triple-if,
  Triple-catch, Triple-modify, Triple-bind, Triple-within,
}
use alba.Llio.Builder.{Builder}
use alba.Encryption.{EncryptInfo, Encrypted, no_encryption, encrypted}
use alba.Manifest.Entries.{ObjectInfo}
use alba.Cache.{assoc}
use alba.Cache.Manifests.{ManifestCache, add}
use alba.Client.{Client}
use alba.Asd.Direct.{Rc, read, failed, disqualified}
use alba.Rora.Slices.{Location}
use alba.Rora.Client.{World, OsdAccess, RoraClient, AsdSlice, delegated, on_manifests}
use alba.Rora.Access.{
  is_std, fill_up, failed_update, set_filling, guarded_fill, update, is_empty, first_update,
  get_alba_levels, maybe_update_osd_infos,
}
use alba.Rora.Keys.{
  emplace, keep_key, check_key, checked_digest, fetch_key, found_or_fetched, get_encryption_key,
}
use alba.Rora.ShortPath.{PerOsd, key_of, per_osd_loop, direct_read, short_path}
use alba.Rora.Reads.{}

pub record IsStable (W : World) (I : RoraClient W → Type 0) : Type 0 where
  pub delegate : (d : Client W.transport) (s : RoraClient W) → I s → I (record s { delegate = d })
  pub manifests :
      (m : ManifestCache W.bimap) (s : RoraClient W) → I s → I (record s { manifests = m })
  pub access : (a : OsdAccess W.Connection) (s : RoraClient W) → I s → I (record s { access = a })
  pub fkb : (b : Builder) (s : RoraClient W) → I s → I (record s { fkb = b })
  pub enc_keys :
      (id key : List ℕ) (s : RoraClient W)
      → W.sha256 key ≡ some id
      → I s
      → I (record s { enc_keys = emplace id key s.enc_keys })

module _ (W : World) (I : RoraClient W → Type 0) (stable : IsStable W I) where
  pub Keeps-delegated : {A : Type 0} (p : Exec (Client W.transport) A) → Keeps I (delegated W p)
  Keeps-delegated p =
      Triple-weaken (λ s h. h) (λ a s h. h.1) (λ s h. h)
        (Triple-within _ _ p {P = I} stable.delegate)

  pub Keeps-on_manifests :
      {A : Type 0} (p : Exec (ManifestCache W.bimap) A) → Keeps I (on_manifests W p)
  Keeps-on_manifests p =
      Triple-weaken (λ s h. h) (λ a s h. h.1) (λ s h. h)
        (Triple-within _ _ p {P = I} stable.manifests)

  Keeps-fill_up : Keeps I (fill_up W)
  unfolding fill_up
  Keeps-fill_up =
      Triple-bind (Keeps-delegated _)
        λ infos. Triple-bind (Triple-modify _ (λ s h. stable.access _ s h)) λ u. Keeps-pure true

  Keeps-failed_update : (f : Fault) → Keeps I (failed_update W f)
  unfolding failed_update
  Keeps-failed_update f = Triple-if (is_std f) (λ e. Keeps-pure false) (λ e. Keeps-raise f)

  Keeps-set_filling : (filling : Bool) → Keeps I (set_filling W filling)
  unfolding set_filling
  Keeps-set_filling filling = Triple-modify _ (λ s h. stable.access _ s h)

  Keeps-guarded_fill : Keeps I (guarded_fill W)
  unfolding guarded_fill
  Keeps-guarded_fill = Triple-bind (Keeps-set_filling true) λ u.
      Triple-bind (Triple-catch Keeps-fill_up Keeps-failed_update)
        λ result. Triple-bind (Keeps-set_filling false) λ v. Keeps-pure result

  Keeps-update : Keeps I (update W)
  unfolding update
  Keeps-update =
      Triple-bind (Keeps-gets _)
        λ filling. Triple-if filling (λ e. Keeps-raise _) (λ e. Keeps-guarded_fill)

  Keeps-first_update : Keeps I (first_update W)
  unfolding first_update
  Keeps-first_update =
      Triple-bind Keeps-update
        λ updated. Triple-if updated (λ e. Keeps-pure tt) (λ e. Keeps-raise _)

  pub Keeps-get_alba_levels : Keeps I (get_alba_levels W)
  unfolding get_alba_levels
  Keeps-get_alba_levels = Triple-bind (Keeps-gets _) λ levels.
      Triple-bind (Triple-if (is_empty W levels) (λ e. Keeps-first_update) (λ e. Keeps-pure tt))
        λ u. Keeps-gets _

  pub Keeps-emplaced : (id key : List ℕ) → W.sha256 key ≡ some id → Keeps I (keep_key W id key)
  unfolding keep_key
  Keeps-emplaced id key e = Triple-modify _ (λ s h. stable.enc_keys id key s e h)

  Keeps-check_key :
      (wanted key id : List ℕ) → W.sha256 key ≡ some id → Keeps I (check_key W wanted key id)
  unfolding check_key
  Keeps-check_key wanted key id e =
      Triple-bind (Keeps-emplaced id key e)
        λ u. Triple-if (string_eq wanted id) (λ b. Keeps-pure key) (λ b. Keeps-raise _)

  Keeps-digested :
      (wanted key : List ℕ) (d : Option (List ℕ))
      → W.sha256 key ≡ d
      → Keeps I (checked_digest W wanted key d)
  unfolding checked_digest
  Keeps-digested wanted key none e = Keeps-raise _
  Keeps-digested wanted key (some id) e = Keeps-check_key wanted key id e

  Keeps-fetch_key :
      (alba_id : List ℕ) (namespace_id : ℕ) (wanted : List ℕ)
      → Keeps I (fetch_key W alba_id namespace_id wanted)
  unfolding fetch_key
  Keeps-fetch_key alba_id namespace_id wanted = Triple-bind (Keeps-delegated _) λ enc_key.
      Triple-bind (Keeps-defined enc_key) λ key. Keeps-digested wanted key (W.sha256 key) refl

  Keeps-found_or_fetched :
      (found : Option (List ℕ)) (alba_id : List ℕ) (namespace_id : ℕ) (wanted : List ℕ)
      → Keeps I (found_or_fetched W found alba_id namespace_id wanted)
  unfolding found_or_fetched
  Keeps-found_or_fetched (some key) alba_id namespace_id wanted = Keeps-pure key
  Keeps-found_or_fetched none alba_id namespace_id wanted =
      Keeps-fetch_key alba_id namespace_id wanted

  pub Keeps-get_encryption_key :
      (alba_id : List ℕ) (namespace_id : ℕ) (wanted : List ℕ)
      → Keeps I (get_encryption_key W alba_id namespace_id wanted)
  unfolding get_encryption_key
  Keeps-get_encryption_key alba_id namespace_id wanted =
      Triple-bind (Keeps-gets _) λ keys. Keeps-found_or_fetched _ _ _ _

  Keeps-key_of : (l : Location) → Keeps I (key_of W l)
  unfolding key_of
  Keeps-key_of l = Triple-bind (Keeps-gets _) λ fkb.
      Triple-bind (Keeps-defined _)
        λ r. Triple-bind (Triple-modify _ (λ s h. stable.fkb r.1 s h)) λ u. Keeps-pure r.0

  Keeps-per_osd_loop :
      (locations : List (ℕ × Location)) (per_osd : PerOsd)
      → Keeps I (per_osd_loop W locations per_osd)
  unfolding per_osd_loop
  Keeps-per_osd_loop [] per_osd = Keeps-pure per_osd
  Keeps-per_osd_loop (l ∷ locations) per_osd =
      Triple-bind (Keeps-defined _)
        λ osd. Triple-bind (Keeps-key_of l.1) λ key. Keeps-per_osd_loop locations _

  Keeps-maybe_update_osd_infos : (per_osd : PerOsd) → Keeps I (maybe_update_osd_infos W per_osd)
  unfolding maybe_update_osd_infos
  Keeps-maybe_update_osd_infos per_osd = Triple-bind (Keeps-gets _) λ maps.
      Triple-bind (Keeps-defined _) λ known.
        Triple-if known (λ e. Keeps-pure tt)
          (λ e. Triple-bind Keeps-update λ updated. Keeps-pure tt)

  Keeps-direct_read : (now : ℕ) (per_osd : PerOsd) → Keeps I (direct_read W now per_osd)
  unfolding direct_read
  Keeps-direct_read now per_osd = Triple-bind (Keeps-gets _) λ access.
      Triple-bind (Keeps-defined _)
        λ osds. Triple-bind (Triple-modify _ (λ s h. stable.access _ s h)) λ u. Keeps-pure _

  pub Keeps-short_path :
      (now : ℕ) (locations : List (ℕ × Location)) → Keeps I (short_path W now locations)
  unfolding short_path
  Keeps-short_path now locations = Triple-bind (Keeps-per_osd_loop locations []) λ per_osd.
      Triple-bind (Keeps-maybe_update_osd_infos per_osd) λ u.
        Triple-bind (Keeps-gets _)
          λ null_io. Triple-if null_io (λ e. Keeps-pure read) (λ e. Keeps-direct_read now per_osd)
