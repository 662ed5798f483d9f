-- ===== src/Rora/Upkeep/Reads.antt =====
-- The same for what reads decrypt and what they ask the proxy for.
use alba.Base.{ℕ, List, [], ◌∷◌, Option, none, some, Bool}
use alba.Exec.{Fault, process_down}
use alba.Exec.Triples.{
  Keeps, Keeps-pure, Keeps-raise, Keeps-gets, Keeps-defined, Triple-if, Triple-catch, Triple-modify,
  Triple-bind,
}
use alba.Encryption.{EncryptInfo, Encrypted, no_encryption, encrypted}
use alba.Manifest.Entries.{ObjectInfo}
use alba.Cache.Manifests.{ManifestCache}
use alba.Asd.Direct.{Rc, read, failed, disqualified}
use alba.Rora.Slices.{Location}
use alba.Rora.Client.{World, RoraClient}
use alba.Rora.ShortPath.{
  is_down, check_decrypted, decrypt_with, decrypt_as, decrypt_loop, failed_decrypt, decrypt_all,
}
use alba.Rora.Reads.{
  ObjectTargets, first_level, alba_id_for, replace_manifests, process, slow_path, by_proxy,
  route_all, decrypt_read,
}
use alba.Rora.Upkeep.{
  IsStable, Keeps-delegated, Keeps-on_manifests, Keeps-get_alba_levels, Keeps-get_encryption_key,
}

module _ (W : World) (I : RoraClient W → Type 0) (stable : IsStable W I) where
  Keeps-decrypt_with :
      (levels : List (List ℕ)) (target : ℕ) (l : Location) (e : Encrypted) (ctr : Option (List ℕ))
      → Keeps I (decrypt_with W levels target l e ctr)
  unfolding decrypt_with check_decrypted
  Keeps-decrypt_with levels target l e none = Keeps-raise _
  Keeps-decrypt_with levels target l e (some ctr) = Triple-bind (Keeps-defined _) λ alba_id.
      Triple-bind (Keeps-get_encryption_key W I stable alba_id l.namespace_id _) λ enc_key.
        Triple-bind (Keeps-defined _) λ r. Triple-if r.0 (λ b. Keeps-pure tt) (λ b. Keeps-raise _)

  Keeps-decrypt_as :
      (levels : List (List ℕ)) (target : ℕ) (l : Location) (info : EncryptInfo)
      → Keeps I (decrypt_as W levels target l info)
  unfolding decrypt_as
  Keeps-decrypt_as levels target l no_encryption = Keeps-pure tt
  Keeps-decrypt_as levels target l (encrypted e) = Keeps-decrypt_with levels target l e l.ctr

  Keeps-decrypt_loop :
      (levels : List (List ℕ)) (locations : List (ℕ × Location))
      → Keeps I (decrypt_loop W levels locations)
  unfolding decrypt_loop
  Keeps-decrypt_loop levels [] = Keeps-pure tt
  Keeps-decrypt_loop levels (l ∷ locations) =
      Triple-bind (Keeps-decrypt_as levels l.0 l.1 l.1.encrypt_info)
        λ u. Keeps-decrypt_loop levels locations

  Keeps-failed_decrypt : (f : Fault) → Keeps I (failed_decrypt W f)
  unfolding failed_decrypt
  Keeps-failed_decrypt f =
      Triple-if (is_down f) (λ e. Keeps-raise process_down) (λ e. Keeps-pure failed)

  pub Keeps-decrypt_read :
      (levels : List (List ℕ)) (short : List (ℕ × Location)) (rc : Rc)
      → Keeps I (decrypt_read W levels short rc)
  unfolding decrypt_read decrypt_all
  Keeps-decrypt_read levels short read =
      Triple-catch (Triple-bind (Keeps-decrypt_loop levels short) λ u. Keeps-pure read)
        Keeps-failed_decrypt
  Keeps-decrypt_read levels short failed = Keeps-pure failed
  Keeps-decrypt_read levels short disqualified = Keeps-pure disqualified

  Keeps-first_level : (levels : List (List ℕ)) → Keeps I (first_level W levels)
  unfolding first_level
  Keeps-first_level [] = Keeps-raise _
  Keeps-first_level (alba_id ∷ levels) = Keeps-pure alba_id

  Keeps-alba_id_for : (alba_id : List ℕ) → Keeps I (alba_id_for W alba_id)
  unfolding alba_id_for
  Keeps-alba_id_for [] = Triple-bind (Keeps-get_alba_levels W I stable) Keeps-first_level
  Keeps-alba_id_for (byte ∷ bytes) = Keeps-pure _

  Keeps-replace_manifests : (o : Option (ManifestCache W.bimap)) → Keeps I (replace_manifests W o)
  unfolding replace_manifests
  Keeps-replace_manifests none = Keeps-raise _
  Keeps-replace_manifests (some m) = Triple-modify _ (λ s h. stable.manifests m s h)

  Keeps-process :
      (namespace_ : List ℕ) (infos : List ObjectInfo) → Keeps I (process W namespace_ infos)
  unfolding process
  Keeps-process namespace_ [] = Keeps-pure tt
  Keeps-process namespace_ (info ∷ infos) = Triple-bind (Keeps-alba_id_for info.alba_id) λ alba_id.
      Triple-bind (Keeps-gets _)
        λ manifests. Triple-bind (Keeps-replace_manifests _) λ u. Keeps-process namespace_ infos

  pub Keeps-by_proxy :
      (namespace_ : List ℕ) (slices : List ObjectTargets) (consistent_read : Bool)
      (direct : List (ℕ × Location))
      → Keeps I (by_proxy W namespace_ slices consistent_read direct)
  unfolding by_proxy slow_path
  Keeps-by_proxy namespace_ slices consistent_read direct =
      Triple-bind (Keeps-delegated W I stable _)
        λ r. Triple-bind (Keeps-process namespace_ r.1) λ u. Keeps-pure _

  pub Keeps-route_all :
      (levels : List (List ℕ)) (namespace_ : List ℕ) (objects : List ObjectTargets)
      → Keeps I (route_all W levels namespace_ objects)
  unfolding route_all
  Keeps-route_all levels namespace_ [] = Keeps-pure _
  Keeps-route_all levels namespace_ (o ∷ objects) =
      Triple-bind (Keeps-on_manifests W I stable _)
        λ located. Triple-bind (Keeps-route_all levels namespace_ objects) λ routes. Keeps-pure _
