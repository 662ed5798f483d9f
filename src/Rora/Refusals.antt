-- ===== src/Rora/Refusals.antt =====
-- What a proxy that refuses to tell the osds does to a client: `osd_info2` does not look at the status.
use alba.Base.{
  ◌≤◌, ◌&&◌, false, ltb-false, if◌then◌else◌, ℕ, ◌<◌, ◌^◌, ◌≡◌, refl, List, [], ◌∷◌, Bool, true,
  none, some, length, length-le_bytes, u32, le_bytes, arith,
}
use alba.Exec.{returns, raises, process_down, pure, raise, gets, modify, catch, within, ◌>>=◌}
use alba.Llio.Builder.{Builder}
use alba.Llio.Writing.{Writes-to_u32}
use alba.Llio.Reads.{Reads}
use alba.Proxy.Requests.{write_osd_info2_request, write_tag}
use alba.Proxy.Responses.{read_osd_info2_response}
use alba.Proxy.Replies.{refused, reply_bytes, Reads-read_response}
use alba.Client.{Transport, Client}
use alba.Client.Calls.{osd_info2}
use alba.Client.Exchange.{Exchanges, exchange-Exchanges}
use alba.Rora.Key.{IsReset}
use alba.Rora.Client.{World, RoraClient}
use alba.Rora.Resolve.{resolve_one_many_levels}
use alba.Rora.Access.{
  fill, is_empty, fill_up, guarded_fill, set_filling, update, first_update, get_alba_levels,
}
use alba.Rora.Reads.{ObjectTargets, choose_path, route_all, fast_path, read_objects_slices}

-- No byte of a refusal stands for infos.
abbrev pub no_bytes : {A : Type 0} → A → List ℕ
no_bytes a = []

refusal-Reads :
    (rc : ℕ) (what : List ℕ)
    → 0 < rc
    → rc < u32
    → length what < u32
    → Reads read_osd_info2_response
        (reply_bytes {A = ℕ} no_bytes (refused rc what))
        (record { return_code = rc; what = some what }, none)
unfolding read_osd_info2_response reply_bytes
refusal-Reads rc what h k n =
    Reads-read_response {P = λ a. ⊥} {bytes = no_bytes} (λ a x. absurd x) (refused rc what)
      (h, (k, n))

-- A refused call returns as if nothing had been found; the timeout stays set.
osd_info2-refused :
    (T : Transport) (rc : ℕ) (what : List ℕ) (c : Client T) (t' : T.State)
    → 0 < rc
    → rc < u32
    → length what < u32
    → length (reply_bytes {A = ℕ} no_bytes (refused rc what)) < 2 ^ 31
    → IsReset c.mb
    → Exchanges T
        (le_bytes 4 28)
        (reply_bytes {A = ℕ} no_bytes (refused rc what))
        (T.expires_from_now (some c.timeout) c.transport)
        t'
    → (mb' : Builder) × (osd_info2 T c ≡ (returns none, record c { transport = t'; mb = mb' }))
unfolding osd_info2 write_osd_info2_request write_tag ◌>>=◌ pure
osd_info2-refused T rc what c t' h k n small clean over =
    let (mb', (e, r)) =
      exchange-Exchanges T write_osd_info2_request read_osd_info2_response (le_bytes 4 28)
        (Writes-to_u32 28) (omega (arith, length-le_bytes 4 28)) c clean
        (reply_bytes {A = ℕ} no_bytes (refused rc what))
        (record { return_code = rc; what = some what }, none) (refusal-Reads rc what h k n) small t'
        over in
    (mb', rw (e, osd_info2) refl)

module _ (W : World) (s : RoraClient W) (d : Client W.transport)
    (refuses : osd_info2 W.transport s.delegate ≡ (returns none, d))
    (idle : s.access.filling ≡ false) where
  abbrev emptied : RoraClient W
  emptied = record s {
    delegate = d;
    access = record s.access { alba_levels = []; osd_maps = []; filling = false };
  }

  guarded_fill-refused : guarded_fill W s ≡ (returns true, emptied)
  unfolding guarded_fill set_filling fill_up modify catch within ◌>>=◌ pure fill
  guarded_fill-refused = rw (refuses, guarded_fill) refl

  not_filling :
      (b : Bool)
      → b ≡ false
      → (if b then raise process_down else guarded_fill W) s ≡ (returns true, emptied)
  not_filling b e = rw e guarded_fill-refused

  update-refused : update W s ≡ (returns true, emptied)
  unfolding update gets ◌>>=◌
  update-refused = not_filling s.access.filling idle

  first_update-refused : first_update W s ≡ (returns tt, emptied)
  unfolding first_update pure ◌>>=◌
  first_update-refused = rw (update-refused, first_update) refl

  levels_fetched :
      (levels : List (List ℕ))
      → levels ≡ []
      → (if is_empty W levels then first_update W else pure tt) s ≡ (returns tt, emptied)
  levels_fetched levels e = rw e first_update-refused

  get_alba_levels-refused : s.access.alba_levels ≡ [] → get_alba_levels W s ≡ (returns [], emptied)
  unfolding get_alba_levels gets ◌>>=◌
  get_alba_levels-refused e = rw (levels_fetched s.access.alba_levels e, get_alba_levels) refl

  fast_path-refused :
      (start end : ℕ) (namespace_ : List ℕ) (o : ObjectTargets) (os : List ObjectTargets)
      (consistent_read : Bool)
      → s.access.alba_levels ≡ []
      → fast_path W start end namespace_ (o ∷ os) consistent_read s ≡ (raises process_down, emptied)
  unfolding fast_path route_all resolve_one_many_levels raise within ◌>>=◌
  fast_path-refused start end namespace_ o os consistent_read e =
      rw (get_alba_levels-refused e, fast_path) refl

choose_path-open :
    (W : World) (start : ℕ) (consistent_read : Bool) (s : RoraClient W)
    → s.fast_path_failures ≤ 100
    → (consistent_read && s.has_local_fragment_cache) ≡ false
    → choose_path W start consistent_read s ≡ (returns false, s)
unfolding choose_path gets pure ◌>>=◌
choose_path-open W start consistent_read s few shared =
    rw (ltb-false 100 s.fast_path_failures few, shared) refl

-- A client whose fast path is open, and that has no levels yet and is not being filled, asks the proxy for
-- the osds. Where the proxy refuses, which it says with a code and a text in its response, the client
-- takes that for an answer without osds: the read of an object goes on and looks up a level where there
-- is none. The timeout of the call stays set.
pub read_objects_slices-refused :
    (W : World) (start end : ℕ) (namespace_ : List ℕ) (o : ObjectTargets) (os : List ObjectTargets)
    (consistent_read : Bool) (s : RoraClient W) (rc : ℕ) (what : List ℕ) (t' : W.transport.State)
    → s.fast_path_failures ≤ 100
    → (consistent_read && s.has_local_fragment_cache) ≡ false
    → s.access.alba_levels ≡ []
    → s.access.filling ≡ false
    → 0 < rc
    → rc < u32
    → length what < u32
    → length (reply_bytes {A = ℕ} no_bytes (refused rc what)) < 2 ^ 31
    → IsReset s.delegate.mb
    → Exchanges W.transport
        (le_bytes 4 28)
        (reply_bytes {A = ℕ} no_bytes (refused rc what))
        (W.transport.expires_from_now (some s.delegate.timeout) s.delegate.transport)
        t'
    → (mb' : Builder) × (read_objects_slices W start end namespace_ (o ∷ os) consistent_read s ≡ (
      raises process_down,
      record s {
        delegate = record s.delegate { transport = t'; mb = mb' };
        access = record s.access { alba_levels = []; osd_maps = []; filling = false };
      },
    ))
unfolding read_objects_slices ◌>>=◌
read_objects_slices-refused W start end namespace_ o os consistent_read s rc what t' few shared
      none_yet idle h k n small clean over =
    let (mb', e) = osd_info2-refused W.transport rc what s.delegate t' h k n small clean over in
    (
      mb',
      rw (choose_path-open W start consistent_read s few shared) (
          fast_path-refused W s (record s.delegate { transport = t'; mb = mb' }) e idle start end
            namespace_ o os consistent_read none_yet),
    )
