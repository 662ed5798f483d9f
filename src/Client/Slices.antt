-- ===== src/Client/Slices.antt =====
-- `read_objects_slices2` from the request to the data of the slices, over a transport.
use alba.Base.{
  ℕ, ◌+◌, ◌^◌, ◌<◌, ◌≤◌, ◌≡◌, refl, List, ◌∷◌, ◌++◌, Bool, Option, none, some, length, All, u32,
  le_bytes,
}
use alba.Exec.{Result, returns, pure, defined, modify, within, ◌>>=◌}
use alba.Llio.Builder.{Builder, max_message}
use alba.Llio.Layout.{string_bytes, bool_bytes, vector_bytes}
use alba.Manifest.Resilience.{Outcomes, IsListed, decoded}
use alba.Rora.Key.{IsReset}
use alba.Proxy.Requests.{ObjectSlices, write_read_objects_slices2_request}
use alba.Proxy.Responses.{Status, is_ok, read_read_objects_slices2_response}
use alba.Proxy.Written.{
  IsText, AreObjectSlices, object_slices_bytes, Writes-write_read_objects_slices_request,
}
use alba.Proxy.Replies.{FillAll, slices_bytes, Reads-read_read_objects_slices2_response}
use alba.Client.{Transport, Client, check_status, expires}
use alba.Client.Calls.{count_slow, counted_call, read_objects_slices2}
use alba.Client.Exchange.{Exchanges, exchange-Exchanges}

-- The request for slices with its manifests.
unfoldable pub slices_request : List ℕ → List ObjectSlices → Bool → List ℕ
slices_request namespace_ slices consistent_read =
    le_bytes 4 23
    ++ (string_bytes namespace_
        ++ (vector_bytes object_slices_bytes slices ++ bool_bytes consistent_read))

-- The response with the data of the slices and a list of manifests.
unfoldable pub slices_response :
    (uncompress : List ℕ → List ℕ) → ℕ → List (List (List ℕ)) → Outcomes → List ℕ
slices_response uncompress size ds es = le_bytes 4 0 ++ slices_bytes uncompress size ds es

module _ (T : Transport) (uncompress : List ℕ → List ℕ) where
  counted :
      {A : Type 0} (n : ℕ) (c c' : Client T) (a : A)
      (m : Client T → Result (Status × Option A) × Client T)
      → m c ≡ (returns (record { return_code = 0; what = none }, some a), c')
      → counted_call T n m c ≡ (
        returns a,
        record c' {
          transport = T.expires_from_now none c'.transport;
          counter = count_slow n c'.counter;
        },
      )
  unfolding counted_call check_status is_ok expires modify within ◌>>=◌ pure defined
  counted n c c' a m e = rw e refl

  -- Over a transport that takes the request and gives such a response, a read of slices of at least one
  -- object returns for each slice, in the order of the request, the bytes sent for it, and the manifests
  -- that decode; it counts the objects, takes the timeout off, and leaves the builder reset.
  pub read_objects_slices2-Exchanges :
      (namespace_ : List ℕ) (o : ObjectSlices) (os : List ObjectSlices) (consistent_read : Bool)
      (size : ℕ) (ds : List (List (List ℕ))) (es : Outcomes) (c : Client T) (t' : T.State)
      → IsText namespace_
      → All AreObjectSlices (o ∷ os)
      → length (o ∷ os) < u32
      → 4 + length (slices_request namespace_ (o ∷ os) consistent_read) < max_message
      → size < u32
      → FillAll (o ∷ os) ds
      → length es ≤ 2 ^ 31
      → All (IsListed uncompress) es
      → length (slices_response uncompress size ds es) < 2 ^ 31
      → IsReset c.mb
      → Exchanges T
          (slices_request namespace_ (o ∷ os) consistent_read)
          (slices_response uncompress size ds es)
          (T.expires_from_now (some c.timeout) c.transport)
          t'
      → (mb' : Builder) × ((read_objects_slices2 T uncompress namespace_ (o ∷ os) consistent_read c
            ≡ (
              returns (ds, decoded uncompress es),
              record c {
                transport = T.expires_from_now none t';
                mb = mb';
                counter = count_slow (length (o ∷ os)) c.counter;
              },
            ))
          × IsReset mb')
  unfolding read_objects_slices2 write_read_objects_slices2_request slices_request slices_response
  read_objects_slices2-Exchanges namespace_ o os consistent_read size ds es c t' hn ho few short hs
        hd he all small clean over =
      let (mb', (e, r)) =
        exchange-Exchanges T
          (write_read_objects_slices2_request namespace_ (o ∷ os) consistent_read)
          (read_read_objects_slices2_response uncompress (o ∷ os))
          (slices_request namespace_ (o ∷ os) consistent_read)
          (Writes-write_read_objects_slices_request 23 namespace_ (o ∷ os) consistent_read hn ho
            few)
          short c clean (slices_response uncompress size ds es)
          (record { return_code = 0; what = none }, some (ds, decoded uncompress es))
          (Reads-read_read_objects_slices2_response uncompress size (o ∷ os) ds es hs hd he all)
          small t' over in
      (
        mb',
        (
          counted (length (o ∷ os)) c (record c { transport = t'; mb = mb' })
              (ds, decoded uncompress es) _ e,
          r,
        ),
      )
