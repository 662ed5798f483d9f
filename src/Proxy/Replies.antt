-- ===== src/Proxy/Replies.antt =====
-- What a client makes of the bytes of a response: the refusal of a request, and the slices that were
-- asked for together with the manifests that come with them.
use alba.Base.{
  ℕ, ◌<◌, ◌≤◌, ◌≡◌, ◌^◌, refl, sym, subst, List, [], ◌∷◌, ◌++◌, Option, none, some, ==_false,
  length, All, u32, le_bytes, arith,
}
use alba.Llio.Reader.{Reader}
use alba.Llio.Reads.{Reads, Reads-pure, Reads-bind, Reads-bind_nil, Reads-last, Reads-load}
use alba.Llio.Layout.{string_bytes, concat_bytes}
use alba.Llio.RoundTrip.{Reads-from_u32, Reads-from_string}
use alba.Manifest.Entries.{ObjectInfo}
use alba.Manifest.Resilience.{Outcomes, IsListed, outcome_bytes, decoded, Reads-read_object_infos}
use alba.Proxy.Requests.{SliceDescriptor, ObjectSlices}
use alba.Proxy.Responses.{
  Status, status_of, read_status, is_ok, read_response, read_slice, read_slices, read_objects,
  read_data, read_data_and_infos, read_read_objects_slices2_response,
}

-- What a server answers: a value, or a code and a text.
pub data Reply (A : Type 0) : Type 0 where
  accepted : A → Reply A
  refused : ℕ → List ℕ → Reply A

module _ {A : Type 0} (bytes : A → List ℕ) where
  unfoldable pub reply_bytes : Reply A → List ℕ
  reply_bytes (accepted a) = le_bytes 4 0 ++ bytes a
  reply_bytes (refused rc what) = le_bytes 4 rc ++ string_bytes what

abbrev pub answer : {A : Type 0} → Reply A → Status × Option A
answer (accepted a) = (record { return_code = 0; what = none }, some a)
answer (refused rc what) = (record { return_code = rc; what = some what }, none)

abbrev pub IsReply : {A : Type 0} → (A → Type 0) → Reply A → Type 0
IsReply P (accepted a) = P a
IsReply P (refused rc what) = (0 < rc) × ((rc < u32) × (length what < u32))

Reads-status_of_error :
    (rc : ℕ) (what : List ℕ)
    → 0 < rc
    → length what < u32
    → Reads (status_of rc) (string_bytes what) (record { return_code = rc; what = some what })
unfolding status_of
Reads-status_of_error rc what h n =
    rw (==_false rc 0 (λ e. omega (arith, e, h)))
      (Reads-last (λ w. record { return_code = rc; what = some w }) (Reads-from_string what n))

module _ {A : Type 0} {P : A → Type 0} {body : Reader A} {bytes : A → List ℕ}
    (reads : (a : A) → P a → Reads body (bytes a) a) where
  -- Where the body of a response is read back from its bytes, a response is read back: with its value
  -- behind the code 0, and behind any other code with the text, nothing else being read.
  pub Reads-read_response :
      (r : Reply A) → IsReply P r → Reads (read_response body) (reply_bytes bytes r) (answer r)
  unfolding read_response read_status status_of reply_bytes is_ok
  Reads-read_response (accepted a) h =
      Reads-bind _
        (Reads-bind_nil _ (record { return_code = 0; what = none }) (Reads-from_u32 0 (omega arith))
          (Reads-pure _))
        (Reads-last (λ x. (record { return_code = 0; what = none }, some x)) (reads a h))
  Reads-read_response (refused rc what) (h, (k, n)) =
      Reads-bind_nil _ (record { return_code = rc; what = some what }, none)
        (Reads-bind _ (Reads-from_u32 rc k) (Reads-status_of_error rc what h n))
        (rw (==_false rc 0 (λ e. omega (arith, e, h))) (Reads-pure _))

-- Each slice comes with as many bytes as were asked for.
abbrev pub Fill : List SliceDescriptor → List (List ℕ) → Type 0
Fill [] [] = Unit {0}
Fill (s ∷ ss) (d ∷ ds) = (s.size ≡ length d) × Fill ss ds
Fill [] (d ∷ ds) = ⊥
Fill (s ∷ ss) [] = ⊥

abbrev pub FillAll : List ObjectSlices → List (List (List ℕ)) → Type 0
FillAll [] [] = Unit {0}
FillAll (o ∷ os) (d ∷ ds) = Fill o.slices d × FillAll os ds
FillAll [] (d ∷ ds) = ⊥
FillAll (o ∷ os) [] = ⊥

abbrev pub same : List ℕ → List ℕ
same d = d

Reads-read_slices :
    (ss : List SliceDescriptor) (ds : List (List ℕ))
    → Fill ss ds
    → Reads (read_slices ss) (concat_bytes same ds) ds
unfolding read_slices read_slice concat_bytes
Reads-read_slices [] [] h = Reads-pure []
Reads-read_slices [] (d ∷ ds) h = absurd h
Reads-read_slices (s ∷ ss) [] h = absurd h
Reads-read_slices (s ∷ ss) (d ∷ ds) (e, h) =
    Reads-bind _ (Reads-load s.size same d e)
      (Reads-last (λ rest. d ∷ rest) (Reads-read_slices ss ds h))

Reads-read_objects :
    (os : List ObjectSlices) (ds : List (List (List ℕ)))
    → FillAll os ds
    → Reads (read_objects os) (concat_bytes (concat_bytes same) ds) ds
unfolding read_objects concat_bytes
Reads-read_objects [] [] h = Reads-pure []
Reads-read_objects [] (d ∷ ds) h = absurd h
Reads-read_objects (o ∷ os) [] h = absurd h
Reads-read_objects (o ∷ os) (d ∷ ds) (e, h) =
    Reads-bind _ (Reads-read_slices o.slices d e)
      (Reads-last (λ rest. d ∷ rest) (Reads-read_objects os ds h))

-- The data of all slices in the order of the request, behind a size, and the manifests.
unfoldable pub slices_bytes :
    (uncompress : List ℕ → List ℕ) → ℕ → List (List (List ℕ)) → Outcomes → List ℕ
slices_bytes uncompress size ds es =
    (le_bytes 4 size ++ concat_bytes (concat_bytes same) ds)
    ++ (le_bytes 4 (length es) ++ concat_bytes (outcome_bytes uncompress) es)

-- A response to a request for slices gives each slice the bytes that were sent for it, in the order of
-- the request, whatever the size in front of them says, and then the manifests that decode; manifests
-- that do not decode change nothing of that.
pub Reads-read_read_objects_slices2_response :
    (uncompress : List ℕ → List ℕ) (size : ℕ) (os : List ObjectSlices) (ds : List (List (List ℕ)))
    (es : Outcomes)
    → size < u32
    → FillAll os ds
    → length es ≤ 2 ^ 31
    → All (IsListed uncompress) es
    → Reads
        (read_read_objects_slices2_response uncompress os)
        (le_bytes 4 0 ++ slices_bytes uncompress size ds es)
        (record { return_code = 0; what = none }, some (ds, decoded uncompress es))
unfolding read_read_objects_slices2_response read_data_and_infos read_data slices_bytes reply_bytes
Reads-read_read_objects_slices2_response uncompress size os ds es hs hd he all =
    let found : List (List (List ℕ)) × List ObjectInfo = (ds, decoded uncompress es) in
    let base : Reads (read_data_and_infos uncompress os) (slices_bytes uncompress size ds es)
        found =
      Reads-bind _ (Reads-bind _ (Reads-from_u32 size hs) (Reads-read_objects os ds hd))
        (Reads-last (λ infos. (ds, infos)) (Reads-read_object_infos uncompress es he all)) in
    Reads-read_response {P = λ a. a ≡ found} {bytes = λ a. slices_bytes uncompress size ds es}
      (λ a e.
        subst (Reads (read_data_and_infos uncompress os) (slices_bytes uncompress size ds es))
          (sym e) base)
      (accepted found) refl
