-- ===== src/Cache/Recency.antt =====
-- The cache as a list of pairs, the pair that was used last at the end.
use alba.Base.{
  ℕ, suc, ◌≤◌, ◌<◌, ◌≡◌, refl, sym, ◌∙◌, List, [], ◌∷◌, ◌++◌, true, false, Option, none, some, leb,
  le→leb, lt_of_leb-false, leb-false, if◌then◌else◌, string_eq, length, length-append, length-drop,
  drop, Bool-cases, Option-cases, inl, inr, arith,
}
use alba.Cache.{assoc, has, remove, Bimap, Cache, find, make_room, insert_pair, insert}
use alba.Cache.Laws.{
  has-remove, remove_absent, length-remove, length-remove_present, has-assoc, assoc-append,
  assoc-append_other, assoc-remove_other, assoc_absent,
}

module _ {V : Type 0} where
  abbrev pub found_at : List ℕ → Option V → List (List ℕ × V) → List (List ℕ × V)
  found_at k none es = es
  found_at k (some v) es = remove k es ++ ((k, v) ∷ [])

module _ {V : Type 0} (bimap : Bimap V) where
  abbrev pub pairs_of : Cache bimap → List (List ℕ × V)
  pairs_of c = bimap.entries c.pairs

  abbrev pub evict : ℕ → List (List ℕ × V) → List (List ℕ × V)
  evict capacity es = if leb capacity (length es) then drop 1 es else es

  entries-insert_pair :
      (k : List ℕ) (v : V) (b : bimap.Carrier)
      → bimap.entries (insert_pair bimap k v b) ≡ remove k (bimap.entries b) ++ ((k, v) ∷ [])
  unfolding insert_pair
  entries-insert_pair k v b = elim (Bool-cases (has k (bimap.entries b))) [
    | inl present ↦
        let gone : has k (bimap.entries (bimap.erase k b).0) ≡ false =
          rw (bimap.erase_law k b) (has-remove k (bimap.entries b)) in
        rw (bimap.insert_present k v b present)
          ((bimap.insert_absent k v (bimap.erase k b).0 gone).0 ∙ rw (bimap.erase_law k b) refl)
    | inr absent ↦
        let inserted = bimap.insert_absent k v b absent in
        rw (inserted.1, remove_absent k (bimap.entries b) absent) (inserted.0)
  ]

  entries-make_room :
      (c : Cache bimap) → bimap.entries (make_room bimap c) ≡ evict c.capacity (pairs_of c)
  unfolding make_room
  entries-make_room c = elim (Bool-cases (leb c.capacity (length (pairs_of c)))) [
    | inl full ↦ rw (bimap.size_law c.pairs, full) (bimap.erase_begin_law c.pairs)
    | inr room ↦ rw (bimap.size_law c.pairs, room) refl
  ]

  -- An insertion evicts the oldest pair of a full cache, whichever its key is, takes out the pair of
  -- the key, and puts the new pair at the end.
  pub entries-insert :
      (k : List ℕ) (v : V) (c : Cache bimap)
      → pairs_of (insert bimap k v c) ≡ remove k (evict c.capacity (pairs_of c)) ++ ((k, v) ∷ [])
  unfolding insert
  entries-insert k v c = entries-insert_pair k v (make_room bimap c) ∙ rw (entries-make_room c) refl

  -- A lookup returns the value of the key, and where there is one its pair becomes the last.
  pub find_lem :
      (k : List ℕ) (c : Cache bimap)
      → ((find bimap k c).0 ≡ assoc k (pairs_of c))
        × (pairs_of (find bimap k c).1 ≡ found_at k (assoc k (pairs_of c)) (pairs_of c))
  unfolding find
  find_lem k c = elim (Option-cases (bimap.find k c.pairs)) [
    | inl absent ↦
        let a : assoc k (pairs_of c) ≡ none = sym (bimap.find_law k c.pairs) ∙ absent in
        rw (a, absent, find) (refl, refl)
    | inr (v, present) ↦
        let a : assoc k (pairs_of c) ≡ some v = sym (bimap.find_law k c.pairs) ∙ present in
        rw (a, present, find) (refl, bimap.relocate_law k v c.pairs present)
  ]

  length-evict :
      (capacity : ℕ) (es : List (List ℕ × V))
      → 0 < capacity
      → length es ≤ capacity
      → suc (length (evict capacity es)) ≤ capacity
  length-evict capacity es h k = elim (Bool-cases (leb capacity (length es))) [
    | inl full ↦ rw full (omega (arith, length-drop 1 es, h, k))
    | inr room ↦ rw room (omega (arith, lt_of_leb-false capacity (length es) room))
  ]

  -- An insertion keeps a cache of a positive capacity within its capacity.
  pub insert_bounded :
      (k : List ℕ) (v : V) (c : Cache bimap)
      → 0 < c.capacity
      → length (pairs_of c) ≤ c.capacity
      → length (pairs_of (insert bimap k v c)) ≤ (insert bimap k v c).capacity
  unfolding insert
  insert_bounded k v c h b = rw (entries-insert k v c) (
      omega (
        arith,
        length-append (remove k (evict c.capacity (pairs_of c))) ((k, v) ∷ []),
        length-remove k (evict c.capacity (pairs_of c)),
        length-evict c.capacity (pairs_of c) h b,
      ))

  -- The value that was inserted last under a key is found.
  pub find-insert :
      (k : List ℕ) (v : V) (c : Cache bimap) → (find bimap k (insert bimap k v c)).0 ≡ some v
  find-insert k v c =
      (find_lem k (insert bimap k v c)).0
      ∙ rw (entries-insert k v c) (assoc-append k v _ (has-remove k _))

  -- An insertion under another key does not change what is found, unless it evicts.
  pub find-insert_other :
      (k k' : List ℕ) (v : V) (c : Cache bimap)
      → string_eq k k' ≡ false
      → length (pairs_of c) < c.capacity
      → (find bimap k (insert bimap k' v c)).0 ≡ (find bimap k c).0
  find-insert_other k k' v c h room =
      (find_lem k (insert bimap k' v c)).0
      ∙ (rw (entries-insert k' v c, leb-false c.capacity (length (pairs_of c)) room)
            (assoc-append_other k k' v _ h ∙ assoc-remove_other k k' (pairs_of c) h)
          ∙ sym (find_lem k c).0)

  -- A lookup keeps the number of pairs.
  pub find_bounded :
      (k : List ℕ) (c : Cache bimap) → length (pairs_of (find bimap k c).1) ≤ length (pairs_of c)
  find_bounded k c = elim (Option-cases (assoc k (pairs_of c))) [
    | inl absent ↦ rw ((find_lem k c).1, absent) (omega arith)
    | inr (v, present) ↦
        rw ((find_lem k c).1, present)
          (omega (
            arith,
            length-append (remove k (pairs_of c)) ((k, v) ∷ []),
            length-remove_present k (pairs_of c) (has-assoc k v (pairs_of c) present),
          ))
  ]

  -- An insertion under a key that a full cache has, and whose pair is not the oldest, evicts the
  -- oldest pair all the same, and leaves fewer pairs than before.
  pub insert_replaces :
      (k k0 : List ℕ) (v v0 : V) (es : List (List ℕ × V)) (c : Cache bimap)
      → pairs_of c ≡ (k0, v0) ∷ es
      → c.capacity ≡ suc (length es)
      → has k es ≡ true
      → has k0 es ≡ false
      → string_eq k0 k ≡ false
      → ((find bimap k0 (insert bimap k v c)).0 ≡ none)
        × (length (pairs_of (insert bimap k v c)) < length (pairs_of c))
  insert_replaces k k0 v v0 es c is full present once other =
      let evicted : evict c.capacity (pairs_of c) ≡ es =
        rw (is, full, le→leb (suc (length es)) (suc (length es)) (omega arith)) refl in
      let after : pairs_of (insert bimap k v c) ≡ remove k es ++ ((k, v) ∷ []) =
        rw evicted at (entries-insert k v c) in
      (
        (find_lem k0 (insert bimap k v c)).0
            ∙ rw after (
                assoc-append_other k0 k v _ other
                ∙ (assoc-remove_other k0 k es other ∙ assoc_absent k0 es once)),
        rw (after, is)
            (omega (
              arith,
              length-append (remove k es) ((k, v) ∷ []),
              length-remove_present k es present,
            )),
      )
