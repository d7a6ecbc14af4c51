-- ===== src/Delta/Net.antt =====
-- The two maps of `project_delta_range` against the changes of one file.
use planar.Base.{
  ◌≡◌, refl, Option, some, none, List, [], ◌∷◌, ◌++◌, ◌==◌, ==_iff, if◌then◌else◌, Bool-cases, true,
  false, arith, inl, inr,
}
use planar.Spec.{Uuid}
use planar.Catalog.Rows.{File}
use planar.Delta.{
  TxnFileChangeKind, added, removed, TxnFileChange, TxnEvent, lookup, remove, insert, Maps, cancel,
  apply_kind, apply_changes, apply_events,
}

module _ {V : Type 0} (u k : Uuid) where
  lookup-remove :
      (m : List (Uuid × V)) → lookup u (remove k m) ≡ (if u == k then none else lookup u m)
  unfolding lookup remove
  lookup-remove [] = ground arith
  lookup-remove ((j, v) ∷ m) = ground (arith, lookup-remove m)

  lookup-insert :
      (v : V) (m : List (Uuid × V))
      → lookup u (insert k v m) ≡ (if u == k then some v else lookup u m)
  unfolding lookup insert
  lookup-insert v m = ground (arith, lookup-remove m)

-- What became of one file in a range.
pub data Net (Value : Type 0) : Type 0 where
  untouched cancelled : Net Value
  now_added now_removed : File Value → Net Value

module _ {Value : Type 0} where
  -- One change of the file: a removal undoes the addition that it follows.
  abbrev pub step : TxnFileChangeKind → File Value → Net Value → Net Value
  step added file before = now_added file
  step removed file (now_added old) = cancelled
  step removed file untouched = now_removed file
  step removed file cancelled = now_removed file
  step removed file (now_removed old) = now_removed file

  -- The changes of the file `u`, one after the other; those of other files do not count.
  abbrev pub net : Uuid → List (TxnFileChange Value) → Net Value → Net Value
  net u [] before = before
  net u (c ∷ rest) before =
      net u rest (if u == c.file.file_uuid then step c.kind c.file before else before)

  abbrev pub added_of : Net Value → Option (File Value)
  added_of (now_added file) = some file
  added_of untouched = none
  added_of (now_removed file) = none
  added_of cancelled = none

  abbrev pub removed_of : Net Value → Option (File Value)
  removed_of (now_removed file) = some file
  removed_of untouched = none
  removed_of (now_added file) = none
  removed_of cancelled = none

  abbrev pub Shows : Uuid → Net Value → Maps Value → Type 0
  Shows u n maps =
      (lookup u maps.added_by_uuid ≡ added_of n) × (lookup u maps.removed_by_uuid ≡ removed_of n)

  module _ (u : Uuid) (file : File Value) (maps : Maps Value) where
    added-Shows :
        (n : Net Value)
        → Shows u n maps
        → Shows u (if u == file.file_uuid then now_added file else n) (apply_kind added file maps)
    unfolding apply_kind
    added-Shows n shows =
        let i = lookup-insert u file.file_uuid file maps.added_by_uuid in
        let r = lookup-remove u file.file_uuid maps.removed_by_uuid in
        (ground (arith, i, shows.0), ground (arith, r, shows.1))

    -- A removal of the file itself.
    cancel-here :
        (n : Net Value)
        → (u == file.file_uuid) ≡ true
        → Shows u n maps
        → Shows u (step removed file n) (cancel (added_of n) file maps)
    unfolding cancel
    cancel-here untouched same shows =
        let i = lookup-insert u file.file_uuid file maps.removed_by_uuid in
        (shows.0, ground (arith, i))
    cancel-here (now_added old) same shows =
        let r = lookup-remove u file.file_uuid maps.added_by_uuid in (ground (arith, r), shows.1)
    cancel-here (now_removed old) same shows =
        let i = lookup-insert u file.file_uuid file maps.removed_by_uuid in
        (shows.0, ground (arith, i))
    cancel-here cancelled same shows =
        let i = lookup-insert u file.file_uuid file maps.removed_by_uuid in
        (shows.0, ground (arith, i))

    -- A removal of another file.
    cancel-there :
        (n : Net Value) (o : Option (File Value))
        → (u == file.file_uuid) ≡ false
        → Shows u n maps
        → Shows u n (cancel o file maps)
    unfolding cancel
    cancel-there n none other shows =
        let i = lookup-insert u file.file_uuid file maps.removed_by_uuid in
        (shows.0, ground (arith, i, shows.1))
    cancel-there n (some old) other shows =
        let r = lookup-remove u file.file_uuid maps.added_by_uuid in
        (ground (arith, r, shows.0), shows.1)

    apply_kind-Shows :
        (kind : TxnFileChangeKind) (n : Net Value)
        → Shows u n maps
        → Shows u (if u == file.file_uuid then step kind file n else n) (apply_kind kind file maps)
    unfolding apply_kind
    apply_kind-Shows added n shows = added-Shows n shows
    apply_kind-Shows removed n shows = elim (Bool-cases (u == file.file_uuid)) [
      | inl same ↦
          let e : u ≡ file.file_uuid = (==_iff u file.file_uuid).0 same in
          let found : lookup file.file_uuid maps.added_by_uuid ≡ added_of n = rw⁻¹ e shows.0 in
          rw (same, found) (cancel-here n same shows)
      | inr other ↦ rw other (cancel-there n (lookup file.file_uuid maps.added_by_uuid) other shows)
    ]

  apply_changes-Shows :
      (u : Uuid) (changes : List (TxnFileChange Value)) (n : Net Value) (maps : Maps Value)
      → Shows u n maps
      → Shows u (net u changes n) (apply_changes changes maps)
  unfolding apply_changes
  apply_changes-Shows u [] n maps shows = shows
  apply_changes-Shows u (c ∷ rest) n maps shows =
      apply_changes-Shows u rest (if u == c.file.file_uuid then step c.kind c.file n else n)
        (apply_kind c.kind c.file maps) (apply_kind-Shows u c.file maps c.kind n shows)

  -- All changes of a range, in the order of the transactions.
  abbrev pub changes_of : List (TxnEvent Value) → List (TxnFileChange Value)
  changes_of [] = []
  changes_of (event ∷ rest) = event.file_changes ++ changes_of rest

  net-append :
      (u : Uuid) (xs ys : List (TxnFileChange Value)) (n : Net Value)
      → net u (xs ++ ys) n ≡ net u ys (net u xs n)
  net-append u [] ys n = refl
  net-append u (c ∷ xs) ys n =
      net-append u xs ys (if u == c.file.file_uuid then step c.kind c.file n else n)

  apply_events-Shows :
      (u : Uuid) (events : List (TxnEvent Value)) (n : Net Value) (maps : Maps Value)
      → Shows u n maps
      → Shows u (net u (changes_of events) n) (apply_events events maps)
  unfolding apply_events
  apply_events-Shows u [] n maps shows = shows
  apply_events-Shows u (event ∷ rest) n maps shows =
      rw (net-append u event.file_changes (changes_of rest) n) (
        apply_events-Shows u rest (net u event.file_changes n)
          (apply_changes event.file_changes maps)
          (apply_changes-Shows u event.file_changes n maps shows))

  -- The two maps of a delta are the net effect of the range on each file by itself: the map of
  -- added files has a file exactly when the last change of the file in the range adds it, and the
  -- map of removed files exactly when the last one removes it and does not undo an addition right
  -- before it; changes of other files do not matter.
  pub apply_events-net :
      (u : Uuid) (events : List (TxnEvent Value))
      → let maps = apply_events events (record { added_by_uuid = []; removed_by_uuid = [] }) in
        let outcome = net u (changes_of events) untouched in
        (lookup u maps.added_by_uuid ≡ added_of outcome)
        × (lookup u maps.removed_by_uuid ≡ removed_of outcome)
  unfolding lookup
  apply_events-net u events =
      apply_events-Shows u events untouched (record { added_by_uuid = []; removed_by_uuid = [] })
        (refl, refl)
