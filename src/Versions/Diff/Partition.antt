-- ===== src/Versions/Diff/Partition.antt =====
-- A diff sorts the capabilities that changed.
use ecm_management.Base.{
  ℕ, ◌+◌, ◌≡◌, refl, subst, inl, inr, List, [], ◌∷◌, ◌++◌, max, arith, if◌then◌else◌, ◌==◌, ==→eq,
  Option-cases, count, any,
}
use ecm_management.Schema.{Uuid, Capability, CapabilityVersion, Db, ok}
use ecm_management.Versions.States.{find_version}
use ecm_management.Versions.OneDraft.Rows.{one_if}
use ecm_management.Versions.Diff.{
  Bucket, add_change, group_changes, CapabilityDiffEntry, ModelVersionDiff, classify, classify_all,
  added_entry, modified_entry, removed_entry, range_entries, compute_diff,
}

abbrev pub entries_of : Uuid → List CapabilityDiffEntry → ℕ
entries_of c = count (λ e. e.capability_id == c)

count-add_change :
    (c : Uuid) (v : CapabilityVersion) (bs : List Bucket)
    → count (λ b. b.capability_id == c) (add_change v bs) ≡ (
        if v.capability_id == c
        then max 1 (count (λ b. b.capability_id == c) bs)
        else count (λ b. b.capability_id == c) bs)
unfolding add_change count
count-add_change c v [] = ground arith
count-add_change c v (b ∷ bs) =
    ground (arith, count-add_change c v bs, ==→eq b.capability_id v.capability_id)

count-group_changes :
    (c : Uuid) (vs : List CapabilityVersion) (bs : List Bucket)
    → count (λ b. b.capability_id == c) (group_changes vs bs) ≡ (
        if any (λ v. v.capability_id == c) vs
        then max 1 (count (λ b. b.capability_id == c) bs)
        else count (λ b. b.capability_id == c) bs)
unfolding group_changes any
count-group_changes c [] bs = refl
count-group_changes c (v ∷ vs) bs =
    ground (arith, count-group_changes c vs (add_change v bs), count-add_change c v bs)

count-snoc :
    (c : Uuid) (es : List CapabilityDiffEntry) (e : CapabilityDiffEntry)
    → entries_of c (es ++ e ∷ []) ≡ entries_of c es + one_if (e.capability_id == c)
unfolding count
count-snoc c [] e = ground arith
count-snoc c (x ∷ xs) e = ground (arith, count-snoc c xs e)

abbrev total_of : Uuid → ModelVersionDiff → ℕ
total_of c diff = entries_of c diff.added + entries_of c diff.modified + entries_of c diff.removed

total-classify :
    (c : Uuid) (capabilities : List Capability) (b : Bucket) (diff : ModelVersionDiff)
    → total_of c (classify capabilities b diff) ≡ total_of c diff + one_if (b.capability_id == c)
unfolding classify added_entry modified_entry removed_entry
total-classify c capabilities b diff = ground (
  arith,
  count-snoc c diff.added (added_entry capabilities b),
  count-snoc c diff.modified (modified_entry capabilities b),
  count-snoc c diff.removed (removed_entry capabilities b),
)

total-classify_all :
    (c : Uuid) (capabilities : List Capability) (bs : List Bucket) (diff : ModelVersionDiff)
    → total_of c (classify_all capabilities bs diff)
      ≡ total_of c diff + count (λ b. b.capability_id == c) bs
unfolding classify_all count
total-classify_all c capabilities [] diff = omega arith
total-classify_all c capabilities (b ∷ bs) diff = ground (
  arith,
  total-classify_all c capabilities bs (classify capabilities b diff),
  total-classify c capabilities b diff,
)

-- A capability with an entry in the range is in exactly one of the three lists of a diff, and there
-- once; a capability without one is in none.
pub compute_diff-partitions :
    (from_id to_id : Uuid) (db : Db) (diff : ModelVersionDiff) (c : Uuid)
    → compute_diff from_id to_id db ≡ ok diff
    → entries_of c diff.added + entries_of c diff.modified + entries_of c diff.removed
      ≡ one_if (any (λ v. v.capability_id == c) (range_entries from_id to_id db))
unfolding compute_diff
compute_diff-partitions from_id to_id db diff c done =
    elim (Option-cases (find_version from_id db)) [
      | inl missing ↦ absurd (ground arith)
      | inr (v, there) ↦ elim (Option-cases (find_version to_id db)) [
        | inl missing ↦ absurd (ground arith)
        | inr (w, here) ↦
            subst
              (λ d.
                total_of c d
                ≡ one_if (any (λ v. v.capability_id == c) (range_entries from_id to_id db)))
              {x = classified} {y = diff} (ground arith) sorted
      ]
    ]
  where
    classified : ModelVersionDiff
    classified =
        classify_all db.capabilities (group_changes (range_entries from_id to_id db) [])
          (record { added = []; modified = []; removed = [] })

    sorted :
        total_of c classified
        ≡ one_if (any (λ v. v.capability_id == c) (range_entries from_id to_id db))
    sorted =
        unfold count in
        ground (
          arith,
          total-classify_all c db.capabilities (group_changes (range_entries from_id to_id db) [])
              (record { added = []; modified = []; removed = [] }),
          count-group_changes c (range_entries from_id to_id db) [],
        )
