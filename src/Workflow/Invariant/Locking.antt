-- ===== src/Workflow/Invariant/Locking.antt =====
-- The locks of the capabilities are those of the requests in execution, and no capability is locked
-- twice.
use ecm_management.Base.{
  ◌≡◌, refl, sym, subst, ap, ◌∙◌, inl, inr, Bool, true, false, some, arith, ◌==◌, ==→eq, ==_refl,
  elem, Bool-cases, Option-cases,
}
use ecm_management.Schema.{Uuid, ChangeRequestStatus, Db}
use ecm_management.Workflow.Views.{RequestView, holder, IsOneLockEach}
use ecm_management.Workflow.Moves.{
  view_in, holder_in, Change, is_plain, is_decision_status, is_after_execution, IsLocking,
  IsReleasing, Move, stay, open_request, advance, decide, lock, release,
}
use ecm_management.Workflow.Invariant.Reads.{IsFresh}

abbrev pub is_executing : ChangeRequestStatus → Bool
is_executing ChangeRequestStatus.executing = true
is_executing _ = false

pub record IsLocked (db : Db) : Type 0 where
  pub one_each : IsOneLockEach db.capability_locks
  -- A lock belongs to a request in execution that affects its capability.
  pub owned :
      (c j : Uuid)
      → holder_in c db ≡ some j
      → (v : RequestView) × (view_in j db ≡ some v)
        × (is_executing v.status ≡ true)
        × (elem c v.affected ≡ true)
  -- A request in execution holds the lock of each capability that it affects.
  pub held :
      (c j : Uuid) (v : RequestView)
      → view_in j db ≡ some v
      → is_executing v.status ≡ true
      → elem c v.affected ≡ true
      → holder_in c db ≡ some j

same-holder :
    (c : Uuid) (db db' : Db)
    → db'.capability_locks ≡ db.capability_locks
    → holder_in c db' ≡ holder_in c db
same-holder c db db' e = ap (holder c) e

-- A step that moves no lock and no request into or out of execution.
calm-IsLocked :
    (db db' : Db)
    → db'.capability_locks ≡ db.capability_locks
    → ((j : Uuid) (v : RequestView)
        → view_in j db ≡ some v
        → is_executing v.status ≡ true
        → view_in j db' ≡ some v)
    → ((j : Uuid) (v : RequestView)
        → view_in j db' ≡ some v
        → is_executing v.status ≡ true
        → view_in j db ≡ some v)
    → IsLocked db
    → IsLocked db'
calm-IsLocked db db' ls forth back l = record {
  one_each = subst IsOneLockEach (sym ls) l.one_each;
  owned = λ c j e.
      let (v, found, x, m) = l.owned c j (sym (same-holder c db db' ls) ∙ e) in
      (v, forth j v found x, x, m);
  held = λ c j v e x m. same-holder c db db' ls ∙ l.held c j v (back j v e x) x m;
}

-- A change between statuses other than EXECUTING is calm.
changed-IsLocked :
    (id : Uuid) (from to : ChangeRequestStatus) (db db' : Db)
    → Change id from to db db'
    → db'.capability_locks ≡ db.capability_locks
    → is_executing from ≡ false
    → is_executing to ≡ false
    → IsLocked db
    → IsLocked db'
changed-IsLocked id from to db db' c ls f t =
    calm-IsLocked db db' ls
      (λ j v e x. elim (Bool-cases (j == id)) [
        | inl hit ↦ absurd (ground (arith, c.found, ==→eq j id hit, c.was))
        | inr other ↦ ground (arith, c.moved j)
      ])
      (λ j v e x. elim (Bool-cases (j == id)) [
        | inl hit ↦ absurd (ground (arith, c.moved j, c.found, ==→eq j id hit))
        | inr other ↦ ground (arith, c.moved j)
      ])

plain-calm :
    (from to : ChangeRequestStatus)
    → is_plain from to ≡ true
    → (is_executing from ≡ false) × (is_executing to ≡ false)
plain-calm ChangeRequestStatus.draft to h = ground arith
plain-calm _ to h = ground arith

decision-calm : (to : ChangeRequestStatus) → is_decision_status to ≡ true → is_executing to ≡ false
decision-calm ChangeRequestStatus.draft h = ground arith
decision-calm _ h = ground arith

execution-calm : (to : ChangeRequestStatus) → is_after_execution to ≡ true → is_executing to ≡ false
execution-calm ChangeRequestStatus.draft h = ground arith
execution-calm _ h = ground arith

locking-IsLocked :
    (id : Uuid) (db db' : Db)
    → (change : Change id ChangeRequestStatus.approved ChangeRequestStatus.executing db db')
    → IsLocking id change.seen.affected db db'
    → IsLocked db
    → IsLocked db'
locking-IsLocked id db db' change k l = record {
  one_each = k.one_each l.one_each;
  owned = λ c j e. elim (Bool-cases (elem c change.seen.affected)) [
    | inl mine ↦
        let own : id ≡ j = ground (arith, k.taken c) in
        (
          record change.seen { status = ChangeRequestStatus.executing },
          subst
              (λ x.
                view_in x db'
                ≡ some (record change.seen { status = ChangeRequestStatus.executing }))
              own (change.moved id ∙ rw (==_refl id, change.found) refl),
          refl,
          mine,
        )
    | inr other ↦
        let (v, found, x, m) = l.owned c j (ground (arith, k.taken c)) in
        elim (Bool-cases (j == id)) [
          | inl hit ↦ absurd (ground (arith, change.found, ==→eq j id hit, change.was))
          | inr free ↦ (v, ground (arith, change.moved j), x, m)
        ]
  ];
  held = λ c j v e x m. elim (Bool-cases (j == id)) [
    | inl hit ↦ ground (arith, change.moved j, change.found, ==→eq j id hit, k.taken c)
    | inr other ↦
        let before : view_in j db ≡ some v = ground (arith, change.moved j) in
        ground (arith, k.taken c, k.were_free c, l.held c j v before x m)
  ];
}

releasing-IsLocked :
    (id : Uuid) (to : ChangeRequestStatus) (db db' : Db)
    → (change : Change id ChangeRequestStatus.executing to db db') → is_executing to ≡ false
    → IsReleasing id change.seen.affected db db'
    → IsLocked db
    → IsLocked db'
releasing-IsLocked id to db db' change t k l = record {
  one_each = k.one_each l.one_each;
  owned = λ c j e. elim (k.released l.one_each c) [
    | inr (gone, _) ↦ absurd (ground arith)
    | inl left ↦ elim (Option-cases (holder_in c db)) [
      | inl no_lock ↦ absurd (ground arith)
      | inr (h, had) ↦ elim (Bool-cases (h == id)) [
        | inl mine ↦ absurd (ground arith)
        | inr other ↦
            let same : h ≡ j = ground arith in
            let (v, found, x, m) = l.owned c h had in
            (v, subst (λ y. view_in y db' ≡ some v) same (ground (arith, change.moved h)), x, m)
      ]
    ]
  ];
  held = λ c j v e x m. elim (Bool-cases (j == id)) [
    | inl hit ↦ absurd (ground (arith, change.moved j, change.found, ==→eq j id hit))
    | inr other ↦
        let had = l.held c j v (ground (arith, change.moved j)) x m in
        elim (k.released l.one_each c) [
          | inl left ↦ ground arith
          | inr (gone, mine) ↦ absurd (
              ground (
                arith,
                had,
                l.held c id change.seen change.found (rw change.was refl) mine,
                ==_refl id,
              ))
        ]
  ];
}

pub Move-IsLocked : {db db' : Db} → IsFresh db → Move db db' → IsLocked db → IsLocked db'
Move-IsLocked {db = db} {db' = db'} fresh (stay same) l =
    calm-IsLocked db db' same.same_locks (λ j v e x. same.same_views j ∙ e)
      (λ j v e x. sym (same.same_views j) ∙ e) l
Move-IsLocked {db = db} {db' = db'} fresh (open_request id o ds ls) l =
    calm-IsLocked db db' ls
      (λ j v e x. ground (arith, o.added j, fresh j v e, o.new_id, ==→eq j id))
      (λ j v e x. ground (arith, o.added j, o.as_draft)) l
Move-IsLocked {db = db} {db' = db'} fresh (advance id from to c plain ds ls) l =
    changed-IsLocked id from to db db' c ls (plain-calm from to plain).0
      (plain-calm from to plain).1 l
Move-IsLocked {db = db} {db' = db'} fresh (decide id to d c k ds i f done ls) l =
    changed-IsLocked id _ to db db' c ls refl (decision-calm to k) l
Move-IsLocked {db = db} {db' = db'} fresh (lock id c ds k) l = locking-IsLocked id db db' c k l
Move-IsLocked {db = db} {db' = db'} fresh (release id to c k ds r) l =
    releasing-IsLocked id to db db' c (execution-calm to k) r l
