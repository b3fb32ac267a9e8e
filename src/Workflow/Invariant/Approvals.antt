-- ===== src/Workflow/Invariant/Approvals.antt =====
-- Nothing is approved, executed or completed without both approvals, and nothing is rejected without
-- a rejection.
use ecm_management.Base.{
  ◌≡◌, sym, subst, ◌∙◌, inl, inr, Bool, true, false, some, arith, ◌==◌, ==→eq, Bool-cases,
}
use ecm_management.Schema.{Uuid, ChangeRequestStatus, Db}
use ecm_management.Workflow.Views.{RequestView}
use ecm_management.Workflow.Moves.{
  view_in, BothApproved, HasRejection, Change, is_plain, Move, stay, open_request, advance, decide,
  lock, release,
}
use ecm_management.Workflow.Invariant.Reads.{Move-decision}

-- The statuses that the approval of both roles leads to.
abbrev pub is_past_approval : ChangeRequestStatus → Bool
is_past_approval ChangeRequestStatus.approved = true
is_past_approval ChangeRequestStatus.executing = true
is_past_approval ChangeRequestStatus.completed = true
is_past_approval _ = false

abbrev pub is_rejected : ChangeRequestStatus → Bool
is_rejected ChangeRequestStatus.rejected = true
is_rejected _ = false

pub record IsBacked (db : Db) : Type 0 where
  pub both :
      (j : Uuid) (v : RequestView)
      → view_in j db ≡ some v
      → is_past_approval v.status ≡ true
      → BothApproved j db
  pub one :
      (j : Uuid) (v : RequestView)
      → view_in j db ≡ some v
      → is_rejected v.status ≡ true
      → HasRejection j db

both-kept : {db db' : Db} (j : Uuid) → Move db db' → BothApproved j db → BothApproved j db'
both-kept j m b = record {
  curator = b.curator;
  board = b.board;
  by_curator = Move-decision _ j b.curator m b.by_curator;
  by_board = Move-decision _ j b.board m b.by_board;
  curator_approves = b.curator_approves;
  board_approves = b.board_approves;
}

rejection-kept : {db db' : Db} (j : Uuid) → Move db db' → HasRejection j db → HasRejection j db'
rejection-kept j m b = record {
  role = b.role;
  rejection = b.rejection;
  recorded = Move-decision b.role j b.rejection m b.recorded;
  rejects = b.rejects;
}

-- A change of one request keeps what backs the others; for itself, what backs its new status is given.
changed-IsBacked :
    (id : Uuid) (from to : ChangeRequestStatus) (db db' : Db)
    → Move db db'
    → Change id from to db db'
    → (is_past_approval to ≡ true → BothApproved id db')
    → (is_rejected to ≡ true → HasRejection id db')
    → IsBacked db
    → IsBacked db'
changed-IsBacked id from to db db' m c both one backed = record {
  both = λ j v e past. elim (Bool-cases (j == id)) [
    | inl hit ↦
        subst (λ x. BothApproved x db') (sym (==→eq j id hit))
          (both (ground (arith, c.moved j, c.found, ==→eq j id hit)))
    | inr other ↦ both-kept j m (backed.both j v (ground (arith, c.moved j)) past)
  ];
  one = λ j v e rejected. elim (Bool-cases (j == id)) [
    | inl hit ↦
        subst (λ x. HasRejection x db') (sym (==→eq j id hit))
          (one (ground (arith, c.moved j, c.found, ==→eq j id hit)))
    | inr other ↦ rejection-kept j m (backed.one j v (ground (arith, c.moved j)) rejected)
  ];
}

plain-unbacked :
    (from to : ChangeRequestStatus)
    → is_plain from to ≡ true
    → (is_past_approval to ≡ false) × (is_rejected to ≡ false)
plain-unbacked ChangeRequestStatus.draft to h = ground arith
plain-unbacked _ to h = ground arith

pub Move-IsBacked : {db db' : Db} → Move db db' → IsBacked db → IsBacked db'
Move-IsBacked (stay same) backed = record {
  both = λ j v e past. both-kept j (stay same) (backed.both j v (sym (same.same_views j) ∙ e) past);
  one = λ j v e rejected.
      rejection-kept j (stay same) (backed.one j v (sym (same.same_views j) ∙ e) rejected);
}
Move-IsBacked (open_request id o ds ls) backed = record {
  both = λ j v e past.
      both-kept j (open_request id o ds ls)
        (backed.both j v (ground (arith, o.added j, o.as_draft)) past);
  one = λ j v e rejected.
      rejection-kept j (open_request id o ds ls)
        (backed.one j v (ground (arith, o.added j, o.as_draft)) rejected);
}
Move-IsBacked {db = db} {db' = db'} (advance id from to c plain ds ls) backed =
    changed-IsBacked id from to db db' (advance id from to c plain ds ls) c
      (λ e. absurd (ground (arith, plain-unbacked from to plain)))
      (λ e. absurd (ground (arith, plain-unbacked from to plain))) backed
Move-IsBacked {db = db} {db' = db'} (decide id to d c k ds i f done ls) backed =
    changed-IsBacked id _ to db db' (decide id to d c k ds i f done ls) c
      (λ e. done.approved_by_both (ground arith)) (λ e. done.rejected_by_one (ground arith)) backed
Move-IsBacked {db = db} {db' = db'} (lock id c ds l) backed =
    changed-IsBacked id _ _ db db' (lock id c ds l) c
      (λ e. both-kept id (lock id c ds l) (backed.both id c.seen c.found (ground (arith, c.was))))
      (λ e. cc) backed
Move-IsBacked {db = db} {db' = db'} (release id to c k ds l) backed =
    changed-IsBacked id _ to db db' (release id to c k ds l) c
      (λ e.
        both-kept id (release id to c k ds l)
          (backed.both id c.seen c.found (ground (arith, c.was))))
      (λ e. absurd (ground arith)) backed
