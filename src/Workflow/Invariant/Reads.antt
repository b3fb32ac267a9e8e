-- ===== src/Workflow/Invariant/Reads.antt =====
-- Requests keep their identity and follow the transition map; reads that are held stay truthful.
use ecm_management.Base.{
  ◌<◌, ◌≡◌, refl, sym, ap, subst, ◌∙◌, ◌⊎◌, inl, inr, true, Option, none, some, String, arith, ◌==◌,
  str_eq, eq_iff, Bool-cases, ==→eq,
}
use ecm_management.Schema.{Uuid, ChangeRequestStatus, ApprovalDecision, Db, status_eq}
use ecm_management.ChangeRequest.Store.{Detail, decision_by, decisions_of}
use ecm_management.ChangeRequest.Transitions.{includes, valid_transitions}
use ecm_management.ChangeRequest.Decisions.{curator_role}
use ecm_management.Workflow.Views.{RequestView}
use ecm_management.Workflow.Moves.{
  view_in, decision_in, CuratorDecided, Change, is_plain, is_decision_status, is_after_execution,
  IsHeld, Move, stay, open_request, advance, decide, lock, release,
}
use ecm_management.Workflow.Refines.Decision.{decision_in-added, decision_in-other}

some≢none {ℓ} : {A : Type ℓ} {a : A} → some a ≡ none → ⊥
some≢none e = cc

-- Ids in use lie below the next one.
abbrev pub IsFresh : Db → Type 0
IsFresh db = (j : Uuid) (v : RequestView) → view_in j db ≡ some v → j < db.next_uuid

-- The transition map of the service, and no change at all; a decision by the curator alone keeps a
-- request under approval.
abbrev pub MayGo : ChangeRequestStatus → ChangeRequestStatus → Type 0
MayGo from to = (to ≡ from) ⊎ (includes to (valid_transitions from) ≡ true)

pub record IsSuccessor (v v' : RequestView) : Type 0 where
  pub keeps_type : v'.type ≡ v.type
  pub keeps_affected : v'.affected ≡ v.affected
  pub goes : MayGo v.status v'.status

changed-IsSuccessor :
    (id : Uuid) (from to : ChangeRequestStatus) (db db' : Db) (j : Uuid) (v : RequestView)
    → Change id from to db db'
    → MayGo from to
    → view_in j db ≡ some v
    → (v' : RequestView) × (view_in j db' ≡ some v') × IsSuccessor v v'
changed-IsSuccessor id from to db db' j v c go e = elim (Bool-cases (j == id)) [
  | inl hit ↦ (
    record v { status = to },
    c.moved j ∙ rw (hit, e) refl,
    record { keeps_type = refl; keeps_affected = refl; goes = ground (arith, c.found, ==→eq j id) },
  )
  | inr other ↦ (
    v,
    c.moved j ∙ rw (other, e) refl,
    record { keeps_type = refl; keeps_affected = refl; goes = inl refl },
  )
]

plain-MayGo : (from to : ChangeRequestStatus) → is_plain from to ≡ true → MayGo from to
unfolding includes valid_transitions
plain-MayGo ChangeRequestStatus.draft to h = ground arith
plain-MayGo _ to h = ground arith

decision-MayGo :
    (to : ChangeRequestStatus)
    → is_decision_status to ≡ true
    → MayGo ChangeRequestStatus.pending_approval to
unfolding includes valid_transitions
decision-MayGo ChangeRequestStatus.draft h = ground arith
decision-MayGo _ h = ground arith

execution-MayGo :
    (to : ChangeRequestStatus)
    → is_after_execution to ≡ true
    → MayGo ChangeRequestStatus.executing to
unfolding includes valid_transitions
execution-MayGo ChangeRequestStatus.draft h = ground arith
execution-MayGo _ h = ground arith

lock-MayGo : MayGo ChangeRequestStatus.approved ChangeRequestStatus.executing
unfolding includes valid_transitions status_eq
lock-MayGo = inr refl

-- Whatever happens, a request stays, with its type and its capabilities, and its status goes along the
-- transition map or stays.
pub Move-IsSuccessor :
    {db db' : Db} (j : Uuid) (v : RequestView)
    → IsFresh db
    → Move db db'
    → view_in j db ≡ some v
    → (v' : RequestView) × (view_in j db' ≡ some v') × IsSuccessor v v'
Move-IsSuccessor j v fresh (stay same) e =
    (v, same.same_views j ∙ e, record { keeps_type = refl; keeps_affected = refl; goes = inl refl })
Move-IsSuccessor j v fresh (open_request id o ds ls) e = (
  v,
  ground (arith, o.added j, fresh j v e, ==→eq j id),
  record { keeps_type = refl; keeps_affected = refl; goes = inl refl },
)
Move-IsSuccessor {db = db} {db' = db'} j v fresh (advance id from to c plain ds ls) e =
    changed-IsSuccessor id from to db db' j v c (plain-MayGo from to plain) e
Move-IsSuccessor {db = db} {db' = db'} j v fresh (decide id to d c k ds i f done ls) e =
    changed-IsSuccessor id _ to db db' j v c (decision-MayGo to k) e
Move-IsSuccessor {db = db} {db' = db'} j v fresh (lock id c ds l) e =
    changed-IsSuccessor id _ _ db db' j v c lock-MayGo e
Move-IsSuccessor {db = db} {db' = db'} j v fresh (release id to c k ds l) e =
    changed-IsSuccessor id _ to db db' j v c (execution-MayGo to k) e

changed-IsFresh :
    (id : Uuid) (from to : ChangeRequestStatus) (db db' : Db)
    → Change id from to db db'
    → IsFresh db
    → IsFresh db'
changed-IsFresh id from to db db' c fresh j v e =
    ground (arith, c.moved j, fresh j, c.grows, kept (view_in j db) refl)
  where
    kept : (o : Option RequestView) → view_in j db ≡ o → j < db.next_uuid
    kept none h = absurd (ground (arith, c.moved j))
    kept (some w) h = fresh j w h

pub Move-IsFresh : {db db' : Db} → Move db db' → IsFresh db → IsFresh db'
Move-IsFresh (stay same) fresh j v e =
    ground (arith, fresh j v (sym (same.same_views j) ∙ e), same.grows)
Move-IsFresh (open_request id o ds ls) fresh j v e = elim (Bool-cases (j == id)) [
  | inl hit ↦ ground (arith, ==→eq j id hit, o.used_up, o.new_id)
  | inr other ↦ ground (arith, fresh j v (sym (rw other at (o.added j)) ∙ e), o.used_up)
]
Move-IsFresh {db = db} {db' = db'} (advance id from to c plain ds ls) fresh j v e =
    changed-IsFresh id from to db db' c fresh j v e
Move-IsFresh {db = db} {db' = db'} (decide id to d c k ds i f done ls) fresh j v e =
    changed-IsFresh id _ to db db' c fresh j v e
Move-IsFresh {db = db} {db' = db'} (lock id c ds l) fresh j v e =
    changed-IsFresh id _ _ db db' c fresh j v e
Move-IsFresh {db = db} {db' = db'} (release id to c k ds l) fresh j v e =
    changed-IsFresh id _ to db db' c fresh j v e

same-decision :
    (db db' : Db) (role : String) (j : Uuid)
    → db'.approval_decisions ≡ db.approval_decisions
    → decision_in role j db' ≡ decision_in role j db
same-decision db db' role j e = ap (λ ds. decision_by role (decisions_of j ds)) e

-- A decision on record stays on record.
pub Move-decision :
    {db db' : Db} (role : String) (j : Uuid) (d : ApprovalDecision)
    → Move db db'
    → decision_in role j db ≡ some d
    → decision_in role j db' ≡ some d
Move-decision {db = db} {db' = db'} role j d (stay same) e =
    same-decision db db' role j same.same_decisions ∙ e
Move-decision {db = db} {db' = db'} role j d (open_request id o ds ls) e =
    same-decision db db' role j ds ∙ e
Move-decision {db = db} {db' = db'} role j d (advance id from to c plain ds ls) e =
    same-decision db db' role j ds ∙ e
Move-decision {db = db} {db' = db'} role j d (lock id c ds l) e = same-decision db db' role j ds ∙ e
Move-decision {db = db} {db' = db'} role j d (release id to c k ds l) e =
    same-decision db db' role j ds ∙ e
Move-decision {db = db} {db' = db'} role j d (decide id to new c k ds i first done ls) e =
    elim (Bool-cases (id == j)) [
      | inr other ↦ decision_in-other j new db db' role ds (rw i other) ∙ e
      | inl hit ↦ elim (Bool-cases (str_eq new.approver_role role)) [
        | inr no_match ↦ decision_in-added j new db db' role ds (i ∙ ==→eq id j hit) ∙ rw no_match e
        | inl match ↦ absurd (
            some≢none (
              sym e
              ∙ subst (λ r. decision_in r j db ≡ none) ((eq_iff new.approver_role role).0 match)
                  (subst (λ x. decision_in new.approver_role x db ≡ none) (==→eq id j hit) first)))
      ]
    ]

-- A request leaves PENDING_APPROVAL only by a decision.
pending-kept :
    {db db' : Db} (j : Uuid) (v v' : RequestView)
    → IsFresh db
    → Move db db'
    → view_in j db ≡ some v
    → v.status ≡ ChangeRequestStatus.pending_approval
    → view_in j db' ≡ some v'
    → (v'.status ≡ ChangeRequestStatus.pending_approval) ⊎ CuratorDecided j db'
pending-kept j v v' fresh (stay same) e p e' = inl (ground (arith, same.same_views j))
pending-kept j v v' fresh (open_request id o ds ls) e p e' =
    inl (ground (arith, o.added j, fresh j v e, ==→eq j id, o.new_id))
pending-kept j v v' fresh (advance id from to c plain ds ls) e p e' = elim (Bool-cases (j == id)) [
  | inl hit ↦ absurd (ground (arith, c.found, ==→eq j id hit, c.was))
  | inr other ↦ inl (ground (arith, c.moved j))
]
pending-kept {db' = db'} j v v' fresh (decide id to d c k ds i f done ls) e p e' =
    elim (Bool-cases (j == id)) [
      | inl hit ↦
          inr (subst (λ x. CuratorDecided x db') (sym (==→eq j id hit)) done.curator_decided)
      | inr other ↦ inl (ground (arith, c.moved j))
    ]
pending-kept j v v' fresh (lock id c ds l) e p e' = elim (Bool-cases (j == id)) [
  | inl hit ↦ absurd (ground (arith, c.found, ==→eq j id hit, c.was))
  | inr other ↦ inl (ground (arith, c.moved j))
]
pending-kept j v v' fresh (release id to c k ds l) e p e' = elim (Bool-cases (j == id)) [
  | inl hit ↦ absurd (ground (arith, c.found, ==→eq j id hit, c.was))
  | inr other ↦ inl (ground (arith, c.moved j))
]

-- A held read stays truthful.
pub Move-IsHeld : {db db' : Db} (s : Detail) → IsFresh db → Move db db' → IsHeld s db → IsHeld s db'
Move-IsHeld {db = db} {db' = db'} s fresh m h =
    let (v, found, next) = Move-IsSuccessor s.request.id h.row fresh m h.found in
    record {
      row = v;
      found = found;
      same_type = next.keeps_type ∙ h.same_type;
      same_affected = next.keeps_affected ∙ h.same_affected;
      decisions_kept = λ role d e. Move-decision role s.request.id d m (h.decisions_kept role d e);
      pending_until_decided = λ p. elim (h.pending_until_decided p) [
        | inl still ↦ pending-kept s.request.id h.row v fresh m h.found still found
        | inr (d, e) ↦ inr (d, Move-decision curator_role s.request.id d m e)
      ];
    }
