-- ===== src/Workflow/Progress.antt =====
-- The change-request service makes progress: what is approved and free can be executed.
use ecm_management.Base.{
  ◌≡◌, ◌≢◌, refl, inl, inr, ==_refl, Option-cases, true, false, none, some, List, [], ◌∷◌, elem,
  arith, IsDistinct, ◌==◌, Bool-cases, ==→eq, find_first,
}
use ecm_management.Schema.{
  Uuid, ActorId, Time, ChangeRequestStatus, ChangeRequest, Capability, CapabilityLock, Db,
}
use ecm_management.ChangeRequest.Store.{Detail, guarded_update, commit, check_then, append_trail}
use ecm_management.ChangeRequest.Transitions.{assert_valid_transition}
use ecm_management.ChangeRequest.Execution.{
  create_locks, find_lock, new_lock, execute, execute_tx, guarded, acquire_locks, keys_exist,
}
use ecm_management.Structural.Hierarchy.{find_capability}

-- The locks taken so far are on other capabilities than the rest of the list.
still_free :
    (x c id : Uuid) (actor_id : ActorId) (now : Time) (locks : List CapabilityLock)
    → (x == c) ≡ false
    → find_lock c locks ≡ none
    → find_lock c (new_lock x id actor_id now ∷ locks) ≡ none
unfolding find_lock find_first new_lock
still_free x c id actor_id now locks other free = ground arith

create_locks-free :
    (cs : List Uuid) (id : Uuid) (actor_id : ActorId) (now : Time) (locks : List CapabilityLock)
    → IsDistinct cs
    → ((c : Uuid) → elem c cs ≡ true → find_lock c locks ≡ none)
    → (locks' : List CapabilityLock) × (create_locks cs id actor_id now locks ≡ some locks')
unfolding create_locks elem
create_locks-free [] id actor_id now locks distinct free = (locks, refl)
create_locks-free (x ∷ cs) id actor_id now locks (new, distinct) free =
    let (locks', e) =
      create_locks-free cs id actor_id now (new_lock x id actor_id now ∷ locks) distinct (λ c m.
        elim (Bool-cases (x == c)) [
          | inl hit ↦ absurd (ground (arith, ==→eq x c hit))
          | inr miss ↦ still_free x c id actor_id now locks miss (free c (ground arith))
        ]) in
    (locks', ground (arith, free x))

keys_exist-all :
    (cs : List Uuid) (capabilities : List Capability)
    → ((c : Uuid) → elem c cs ≡ true → find_capability c capabilities ≢ none)
    → keys_exist cs capabilities ≡ true
unfolding keys_exist elem
keys_exist-all [] capabilities there = refl
keys_exist-all (x ∷ cs) capabilities there = elim (Option-cases (find_capability x capabilities)) [
  | inl missing ↦ absurd (there x (ground (arith, ==_refl x)) missing)
  | inr (row, e) ↦ ground (arith, keys_exist-all cs capabilities (λ c m. there c (ground arith)))
]

-- An approved request that names each of its capabilities once, all of which exist and none of which
-- is locked, can be executed: `execute` on its row throws nothing, and leaves the request in execution.
pub execute-free :
    (s : Detail) (actor_id : ActorId) (now : Time) (db : Db) (requests : List ChangeRequest)
    → s.request.status ≡ ChangeRequestStatus.approved
    → guarded_update s.request.id ChangeRequestStatus.approved ChangeRequestStatus.executing
        db.change_requests
      ≡ some requests
    → IsDistinct s.request.affected_capability_ids
    → ((c : Uuid)
        → elem c s.request.affected_capability_ids ≡ true
        → find_capability c db.capabilities ≢ none)
    → ((c : Uuid)
        → elem c s.request.affected_capability_ids ≡ true
        → find_lock c db.capability_locks ≡ none)
    → ((execute s actor_id now db).1 ≡ none)
      × ((execute s actor_id now db).0.change_requests ≡ requests)
unfolding execute check_then commit execute_tx guarded acquire_locks assert_valid_transition
    append_trail
execute-free s actor_id now db requests approved found distinct there free =
    let (locks, e) =
      create_locks-free s.request.affected_capability_ids s.request.id actor_id now
        db.capability_locks distinct free in
    let k = keys_exist-all s.request.affected_capability_ids db.capabilities there in ground arith
