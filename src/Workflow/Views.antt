-- ===== src/Workflow/Views.antt =====
-- What the workflow keeps of a request and of a lock, and how the updates of the store act on it.
use mathlib.Core.Option
use ecm_management.Base.{
  ◌≡◌, refl, inl, inr, Bool, true, false, Option, none, some, List, [], ◌∷◌, arith, if◌then◌else◌,
  ◌==◌, elem, IsDistinct, map, find_first, update_many, delete_many, Option-cases, ==→eq, subst,
}
use ecm_management.Schema.{
  Uuid, ActorId, Time, ChangeRequestStatus, ChangeRequestType, status_eq→eq, ChangeRequest,
  CapabilityLock,
}
use ecm_management.ChangeRequest.Store.{find_request, set_status, guarded_update}
use ecm_management.ChangeRequest.Execution.{find_lock, new_lock, create_locks, release_locks}

pub record RequestView : Type 0 where
  pub status : ChangeRequestStatus
  pub type : ChangeRequestType
  pub affected : List Uuid

abbrev pub view_row : Option ChangeRequest → Option RequestView
view_row none = none
view_row (some r) =
    some (record { status = r.status; type = r.type; affected = r.affected_capability_ids })

unfoldable pub view : Uuid → List ChangeRequest → Option RequestView
view id requests = view_row (find_request id requests)

abbrev pub with_status : ChangeRequestStatus → Option RequestView → Option RequestView
with_status to none = none
with_status to (some v) = some (record v { status = to })

find-update :
    (j id : Uuid) (f : ChangeRequest → ChangeRequest) (rs : List ChangeRequest)
    → ((r : ChangeRequest) → (f r).id ≡ r.id)
    → find_request j (update_many (λ r. r.id == id) f rs)
      ≡ (if j == id then Option.map f (find_request j rs) else find_request j rs)
unfolding find_request find_first update_many
find-update j id f [] keep = ground arith
find-update j id f (r ∷ rs) keep = ground (arith, keep r, find-update j id f rs keep)

pub view-set_status :
    (j id : Uuid) (to : ChangeRequestStatus) (rs : List ChangeRequest)
    → view j (set_status id to rs) ≡ (if j == id then with_status to (view j rs) else view j rs)
unfolding view set_status
view-set_status j id to rs =
    ground (arith, find-update j id (λ r. record r { status = to }) rs (λ r. refl))

-- An update that keeps ids and views is not seen.
pub view-update_same :
    (j id : Uuid) (f : ChangeRequest → ChangeRequest) (rs : List ChangeRequest)
    → ((r : ChangeRequest) → (f r).id ≡ r.id)
    → ((r : ChangeRequest) → view_row (some (f r)) ≡ view_row (some r))
    → view j (update_many (λ r. r.id == id) f rs) ≡ view j rs
unfolding view
view-update_same j id f rs keep same = elim (Option-cases (find_request j rs)) [
  | inl e ↦ ground (arith, find-update j id f rs keep)
  | inr (r, e) ↦ ground (arith, find-update j id f rs keep, same r)
]

-- A guarded update that counts a row found it in the status it asks for.
pub guarded_update-some :
    (id : Uuid) (from to : ChangeRequestStatus) (rs : List ChangeRequest) {rs' : List ChangeRequest}
    → guarded_update id from to rs ≡ some rs'
    → (v : RequestView) × (view id rs ≡ some v)
      × (v.status ≡ from)
      × ((j : Uuid) → view j rs' ≡ (if j == id then with_status to (view j rs) else view j rs))
unfolding guarded_update
guarded_update-some id from to rs {rs' = rs'} h = elim (Option-cases (find_request id rs)) [
  | inl e ↦ absurd (ground (arith))
  | inr (r, e) ↦ (
    record { status = r.status; type = r.type; affected = r.affected_capability_ids },
    unfold view in rw e refl,
    status_eq→eq r.status from (ground arith),
    λ j. let e' : rs' ≡ set_status id to rs = ground arith in rw e' (view-set_status j id to rs),
  )
]

-- Who holds a capability's lock.
unfoldable pub holder : Uuid → List CapabilityLock → Option Uuid
unfolding find_lock
holder c locks = Option.map (λ l. l.change_request_id) (find_lock c locks)

abbrev pub lock_keys : List CapabilityLock → List Uuid
lock_keys = map λ l. l.capability_id

-- The unique constraint on the capability.
abbrev pub IsOneLockEach : List CapabilityLock → Type 0
IsOneLockEach locks = IsDistinct (lock_keys locks)

find_lock-absent :
    (c : Uuid) (locks : List CapabilityLock)
    → elem c (lock_keys locks) ≡ false
    → find_lock c locks ≡ none
unfolding find_lock find_first elem
find_lock-absent c [] h = refl
find_lock-absent c (l ∷ ls) h = ground (arith, find_lock-absent c ls)

find_lock-none-elem :
    (c : Uuid) (locks : List CapabilityLock)
    → find_lock c locks ≡ none
    → elem c (lock_keys locks) ≡ false
unfolding find_lock find_first elem
find_lock-none-elem c [] h = refl
find_lock-none-elem c (l ∷ ls) h = ground (arith, find_lock-none-elem c ls)

elem-delete :
    (p : CapabilityLock → Bool) (c : Uuid) (locks : List CapabilityLock)
    → elem c (lock_keys locks) ≡ false
    → elem c (lock_keys (delete_many p locks)) ≡ false
unfolding delete_many elem
elem-delete p c [] h = refl
elem-delete p c (l ∷ ls) h = ground (arith, elem-delete p c ls)

pub delete_many-IsOneLockEach :
    (p : CapabilityLock → Bool) (locks : List CapabilityLock)
    → IsOneLockEach locks
    → IsOneLockEach (delete_many p locks)
unfolding delete_many
delete_many-IsOneLockEach p [] h = tt
delete_many-IsOneLockEach p (l ∷ ls) h =
    ground (arith, delete_many-IsOneLockEach p ls, elem-delete p l.capability_id ls)

-- Released are the locks of one request, and no other.
pub holder-release :
    (c id : Uuid) (locks : List CapabilityLock)
    → IsOneLockEach locks
    → holder c (release_locks id locks)
      ≡ elim (holder c locks) [ none ↦ none | some h ↦ if h == id then none else some h ]
unfolding holder find_first release_locks delete_many
holder-release c id [] d = refl
holder-release c id (l ∷ ls) d = ground (
  arith,
  holder-release c id ls,
  find_lock-absent c ls,
  elem-delete (λ l. l.change_request_id == id) c ls,
  find_lock-absent c (delete_many (λ l. l.change_request_id == id) ls),
  ==→eq l.capability_id c,
)

-- The lock of a capability that is deleted goes with it.
pub holder-delete_capability :
    (c x : Uuid) (locks : List CapabilityLock)
    → holder c (delete_many (λ l. l.capability_id == x) locks)
      ≡ (if c == x then none else holder c locks)
unfolding holder find_first delete_many
holder-delete_capability c x [] = ground arith
holder-delete_capability c x (l ∷ ls) = ground (arith, holder-delete_capability c x ls)

holder-new_lock :
    (c x id : Uuid) (actor_id : ActorId) (now : Time) (locks : List CapabilityLock)
    → holder c (new_lock x id actor_id now ∷ locks) ≡ (if x == c then some id else holder c locks)
unfolding holder find_first new_lock
holder-new_lock c x id actor_id now locks = ground arith

holder-free :
    (c x : Uuid) (locks : List CapabilityLock)
    → find_lock x locks ≡ none
    → (x == c) ≡ true
    → holder c locks ≡ none
unfolding holder
holder-free c x locks e h =
    let e' : find_lock c locks ≡ none = subst (λ y. find_lock y locks ≡ none) (==→eq x c h) e in
    rw e' refl

-- Either every lock is taken, each one free before, or none is.
pub create_locks-some :
    (cs : List Uuid) (id : Uuid) (actor_id : ActorId) (now : Time) (locks : List CapabilityLock)
    {locks' : List CapabilityLock}
    → create_locks cs id actor_id now locks ≡ some locks'
    → IsOneLockEach locks
    → IsOneLockEach locks'
      × ((c : Uuid) → holder c locks' ≡ (if elem c cs then some id else holder c locks))
      × ((c : Uuid) → elem c cs ≡ true → holder c locks ≡ none)
unfolding create_locks elem
create_locks-some [] id actor_id now locks h d = (ground arith, λ c. ground arith, λ c e. cc)
create_locks-some (x ∷ cs) id actor_id now locks {locks' = locks'} h d =
    elim (Option-cases (find_lock x locks)) [
      | inr (l, e) ↦ absurd (ground arith)
      | inl e ↦
          let rest =
            create_locks-some cs id actor_id now (new_lock x id actor_id now ∷ locks)
              {locks' = locks'} (ground arith) (find_lock-none-elem x locks e, d) in
          (
            rest.0,
            λ c. ground (arith, rest.1 c, holder-new_lock c x id actor_id now locks),
            λ c m. ground (
              arith,
              rest.2 c,
              holder-new_lock c x id actor_id now locks,
              holder-free c x locks e,
            ),
          )
    ]
