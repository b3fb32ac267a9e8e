-- ===== src/Versions/OneDraft/Kept.antt =====
-- What holds of the model versions at every moment, and that each write keeps it.
use ecm_management.Base.{
  ℕ, suc, ◌≤◌, ◌≡◌, refl, sym, ◌∙◌, subst, ◌⊎◌, inl, inr, true, false, Option, none, some, List, [],
  ◌∷◌, arith, ◌==◌, find_first, find_first-passes, update_many, elem, IsDistinct, count,
}
use ecm_management.Schema.{Uuid, ActorId, Time, ModelVersion, ModelVersionState, Db}
use ecm_management.Structural.History.{is_main_draft, is_main_draft_state, new_draft}
use ecm_management.Versions.States.{is_main}
use ecm_management.Versions.Publish.{
  PublishDto, is_main_published, archive_published, promote, promote_draft,
}
use ecm_management.Versions.OneDraft.Rows.{
  version_ids, version_ids-update, find_first-none-count, find_first-by_id, count-update,
  count-update-apart, count-update-clears, find_first-elem, find_first-update,
}

pub record IsKept (vs : List ModelVersion) (next : ℕ) : Type 0 where
  pub fresh : (x : Uuid) → next ≤ x → elem x (version_ids vs) ≡ false
  pub distinct : IsDistinct (version_ids vs)
  pub drafts_one : (vs ≡ []) ⊎ (count is_main_draft vs ≡ 1)
  pub published_one : count is_main_published vs ≤ 1

abbrev pub Kept : Db → Type 0
Kept db = IsKept db.model_versions db.next_uuid

pub later : {vs : List ModelVersion} {n m : ℕ} → IsKept vs n → n ≤ m → IsKept vs m
later k h = record {
  fresh = λ x b. k.fresh x (omega arith);
  distinct = k.distinct;
  drafts_one = k.drafts_one;
  published_one = k.published_one;
}

-- The first draft.
pub first-IsKept :
    (vs : List ModelVersion) (n : ℕ) (v : ModelVersion)
    → IsKept vs n
    → v.id ≡ n
    → is_main_draft v ≡ true
    → is_main_published v ≡ false
    → find_first is_main_draft vs ≡ none
    → IsKept (v ∷ vs) (suc n)
unfolding count elem
first-IsKept vs n v k named draft quiet missing = record {
  fresh = λ x b. ground (arith, k.fresh x, named);
  distinct = (ground (arith, k.fresh n, named), k.distinct);
  drafts_one = inr (ground (arith, find_first-none-count is_main_draft vs missing));
  published_one = ground (arith, k.published_one);
}

-- A version that is not of MAIN.
pub beside-IsKept :
    (vs : List ModelVersion) (n : ℕ) (v : ModelVersion)
    → IsKept vs n
    → v.id ≡ n
    → is_main_draft v ≡ false
    → is_main_published v ≡ false
    → count is_main_draft vs ≡ 1
    → IsKept (v ∷ vs) (suc n)
unfolding count elem
beside-IsKept vs n v k named draft quiet one = record {
  fresh = λ x b. ground (arith, k.fresh x, named);
  distinct = (ground (arith, k.fresh n, named), k.distinct);
  drafts_one = inr (ground (arith, one));
  published_one = ground (arith, k.published_one);
}

pub one_of_found :
    (vs : List ModelVersion) (n : ℕ) (d : ModelVersion)
    → IsKept vs n
    → find_first is_main_draft vs ≡ some d
    → count is_main_draft vs ≡ 1
unfolding find_first
one_of_found [] n d k found = cc
one_of_found (v ∷ vs) n d k found = elim k.drafts_one [
  | inl empty ↦ absurd (ground arith)
  | inr one ↦ one
]

abbrev pub archive : ModelVersion → ModelVersion
archive v = record v { state = ModelVersionState.rolled_back }

published_apart :
    (v : ModelVersion)
    → is_main_published v ≡ true
    → (is_main_draft v ≡ false) × (is_main_draft (archive v) ≡ false)
unfolding is_main_published is_main_draft is_main_draft_state
published_apart v h = ground arith

archived_quiet :
    (v : ModelVersion) → is_main_published v ≡ true → is_main_published (archive v) ≡ false
unfolding is_main_published
archived_quiet v h = ground arith

draft_apart :
    (dto : PublishDto) (now : Time) (v : ModelVersion)
    → is_main_draft v ≡ true
    → (is_main_published v ≡ false)
      × (is_main_published (promote dto now v) ≡ true)
      × (is_main_draft (promote dto now v) ≡ false)
unfolding is_main_published is_main_draft is_main_draft_state promote
draft_apart dto now v h = ground arith

-- What a publication leaves, before the new draft is added.
pub record IsPromoted (vs ws : List ModelVersion) : Type 0 where
  pub same_ids : version_ids ws ≡ version_ids vs
  pub no_draft : count is_main_draft ws ≡ 0
  pub one_published : count is_main_published ws ≡ 1

pub promoted :
    (dto : PublishDto) (now : Time) (vs : List ModelVersion) (n : ℕ) (d : ModelVersion)
    → IsKept vs n
    → find_first is_main_draft vs ≡ some d
    → IsPromoted vs (promote_draft dto d.id now (archive_published vs))
unfolding promote_draft archive_published
promoted dto now vs n d k found = record {
  same_ids =
      version_ids-update (λ v. v.id == d.id) (promote dto now) ws (λ v. unfold promote in refl)
      ∙ same;
  no_draft = ground (
    arith,
    count-update d.id is_main_draft (promote dto now) ws d ids_ws found_ws,
    apart.0,
    one_of_found vs n d k found,
    draft_d,
    draft_apart dto now d,
  );
  one_published = ground (
    arith,
    count-update d.id is_main_published (promote dto now) ws d ids_ws found_ws,
    count-update-clears is_main_published archive vs archived_quiet,
    draft_d,
    draft_apart dto now d,
  );
}
  where
    ws : List ModelVersion
    ws = update_many is_main_published archive vs

    same : version_ids ws ≡ version_ids vs
    same = version_ids-update is_main_published archive vs (λ v. refl)

    apart :
        (count is_main_draft ws ≡ count is_main_draft vs)
        × (find_first is_main_draft ws ≡ find_first is_main_draft vs)
    apart = count-update-apart is_main_published is_main_draft archive vs published_apart

    ids_ws : IsDistinct (version_ids ws)
    ids_ws = subst IsDistinct (sym same) k.distinct

    found_ws : find_first (λ v. v.id == d.id) ws ≡ some d
    found_ws = find_first-by_id is_main_draft ws d ids_ws (apart.1 ∙ found)

    draft_d : is_main_draft d ≡ true
    draft_d = find_first-passes is_main_draft vs d found

-- The publication, its new draft included.
pub publication-IsKept :
    (vs ws : List ModelVersion) (n : ℕ) (v : ModelVersion)
    → IsKept vs n
    → IsPromoted vs ws
    → v.id ≡ n
    → is_main_draft v ≡ true
    → is_main_published v ≡ false
    → IsKept (v ∷ ws) (suc n)
unfolding count elem
publication-IsKept vs ws n v k p named draft quiet = record {
  fresh = λ x b. ground (arith, k.fresh x, named, p.same_ids);
  distinct =
      (ground (arith, k.fresh n, named, p.same_ids), subst IsDistinct (sym p.same_ids) k.distinct);
  drafts_one = inr (ground (arith, p.no_draft));
  published_one = ground (arith, p.one_published);
}

pub new_draft_kind :
    (id : Uuid) (actor : ActorId) (base : Option Uuid) (now : Time)
    → ((new_draft id actor base now).id ≡ id)
      × (is_main_draft (new_draft id actor base now) ≡ true)
      × (is_main_published (new_draft id actor base now) ≡ false)
unfolding new_draft is_main_draft is_main_draft_state is_main_published
new_draft_kind id actor base now = (refl, refl, refl)

-- A MAIN draft is made only when there is none.
pub ensured :
    (actor : ActorId) (now : Time) (db : Db)
    → Kept db
    → find_first is_main_draft db.model_versions ≡ none
    → IsKept (new_draft db.next_uuid actor none now ∷ db.model_versions) (suc db.next_uuid)
ensured actor now db k missing =
    let (named, draft, quiet) = new_draft_kind db.next_uuid actor none now in
    first-IsKept db.model_versions db.next_uuid _ k named draft quiet missing

pub discarded :
    (vs : List ModelVersion) (n : ℕ) (id : Uuid) (v : ModelVersion)
    → IsKept vs n
    → find_first (λ w. w.id == id) vs ≡ some v
    → is_main v.branch_type ≡ false
    → IsKept (update_many (λ w. w.id == id) archive vs) n
unfolding is_main is_main_draft is_main_draft_state is_main_published
discarded vs n id v k found local = record {
  fresh = λ x b. ground (arith, k.fresh x, same);
  distinct = subst IsDistinct (sym same) k.distinct;
  drafts_one = elim k.drafts_one [
    | inl empty ↦ inl (unfold update_many in rw empty refl)
    | inr one ↦ inr (ground (arith, count-update id is_main_draft archive vs v k.distinct found))
  ];
  published_one =
      ground
        (arith, count-update id is_main_published archive vs v k.distinct found, k.published_one);
}
  where
    same : version_ids (update_many (λ w. w.id == id) archive vs) ≡ version_ids vs
    same = version_ids-update (λ w. w.id == id) archive vs (λ w. refl)

archived_row :
    (vs : List ModelVersion) (n : ℕ) (d : ModelVersion)
    → IsKept vs n
    → find_first is_main_draft vs ≡ some d
    → find_first (λ v. v.id == d.id) (archive_published vs) ≡ some d
unfolding archive_published
archived_row vs n d k found =
    find_first-by_id is_main_draft (update_many is_main_published archive vs) d
      (subst IsDistinct (sym (version_ids-update is_main_published archive vs (λ v. refl)))
        k.distinct)
      ((count-update-apart is_main_published is_main_draft archive vs published_apart).1 ∙ found)

-- The row of the published version.
pub promoted_row :
    (dto : PublishDto) (now : Time) (vs : List ModelVersion) (n : ℕ) (d v : ModelVersion)
    → IsKept vs n
    → find_first is_main_draft vs ≡ some d
    → v.id ≡ n
    → find_first (λ w. w.id == d.id) (v ∷ promote_draft dto d.id now (archive_published vs))
      ≡ some (promote dto now d)
unfolding find_first promote_draft
promoted_row dto now vs n d v k found named = ground (
  arith,
  k.fresh n,
  find_first-elem is_main_draft vs d found,
  find_first-update d.id (promote dto now) (archive_published vs) d (λ w. unfold promote in refl)
      (archived_row vs n d k found),
)
