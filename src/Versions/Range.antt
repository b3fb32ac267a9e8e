-- ===== src/Versions/Range.antt =====
-- The versions whose entries count at a version, and `versions_at`, the query for them.
use ecm_management.Base.{
  ◌≡◌, refl, sym, subst, ◌⊎◌, inl, inr, true, Bool, none, some, List, [], ◌∷◌, map, Memᴰ, ◌&&◌,
  ◌||◌, ◌≤◌, ◌==◌, ==→eq, ==_refl, leb, select, elem, arith, Bool-cases, Option-cases,
}
use ecm_management.Schema.{Uuid, Time, BranchType, ModelVersion, Db}
use ecm_management.Versions.States.{is_main, find_version, cutoff_of, published_by, versions_at}

-- The time up to which a version sees the publications of others.
pub data IsCutoff (version_id : Uuid) (now : Time) (db : Db) : Time → Type 0 where
  published :
      {v : ModelVersion} {t : Time}
      → find_version version_id db ≡ some v
      → v.published_at ≡ some t
      → IsCutoff version_id now db t
  created :
      {v : ModelVersion}
      → find_version version_id db ≡ some v
      → v.published_at ≡ none
      → IsCutoff version_id now db v.created_at
  missing : find_version version_id db ≡ none → IsCutoff version_id now db now

-- A version of MAIN that is the asked one or was published no later than the cutoff.
pub record InRange (version_id : Uuid) (now : Time) (db : Db) (id : Uuid) : Type 0 where
  pub row : ModelVersion
  pub stored : Memᴰ row db.model_versions
  pub named : row.id ≡ id
  pub on_main : row.branch_type ≡ BranchType.main
  pub in_time :
      (id ≡ version_id)
      ⊎ ((t : Time) × (cutoff : Time) × (row.published_at ≡ some t)
          × IsCutoff version_id now db cutoff
          × (t ≤ cutoff))

elem-selected :
    (id : Uuid) (p : ModelVersion → Bool) (vs : List ModelVersion)
    → elem id (map (λ v. v.id) (select p vs)) ≡ true
    → (w : ModelVersion) × Memᴰ w vs × (w.id ≡ id) × (p w ≡ true)
unfolding elem select
elem-selected id p [] h = absurd (ground arith)
elem-selected id p (v ∷ vs) h = elim (Bool-cases (p v)) [
  | inr out ↦
      let (w, m, e, passes) = elem-selected id p vs (ground arith) in (w, Memᴰ.tail m, e, passes)
  | inl passes ↦ elim (Bool-cases (v.id == id)) [
    | inl hit ↦ (v, Memᴰ.head refl, ==→eq v.id id hit, passes)
    | inr miss ↦
        let (w, m, e, passes') = elem-selected id p vs (ground arith) in
        (w, Memᴰ.tail m, e, passes')
  ]
]

selected-elem :
    (w : ModelVersion) (p : ModelVersion → Bool) (vs : List ModelVersion)
    → Memᴰ w vs
    → p w ≡ true
    → elem w.id (map (λ v. v.id) (select p vs)) ≡ true
unfolding elem select
selected-elem w p [] m passes = elim m [ ]
selected-elem w p (v ∷ vs) (Memᴰ.head e) passes =
    let passes' = subst (λ x. p x ≡ true) e passes in
    subst (λ x. elem x.id (map (λ y. y.id) (select p (v ∷ vs))) ≡ true) (sym e)
      (ground (arith, ==_refl v.id))
selected-elem w p (v ∷ vs) (Memᴰ.tail m) passes = ground (arith, selected-elem w p vs m passes)

cutoff_of-IsCutoff :
    (version_id : Uuid) (now : Time) (db : Db)
    → IsCutoff version_id now db (cutoff_of (find_version version_id db) now)
cutoff_of-IsCutoff version_id now db = elim (Option-cases (find_version version_id db)) [
  | inl gone ↦ subst (λ o. IsCutoff version_id now db (cutoff_of o now)) (sym gone) (missing gone)
  | inr (v, found) ↦
      subst (λ o. IsCutoff version_id now db (cutoff_of o now)) (sym found)
        (elim (Option-cases v.published_at) [
          | inl never ↦ subst (IsCutoff version_id now db) (rw never refl) (created found never)
          | inr (t, at) ↦ subst (IsCutoff version_id now db) (rw at refl) (published found at)
        ])
]

IsCutoff-unique :
    {version_id : Uuid} {now t : Time} {db : Db}
    → IsCutoff version_id now db t
    → t ≡ cutoff_of (find_version version_id db) now
IsCutoff-unique (published found at) = rw (found, at) refl
IsCutoff-unique (created found never) = rw (found, never) refl
IsCutoff-unique (missing gone) = rw gone refl

is_main-only : (b : BranchType) → is_main b ≡ true → b ≡ BranchType.main
unfolding is_main
is_main-only BranchType.main h = refl
is_main-only BranchType.what_if h = absurd (ground arith)

leb-≤ : (m n : Time) → leb m n ≡ true → m ≤ n
leb-≤ m n h = ground arith

≤-leb : (m n : Time) → m ≤ n → leb m n ≡ true
≤-leb m n h = ground arith

-- The filter of `versions_at`.
abbrev in_range : Uuid → Time → Db → ModelVersion → Bool
in_range version_id now db v =
    is_main v.branch_type
    && (published_by (cutoff_of (find_version version_id db) now) v.published_at
        || v.id == version_id)

passes-InRange :
    (version_id : Uuid) (now : Time) (db : Db) (w : ModelVersion)
    → Memᴰ w db.model_versions
    → in_range version_id now db w ≡ true
    → InRange version_id now db w.id
passes-InRange version_id now db w m passes = record {
  row = w;
  stored = m;
  named = refl;
  on_main = is_main-only w.branch_type (ground arith);
  in_time = elim (Bool-cases (w.id == version_id)) [
    | inl hit ↦ inl (==→eq w.id version_id hit)
    | inr miss ↦ elim (Option-cases w.published_at) [
      | inl never ↦ absurd (ground arith)
      | inr (t, at) ↦ inr (
        t,
        cutoff_of (find_version version_id db) now,
        at,
        cutoff_of-IsCutoff version_id now db,
        leb-≤ t _ (ground arith),
      )
    ]
  ];
}

InRange-passes :
    (version_id : Uuid) (now : Time) (db : Db) (id : Uuid)
    → (r : InRange version_id now db id) → in_range version_id now db r.row ≡ true
unfolding is_main
InRange-passes version_id now db id r = elim r.in_time [
  | inl asked ↦ rw (r.on_main, r.named, asked) (ground (arith, ==_refl version_id))
  | inr (t, cutoff, at, is_cutoff, before) ↦
      let le = ≤-leb t cutoff before in
      rw (r.on_main, at) (ground (arith, IsCutoff-unique is_cutoff))
]

pub elem-InRange :
    (version_id : Uuid) (now : Time) (db : Db) (id : Uuid)
    → elem id (versions_at version_id now db) ≡ true
    → InRange version_id now db id
unfolding versions_at
elem-InRange version_id now db id h =
    let (w, m, e, passes) = elem-selected id (in_range version_id now db) db.model_versions h in
    subst (InRange version_id now db) e (passes-InRange version_id now db w m passes)

pub InRange-elem :
    (version_id : Uuid) (now : Time) (db : Db) (id : Uuid)
    → InRange version_id now db id
    → elem id (versions_at version_id now db) ≡ true
unfolding versions_at
InRange-elem version_id now db id r =
    subst (λ i. elem i (versions_at version_id now db) ≡ true) r.named
      (selected-elem r.row (in_range version_id now db) db.model_versions r.stored
        (InRange-passes version_id now db id r))
