-- ===== src/Mappings/Order.antt =====
-- Lists of mappings, newest first: what ORDER BY "createdAt" DESC answers.
use mathlib.Core.List.{Permᴰ}
use mathlib.Core.List.Permᴰ
use ecm_management.Base.{
  suc, ◌≡◌, refl, sym, subst, ap, ◌∙◌, inl, inr, ◌≤◌, ◌<◌, false, true, List, [], ◌∷◌, Memᴰ, map,
  arith, elem, IsDistinct, leb, Bool-cases, length,
}
use ecm_management.Schema.{Time, Mapping}
use ecm_management.Impact.{insert_newest, newest_first}

-- The rows in an order by time, each no younger than those before it.
abbrev pub IsNewestFirst : List Mapping → Type 0
IsNewestFirst [] = Unit {0}
IsNewestFirst (m ∷ ms) =
    ((x : Mapping) → Memᴰ x ms → x.created_at ≤ m.created_at) × IsNewestFirst ms

abbrev pub IsStrictlyNewestFirst : List Mapping → Type 0
IsStrictlyNewestFirst [] = Unit {0}
IsStrictlyNewestFirst (m ∷ ms) =
    ((x : Mapping) → Memᴰ x ms → x.created_at < m.created_at) × IsStrictlyNewestFirst ms

-- What a query with ORDER BY "createdAt" DESC is documented to answer: the rows that it found, each
-- once, newest first.
pub record IsOrder (ordered : List Mapping → List Mapping) : Type 0 where
  pub permutes : (ms : List Mapping) → Permᴰ ms (ordered ms)
  pub sorts : (ms : List Mapping) → IsNewestFirst (ordered ms)

abbrev pub times : List Mapping → List Time
times = map λ m. m.created_at

pub Mem-Perm : {m : Mapping} {xs ys : List Mapping} → Permᴰ xs ys → Memᴰ m xs → Memᴰ m ys
Mem-Perm Permᴰ.nil h = h
Mem-Perm (Permᴰ.cons e d) (Memᴰ.head p) = Memᴰ.head (p ∙ e)
Mem-Perm (Permᴰ.cons e d) (Memᴰ.tail h) = Memᴰ.tail (Mem-Perm d h)
Mem-Perm (Permᴰ.swap e f) (Memᴰ.head p) = Memᴰ.tail (Memᴰ.head (p ∙ e))
Mem-Perm (Permᴰ.swap e f) (Memᴰ.tail (Memᴰ.head p)) = Memᴰ.head (p ∙ f)
Mem-Perm (Permᴰ.swap e f) (Memᴰ.tail (Memᴰ.tail h)) = Memᴰ.tail (Memᴰ.tail h)
Mem-Perm (Permᴰ.trans d d') h = Mem-Perm d' (Mem-Perm d h)

pub length-Perm : {xs ys : List Mapping} → Permᴰ xs ys → length xs ≡ length ys
length-Perm Permᴰ.nil = refl
length-Perm (Permᴰ.cons e d) = ap suc (length-Perm d)
length-Perm (Permᴰ.swap e f) = refl
length-Perm (Permᴰ.trans d d') = length-Perm d ∙ length-Perm d'

elem-Perm : {xs ys : List Mapping} (t : Time) → Permᴰ xs ys → elem t (times xs) ≡ elem t (times ys)
unfolding elem
elem-Perm t Permᴰ.nil = refl
elem-Perm t (Permᴰ.cons e d) = ground (arith, elem-Perm t d)
elem-Perm t (Permᴰ.swap e f) = ground arith
elem-Perm t (Permᴰ.trans d d') = elem-Perm t d ∙ elem-Perm t d'

pub IsDistinct-Perm :
    {xs ys : List Mapping} → Permᴰ xs ys → IsDistinct (times xs) → IsDistinct (times ys)
unfolding elem
IsDistinct-Perm Permᴰ.nil k = k
IsDistinct-Perm (Permᴰ.cons {a = a} {l₂ = later} e d) (new, k) = (
  subst (λ z. elem z.created_at (times later) ≡ false) e (sym (elem-Perm a.created_at d) ∙ new),
  IsDistinct-Perm d k,
)
IsDistinct-Perm (Permᴰ.swap e f) (new, (newer, k)) = (ground arith, (ground arith, k))
IsDistinct-Perm (Permᴰ.trans d d') k = IsDistinct-Perm d' (IsDistinct-Perm d k)

elem-times : (m : Mapping) (xs : List Mapping) → Memᴰ m xs → elem m.created_at (times xs) ≡ true
unfolding elem
elem-times m [] h = elim h [ ]
elem-times m (x ∷ xs) (Memᴰ.head e) = ground arith
elem-times m (x ∷ xs) (Memᴰ.tail h) = ground (arith, elem-times m xs h)

pub IsNewestFirst-strict :
    (xs : List Mapping) → IsNewestFirst xs → IsDistinct (times xs) → IsStrictlyNewestFirst xs
IsNewestFirst-strict [] s k = tt
IsNewestFirst-strict (x ∷ xs) (low, s) (new, k) =
    (λ m h. ground (arith, low m h, elem-times m xs h), IsNewestFirst-strict xs s k)

-- A strict order by time is the only one of its rows.
pub strict_unique :
    (xs ys : List Mapping)
    → IsStrictlyNewestFirst xs
    → IsStrictlyNewestFirst ys
    → ((m : Mapping) → Memᴰ m xs → Memᴰ m ys)
    → ((m : Mapping) → Memᴰ m ys → Memᴰ m xs)
    → xs ≡ ys
strict_unique [] [] sx sy to from = refl
strict_unique [] (y ∷ ys) sx sy to from = elim (from y (Memᴰ.head refl)) [ ]
strict_unique (x ∷ xs) [] sx sy to from = elim (to x (Memᴰ.head refl)) [ ]
strict_unique (x ∷ xs) (y ∷ ys) (lx, sx) (ly, sy) to from =
    let e = same_head (to x (Memᴰ.head refl)) (from y (Memᴰ.head refl)) in
    ap (λ z. z ∷ xs) e
    ∙ ap (λ zs. y ∷ zs)
        (strict_unique xs ys sx sy
          (λ m h.
            behind m (λ p. omega (arith, lx m h, ap (λ z. z.created_at) (p ∙ sym e)))
              (to m (Memᴰ.tail h)))
          (λ m h.
            behind m (λ p. omega (arith, ly m h, ap (λ z. z.created_at) (p ∙ e)))
              (from m (Memᴰ.tail h))))
  where
    same_head : Memᴰ x (y ∷ ys) → Memᴰ y (x ∷ xs) → x ≡ y
    same_head (Memᴰ.head p) h = p
    same_head (Memᴰ.tail g) (Memᴰ.head p) = sym p
    same_head (Memᴰ.tail g) (Memᴰ.tail h) = absurd (omega (arith, ly x g, lx y h))

    behind :
        {z : Mapping} {zs : List Mapping} (m : Mapping) → ¬ (m ≡ z) → Memᴰ m (z ∷ zs) → Memᴰ m zs
    behind m other (Memᴰ.head p) = absurd (other p)
    behind m other (Memᴰ.tail h) = h

insert_newest-Perm : (m : Mapping) (ms : List Mapping) → Permᴰ (m ∷ ms) (insert_newest m ms)
unfolding insert_newest
insert_newest-Perm m [] = Permᴰ.refl (m ∷ [])
insert_newest-Perm m (x ∷ xs) = elim (Bool-cases (leb x.created_at m.created_at)) [
  | inl here ↦ rw here (Permᴰ.refl (m ∷ x ∷ xs))
  | inr later ↦
      rw later (Permᴰ.trans (Permᴰ.swap refl refl) (Permᴰ.cons refl (insert_newest-Perm m xs)))
]

newest_first-Perm : (ms : List Mapping) → Permᴰ ms (newest_first ms)
unfolding newest_first
newest_first-Perm [] = Permᴰ.nil
newest_first-Perm (m ∷ ms) =
    Permᴰ.trans (Permᴰ.cons refl (newest_first-Perm ms)) (insert_newest-Perm m (newest_first ms))

insert_newest-IsNewestFirst :
    (m : Mapping) (ms : List Mapping) → IsNewestFirst ms → IsNewestFirst (insert_newest m ms)
unfolding insert_newest
insert_newest-IsNewestFirst m [] s = (λ x h. elim h [ ], tt)
insert_newest-IsNewestFirst m (y ∷ ys) (low, s) =
    elim (Bool-cases (leb y.created_at m.created_at)) [
      | inl here ↦ rw here (older (ground arith), (low, s))
      | inr later ↦ rw later (
        λ x h. within x (ground arith) (Mem-Perm (Permᴰ.symm (insert_newest-Perm m ys)) h),
        insert_newest-IsNewestFirst m ys s,
      )
    ]
  where
    older :
        y.created_at ≤ m.created_at → (x : Mapping) → Memᴰ x (y ∷ ys) → x.created_at ≤ m.created_at
    older le x (Memᴰ.head p) = omega (arith, le, ap (λ z. z.created_at) p)
    older le x (Memᴰ.tail h) = omega (arith, le, low x h)

    within :
        (x : Mapping) → m.created_at ≤ y.created_at → Memᴰ x (m ∷ ys) → x.created_at ≤ y.created_at
    within x le (Memᴰ.head p) = omega (arith, le, ap (λ z. z.created_at) p)
    within x le (Memᴰ.tail h) = low x h

newest_first-IsNewestFirst : (ms : List Mapping) → IsNewestFirst (newest_first ms)
unfolding newest_first
newest_first-IsNewestFirst [] = tt
newest_first-IsNewestFirst (m ∷ ms) =
    insert_newest-IsNewestFirst m (newest_first ms) (newest_first-IsNewestFirst ms)

pub newest_first-IsOrder : IsOrder newest_first
newest_first-IsOrder = record { permutes = newest_first-Perm; sorts = newest_first-IsNewestFirst }
