-- ===== src/Mappings/Pages.antt =====
-- The pages of a list of mappings.
use mathlib.Core.List.Permᴰ
use native.Mathlib.Nat.{mod-lt, div-add-mod}
use ecm_management.Base.{
  ℕ, zero, suc, ◌+◌, ◌-◌, ◌*◌, ◌≤◌, ◌≡◌, ◌↔◌, ap, ◌∙◌, some, List, [], ◌++◌, arith, length, take,
  take-all, take-drop, length-take-le, select, Memᴰ, IsDistinct,
}
use ecm_management.Schema.{Mapping}
use ecm_management.Mappings.{ListMappingsDto, matches, page_of, limit_of, ceil_div, find_all}
use ecm_management.Mappings.Order.{
  IsStrictlyNewestFirst, IsOrder, times, Mem-Perm, IsDistinct-Perm, IsNewestFirst-strict,
  strict_unique, length-Perm,
}
use ecm_management.Mappings.Filter.{
  PassesFilter, matches-PassesFilter, PassesFilter-matches, Mem-select, select-Mem,
}

-- Two queries that find the same rows, no two made at the same time, answer the same list.
same_answer :
    (first second : List Mapping → List Mapping) (ms : List Mapping)
    → IsOrder first
    → IsOrder second
    → IsDistinct (times ms)
    → first ms ≡ second ms
same_answer first second ms a b k =
    let p = a.permutes ms in
    let q = b.permutes ms in
    strict_unique (first ms) (second ms)
      (IsNewestFirst-strict (first ms) (a.sorts ms) (IsDistinct-Perm p k))
      (IsNewestFirst-strict (second ms) (b.sorts ms) (IsDistinct-Perm q k))
      (λ m h. Mem-Perm q (Mem-Perm (Permᴰ.symm p) h))
      (λ m h. Mem-Perm p (Mem-Perm (Permᴰ.symm q) h))

-- The items of the first pages, one page after the other, each page a query of its own.
abbrev pub first_pages :
    ℕ → (ℕ → List Mapping → List Mapping) → ListMappingsDto → List Mapping → List Mapping
first_pages zero orders dto mappings = []
first_pages (suc n) orders dto mappings =
    first_pages n orders dto mappings
    ++ (find_all (orders (suc n)) (record dto { page = some (suc n) }) mappings).items

page_start : (n : ℕ) → page_of (some (suc n)) - 1 ≡ n
unfolding page_of
page_start n = omega arith

first_pages-take :
    (n : ℕ) (orders : ℕ → List Mapping → List Mapping) (dto : ListMappingsDto)
    (mappings : List Mapping) (all : List Mapping)
    → ((k : ℕ) → orders k (select (matches dto) mappings) ≡ all)
    → first_pages n orders dto mappings ≡ take (n * limit_of dto.limit) all
unfolding find_all matches take
first_pages-take zero orders dto mappings all same =
    ap (λ k. take k all) (z_lem (limit_of dto.limit))
  where
    z_lem : (k : ℕ) → 0 ≡ 0 * k
    z_lem k = omega arith
first_pages-take (suc n) orders dto mappings all same =
    rw (first_pages-take n orders dto mappings all same, page_start n, same (suc n))
      (take-drop (n * limit_of dto.limit) (limit_of dto.limit) (suc n * limit_of dto.limit) all
        (omega arith))

ceil_div-enough : (total limit : ℕ) → 1 ≤ limit → total ≤ ceil_div total limit * limit
unfolding ceil_div
ceil_div-enough total limit h =
    omega
      (arith, div-add-mod (total + (limit - 1)) limit, mod-lt (total + (limit - 1)) {m = limit} h)

limit_bounds : (dto : ListMappingsDto) → (1 ≤ limit_of dto.limit) × (limit_of dto.limit ≤ 100)
unfolding limit_of
limit_bounds dto = (omega arith, omega arith)

-- The rows that every page is cut from.
all_pages :
    (orders : ℕ → List Mapping → List Mapping) (dto : ListMappingsDto) (mappings : List Mapping)
    (page : ℕ)
    → ((n : ℕ) → IsOrder (orders n))
    → IsDistinct (times (select (matches dto) mappings))
    → first_pages (find_all (orders page) dto mappings).total_pages orders dto mappings
      ≡ orders page (select (matches dto) mappings)
unfolding find_all
all_pages orders dto mappings page ordered k =
    let found = select (matches dto) mappings in
    let total = length-Perm ((ordered page).permutes found) in
    first_pages-take (ceil_div (length found) (limit_of dto.limit)) orders dto mappings
      (orders page found)
      (λ n. same_answer (orders n) (orders page) found (ordered n) (ordered page) k)
    ∙ take-all (ceil_div (length found) (limit_of dto.limit) * limit_of dto.limit)
        (orders page found)
        (omega
          (arith, total, ceil_div-enough (length found) (limit_of dto.limit) (limit_bounds dto).0))

-- The pages of a list, one after the other up to the last that the list reports, each page a query of
-- its own, hold exactly the mappings that pass the filter, strictly newest first, if each query
-- answers every row that it finds once, newest first, and no two of those rows were made at the same
-- time. The total is their number, and a page has at most as many as the limit, which lies between 1
-- and 100.
pub find_all-pages :
    (orders : ℕ → List Mapping → List Mapping) (dto : ListMappingsDto) (mappings : List Mapping)
    (page : ℕ) (m : Mapping)
    → ((n : ℕ) → IsOrder (orders n))
    → IsDistinct (times (select (matches dto) mappings))
    → IsStrictlyNewestFirst
        (first_pages (find_all (orders page) dto mappings).total_pages orders dto mappings)
      × (Memᴰ m (first_pages (find_all (orders page) dto mappings).total_pages orders dto mappings)
          ↔ (Memᴰ m mappings × PassesFilter dto m))
      × ((find_all (orders page) dto mappings).total
          ≡ length
              (first_pages (find_all (orders page) dto mappings).total_pages orders dto mappings))
      × (length (find_all (orders page) dto mappings).items
          ≤ (find_all (orders page) dto mappings).limit)
      × (1 ≤ (find_all (orders page) dto mappings).limit)
      × ((find_all (orders page) dto mappings).limit ≤ 100)
unfolding find_all
find_all-pages orders dto mappings page m ordered k =
    let found = select (matches dto) mappings in
    let perm = (ordered page).permutes found in
    rw (all_pages orders dto mappings page ordered k) (
      IsNewestFirst-strict (orders page found) ((ordered page).sorts found)
          (IsDistinct-Perm perm k),
      (
        λ h.
            let (there, is_so) =
              Mem-select (matches dto) m mappings (Mem-Perm (Permᴰ.symm perm) h) in
            (there, matches-PassesFilter dto m is_so),
        λ p.
            Mem-Perm perm
              (select-Mem (matches dto) m mappings p.0 (PassesFilter-matches dto m p.1)),
      ),
      length-Perm perm,
      length-take-le (limit_of dto.limit) _,
      (limit_bounds dto).0,
      (limit_bounds dto).1,
    )
