-- ===== src/Mappings/Examples.antt =====
-- A capability that is current and one that is retired, with a mapping of each.
use ecm_management.Base.{
  ◌≤◌, ◌≡◌, ◌↔◌, List, Memᴰ, elem, IsDistinct, refl, true, none, some, [], ◌∷◌, length, select,
  count, find_first,
}
use ecm_management.Schema.{
  Uuid, LifecycleStatus, Capability, Mapping, MappingState, is_active, is_retired,
  mapping_to_retired, Db, ok, err,
}
use ecm_management.Structural.Hierarchy.{find_capability}
use ecm_management.Impact.{newest_first}
use ecm_management.Versions.Examples.{sales, no_rows}
use ecm_management.Mappings.{
  ListMappingsDto, matches, find_all, find_mapping, CreateMappingDto, create_mapping, new_mapping,
  add_new, UpdateMappingDto, update_mapping, updated_mapping, set_mapping,
}
use ecm_management.Mappings.Guard.{
  is_misplaced, creates, mappings_avoid_retired, update_mapping-misplaces,
}
use ecm_management.Mappings.Pages.{first_pages, find_all-pages}
use ecm_management.Mappings.Filter.{PassesFilter}
use ecm_management.Mappings.Order.{IsStrictlyNewestFirst, times, newest_first-IsOrder}

abbrev mapping : Uuid → Uuid → MappingState → Mapping
mapping id capability_id state = record {
  id = id;
  mapping_type = "REALIZES";
  system_id = "billing";
  capability_id = capability_id;
  state = state;
  attributes = none;
  created_at = id;
}

abbrev retired_sales : Capability
retired_sales = record (sales 4 "Old sales") { lifecycle_status = LifecycleStatus.retired }

abbrev mapped_model : Db
mapped_model = record no_rows {
  capabilities = sales 3 "Sales" ∷ retired_sales ∷ [];
  mappings =
      mapping 5 3 MappingState.active
      ∷ mapping 6 4 MappingState.inactive
      ∷ mapping 7 3 MappingState.pending
      ∷ [];
}

abbrev two_a_page : ListMappingsDto
two_a_page = record {
  state = none;
  mapping_type = none;
  system_id = some "billing";
  capability_id = none;
  page = none;
  limit = some 2;
}

-- Every query answers in the same way here.
abbrev pages_of_two : List Mapping
pages_of_two =
    first_pages (find_all newest_first two_a_page mapped_model.mappings).total_pages
      (λ _. newest_first) two_a_page mapped_model.mappings

made_apart : IsDistinct (times (select (matches two_a_page) mapped_model.mappings))
unfolding select matches elem
made_apart = (refl, (refl, (refl, tt)))

find_all-pages_example :
    IsStrictlyNewestFirst pages_of_two
    × (Memᴰ (mapping 6 4 MappingState.inactive) pages_of_two ↔ (
        Memᴰ (mapping 6 4 MappingState.inactive) mapped_model.mappings
        × PassesFilter two_a_page (mapping 6 4 MappingState.inactive)))
    × ((find_all newest_first two_a_page mapped_model.mappings).total ≡ length pages_of_two)
    × (length (find_all newest_first two_a_page mapped_model.mappings).items
        ≤ (find_all newest_first two_a_page mapped_model.mappings).limit)
    × (1 ≤ (find_all newest_first two_a_page mapped_model.mappings).limit)
    × ((find_all newest_first two_a_page mapped_model.mappings).limit ≤ 100)
find_all-pages_example =
    find_all-pages (λ _. newest_first) two_a_page mapped_model.mappings 1
      (mapping 6 4 MappingState.inactive) (λ _. newest_first-IsOrder) made_apart

abbrev anew : Uuid → CreateMappingDto
anew capability_id = record {
  mapping_type = "REALIZES";
  system_id = "crm";
  capability_id = capability_id;
  state = none;
  attributes = none;
}

creates_one :
    create_mapping (anew 3) 90 mapped_model
    ≡ ok (new_mapping (anew 3) 10 90, add_new (new_mapping (anew 3) 10 90) 90 mapped_model)
unfolding create_mapping find_capability find_first is_retired
creates_one = refl

mappings_avoid_retired_example :
    ((add_new (new_mapping (anew 3) 10 90) 90 mapped_model).capabilities
      ≡ mapped_model.capabilities)
    × (count
          (is_misplaced (add_new (new_mapping (anew 3) 10 90) 90 mapped_model).capabilities)
          (add_new (new_mapping (anew 3) 10 90) 90 mapped_model).mappings
        ≡ 0)
mappings_avoid_retired_example =
    mappings_avoid_retired (creates (anew 3) 90 (new_mapping (anew 3) 10 90) creates_one)
      (unfold count is_misplaced find_capability find_first is_active is_retired in refl)

abbrev activating : UpdateMappingDto
activating = record { mapping_type = none; state = some MappingState.active; attributes = none }

update_mapping-misplaces_example :
    (update_mapping 6 activating 90 mapped_model
      ≡ ok (
        updated_mapping activating (mapping 6 4 MappingState.inactive),
        set_mapping 6 activating 90 mapped_model,
      ))
    × (is_misplaced mapped_model.capabilities
          (updated_mapping activating (mapping 6 4 MappingState.inactive))
        ≡ true)
    × (create_mapping (anew 4) 90 mapped_model ≡ err (mapping_to_retired 4))
update_mapping-misplaces_example =
    update_mapping-misplaces activating (anew 4) 90 mapped_model (mapping 6 4 MappingState.inactive)
      retired_sales (unfold find_mapping find_first in refl)
      (unfold find_capability find_first in refl) (unfold is_retired in refl) refl refl
