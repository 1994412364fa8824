-- ===== src/Memory/PageMap/Tests.antt =====
-- The theorems on memory/paging_map.c, from an empty root table on.
use helos.Prelude.{ℕ, ◌≡◌, some, arith, if◌then◌else◌}
use helos.Memory.PageMap.{Paging, map_page}
use helos.Memory.PageMap.Sample.{empty, only_root, empty-IsTree, empty-IsSmall, empty-unused}
use helos.Memory.PageMap.Walk.{IsTree, translate}
use helos.Memory.PageMap.Grow.{Role}
use helos.Memory.PageMap.Translation.{in_pages, mapped_to, map_page-translate}
use helos.Memory.PageMap.Allocated.{map_page_allocated}
use helos.Memory.PageMap.Allocated.Pledge.{PagesAllocated, map_page_allocated-PagesAllocated}

map_page-translate_example :
    (s' : Paging) × (map_page 0x200000 0x400000 2 3 empty ≡ some s')
    × ((role' : Role) × IsTree s' role')
    × (s'.pml4 ≡ empty.pml4)
    × ((v : ℕ)
        → translate s' v ≡ (
            if in_pages 2 0x400000 v
            then some (mapped_to empty.execute_disable 0x200000 0x400000 3 v)
            else translate empty v))
map_page-translate_example =
    map_page-translate 2 0x200000 0x400000 3 empty only_root empty-IsTree (omega arith)
      (omega arith) (omega arith) (omega arith) (λ v h. empty-IsSmall v)
      (omega (arith, empty-unused))

map_page_allocated-PagesAllocated_example :
    (s' : Paging) × (map_page_allocated 0x400000 3 2 empty ≡ some s')
    × PagesAllocated 3 0x400000 2 empty s'
map_page_allocated-PagesAllocated_example =
    map_page_allocated-PagesAllocated 3 0x400000 2 empty only_root empty-IsTree (omega arith)
      (omega arith) (λ v h. empty-IsSmall v) (omega (arith, empty-unused))
