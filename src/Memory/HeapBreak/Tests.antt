-- ===== src/Memory/HeapBreak/Tests.antt =====
-- The theorem on memory/heap_break.c for a heap that is empty yet.
use helos.Prelude.{ℕ, ◌≡◌, some, arith, add64}
use helos.Memory.PageMap.Sample.{empty, only_root, empty-IsTree, empty-IsSmall, empty-unused}
use helos.Memory.HeapBreak.{Heap, add_break, kernel_heap}
use helos.Memory.HeapBreak.Growth.{IsHeap, Added, add_break-Added}

abbrev no_heap : Heap
no_heap = record { heap_break = kernel_heap; page_break = kernel_heap; paging = empty }

no_heap-IsHeap : IsHeap no_heap
no_heap-IsHeap = record {
  role = only_root;
  tree = empty-IsTree;
  begins = omega arith;
  within = omega arith;
  aligned = omega arith;
  ends = omega arith;
  mapped = λ v from below. absurd (omega arith);
}

add_break-Added_example :
    (result : ℕ) × (h' : Heap) × (add_break 5000 no_heap ≡ some (result, h'))
    × Added (add64 kernel_heap 5000) no_heap result h'
add_break-Added_example =
    add_break-Added 5000 no_heap no_heap-IsHeap (omega arith) (omega arith) (λ v h. empty-IsSmall v)
      (omega (arith, empty-unused))
