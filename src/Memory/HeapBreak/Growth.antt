-- ===== src/Memory/HeapBreak/Growth.antt =====
-- The pages of the heap of memory/heap_break.c.
use helos.Prelude.{
  Bool-cases, ◌∙◌, ℕ, ◌+◌, ◌-◌, ◌*◌, ◌/◌, ◌%◌, ◌≤◌, ◌<◌, ◌≡◌, refl, ap, ◌⊎◌, inl, inr, true, false,
  some, arith, ltb, if◌then◌else◌, word, add64, sub64, mul64,
}
use helos.Memory.Physical.{page_size}
use helos.Memory.Physical.Count.{unused}
use helos.Memory.Rounding.{round_up_to_page_count}
use helos.Memory.Rounding.Laws.{round_up_to_page_count-least}
use helos.Memory.PageMap.{Paging, has}
use helos.Memory.PageMap.Walk.{Access, IsTree, translate}
use helos.Memory.PageMap.Grow.{Role}
use helos.Memory.PageMap.MapOne.{page}
use helos.Memory.PageMap.Translation.{in_pages}
use helos.Memory.PageMap.Allocated.Loop.{AllSmall}
use helos.Memory.PageMap.Allocated.Pledge.{
  PagesAllocated, map_page_allocated-PagesAllocated, backed_by,
}
use helos.Memory.HeapBreak.{Heap, add_break, kernel_heap, read_write}

-- The address is mapped, and can be written.
abbrev pub Writable : Paging → ℕ → Type 0
Writable s v = (a : Access) × (translate s v ≡ some a) × (a.writable ≡ true)

pub record IsHeap (h : Heap) : Type 0 where
  pub role : Role
  pub tree : IsTree h.paging role
  pub begins : kernel_heap ≤ h.heap_break
  pub within : h.heap_break ≤ h.page_break
  pub aligned : h.page_break % page_size ≡ 0
  pub ends : h.page_break < word
  pub mapped :
      (v : ℕ) → page kernel_heap ≤ page v → page v < page h.page_break → Writable h.paging v

-- What `memory_AddBreak` does when the heap may have this new end.
pub record Added (heap_break : ℕ) (h : Heap) (result : ℕ) (h' : Heap) : Type 0 where
  pub heap : IsHeap h'
  pub returns : result ≡ (if ltb heap_break kernel_heap then word - 1 else h.heap_break)
  pub moved : h'.heap_break ≡ (if ltb heap_break kernel_heap then h.heap_break else heap_break)
  pub grows : h.page_break ≤ h'.page_break
  pub others :
      (v : ℕ)
      → (page v < page h.page_break) ⊎ (page h'.page_break ≤ page v)
      → translate h'.paging v ≡ translate h.paging v

-- The pages that the heap lacks.
abbrev pub lacking : ℕ → Heap → ℕ
lacking heap_break h = (heap_break - h.page_break + 4095) / 4096

module _ (h : Heap) (valid : IsHeap h) (heap_break : ℕ) (room : heap_break + 4096 ≤ word)
    (above : h.page_break < heap_break) where
  page_count-lem :
      round_up_to_page_count page_size (sub64 heap_break h.page_break) ≡ lacking heap_break h
  page_count-lem =
      let size : sub64 heap_break h.page_break ≡ heap_break - h.page_break =
        omega (arith, valid.ends, room, above) in
      let least = round_up_to_page_count-least (sub64 heap_break h.page_break) in
      omega (arith, size, least.0, least.1)

  new_page_break :
      add64 h.page_break (mul64 page_size (lacking heap_break h))
      ≡ h.page_break + 4096 * lacking heap_break h
  new_page_break = omega (arith, valid.ends, room, above)

  new_page :
      page (h.page_break + 4096 * lacking heap_break h) ≡ page h.page_break + lacking heap_break h
  new_page = omega (arith, valid.ends, valid.begins, valid.within, room, above)

  -- The heap with the new pages.
  module _ (p : Paging)
      (got : PagesAllocated (lacking heap_break h) h.page_break read_write h.paging p) where
    abbrev grown : Heap
    grown = record {
      heap_break = heap_break;
      page_break = add64 h.page_break (mul64 page_size (lacking heap_break h));
      paging = p;
    }

    writes : has read_write 2 ≡ true
    unfolding has
    writes = refl

    new-Writable : (v : ℕ) → in_pages (lacking heap_break h) h.page_break v ≡ true → Writable p v
    new-Writable v inside = (
      backed_by h.paging.execute_disable got.frames h.page_break read_write v,
      got.translates v ∙ rw inside refl,
      writes,
    )

    old-translate :
        (v : ℕ)
        → in_pages (lacking heap_break h) h.page_break v ≡ false
        → translate p v ≡ translate h.paging v
    old-translate v outside = got.translates v ∙ rw outside refl

    grown-IsHeap : IsHeap grown
    grown-IsHeap = record {
      role = got.role';
      tree = got.tree;
      begins = omega (arith, valid.begins, valid.within, above);
      within = omega (arith, new_page_break);
      aligned = omega (arith, new_page_break, valid.aligned);
      ends = omega (arith, new_page_break, room, above);
      mapped = λ v from below. elim (Bool-cases (in_pages (lacking heap_break h) h.page_break v)) [
        | inl inside ↦ new-Writable v inside
        | inr outside ↦
            let old : page v < page h.page_break =
              ground (arith, new_page_break, new_page, outside, below) in
            let (a, e, w) = valid.mapped v from old in (a, old-translate v outside ∙ e, w)
      ];
    }

    grown-others :
        (v : ℕ)
        → (page v < page h.page_break) ⊎ (page grown.page_break ≤ page v)
        → translate p v ≡ translate h.paging v
    grown-others v out = old-translate v (elim out [
      | inl low ↦ ground arith
      | inr high ↦
          let end : page h.page_break + lacking heap_break h ≤ page v =
            omega (arith, ap page new_page_break, new_page, high) in
          ground (arith, end)
    ])

-- `memory_AddBreak(inc)` on a heap whose pages are all mapped and can be written, where the new end
-- leaves a page below 2 ^ 64, no large page is mapped in the pages that the heap lacks, and four
-- frames are left for each of these: it returns. If the new end lies below the heap's begin it
-- returns -1 and moves nothing; if not, it returns the old end, and has moved the end. All pages up
-- to the end are mapped then and can be written, the mapped range never shrinks, and an address
-- outside of the new pages is translated as before.
pub add_break-Added :
    (inc : ℕ) (h : Heap)
    → IsHeap h
    → inc < word
    → add64 h.heap_break inc + 4096 ≤ word
    → AllSmall (lacking (add64 h.heap_break inc) h) h.page_break h.paging
    → 4 * lacking (add64 h.heap_break inc) h ≤ unused h.paging.frames
    → (result : ℕ) × (h' : Heap) × (add_break inc h ≡ some (result, h'))
      × Added (add64 h.heap_break inc) h result h'
unfolding add_break
add_break-Added inc h valid small_inc room small enough =
    let new = add64 h.heap_break inc in
    let old : sub64 new inc ≡ h.heap_break = omega (arith, valid.ends, valid.within, small_inc) in
    elim (Bool-cases (ltb new kernel_heap)) [
      | inl under ↦ rw under (
        word - 1,
        h,
        refl,
        record {
          heap = valid;
          returns = rw under refl;
          moved = rw under refl;
          grows = omega arith;
          others = λ v out. refl;
        },
      )
      | inr over ↦ rw over (elim (Bool-cases (ltb h.page_break new)) [
        | inl past ↦
            let above : h.page_break < new = ground (arith, past) in
            let (p, done, got) =
              map_page_allocated-PagesAllocated (lacking new h) h.page_break read_write h.paging
                valid.role valid.tree valid.aligned
                (omega (arith, valid.begins, valid.within, valid.ends, room, above)) small enough in
            rw (past, page_count-lem h valid new room above, done)
              (
                sub64 new inc,
                grown h valid new room above p got,
                rw (page_count-lem h valid new room above) refl,
                record {
                  heap = grown-IsHeap h valid new room above p got;
                  returns = rw over old;
                  moved = rw over refl;
                  grows = omega (arith, new_page_break h valid new room above);
                  others = grown-others h valid new room above p got;
                },
              )
        | inr there ↦ rw there (
          sub64 new inc,
          record h { heap_break = new },
          refl,
          record {
            heap = record {
              role = valid.role;
              tree = valid.tree;
              begins = ground (arith, over);
              within = ground (arith, there);
              aligned = valid.aligned;
              ends = valid.ends;
              mapped = valid.mapped;
            };
            returns = rw over old;
            moved = rw over refl;
            grows = omega arith;
            others = λ v out. refl;
          },
        )
      ])
    ]
