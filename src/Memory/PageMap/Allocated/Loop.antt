-- ===== src/Memory/PageMap/Allocated/Loop.antt =====
-- `paging_map_PageAllocated` of memory/paging_map.c the loop over the frames of a buffer.
use helos.Prelude.{
  ◌&&◌, ◌==◌, ℕ, zero, suc, ◌+◌, ◌*◌, ◌%◌, ◌^◌, ◌≤◌, ◌≡◌, refl, ◌∙◌, inl, inr, true, some, List, [],
  ◌∷◌, arith, Bool-cases, length, add64,
}
use helos.Memory.Physical.{page_size}
use helos.Memory.Physical.Count.{unused}
use helos.Memory.PageMap.{Paging, map_page, map_pages}
use helos.Memory.PageMap.Entry.{IsFrame}
use helos.Memory.PageMap.Walk.{IsTree, IsSmall, find_page}
use helos.Memory.PageMap.Grow.{Role}
use helos.Memory.PageMap.MapOne.{Mapped, page}
use helos.Memory.PageMap.Translation.{in_pages, map_pages-Mapped}
use helos.Memory.PageMap.Allocated.{map_frames}
use helos.Memory.PageMap.Allocated.Backed.{Unclaimed}
use helos.Memory.PageMap.Allocated.Pages.{Backed, Backed-append, Follows, in_pages-add}

abbrev pub AllSmall : ℕ → ℕ → Paging → Type 0
AllSmall n virtual s = (v : ℕ) → in_pages n virtual v ≡ true → IsSmall (find_page s v)

-- The address after `n` pages.
abbrev pub Comes : ℕ → ℕ → ℕ → Type 0
Comes n virtual virtual' = (virtual' % 4096 ≡ 0) × (page virtual' ≡ (page virtual + n) % 2 ^ 36)

pub Comes-Follows :
    (m n virtual virtual' : ℕ)
    → Comes m virtual virtual'
    → page virtual + (m + n) ≤ 2 ^ 36
    → Follows m n virtual virtual'
Comes-Follows m zero virtual virtual' c h = inl refl
Comes-Follows m (suc n) virtual virtual' c h = inr (omega (arith, c, h))

-- The later pages are as small as they were.
pub AllSmall-after :
    (each : ℕ) (xs : List ℕ) (n virtual virtual' flags : ℕ) {s s1 : Paging} {role1 : Role}
    → Backed each xs virtual flags s s1 role1
    → Follows (length xs) n virtual virtual'
    → AllSmall (length xs + n) virtual s
    → AllSmall n virtual' s1
AllSmall-after each xs n virtual virtual' flags b follows small v h =
    elim (Bool-cases (in_pages (length xs) virtual v)) [
      | inl k ↦ rw (b.finds v, k) tt
      | inr k ↦
          rw (b.finds v, k)
            (small v (rw (in_pages-add (length xs) n virtual virtual' v follows, h) refl))
    ]

Backed-nil :
    (virtual flags : ℕ) (s : Paging) (role : Role)
    → IsTree s role
    → Backed 3 [] virtual flags s s role
Backed-nil virtual flags s role tree = record {
  tree = tree;
  same_root = refl;
  same_disable = refl;
  fewer = omega arith;
  still_used = λ f h. h;
  finds = λ v. ground arith;
}

one-Backed :
    (a virtual flags : ℕ) {s s' : Paging} {role' : Role}
    → Mapped 1 a virtual flags s s' role'
    → Backed 3 (a ∷ []) virtual flags s s' role'
one-Backed a virtual flags m = record {
  tree = m.tree;
  same_root = m.same_root;
  same_disable = m.same_disable;
  fewer = omega (arith, m.fewer);
  still_used = m.still_used;
  finds = λ v. m.finds v ∙ ground arith;
}

-- What the loop over the frames comes to.
pub record Laid (frames : List ℕ) (virtual flags : ℕ) (s : Paging) : Type 0 where
  pub virtual' : ℕ
  pub s' : Paging
  pub role' : Role
  pub runs : map_frames frames virtual flags s ≡ some (virtual', s')
  pub comes : Comes (length frames) virtual virtual'
  pub backed : Backed 3 frames virtual flags s s' role'

module _ (a : ℕ) (as' : List ℕ) (virtual flags : ℕ) (s : Paging) (role1 : Role)
    (aligned : virtual % 4096 ≡ 0) (frame : IsFrame a)
    (below : page virtual + suc (length as') ≤ 2 ^ 36)
    (m : Mapped 1 a virtual flags s (map_pages 1 a virtual flags s) role1) where
  abbrev next : ℕ
  next = add64 virtual page_size

  next-Comes : Comes 1 virtual next
  next-Comes = omega (arith, aligned)

  next-Follows : Follows 1 (length as') virtual next
  next-Follows = Comes-Follows 1 (length as') virtual next next-Comes (omega (arith, below))

  next-small :
      AllSmall (suc (length as')) virtual s
      → AllSmall (length as') next (map_pages 1 a virtual flags s)
  next-small small =
      AllSmall-after 3 (a ∷ []) (length as') virtual next flags (one-Backed a virtual flags m)
        next-Follows (λ v h. small v (ground arith))

  next-Laid : Laid as' next flags (map_pages 1 a virtual flags s) → Laid (a ∷ as') virtual flags s
  unfolding map_frames map_page
  next-Laid l =
      let start : (a % page_size == 0) && (virtual % page_size == 0) ≡ true = ground arith in
      record {
        virtual' = l.virtual';
        s' = l.s';
        role' = l.role';
        runs = rw (start, map_frames, map_page) l.runs;
        comes = omega (arith, l.comes, next-Comes);
        backed =
            Backed-append 3 (a ∷ []) as' virtual next flags (one-Backed a virtual flags m) l.backed
              next-Follows;
      }

pub map_frames-Laid :
    (frames : List ℕ) (virtual flags : ℕ) (s : Paging) (role given_role : Role)
    → IsTree s role
    → Unclaimed given_role frames
    → virtual % 4096 ≡ 0
    → page virtual + length frames ≤ 2 ^ 36
    → AllSmall (length frames) virtual s
    → 3 * length frames ≤ unused s.frames
    → Laid frames virtual flags s
unfolding map_frames
map_frames-Laid [] virtual flags s role given_role tree un aligned below small enough = record {
  virtual' = virtual;
  s' = s;
  role' = role;
  runs = refl;
  comes = (aligned, omega arith);
  backed = Backed-nil virtual flags s role tree;
}
map_frames-Laid (a ∷ as') virtual flags s role given_role tree un aligned below small enough =
    let (role1, m) =
      map_pages-Mapped 1 a virtual flags s role tree un.1.0 (omega (arith, un.1)) (omega arith)
        (λ v h. small v (ground arith)) (omega arith) in
    next-Laid a as' virtual flags s role1 aligned un.1 below m (
      map_frames-Laid as' (add64 virtual page_size) flags (map_pages 1 a virtual flags s) role1
        given_role m.tree un.2 (omega (arith, aligned)) (omega (arith, below))
        (next-small a as' virtual flags s role1 aligned un.1 below m small)
        (omega (arith, m.fewer)))
