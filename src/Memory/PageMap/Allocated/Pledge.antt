-- ===== src/Memory/PageMap/Allocated/Pledge.antt =====
-- What `paging_map_PageAllocated` of memory/paging_map.c gives its caller.
use helos.Prelude.{
  ◌==◌, ◌^◌, ℕ, zero, suc, ◌+◌, ◌-◌, ◌*◌, ◌%◌, ◌≤◌, ◌<◌, ◌≡◌, refl, inl, inr, Bool, true, not, ◌||◌,
  Option, some, List, [], ◌∷◌, arith, if◌then◌else◌, Bool-cases, length, get_or,
}
use helos.Memory.Physical.{page_size}
use helos.Memory.Physical.Bitmap.{used}
use helos.Memory.Physical.Allocate.{given}
use helos.Memory.Physical.Count.{unused}
use helos.Memory.PageMap.{Paging, has}
use helos.Memory.PageMap.Entry.{
  IsFrame, page_entry-writeable, page_entry-execute_disable, page_entry-address,
}
use helos.Memory.PageMap.Rights.{translate-last}
use helos.Memory.PageMap.Walk.{Access, IsTree, translate}
use helos.Memory.PageMap.Grow.{Role}
use helos.Memory.PageMap.MapOne.{page}
use helos.Memory.PageMap.Translation.{in_pages}
use helos.Memory.PageMap.Allocated.{map_page_allocated}
use helos.Memory.PageMap.Allocated.Loop.{AllSmall}
use helos.Memory.PageMap.Allocated.Whole.{AllNew, Filled, loop-Filled}

AllNew-frame :
    (frames : List ℕ) (s : Paging) (k : ℕ)
    → AllNew s frames
    → k < length frames
    → IsFrame (get_or frames k 0)
AllNew-frame [] s k new h = absurd (omega arith)
AllNew-frame (a ∷ as') s zero new h =
    let (number, at, small, free, other) = new.0 in (omega (arith, at), omega (arith, at, small))
AllNew-frame (a ∷ as') s (suc k) new h = AllNew-frame as' s k new.1 (omega arith)

abbrev pub backed_by : Bool → List ℕ → ℕ → ℕ → ℕ → Access
backed_by execute_disable frames virtual flags v = record {
  address = get_or frames (page v - page virtual) 0 + v % 4096;
  writable = has flags 2;
  executable = not execute_disable || has flags 1;
}

-- `n` pages from `virtual` on, each on a frame of its own that was not in use.
pub record PagesAllocated (n virtual flags : ℕ) (s s' : Paging) : Type 0 where
  pub frames : List ℕ
  pub as_many : length frames ≡ n
  pub new : AllNew s frames
  pub held : (f : ℕ) → given frames f ≡ true → used s'.frames.bitmap f ≡ true
  pub role' : Role
  pub tree : IsTree s' role'
  pub same_root : s'.pml4 ≡ s.pml4
  pub same_disable : s'.execute_disable ≡ s.execute_disable
  pub fewer : unused s.frames ≤ unused s'.frames + 4 * n
  pub translates :
      (v : ℕ)
      → translate s' v ≡ (
          if in_pages n virtual v
          then some (backed_by s.execute_disable frames virtual flags v)
          else translate s v)

Filled-translate :
    (n virtual flags : ℕ) (s : Paging) (role : Role)
    → IsTree s role
    → {result : Option Paging} (f : Filled n virtual flags s result) (v : ℕ)
    → translate f.s' v ≡ (
        if in_pages n virtual v
        then some (backed_by s.execute_disable f.frames virtual flags v)
        else translate s v)
Filled-translate n virtual flags s role tree f v =
    let b = f.backed in
    let xd = s.execute_disable in
    let frame = get_or f.frames (page v - page virtual) 0 in
    rw
      (
        translate-last f.s' f.role' b.tree v,
        translate-last s role tree v,
        b.finds v,
        b.same_disable,
        f.as_many,
      )
      (elim (Bool-cases (in_pages n virtual v)) [
        | inr out ↦ rw out refl
        | inl inside ↦
            let fits =
              AllNew-frame f.frames s (page v - page virtual) f.new
                (ground (arith, inside, f.as_many)) in
            rw
              (
                inside,
                page_entry-address xd frame flags fits,
                page_entry-writeable xd frame flags fits,
                page_entry-execute_disable xd frame flags fits,
              )
              (ground arith)
      ])

-- `paging_map_PageAllocated(virtual, n, flags)` at an aligned address, while no large page is mapped
-- in the `n` pages from there on and four frames are left for each page, the tables being a tree
-- whose entries for tables take no right away: it ends, and has mapped these pages to `n` frames
-- that were not in use and are now, no two the same, by the rights of all four levels writable
-- exactly with MAP_PROT_WRITE, and executable exactly with MAP_PROT_EXEC or where execution cannot
-- be disabled; every other address is translated as before, and the tables stay a tree with the same
-- root. Four frames for each page are all that it takes.
pub map_page_allocated-PagesAllocated :
    (n virtual flags : ℕ) (s : Paging) (role : Role)
    → IsTree s role
    → virtual % 4096 ≡ 0
    → page virtual + n ≤ 2 ^ 36
    → AllSmall n virtual s
    → 4 * n ≤ unused s.frames
    → (s' : Paging) × (map_page_allocated virtual n flags s ≡ some s')
      × PagesAllocated n virtual flags s s'
unfolding map_page_allocated
map_page_allocated-PagesAllocated n virtual flags s role tree aligned below small enough =
    let f = loop-Filled n n virtual flags s role (omega arith) tree aligned below small enough in
    let start : (virtual % page_size == 0) ≡ true = ground arith in
    (
      f.s',
      rw start f.done,
      record {
        frames = f.frames;
        as_many = f.as_many;
        new = f.new;
        held = f.held;
        role' = f.role';
        tree = f.backed.tree;
        same_root = f.backed.same_root;
        same_disable = f.backed.same_disable;
        fewer = omega (arith, f.backed.fewer, f.as_many);
        translates = Filled-translate n virtual flags s role tree f;
      },
    )
