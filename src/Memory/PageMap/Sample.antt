-- ===== src/Memory/PageMap/Sample.antt =====
-- Tables of memory/paging_map.c with an empty root.
use helos.Prelude.{
  zero, suc, ◌∙◌, sym, true≢false, ◌*◌, arith, ℕ, zero, ◌≡◌, refl, true, false, none, some, [], ◌∷◌,
  ◌==◌, if◌then◌else◌,
}
use helos.Memory.Physical.{page_size}
use helos.Memory.Physical.Bitmap.{used}
use helos.Memory.Physical.Count.{unused, count_unused}
use helos.Memory.PageMap.{Paging}
use helos.Memory.PageMap.Entry.{zero-present}
use helos.Memory.PageMap.Walk.{IsTree, IsSmall, walk, find_page}
use helos.Memory.PageMap.Grow.{Role}

-- The root is the frame 0, and the only one in use.
abbrev pub empty : Paging
empty = record {
  tables = λ t i. 0;
  frames = record { bitmap = 1 ∷ []; phy_i = 0; phy_i_2m = 8; end_page = 64; cleared = [] };
  pml4 = 0;
  execute_disable = true;
  flushed = [];
}

abbrev pub only_root : Role
only_root t = if t == 0 then some [] else none

root_in_use :
    (number : ℕ) → used empty.frames.bitmap number ≡ false → only_root (number * page_size) ≡ none
root_in_use zero h = absurd (true≢false h)
root_in_use (suc number) h = ground arith

pub empty-IsTree : IsTree empty only_root
empty-IsTree = record {
  root = refl;
  aligned = λ t p e. ground arith;
  points = λ t p i at there inner. absurd (true≢false (sym there ∙ zero-present));
  opens = λ t p i at there inner. absurd (true≢false (sym there ∙ zero-present));
  in_use = root_in_use;
  covers = omega arith;
  fits = omega arith;
}

pub empty-find_page : (v : ℕ) → find_page empty v ≡ none
unfolding find_page walk
empty-find_page v = rw zero-present refl

pub empty-IsSmall : (v : ℕ) → IsSmall (find_page empty v)
empty-IsSmall v = rw (empty-find_page v) tt

pub empty-unused : unused empty.frames ≡ 63
unfolding count_unused
empty-unused = refl
