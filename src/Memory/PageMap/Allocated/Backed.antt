-- ===== src/Memory/PageMap/Allocated/Backed.antt =====
-- The frames of `paging_map_PageAllocated` in memory/paging_map.c: what their allocation leaves
-- alone, and the pages on them.
use Prim.Native.Nat.{bit_and}
use helos.Prelude.{
  none≢some, ==_iff, ◌+◌, sym, ◌==◌, ◌||◌, Bool-cases, length, ◌%◌, ◌≤◌, arith, ℕ, ◌≡◌, refl, ap,
  ◌∙◌, inl, inr, false, none, some, List, [], ◌∷◌,
}
use helos.Memory.Physical.{page_size, allocate_frames}
use helos.Memory.Physical.Bitmap.{used}
use helos.Memory.Physical.Allocate.{AllFresh, given, allocate_frames-Allotted}
use helos.Memory.Physical.Count.{unused, allocate_frames-unused}
use helos.Memory.PageMap.{Paging, has, clear, take_frames, pml_addr_mask, pml_present}
use helos.Memory.PageMap.Entry.{IsFrame}
use helos.Memory.PageMap.Walk.{IsTree, leaf, walk, find_page, indices}
use helos.Memory.PageMap.Grow.{Role}

-- Frames that are no tables.
abbrev pub Unclaimed : Role → List ℕ → Type 0
Unclaimed role [] = Unit {0}
Unclaimed role (a ∷ as') = (role a ≡ none) × IsFrame a × Unclaimed role as'

AllFresh-Unclaimed :
    (frames : List ℕ) (s : Paging) (role : Role)
    → IsTree s role
    → AllFresh s.frames frames
    → Unclaimed role frames
AllFresh-Unclaimed [] s role tree fresh = tt
AllFresh-Unclaimed (a ∷ as') s role tree fresh =
    let (number, at, free, above, below, other) = fresh.0 in
    (
      ap role at ∙ tree.in_use number free,
      (omega (arith, at), omega (arith, at, below, tree.fits)),
      AllFresh-Unclaimed as' s role tree fresh.1,
    )

clear-claimed :
    (frames : List ℕ) (role : Role) (tables : ℕ → ℕ → ℕ) (t : ℕ) (p : List ℕ) (i : ℕ)
    → Unclaimed role frames
    → role t ≡ some p
    → t % 4096 ≡ 0
    → clear page_size frames tables t i ≡ tables t i
unfolding clear
clear-claimed [] role tables t p i un at aligned = refl
clear-claimed (a ∷ as') role tables t p i un at aligned =
    let differ : (t == a) ≡ false = elim (Bool-cases (t == a)) [
      | inl same ↦ absurd (none≢some (sym un.0 ∙ ap role (sym ((==_iff t a).0 same)) ∙ at))
      | inr different ↦ different
    ] in
    clear-claimed as' role _ t p i un.2 at aligned ∙ ground (arith, differ, un.1, aligned)

module _ (s s' : Paging) (role : Role) (tree : IsTree s role)
    (same : (t : ℕ) (p : List ℕ) (i : ℕ) → role t ≡ some p → s'.tables t i ≡ s.tables t i) where
  same-walk :
      (t : ℕ) (p is : List ℕ)
      → role t ≡ some p
      → walk s'.tables (length p) t is ≡ walk s.tables (length p) t is
  unfolding walk
  same-walk t p [] at = refl
  same-walk t p (i ∷ is) at =
      rw (same t p i at) (elim (Bool-cases (has (s.tables t i) pml_present)) [
        | inr out ↦ rw out refl
        | inl there ↦ elim (Bool-cases (leaf (length p) (s.tables t i))) [
          | inl last ↦ rw (there, last) refl
          | inr inner ↦
              rw (there, inner)
                (same-walk (bit_and (s.tables t i) pml_addr_mask) (i ∷ p) is
                  (tree.points t p i at there inner))
        ]
      ])

-- The allocation of frames for data.
pub record Reserved (n : ℕ) (s : Paging) (role : Role) (frames : List ℕ) (s' : Paging)
    : Type 0 where
  pub as_many : length frames ≡ n
  pub fresh : AllFresh s.frames frames
  pub taken : (p : ℕ) → used s'.frames.bitmap p ≡ (given frames p || used s.frames.bitmap p)
  pub tree : IsTree s' role
  pub same_root : s'.pml4 ≡ s.pml4
  pub same_disable : s'.execute_disable ≡ s.execute_disable
  pub same_page : (v : ℕ) → find_page s' v ≡ find_page s v
  pub fewer : unused s.frames ≤ unused s'.frames + n
  pub unclaimed : Unclaimed role frames

pub take_frames-Reserved :
    (n : ℕ) (s : Paging) (role : Role)
    → IsTree s role
    → n ≤ unused s.frames
    → Reserved n s role (take_frames n s).0 (take_frames n s).1
unfolding take_frames find_page
take_frames-Reserved n s role tree enough =
    let allotted = allocate_frames-Allotted n s.frames tree.covers in
    let counted = allocate_frames-unused n s.frames tree.covers enough in
    let frames = (allocate_frames n s.frames).0 in
    let s' = (take_frames n s).1 in
    let un = AllFresh-Unclaimed frames s role tree allotted.fresh in
    let same : (t : ℕ) (p : List ℕ) (i : ℕ) → role t ≡ some p → s'.tables t i ≡ s.tables t i =
      λ t p i at. clear-claimed frames role s.tables t p i un at (tree.aligned t p at) in
    record {
      as_many = counted.0;
      fresh = allotted.fresh;
      taken = allotted.taken;
      tree = record {
        root = tree.root;
        aligned = tree.aligned;
        points = λ t p i at there inner.
            rw (same t p i at)
              (tree.points t p i at (rw (same t p i at) at there) (rw (same t p i at) at inner));
        opens = λ t p i at there inner.
            rw (same t p i at)
              (tree.opens t p i at (rw (same t p i at) at there) (rw (same t p i at) at inner));
        in_use = λ number free. tree.in_use number (ground (arith, allotted.taken number, free));
        covers = omega (arith, counted, tree.covers);
        fits = omega (arith, counted, tree.fits);
      };
      same_root = refl;
      same_disable = refl;
      same_page = λ v. same-walk s s' role tree same s.pml4 [] (indices v) tree.root;
      fewer = counted.1;
      unclaimed = un;
    }
