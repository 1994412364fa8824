-- ===== src/Memory/PageMap/MapOne.antt =====
-- One round of the loop of `paging_map_Page` in memory/paging_map.c.
use helos.Prelude.{
  ℕ, ◌+◌, ◌-◌, ◌*◌, ◌/◌, ◌%◌, ◌^◌, ◌≤◌, ◌≡◌, refl, ap, subst, sym, ◌∙◌, inl, inr, true, ◌&&◌, some,
  List, [], ◌∷◌, ◌==◌, if◌then◌else◌, leb, ltb, arith, Bool-cases, true≢false, ==_iff,
}
use helos.Memory.Physical.Bitmap.{used}
use helos.Memory.Physical.Count.{unused}
use helos.Memory.PageMap.{
  Paging, has, write, enter, map_one, page_entry, flush_tlb_single, index1, index2, index3, index4,
  pml_present,
}
use helos.Memory.PageMap.Entry.{
  IsFrame, index1-lem, index2-lem, index3-lem, index4-lem, page_entry-present,
}
use helos.Memory.PageMap.Walk.{IsTree, IsSmall, walk, find_page, indices}
use helos.Memory.PageMap.Grow.{Role}
use helos.Memory.PageMap.Put.{
  Link, Link-walk, Link-Provided, enter-Entered, Entered-IsSmall, onto, put-IsTree, put-Link,
  put-walk_here, put-walk_other,
}

-- The number of the page, by the bits that the processor reads.
abbrev pub page : ℕ → ℕ
page v = v / 4096 % 2 ^ 36

page-split :
    (v : ℕ)
    → page v
      ≡ ((v / 2 ^ 39 % 512 * 512 + v / 2 ^ 30 % 512) * 512 + v / 2 ^ 21 % 512) * 512
        + v / 2 ^ 12 % 512
page-split v = omega arith

same-indices : (v w : ℕ) → page v ≡ page w → indices v ≡ indices w
same-indices v w h =
    let same : (v / 2 ^ 39 % 512 ≡ w / 2 ^ 39 % 512)
        × (v / 2 ^ 30 % 512 ≡ w / 2 ^ 30 % 512)
        × (v / 2 ^ 21 % 512 ≡ w / 2 ^ 21 % 512)
        × (v / 2 ^ 12 % 512 ≡ w / 2 ^ 12 % 512) =
      omega (arith, page-split v, page-split w, h) in
    rw
      (
        index4-lem v,
        index3-lem v,
        index2-lem v,
        index1-lem v,
        index4-lem w,
        index3-lem w,
        index2-lem w,
        index1-lem w,
        same.0,
        same.1,
        same.2,
        same.3,
      )
      refl

same-page : (v w : ℕ) → onto (indices v) [] ≡ onto (indices w) [] → page v ≡ page w
same-page v w h =
    let same : (index4 v ≡ index4 w)
        × (index3 v ≡ index3 w)
        × (index2 v ≡ index2 w)
        × (index1 v ≡ index1 w) =
      (cc, cc, cc, cc) in
    omega (
      arith,
      page-split v,
      page-split w,
      same,
      index4-lem v,
      index3-lem v,
      index2-lem v,
      index1-lem v,
      index4-lem w,
      index3-lem w,
      index2-lem w,
      index1-lem w,
    )

-- The pages from `virtual` on, `n` of them, are mapped, and no other mapping has changed.
pub record Mapped (n physical virtual flags : ℕ) (s s' : Paging) (role' : Role) : Type 0 where
  pub tree : IsTree s' role'
  pub same_root : s'.pml4 ≡ s.pml4
  pub same_disable : s'.execute_disable ≡ s.execute_disable
  pub fewer : unused s.frames ≤ unused s'.frames + 3 * n
  pub still_used : (f : ℕ) → used s.frames.bitmap f ≡ true → used s'.frames.bitmap f ≡ true
  pub finds :
      (v : ℕ)
      → find_page s' v ≡ (
          if leb (page virtual) (page v) && ltb (page v) (page virtual + n)
          then some
              (page_entry s.execute_disable (physical + (page v - page virtual) * 4096) flags, [])
          else find_page s v)

flush-IsTree :
    {s : Paging} {role : Role} (v : ℕ) → IsTree s role → IsTree (flush_tlb_single v s) role
unfolding flush_tlb_single
flush-IsTree v tree = record {
  root = tree.root;
  aligned = tree.aligned;
  points = tree.points;
  opens = tree.opens;
  in_use = tree.in_use;
  covers = tree.covers;
  fits = tree.fits;
}

-- The last table is reached from the root, and the entry written to it.
module _ (s : Paging) (role : Role) (tree : IsTree s role) (virtual e t3 t2 t1 : ℕ)
    (l4 : Link s role s.pml4 [] (index4 virtual) t3)
    (l3 : Link s role t3 (index4 virtual ∷ []) (index3 virtual) t2)
    (l2 : Link s role t2 (index3 virtual ∷ index4 virtual ∷ []) (index2 virtual) t1)
    (present : has e pml_present ≡ true) where
  abbrev path : List ℕ
  path = index2 virtual ∷ index3 virtual ∷ index4 virtual ∷ []

  abbrev after : Paging
  after = flush_tlb_single virtual (write t1 (index1 virtual) e s)

  after-IsTree : IsTree after role
  after-IsTree =
      flush-IsTree virtual
        (put-IsTree s role tree t1 path (index1 virtual) e l2.child_at refl present)

  after-here : walk after.tables 0 s.pml4 (indices virtual) ≡ some (e, [])
  unfolding flush_tlb_single
  after-here =
      Link-walk (index3 virtual ∷ index2 virtual ∷ index1 virtual ∷ [])
        (put-Link s role tree t1 path (index1 virtual) e l2.child_at refl present (omega arith) l4)
      ∙ Link-walk (index2 virtual ∷ index1 virtual ∷ []) (
          put-Link s role tree t1 path (index1 virtual) e l2.child_at refl present (omega arith) l3)
      ∙ Link-walk (index1 virtual ∷ []) (
          put-Link s role tree t1 path (index1 virtual) e l2.child_at refl present (omega arith) l2)
      ∙ put-walk_here s role tree t1 path (index1 virtual) e l2.child_at refl present

  after-find_page :
      (v : ℕ) → find_page after v ≡ (if page v == page virtual then some (e, []) else find_page s v)
  unfolding find_page flush_tlb_single write
  after-find_page v = elim (Bool-cases (page v == page virtual)) [
    | inl same ↦ rw same (
        ap (walk after.tables 0 s.pml4) (same-indices v virtual ((==_iff _ _).0 same)) ∙ after-here)
    | inr apart ↦ rw apart (
        put-walk_other s role tree t1 path (index1 virtual) e l2.child_at refl present s.pml4 []
          (indices v) l4.at (omega arith)
          (λ h. true≢false (sym ((==_iff _ _).1 (same-page v virtual h)) ∙ apart)))
  ]

-- The state before the write, which has the tables and the mappings of `s`.
module _ (physical virtual flags : ℕ) (s s1 : Paging) (role : Role) (frame : IsFrame physical)
    (tree : IsTree s1 role) (t3 t2 t1 : ℕ) (l4 : Link s1 role s1.pml4 [] (index4 virtual) t3)
    (l3 : Link s1 role t3 (index4 virtual ∷ []) (index3 virtual) t2)
    (l2 : Link s1 role t2 (index3 virtual ∷ index4 virtual ∷ []) (index2 virtual) t1)
    (same_root : s1.pml4 ≡ s.pml4) (same_disable : s1.execute_disable ≡ s.execute_disable)
    (same_page : (v : ℕ) → find_page s1 v ≡ find_page s v)
    (fewer : unused s.frames ≤ unused s1.frames + 3)
    (still_used : (f : ℕ) → used s.frames.bitmap f ≡ true → used s1.frames.bitmap f ≡ true) where
  abbrev new_entry : ℕ
  new_entry = page_entry s1.execute_disable physical flags

  finish :
      Mapped 1 physical virtual flags s
        (flush_tlb_single virtual (write t1 (index1 virtual) new_entry s1))
        role
  unfolding flush_tlb_single write
  finish =
      let present = page_entry-present s1.execute_disable physical flags frame in
      record {
        tree = after-IsTree s1 role tree virtual new_entry t3 t2 t1 l4 l3 l2 present;
        same_root = same_root;
        same_disable = same_disable;
        fewer = fewer;
        still_used = still_used;
        finds = λ v.
            after-find_page s1 role tree virtual new_entry t3 t2 t1 l4 l3 l2 present v
            ∙ rw (same_page v, same_disable) (ground arith);
      }

pub map_one-Mapped :
    (physical virtual flags : ℕ) (s : Paging) (role : Role)
    → IsTree s role
    → IsFrame physical
    → IsSmall (find_page s virtual)
    → 3 ≤ unused s.frames
    → (role' : Role) × Mapped 1 physical virtual flags s (map_one physical virtual flags s) role'
unfolding map_one find_page
map_one-Mapped physical virtual flags s role tree frame small enough =
    let i4 = index4 virtual in
    let i3 = index3 virtual in
    let i2 = index2 virtual in
    let i1 = index1 virtual in
    let r4 = enter s.pml4 i4 s in
    let (role4, e4) =
      enter-Entered s role s.pml4 [] i4 i3 (i2 ∷ i1 ∷ []) tree tree.root (omega arith) small
        (omega arith) in
    let small3 = Entered-IsSmall (i3 ∷ i2 ∷ i1 ∷ []) tree.root e4 small in
    let r3 = enter r4.0 i3 r4.1 in
    let (role3, e3) =
      enter-Entered r4.1 role4 r4.0 (i4 ∷ []) i3 i2 (i1 ∷ []) e4.provided.tree e4.link.child_at
        (omega arith) small3 (omega (arith, e4.provided.fewer)) in
    let small2 = Entered-IsSmall (i2 ∷ i1 ∷ []) e4.link.child_at e3 small3 in
    let r2 = enter r3.0 i2 r3.1 in
    let (role2, e2) =
      enter-Entered r3.1 role3 r3.0 (i3 ∷ i4 ∷ []) i2 i1 [] e3.provided.tree e3.link.child_at
        (omega arith) small2 (omega (arith, e4.provided.fewer, e3.provided.fewer)) in
    let g4 = e4.provided in
    let g3 = e3.provided in
    let g2 = e2.provided in
    let root = g2.same_root ∙ g3.same_root ∙ g4.same_root in
    let l4 = Link-Provided (Link-Provided e4.link g3) g2 in
    (
      role2,
      finish physical virtual flags s r2.1 role2 frame g2.tree r4.0 r3.0 r2.0
          (subst (λ t. Link r2.1 role2 t [] i4 r4.0) (sym root) l4) (Link-Provided e3.link g2)
          e2.link root (g2.same_disable ∙ g3.same_disable ∙ g4.same_disable)
          (λ v.
            ap (λ t. walk r2.1.tables 0 t (indices v)) root
            ∙ g2.same_walk s.pml4 [] (indices v) (g3.keeps s.pml4 [] (g4.keeps s.pml4 [] tree.root))
            ∙ g3.same_walk s.pml4 [] (indices v) (g4.keeps s.pml4 [] tree.root)
            ∙ g4.same_walk s.pml4 [] (indices v) tree.root)
          (omega (arith, g2.fewer, g3.fewer, g4.fewer))
          (λ f h. g2.still_used f (g3.still_used f (g4.still_used f h))),
    )
