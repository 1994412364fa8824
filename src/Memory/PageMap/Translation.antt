-- ===== src/Memory/PageMap/Translation.antt =====
-- `paging_map_Page` of memory/paging_map.c as a whole: what it does to the translation of addresses.
use helos.Prelude.{
  ℕ, zero, suc, ◌+◌, ◌-◌, ◌*◌, ◌%◌, ◌^◌, ◌≤◌, ◌<◌, ◌≡◌, ◌⊎◌, refl, ◌∙◌, inl, inr, Bool, true, ◌&&◌,
  not, ◌||◌, some, [], ◌==◌, if◌then◌else◌, leb, ltb, arith, Bool-cases, add64,
}
use helos.Memory.Physical.{page_size}
use helos.Memory.Physical.Count.{unused}
use helos.Memory.PageMap.{Paging, has, map_one, map_pages, map_page, page_entry}
use helos.Memory.PageMap.Entry.{
  page_entry-writeable, page_entry-execute_disable, page_entry-address,
}
use helos.Memory.PageMap.Walk.{Access, IsTree, IsSmall, find_page, translate}
use helos.Memory.PageMap.Rights.{translate-last}
use helos.Memory.PageMap.Grow.{Role}
use helos.Memory.PageMap.MapOne.{Mapped, map_one-Mapped, page}

-- Whether the address lies in one of the `n` pages from `virtual` on.
abbrev pub in_pages : ℕ → ℕ → ℕ → Bool
in_pages n virtual v = leb (page virtual) (page v) && ltb (page v) (page virtual + n)

-- The pages after the first, in terms of the numbers of pages.
module _ (n virtual : ℕ) (below : page virtual + suc n ≤ 2 ^ 36) where
  next_page : (n ≡ 0) ⊎ (page (add64 virtual page_size) ≡ page virtual + 1)
  next_page = elim (Bool-cases (n == 0)) [
    | inl last ↦ inl (ground arith)
    | inr more ↦ let some_left : 1 ≤ n = ground arith in inr (omega (arith, some_left, below))
  ]

  abbrev later : ℕ → Bool
  later v = in_pages n (add64 virtual page_size) v

  split-pages : (v : ℕ) → in_pages (suc n) virtual v ≡ (later v || in_pages 1 virtual v)
  split-pages v = elim next_page [ inl last ↦ rw last (ground arith) | inr e ↦ rw e (ground arith) ]

  later-frame :
      (physical v : ℕ)
      → later v ≡ true
      → physical + 4096 + (page v - page (add64 virtual page_size)) * 4096
        ≡ physical + (page v - page virtual) * 4096
  later-frame physical v h = elim next_page [
    | inl last ↦ absurd (ground arith)
    | inr e ↦ let past : page virtual + 1 ≤ page v = ground (arith, e) in omega (arith, e, past)
  ]

module _ (n physical virtual flags : ℕ) {s s1 s2 : Paging} {role1 role2 : Role}
    (first : Mapped 1 physical virtual flags s s1 role1)
    (rest : Mapped n (add64 physical page_size) (add64 virtual page_size) flags s1 s2 role2)
    (fits : physical + suc n * 4096 ≤ 2 ^ 52) (below : page virtual + suc n ≤ 2 ^ 36) where
  next_frame : add64 physical page_size ≡ physical + 4096
  next_frame = omega (arith, fits)

  more-finds :
      (v : ℕ)
      → find_page s2 v ≡ (
          if in_pages (suc n) virtual v
          then some
              (page_entry s.execute_disable (physical + (page v - page virtual) * 4096) flags, [])
          else find_page s v)
  more-finds v = elim (Bool-cases (later n virtual below v)) [
    | inl yes' ↦
        rest.finds v
        ∙ rw
            (
              split-pages n virtual below v,
              yes',
              next_frame,
              later-frame n virtual below physical v yes',
              first.same_disable,
            )
            refl
    | inr no' ↦ rest.finds v ∙ rw (split-pages n virtual below v, no') (first.finds v)
  ]

  more-Mapped : Mapped (suc n) physical virtual flags s s2 role2
  more-Mapped = record {
    tree = rest.tree;
    same_root = rest.same_root ∙ first.same_root;
    same_disable = rest.same_disable ∙ first.same_disable;
    fewer = omega (arith, first.fewer, rest.fewer);
    still_used = λ f h. rest.still_used f (first.still_used f h);
    finds = more-finds;
  }

IsSmall-after :
    (n virtual : ℕ) (below : page virtual + suc n ≤ 2 ^ 36) {physical flags : ℕ} {s s1 : Paging}
    {role1 : Role}
    → Mapped 1 physical virtual flags s s1 role1
    → (v : ℕ) → in_pages n (add64 virtual page_size) v ≡ true
    → ((w : ℕ) → in_pages (suc n) virtual w ≡ true → IsSmall (find_page s w))
    → IsSmall (find_page s1 v)
IsSmall-after n virtual below first v h small = elim (Bool-cases (in_pages 1 virtual v)) [
  | inl here ↦ rw (first.finds v, here) tt
  | inr out ↦ rw (first.finds v, out) (small v (rw (split-pages n virtual below v, h) refl))
]

pub map_pages-Mapped :
    (n physical virtual flags : ℕ) (s : Paging) (role : Role)
    → IsTree s role
    → physical % 4096 ≡ 0
    → physical + n * 4096 ≤ 2 ^ 52
    → page virtual + n ≤ 2 ^ 36
    → ((v : ℕ) → in_pages n virtual v ≡ true → IsSmall (find_page s v))
    → 3 * n ≤ unused s.frames
    → (role' : Role) × Mapped n physical virtual flags s
        (map_pages n physical virtual flags s)
        role'
unfolding map_pages
map_pages-Mapped zero physical virtual flags s role tree aligned fits below small enough = (
  role,
  record {
    tree = tree;
    same_root = refl;
    same_disable = refl;
    fewer = omega arith;
    still_used = λ f h. h;
    finds = λ v. ground arith;
  },
)
map_pages-Mapped (suc n) physical virtual flags s role tree aligned fits below small enough =
    let (role1, first) =
      map_one-Mapped physical virtual flags s role tree (aligned, omega arith)
        (small virtual (ground arith)) (omega arith) in
    let (role2, rest) =
      map_pages-Mapped n (add64 physical page_size) (add64 virtual page_size) flags
        (map_one physical virtual flags s) role1 first.tree (omega arith) (omega arith)
        (omega arith) (λ v h. IsSmall-after n virtual below first v h small)
        (omega (arith, first.fewer)) in
    (role2, more-Mapped n physical virtual flags first rest fits below)

-- What an address within the pages comes to.
abbrev pub mapped_to : Bool → ℕ → ℕ → ℕ → ℕ → Access
mapped_to execute_disable physical virtual flags v = record {
  address = physical + (page v - page virtual) * 4096 + v % 4096;
  writable = has flags 2;
  executable = not execute_disable || has flags 1;
}

module _ (n physical virtual flags : ℕ) {s s' : Paging} {role' : Role}
    (m : Mapped n physical virtual flags s s' role') (role : Role) (tree : IsTree s role)
    (aligned : physical % 4096 ≡ 0) (fits : physical + n * 4096 ≤ 2 ^ 52) where
  translate-mapped :
      (v : ℕ)
      → translate s' v ≡ (
          if in_pages n virtual v
          then some (mapped_to s.execute_disable physical virtual flags v)
          else translate s v)
  translate-mapped v =
      rw (translate-last s' role' m.tree v, translate-last s role tree v)
        (elim (Bool-cases (in_pages n virtual v)) [
          | inr out ↦ rw (m.finds v, m.same_disable, out) refl
          | inl inside ↦
              let xd = s.execute_disable in
              let a = physical + (page v - page virtual) * 4096 in
              let within : (page virtual ≤ page v) × (page v < page virtual + n) =
                ground (arith, inside) in
              let frame : (a % 4096 ≡ 0) × (a < 2 ^ 52) = omega (arith, aligned, fits, within) in
              rw
                (
                  m.finds v,
                  m.same_disable,
                  inside,
                  page_entry-address xd a flags frame,
                  page_entry-writeable xd a flags frame,
                  page_entry-execute_disable xd a flags frame,
                )
                (ground arith)
        ])

-- `paging_map_Page` at aligned addresses, while no large page is mapped there and three frames are
-- left for each page, the tables being a tree whose entries for tables take no right away: it
-- succeeds, and the tables stay such a tree with the same root. Every address in the `n` pages from
-- `virtual` on then has its place in the frames from `physical` on, and by the rights of all four
-- levels is writable exactly with MAP_PROT_WRITE, and executable exactly with MAP_PROT_EXEC or where
-- execution cannot be disabled; every other address is translated as before.
pub map_page-translate :
    (n physical virtual flags : ℕ) (s : Paging) (role : Role)
    → IsTree s role
    → physical % 4096 ≡ 0
    → virtual % 4096 ≡ 0
    → physical + n * 4096 ≤ 2 ^ 52
    → page virtual + n ≤ 2 ^ 36
    → ((v : ℕ) → in_pages n virtual v ≡ true → IsSmall (find_page s v))
    → 3 * n ≤ unused s.frames
    → (s' : Paging) × (map_page physical virtual n flags s ≡ some s')
      × ((role' : Role) × IsTree s' role')
      × (s'.pml4 ≡ s.pml4)
      × ((v : ℕ)
          → translate s' v ≡ (
              if in_pages n virtual v
              then some (mapped_to s.execute_disable physical virtual flags v)
              else translate s v))
unfolding map_page
map_page-translate n physical virtual flags s role tree aligned aligned' fits below small enough =
    let (role', m) =
      map_pages-Mapped n physical virtual flags s role tree aligned fits below small enough in
    let start : (physical % page_size == 0) && (virtual % page_size == 0) ≡ true = ground arith in
    (
      map_pages n physical virtual flags s,
      rw start refl,
      (role', m.tree),
      m.same_root,
      translate-mapped n physical virtual flags m role tree aligned fits,
    )
