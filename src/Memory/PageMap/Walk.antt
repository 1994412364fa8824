-- ===== src/Memory/PageMap/Walk.antt =====
-- What the processor finds in the tables of memory/paging_map.c: the mapping of each virtual
-- address. It reads 48 bits of an address, and bit 7 of an entry in the second and third table only.
use Prim.Native.Nat.{bit_and}
use helos.Prelude.{
  ℕ, suc, ◌+◌, ◌*◌, ◌%◌, ◌^◌, ◌≤◌, ◌≡◌, Bool, true, false, not, ◌&&◌, ◌||◌, Option, none, some,
  List, [], ◌∷◌, ◌==◌, if◌then◌else◌, length,
}
use helos.Memory.Physical.{page_size, page_2m_size}
use helos.Memory.Physical.Bitmap.{used}
use helos.Memory.PageMap.{
  Paging, has, index1, index2, index3, index4, page_1g_size, pml_addr_mask, pml_addr_mask_1g,
  pml_addr_mask_2m, pml_present, pml_writeable, pml_page_size, pml_execute_disable,
}

abbrev pub indices : ℕ → List ℕ
indices v = index4 v ∷ index3 v ∷ index2 v ∷ index1 v ∷ []

-- Whether an entry of a table at this depth stands for a page.
unfoldable pub leaf : ℕ → ℕ → Bool
leaf depth e = (depth == 3) || not (depth == 0) && has e pml_page_size

-- The entry of the page, and the indices that lie within it.
unfoldable pub walk : (ℕ → ℕ → ℕ) → ℕ → ℕ → List ℕ → Option (ℕ × List ℕ)
walk tables depth t [] = none
walk tables depth t (i ∷ is) =
    let e = tables t i in
    let rest = walk tables (suc depth) (bit_and e pml_addr_mask) is in
    if has e pml_present then (if leaf depth e then some (e, is) else rest) else none

-- The physical address, and what may be done there besides reading.
pub record Access : Type 0 where
  pub address : ℕ
  pub writable : Bool
  pub executable : Bool

abbrev pub page_address : ℕ → ℕ → List ℕ → ℕ
page_address v e [] = bit_and e pml_addr_mask + v % page_size
page_address v e (i ∷ []) = bit_and e pml_addr_mask_2m + v % page_2m_size
page_address v e (i ∷ j ∷ is) = bit_and e pml_addr_mask_1g + v % page_1g_size

-- Whether the entries on the way all pass a test: a right must be given at each level.
unfoldable pub allows : (ℕ → Bool) → (ℕ → ℕ → ℕ) → ℕ → ℕ → List ℕ → Bool
allows test tables depth t [] = true
allows test tables depth t (i ∷ is) =
    let e = tables t i in
    let rest = allows test tables (suc depth) (bit_and e pml_addr_mask) is in
    test e && (if leaf depth e then true else rest)

abbrev pub lets_write : ℕ → Bool
lets_write e = has e pml_writeable

abbrev pub lets_execute : Bool → ℕ → Bool
lets_execute xd e = not (xd && has e pml_execute_disable)

abbrev pub access : ℕ → Bool → Bool → Option (ℕ × List ℕ) → Option Access
access v writable executable none = none
access v writable executable (some (e, is)) =
    some (record { address = page_address v e is; writable = writable; executable = executable })

unfoldable pub find_page : Paging → ℕ → Option (ℕ × List ℕ)
find_page s v = walk s.tables 0 s.pml4 (indices v)

-- What the processor makes of an address: the place in the page, and the rights that every entry on
-- the way gives.
unfoldable pub translate : Paging → ℕ → Option Access
translate s v =
    access v (allows lets_write s.tables 0 s.pml4 (indices v))
      (allows (lets_execute s.execute_disable) s.tables 0 s.pml4 (indices v)) (find_page s v)

-- No page larger than 4 KiB is found.
abbrev pub IsSmall : Option (ℕ × List ℕ) → Type 0
IsSmall none = Unit {0}
IsSmall (some (e, [])) = Unit {0}
IsSmall (some (e, i ∷ is)) = ⊥

-- The tables form a tree: `role` gives each table the indices on the way to it, the last one first.
-- An entry for a table takes no right away. A frame that the allocator may give out is no table.
pub record IsTree (s : Paging) (role : ℕ → Option (List ℕ)) : Type 0 where
  pub root : role s.pml4 ≡ some []
  pub aligned : (t : ℕ) (p : List ℕ) → role t ≡ some p → t % 4096 ≡ 0
  pub points :
      (t : ℕ) (p : List ℕ) (i : ℕ)
      → role t ≡ some p
      → has (s.tables t i) pml_present ≡ true
      → leaf (length p) (s.tables t i) ≡ false
      → role (bit_and (s.tables t i) pml_addr_mask) ≡ some (i ∷ p)
  pub opens :
      (t : ℕ) (p : List ℕ) (i : ℕ)
      → role t ≡ some p
      → has (s.tables t i) pml_present ≡ true
      → leaf (length p) (s.tables t i) ≡ false
      → (has (s.tables t i) pml_writeable ≡ true) × (has (s.tables t i) pml_execute_disable ≡ false)
  pub in_use : (page : ℕ) → used s.frames.bitmap page ≡ false → role (page * page_size) ≡ none
  pub covers : s.frames.end_page ≤ 64 * length s.frames.bitmap
  pub fits : s.frames.end_page ≤ 2 ^ 40
