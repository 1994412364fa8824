-- ===== src/Util/Tree/Sorted.antt =====
-- Association lists with ascending keys: the map that util/tree.h promises.
use helos.Prelude.{
  ℕ, ◌<◌, ◌≡◌, refl, Option, none, some, List, [], ◌∷◌, ◌++◌, arith, ltb, ◌==◌, if◌then◌else◌,
}

module _ {ℓ} {V : Type ℓ} where
  abbrev pub AllBelow : ℕ → List (ℕ × V) → Type 0
  AllBelow k [] = Unit
  AllBelow k (e ∷ es) = (e.0 < k) × AllBelow k es

  abbrev pub AllAbove : ℕ → List (ℕ × V) → Type 0
  AllAbove k [] = Unit
  AllAbove k (e ∷ es) = (k < e.0) × AllAbove k es

  abbrev pub IsSorted : List (ℕ × V) → Type 0
  IsSorted [] = Unit
  IsSorted (e ∷ es) = AllAbove e.0 es × IsSorted es

  unfoldable pub lookup_entry : ℕ → List (ℕ × V) → Option V
  lookup_entry key [] = none
  lookup_entry key ((k, v) ∷ es) = if key == k then some v else lookup_entry key es

  -- A key that is there keeps its object.
  unfoldable pub insert_entry : ℕ → V → List (ℕ × V) → List (ℕ × V)
  insert_entry key fresh [] = (key, fresh) ∷ []
  insert_entry key fresh ((k, v) ∷ es) =
      if ltb key k
      then (key, fresh) ∷ (k, v) ∷ es
      else if key == k
      then (k, v) ∷ es
      else (k, v) ∷ insert_entry key fresh es

  unfoldable pub remove_entry : ℕ → List (ℕ × V) → List (ℕ × V)
  remove_entry key [] = []
  remove_entry key ((k, v) ∷ es) = if key == k then es else (k, v) ∷ remove_entry key es

  pub AllBelow-append :
      (k : ℕ) (xs ys : List (ℕ × V)) → AllBelow k xs → AllBelow k ys → AllBelow k (xs ++ ys)
  AllBelow-append k [] ys h g = g
  AllBelow-append k (x ∷ xs) ys h g = (h.0, AllBelow-append k xs ys h.1 g)

  pub AllAbove-append :
      (k : ℕ) (xs ys : List (ℕ × V)) → AllAbove k xs → AllAbove k ys → AllAbove k (xs ++ ys)
  AllAbove-append k [] ys h g = g
  AllAbove-append k (x ∷ xs) ys h g = (h.0, AllAbove-append k xs ys h.1 g)

  pub AllBelow-mono : (j k : ℕ) (xs : List (ℕ × V)) → j < k → AllBelow j xs → AllBelow k xs
  AllBelow-mono j k [] h b = tt
  AllBelow-mono j k (x ∷ xs) h b = (omega arith, AllBelow-mono j k xs h b.1)

  pub AllAbove-mono : (j k : ℕ) (xs : List (ℕ × V)) → j < k → AllAbove k xs → AllAbove j xs
  AllAbove-mono j k [] h b = tt
  AllAbove-mono j k (x ∷ xs) h b = (omega arith, AllAbove-mono j k xs h b.1)

  AllAbove-right : (k : ℕ) (xs ys : List (ℕ × V)) → AllAbove k (xs ++ ys) → AllAbove k ys
  AllAbove-right k [] ys h = h
  AllAbove-right k (x ∷ xs) ys h = AllAbove-right k xs ys h.1

  AllAbove-left : (k : ℕ) (xs ys : List (ℕ × V)) → AllAbove k (xs ++ ys) → AllAbove k xs
  AllAbove-left k [] ys h = tt
  AllAbove-left k (x ∷ xs) ys h = (h.0, AllAbove-left k xs ys h.1)

  -- A sorted list falls apart at any of its entries.
  pub record Splits (k : ℕ) (xs ys : List (ℕ × V)) : Type ℓ where
    pub low : AllBelow k xs
    pub high : AllAbove k ys
    pub sorted_low : IsSorted xs
    pub sorted_high : IsSorted ys

  pub IsSorted-split :
      (xs : List (ℕ × V)) (k : ℕ) (v : V) (ys : List (ℕ × V))
      → IsSorted (xs ++ ((k, v) ∷ ys))
      → Splits k xs ys
  IsSorted-split [] k v ys s = record { low = tt; high = s.0; sorted_low = tt; sorted_high = s.1 }
  IsSorted-split (x ∷ xs) k v ys s =
      let rest = IsSorted-split xs k v ys s.1 in
      record {
        low = ((AllAbove-right x.0 xs ((k, v) ∷ ys) s.0).0, rest.low);
        high = rest.high;
        sorted_low = (AllAbove-left x.0 xs ((k, v) ∷ ys) s.0, rest.sorted_low);
        sorted_high = rest.sorted_high;
      }

  pub IsSorted-join :
      (xs : List (ℕ × V)) (k : ℕ) (v : V) (ys : List (ℕ × V))
      → Splits k xs ys
      → IsSorted (xs ++ ((k, v) ∷ ys))
  IsSorted-join [] k v ys s = (s.high, s.sorted_high)
  IsSorted-join (x ∷ xs) k v ys s = (
    AllAbove-append x.0 xs ((k, v) ∷ ys) s.sorted_low.0
        (s.low.0, AllAbove-mono x.0 k ys s.low.0 s.high),
    IsSorted-join xs k v ys (record {
      low = s.low.1;
      high = s.high;
      sorted_low = s.sorted_low.1;
      sorted_high = s.sorted_high;
    }),
  )

  AllAbove-insert_entry :
      (j key : ℕ) (fresh : V) (es : List (ℕ × V))
      → j < key
      → AllAbove j es
      → AllAbove j (insert_entry key fresh es)
  unfolding insert_entry
  AllAbove-insert_entry j key fresh [] h a = (h, tt)
  AllAbove-insert_entry j key fresh ((k, v) ∷ es) h a =
      ground (arith, AllAbove-insert_entry j key fresh es h a.1)

  pub insert_entry-IsSorted :
      (key : ℕ) (fresh : V) (es : List (ℕ × V)) → IsSorted es → IsSorted (insert_entry key fresh es)
  unfolding insert_entry
  insert_entry-IsSorted key fresh [] s = (tt, tt)
  insert_entry-IsSorted key fresh ((k, v) ∷ es) s = ground (
    arith,
    insert_entry-IsSorted key fresh es s.1,
    AllAbove-insert_entry k key fresh es,
    AllAbove-mono key k es,
  )

  -- With the keys on either side known, the operations act at the split.
  pub insert_entry-new :
      (key : ℕ) (fresh : V) (xs ys : List (ℕ × V))
      → AllBelow key xs
      → AllAbove key ys
      → insert_entry key fresh (xs ++ ys) ≡ xs ++ ((key, fresh) ∷ ys)
  unfolding insert_entry
  insert_entry-new key fresh [] [] b a = refl
  insert_entry-new key fresh [] (y ∷ ys) b a = ground arith
  insert_entry-new key fresh (x ∷ xs) ys b a =
      ground (arith, insert_entry-new key fresh xs ys b.1 a)

  pub insert_entry-old :
      (key : ℕ) (fresh v : V) (xs ys : List (ℕ × V))
      → AllBelow key xs
      → insert_entry key fresh (xs ++ ((key, v) ∷ ys)) ≡ xs ++ ((key, v) ∷ ys)
  unfolding insert_entry
  insert_entry-old key fresh v [] ys b = ground arith
  insert_entry-old key fresh v (x ∷ xs) ys b =
      ground (arith, insert_entry-old key fresh v xs ys b.1)

  lookup_entry-above : (key : ℕ) (ys : List (ℕ × V)) → AllAbove key ys → lookup_entry key ys ≡ none
  unfolding lookup_entry
  lookup_entry-above key [] a = refl
  lookup_entry-above key (y ∷ ys) a = ground (arith, lookup_entry-above key ys a.1)

  pub lookup_entry-absent :
      (key : ℕ) (xs ys : List (ℕ × V))
      → AllBelow key xs
      → AllAbove key ys
      → lookup_entry key (xs ++ ys) ≡ none
  unfolding lookup_entry
  lookup_entry-absent key [] ys b a = lookup_entry-above key ys a
  lookup_entry-absent key (x ∷ xs) ys b a = ground (arith, lookup_entry-absent key xs ys b.1 a)

  pub lookup_entry-present :
      (key : ℕ) (v : V) (xs ys : List (ℕ × V))
      → AllBelow key xs
      → lookup_entry key (xs ++ ((key, v) ∷ ys)) ≡ some v
  unfolding lookup_entry
  lookup_entry-present key v [] ys b = ground arith
  lookup_entry-present key v (x ∷ xs) ys b = ground (arith, lookup_entry-present key v xs ys b.1)

  pub remove_entry-present :
      (key : ℕ) (v : V) (xs ys : List (ℕ × V))
      → AllBelow key xs
      → remove_entry key (xs ++ ((key, v) ∷ ys)) ≡ xs ++ ys
  unfolding remove_entry
  remove_entry-present key v [] ys b = ground arith
  remove_entry-present key v (x ∷ xs) ys b = ground (arith, remove_entry-present key v xs ys b.1)

  pub IsSorted-append : (k : ℕ) (xs ys : List (ℕ × V)) → Splits k xs ys → IsSorted (xs ++ ys)
  IsSorted-append k [] ys s = s.sorted_high
  IsSorted-append k (x ∷ xs) ys s = (
    AllAbove-append x.0 xs ys s.sorted_low.0 (AllAbove-mono x.0 k ys s.low.0 s.high),
    IsSorted-append k xs ys (record {
      low = s.low.1;
      high = s.high;
      sorted_low = s.sorted_low.1;
      sorted_high = s.sorted_high;
    }),
  )

  pub remove_entry-missing :
      (key : ℕ) (es : List (ℕ × V)) → lookup_entry key es ≡ none → remove_entry key es ≡ es
  unfolding lookup_entry remove_entry
  remove_entry-missing key [] h = refl
  remove_entry-missing key ((k, v) ∷ es) h = ground (arith, remove_entry-missing key es)
