-- ===== src/Memory/PageMap/Allocated/Whole.antt =====
-- `paging_map_PageAllocated` of memory/paging_map.c as a whole.
use helos.Prelude.{
  subst, zero, ◌%◌, suc, min, length-append, length, Option, ℕ, ◌+◌, ◌-◌, ◌*◌, ◌^◌, ◌≤◌, ◌<◌, ◌≡◌,
  refl, sym, ap, ◌∙◌, inl, inr, true, false, ◌||◌, some, List, [], ◌∷◌, ◌++◌, arith, ◌==◌,
  Bool-cases, true≢false,
}
use helos.Memory.Physical.{page_size}
use helos.Memory.Physical.Bitmap.{used}
use helos.Memory.Physical.Allocate.{AllFresh, given}
use helos.Memory.Physical.Count.{unused}
use helos.Memory.PageMap.{Paging, take_frames}
use helos.Memory.PageMap.Walk.{IsTree, IsSmall}
use helos.Memory.PageMap.Grow.{Role}
use helos.Memory.PageMap.MapOne.{page}
use helos.Memory.PageMap.Allocated.{allocated_loop, buf_size}
use helos.Memory.PageMap.Allocated.Backed.{Reserved, take_frames-Reserved}
use helos.Memory.PageMap.Allocated.Pages.{Backed, Backed-append}
use helos.Memory.PageMap.Allocated.Loop.{
  AllSmall, AllSmall-after, Comes-Follows, Laid, map_frames-Laid,
}

-- Frames that were not in use, no two the same.
abbrev pub AllNew : Paging → List ℕ → Type 0
AllNew s [] = Unit {0}
AllNew s (a ∷ as') =
    ((number : ℕ) × (a ≡ number * page_size)
      × (number < 2 ^ 40)
      × (used s.frames.bitmap number ≡ false)
      × (given as' number ≡ false))
    × AllNew s as'

AllFresh-AllNew :
    (frames : List ℕ) (s : Paging)
    → s.frames.end_page ≤ 2 ^ 40
    → AllFresh s.frames frames
    → AllNew s frames
AllFresh-AllNew [] s fits fresh = tt
AllFresh-AllNew (a ∷ as') s fits fresh =
    let (number, at, free, above, below, other) = fresh.0 in
    ((number, at, omega arith, free, other), AllFresh-AllNew as' s fits fresh.1)

given-append :
    (xs ys : List ℕ) (number : ℕ) → given (xs ++ ys) number ≡ (given xs number || given ys number)
given-append [] ys number = refl
given-append (x ∷ xs) ys number = ground (arith, given-append xs ys number)

new-given :
    (ys : List ℕ) (s : Paging) (number : ℕ)
    → AllNew s ys
    → used s.frames.bitmap number ≡ true
    → given ys number ≡ false
new-given [] s number new h = refl
new-given (y ∷ ys) s number new h =
    let (other, at, small, free, rest) = new.0 in
    elim (Bool-cases (y == number * page_size)) [
      | inr apart ↦ rw apart (new-given ys s number new.1 h)
      | inl same ↦
          let equal : other ≡ number = ground (arith, at) in
          absurd (true≢false (sym h ∙ ap (used s.frames.bitmap) (sym equal) ∙ free))
    ]

-- Frames that are new later were new before.
AllNew-before :
    (ys : List ℕ) (s s' : Paging)
    → AllNew s' ys
    → ((f : ℕ) → used s.frames.bitmap f ≡ true → used s'.frames.bitmap f ≡ true)
    → AllNew s ys
AllNew-before [] s s' new kept = tt
AllNew-before (y ∷ ys) s s' new kept =
    let (number, at, small, free, other) = new.0 in
    (
      (number, at, small, ground (arith, kept number, free), other),
      AllNew-before ys s s' new.1 kept,
    )

AllNew-append :
    (xs ys : List ℕ) (s s' : Paging)
    → AllNew s xs
    → AllNew s' ys
    → ((f : ℕ) → used s.frames.bitmap f ≡ true → used s'.frames.bitmap f ≡ true)
    → ((f : ℕ) → given xs f ≡ true → used s'.frames.bitmap f ≡ true)
    → AllNew s (xs ++ ys)
AllNew-append [] ys s s' new new' kept held = AllNew-before ys s s' new' kept
AllNew-append (x ∷ xs) ys s s' new new' kept held =
    let (number, at, small, free, other) = new.0 in
    let in_use : used s'.frames.bitmap number ≡ true = held number (ground (arith, at)) in
    (
      (
        number,
        at,
        small,
        free,
        ground (arith, given-append xs ys number, other, new-given ys s' number new' in_use),
      ),
      AllNew-append xs ys s s' new.1 new' kept (λ f h. held f (ground (arith, h))),
    )

-- Pages allocated: the frames behind them, and the tables.
pub record Filled (n virtual flags : ℕ) (s : Paging) (result : Option Paging) : Type 0 where
  pub frames : List ℕ
  pub s' : Paging
  pub role' : Role
  pub done : result ≡ some s'
  pub as_many : length frames ≡ n
  pub new : AllNew s frames
  pub held : (f : ℕ) → given frames f ≡ true → used s'.frames.bitmap f ≡ true
  pub backed : Backed 4 frames virtual flags s s' role'

-- One round of the loop, for the frames `r.0`.
module _ (n virtual flags : ℕ) (s : Paging) (role : Role) (tree : IsTree s role)
    (reserved : Reserved n s role (take_frames n s).0 (take_frames n s).1)
    (laid : Laid (take_frames n s).0 virtual flags (take_frames n s).1) where
  abbrev frames : List ℕ
  frames = (take_frames n s).0

  round-Backed : Backed 4 frames virtual flags s laid.s' laid.role'
  round-Backed =
      let b = laid.backed in
      record {
        tree = b.tree;
        same_root = b.same_root ∙ reserved.same_root;
        same_disable = b.same_disable ∙ reserved.same_disable;
        fewer = omega (arith, b.fewer, reserved.fewer, reserved.as_many);
        still_used = λ f h. b.still_used f (ground (arith, reserved.taken f, h));
        finds = λ v. b.finds v ∙ rw (reserved.same_page v, reserved.same_disable) refl;
      }

  round-held : (f : ℕ) → given frames f ≡ true → used laid.s'.frames.bitmap f ≡ true
  round-held f h = laid.backed.still_used f (ground (arith, reserved.taken f, h))

  round-new : AllNew s frames
  round-new = AllFresh-AllNew frames s tree.fits reserved.fresh

  round-Filled :
      (m : ℕ) {result : Option Paging}
      → page virtual + (n + m) ≤ 2 ^ 36
      → Filled m laid.virtual' flags laid.s' result
      → Filled (n + m) virtual flags s result
  round-Filled m below rest =
      let more =
        Comes-Follows (length frames) (length rest.frames) virtual laid.virtual' laid.comes
          (omega (arith, below, reserved.as_many, rest.as_many)) in
      record {
        frames = frames ++ rest.frames;
        s' = rest.s';
        role' = rest.role';
        done = rest.done;
        as_many = omega (arith, length-append frames rest.frames, reserved.as_many, rest.as_many);
        new =
            AllNew-append frames rest.frames s laid.s' round-new rest.new round-Backed.still_used
              round-held;
        held = λ f h. elim (Bool-cases (given frames f)) [
          | inl early ↦ rest.backed.still_used f (round-held f early)
          | inr late ↦ rest.held f (ground (arith, given-append frames rest.frames f, late, h))
        ];
        backed =
            Backed-append 4 frames rest.frames virtual laid.virtual' flags round-Backed rest.backed
              more;
      }

none-Filled :
    (n virtual flags : ℕ) (s : Paging) (role : Role)
    → IsTree s role
    → n ≡ 0
    → Filled n virtual flags s (some s)
none-Filled n virtual flags s role tree h = record {
  frames = [];
  s' = s;
  role' = role;
  done = refl;
  as_many = sym h;
  new = tt;
  held = λ f k. absurd (true≢false (sym k));
  backed = record {
    tree = tree;
    same_root = refl;
    same_disable = refl;
    fewer = omega arith;
    still_used = λ f k. k;
    finds = λ v. ground arith;
  };
}

module _ (rounds n virtual flags : ℕ) (s : Paging) where
  abbrev batch : ℕ
  batch = min n buf_size

  loop-step :
      (n == 0) ≡ false
      → (laid : Laid (take_frames batch s).0 virtual flags (take_frames batch s).1)
      → allocated_loop (suc rounds) virtual n flags s
        ≡ allocated_loop rounds laid.virtual' (n - length (take_frames batch s).0) flags laid.s'
  unfolding allocated_loop
  loop-step more laid = rw (more, laid.runs, allocated_loop) refl

module _ (rounds n virtual flags : ℕ) (s : Paging) (role : Role) (tree : IsTree s role)
    (more : (n == 0) ≡ false) (below : page virtual + n ≤ 2 ^ 36)
    (reserved : Reserved
      (min n buf_size)
      s
      role
      (take_frames (min n buf_size) s).0
      (take_frames (min n buf_size) s).1)
    (laid : Laid
      (take_frames (min n buf_size) s).0
      virtual
      flags
      (take_frames (min n buf_size) s).1) where
  abbrev left : ℕ
  left = n - length (take_frames (min n buf_size) s).0

  parts : min n buf_size + left ≡ n
  parts = omega (arith, reserved.as_many)

  loop-round :
      Filled left laid.virtual' flags laid.s'
        (allocated_loop rounds laid.virtual' left flags laid.s')
      → Filled n virtual flags s (allocated_loop (suc rounds) virtual n flags s)
  loop-round rest = rw (loop-step rounds n virtual flags s more laid) (
      subst (λ k. Filled k virtual flags s (allocated_loop rounds laid.virtual' left flags laid.s'))
        parts
        (round-Filled (min n buf_size) virtual flags s role tree reserved laid left
          (omega (arith, parts, below)) rest))

  left-small : AllSmall n virtual s → AllSmall left laid.virtual' laid.s'
  left-small small =
      let frames = (take_frames (min n buf_size) s).0 in
      AllSmall-after 4 frames left virtual laid.virtual' flags
        (round-Backed (min n buf_size) virtual flags s role tree reserved laid)
        (Comes-Follows (length frames) left virtual laid.virtual' laid.comes
          (omega (arith, reserved.as_many, below)))
        (λ v h. small v (ground (arith, reserved.as_many, h)))

  left-le : n ≤ suc rounds → left ≤ rounds
  left-le h = let some_left : 1 ≤ n = ground arith in omega (arith, reserved.as_many, some_left, h)

  left-below : page laid.virtual' + left ≤ 2 ^ 36
  left-below = omega (arith, laid.comes, reserved.as_many, below)

  left-enough : 4 * n ≤ unused s.frames → 4 * left ≤ unused laid.s'.frames
  left-enough h =
      let b = round-Backed (min n buf_size) virtual flags s role tree reserved laid in
      omega (arith, b.fewer, reserved.as_many, h)

pub loop-Filled :
    (rounds n virtual flags : ℕ) (s : Paging) (role : Role)
    → n ≤ rounds
    → IsTree s role
    → virtual % 4096 ≡ 0
    → page virtual + n ≤ 2 ^ 36
    → AllSmall n virtual s
    → 4 * n ≤ unused s.frames
    → Filled n virtual flags s (allocated_loop rounds virtual n flags s)
unfolding allocated_loop
loop-Filled zero n virtual flags s role h tree aligned below small enough =
    let none_left : n ≡ 0 = omega arith in
    let test : (n == 0) ≡ true = ground arith in
    rw test (none-Filled n virtual flags s role tree none_left)
loop-Filled (suc rounds) n virtual flags s role h tree aligned below small enough =
    elim (Bool-cases (n == 0)) [
      | inl test ↦ rw test (none-Filled n virtual flags s role tree (ground arith))
      | inr more ↦
          let m = min n buf_size in
          let reserved = take_frames-Reserved m s role tree (omega (arith, enough)) in
          let laid =
            map_frames-Laid (take_frames m s).0 virtual flags (take_frames m s).1 role role
              reserved.tree reserved.unclaimed aligned (omega (arith, reserved.as_many, below))
              (λ v k.
                subst IsSmall (sym (reserved.same_page v))
                  (small v (ground (arith, reserved.as_many, k))))
              (omega (arith, reserved.as_many, reserved.fewer, enough)) in
          loop-round rounds n virtual flags s role tree more below reserved laid (
            loop-Filled rounds (n - length (take_frames m s).0) laid.virtual' flags laid.s'
              laid.role' (left-le rounds n virtual flags s role tree more below reserved laid h)
              laid.backed.tree laid.comes.0
              (left-below rounds n virtual flags s role tree more below reserved laid)
              (left-small rounds n virtual flags s role tree more below reserved laid small)
              (left-enough rounds n virtual flags s role tree more below reserved laid enough))
    ]
