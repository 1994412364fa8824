-- ===== src/Util/Vector/Growth.antt =====
-- How far the buffer of util/vector.c grows.
use native.Mathlib.Nat.{pow-suc, mul_assoc}
use helos.Prelude.{
  sym, ◌∙◌, ltb→lt, subst, ℕ, zero, suc, ◌*◌, ◌^◌, ◌≤◌, ◌<◌, ◌≡◌, refl, ap, ◌⊎◌, inl, inr, none,
  some, arith, ltb, Bool-cases, mul64,
}
use helos.Util.Vector.{grow}

-- With a capacity that is not 0, as many rounds as it takes to pass the size are enough.
pub grow-enough :
    (n newcap newsize : ℕ)
    → 1 ≤ newcap
    → newsize ≤ 2 ^ 63
    → newsize ≤ newcap * 2 ^ n
    → (c : ℕ) × (grow n newcap newsize ≡ some c)
      × (newsize ≤ c)
      × (newcap ≤ c)
      × ((c ≡ newcap) ⊎ (c < 2 * newsize))
unfolding grow
grow-enough zero newcap newsize h k e =
    (newcap, ground (arith), ground arith, ground arith, inl refl)
grow-enough (suc n) newcap newsize h k e = elim (Bool-cases (ltb newcap newsize)) [
  | inr x ↦ (newcap, rw x refl, ground arith, ground arith, inl refl)
  | inl x ↦
      let doubled : mul64 newcap 2 ≡ newcap * 2 = ground (arith) in
      let twice : 2 ^ suc n ≡ 2 * 2 ^ n = omega (arith, pow-suc 2 n) in
      let wider : newcap * 2 ^ suc n ≡ newcap * 2 * 2 ^ n =
        ap (λ p. newcap * p) twice ∙ sym (mul_assoc newcap 2 (2 ^ n)) in
      let (c, returns, enough, more, near) =
        grow-enough n (newcap * 2) newsize (ground arith) k (subst (λ x. newsize ≤ x) wider e) in
      let near' : (c ≡ newcap) ⊎ (c < 2 * newsize) = elim near [
        | inl e' ↦ inr (omega (arith, e', ltb→lt newcap newsize x))
        | inr l ↦ inr l
      ] in
      (c, rw (x, doubled) returns, enough, omega (arith, more), near')
]

-- From a capacity of 0 the loop of `vector_Resize` never ends, for any size but 0: it is still going
-- on after however many rounds.
pub grow-forever : (n newsize : ℕ) → 1 ≤ newsize → grow n 0 newsize ≡ none
unfolding grow
grow-forever zero newsize h = ground arith
grow-forever (suc n) newsize h = ground (arith, grow-forever n newsize h)
