-- ===== src/Driver/Ps2/Held.antt =====
-- The queues of driver/irq/pic/ps2/ps2.c, by the bytes that they hold.
use helos.Prelude.{◌∙◌, ap, ℕ, ◌≤◌, ◌<◌, ◌≡◌, List, [], ◌∷◌, ◌++◌, arith, length}
use helos.Util.Queue.{Queue, push_byte, pop_byte, front_byte, size}
use helos.Util.Queue.Inv.{
  IsValid, contents, length-contents, size-contents, push_byte-IsValid, pop_byte-IsValid,
}
use helos.Util.Queue.Refine.{
  contents-push_byte, contents-pop_byte, front_byte-front, size-push_byte, size-pop_byte,
}

-- A valid queue of at least four bytes holds `bs`.
pub record Holds (bs : List ℕ) (q : Queue) : Type 0 where
  pub valid : IsValid q
  pub wide : 4 ≤ q.size
  pub held : contents q ≡ bs

pub push_byte-Holds :
    {bs : List ℕ} {q : Queue} (b : ℕ)
    → length bs < 4
    → Holds bs q
    → Holds (bs ++ (b ∷ [])) (push_byte q b)
push_byte-Holds {bs} {q} b h k = ground (
  arith,
  contents-push_byte b k.valid,
  push_byte-IsValid b k.valid,
  size-push_byte q b,
  length-contents q,
)

pub pop_byte-Holds :
    {b : ℕ} {bs : List ℕ} {q : Queue}
    → Holds (b ∷ bs) q
    → ((pop_byte q).0 ≡ b) × Holds bs (pop_byte q).1
pop_byte-Holds {b} {bs} {q} k =
    ground (arith, contents-pop_byte k.valid, pop_byte-IsValid k.valid, size-pop_byte q)

pub front_byte-Holds : {b : ℕ} {bs : List ℕ} {q : Queue} → Holds (b ∷ bs) q → front_byte q ≡ b
front_byte-Holds {b} {bs} {q} k = ground (arith, front_byte-front q)

pub size-Holds : {bs : List ℕ} {q : Queue} → Holds bs q → size q ≡ length bs
size-Holds {bs} {q} k = size-contents q ∙ ap length k.held
