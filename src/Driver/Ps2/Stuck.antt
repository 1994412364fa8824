-- ===== src/Driver/Ps2/Stuck.antt =====
-- The keyboard's handler of driver/irq/pic/ps2/ps2.c behind a byte that it does not know.
use helos.Prelude.{
  ◌==◌, [], ap, drop, ◌∙◌, ◌∷◌, List, ℕ, ◌≡◌, refl, Bool, true, ◌&&◌, ◌||◌, some, arith, ltb,
}
use helos.Util.Queue.{Queue, push_byte, front_byte}
use helos.Util.Queue.Fifo.{front, push_bytes}
use helos.Util.Queue.Inv.{IsValid, contents, push_byte-IsValid}
use helos.Util.Queue.Refine.{contents-push_byte, front_byte-front}
use helos.Driver.Input.{Event}
use helos.Driver.Ps2.{Ps2, nothing, decode_key_scancode1, act, irq_handler_k}
use helos.Driver.Ps2.Keyboard.{run_k}

-- The bytes that begin no code of set 1 as the handler reads it.
abbrev pub begins_none : ℕ → Bool
begins_none b =
    (b == 0)
    || ((ltb 88 b && ltb b 129)
        || ((ltb 216 b && ltb b 224) || ((ltb 225 b && ltb b 250) || ltb 250 b)))

decode-stuck :
    (q : Queue) → begins_none (front_byte q) ≡ true → decode_key_scancode1 q ≡ (nothing, q)
unfolding decode_key_scancode1
decode-stuck q h = ground arith

-- `b` stays in front, whatever is pushed behind it.
contents-stays :
    {q : Queue} {b : ℕ} {bs : List ℕ} (x : ℕ)
    → IsValid q
    → contents q ≡ b ∷ bs
    → contents (push_byte q x) ≡ b ∷ drop 1 (contents (push_byte q x))
contents-stays {q} {b} {bs} x v h =
    let pushed : contents (push_byte q x) ≡ push_bytes q.size (b ∷ bs) (x ∷ []) =
      contents-push_byte x v ∙ ap (λ c. push_bytes q.size c (x ∷ [])) h in
    ground (arith, pushed)

front_byte-contents : (q : Queue) {b : ℕ} {bs : List ℕ} → contents q ≡ b ∷ bs → front_byte q ≡ b
front_byte-contents q h = front_byte-front q ∙ ap front h

module _ (bytes : Event → List ℕ) where
  irq_handler_k-stuck :
      (x : ℕ) (p : Ps2) {b : ℕ} {rest : List ℕ}
      → IsValid p.queue_keyboard
      → contents p.queue_keyboard ≡ b ∷ rest
      → begins_none b ≡ true
      → irq_handler_k bytes x p ≡ some (record p { queue_keyboard = push_byte p.queue_keyboard x })
  unfolding act irq_handler_k
  irq_handler_k-stuck x p v h k =
      let q = push_byte p.queue_keyboard x in
      let same : decode_key_scancode1 q ≡ (nothing, q) =
        decode-stuck q (rw (front_byte-contents q (contents-stays x v h)) k) in
      rw (irq_handler_k, ap (λ d. d.0) same, ap (λ d. d.1) same) refl

  -- Once a byte that begins no code is in front of a valid queue of the keyboard's bytes, the
  -- handler takes whatever bytes come without a call to the input, so that no key is seen any more,
  -- and the byte is still in front afterwards.
  pub run_k-stuck :
      (bs : List ℕ) (p : Ps2) {b : ℕ} {rest : List ℕ}
      → IsValid p.queue_keyboard
      → contents p.queue_keyboard ≡ b ∷ rest
      → begins_none b ≡ true
      → (p' : Ps2) × (run_k bytes bs p ≡ some p')
        × (p'.input ≡ p.input)
        × (front_byte p'.queue_keyboard ≡ b)
  unfolding run_k
  run_k-stuck [] p v h k = (p, refl, refl, front_byte-contents p.queue_keyboard h)
  run_k-stuck (x ∷ xs) p v h k =
      let q = push_byte p.queue_keyboard x in
      let (p', returns, input, there) =
        run_k-stuck xs (record p { queue_keyboard = q }) (push_byte-IsValid x v)
          (contents-stays x v h) k in
      (p', rw (run_k, irq_handler_k-stuck x p v h k) returns, input, there)
