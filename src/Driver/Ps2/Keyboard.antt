-- ===== src/Driver/Ps2/Keyboard.antt =====
-- The keyboard's handler of driver/irq/pic/ps2/ps2.c, against what a keyboard sends for each key.
use helos.Prelude.{
  ℕ, ◌+◌, ◌<◌, ◌≡◌, refl, sym, ap, ◌∙◌, inl, inr, Option, none, some, List, [], ◌∷◌, ◌++◌, arith,
  Option-cases, length,
}
use helos.Util.Queue.{Queue, push_byte}
use helos.Driver.Input.{Event, press_key, release_key}
use helos.Driver.Input.Calls.{Call, press, release, run, step, run-append}
use helos.Driver.Ps2.{
  Ps2, Decoded, nothing, pressed, released, decode_key_scancode1, act, irq_handler_k,
}
use helos.Driver.Ps2.Held.{Holds, push_byte-Holds}
use helos.Driver.Ps2.Wire.{
  Stroke, down, up, extended_down, extended_up, ack, pause_half, IsSet1, AllSet1, wire, wires,
  calls_of, calls_of-cons,
}
use helos.Driver.Ps2.Decode.{
  Decodes, decode-down, decode-up, decode-ack, decode-prefix, decode-extended, decode-pause_start,
  decode-pause, decode_extended-key,
}

-- The rest of the handler, once a byte has completed the code of `event` or left it open.
record Played (bytes : Event → List ℕ) (cs : List Call) (rest : List ℕ) (p : Ps2) (out : Option Ps2)
    : Type 0 where
  next : Ps2
  returns : out ≡ some next
  input : next.input ≡ run bytes cs p.input
  left : Holds rest next.queue_keyboard

module _ (bytes : Event → List ℕ) where
  unfoldable pub run_k : List ℕ → Ps2 → Option Ps2
  run_k [] p = some p
  run_k (b ∷ bs) p = elim (irq_handler_k bytes b p) [ none ↦ none | some p' ↦ run_k bs p' ]

  -- The calls of an event.
  abbrev call_of : Decoded → List Call
  call_of (pressed (some key)) = press key ∷ []
  call_of (released (some key)) = release key ∷ []
  call_of _ = []

  -- An event with a key, or none.
  abbrev IsKnown : Decoded → Type 0
  IsKnown (pressed none) = ⊥
  IsKnown (released none) = ⊥
  IsKnown _ = Unit {0}

  step-Played :
      {bs rest : List ℕ} (event : Decoded) (b : ℕ) (p : Ps2)
      → length bs < 4
      → Holds bs p.queue_keyboard
      → ((q : Queue) → Holds (bs ++ (b ∷ [])) q → Decodes (bs ++ (b ∷ [])) event rest q)
      → IsKnown event
      → Played bytes (call_of event) rest p (irq_handler_k bytes b p)
  unfolding irq_handler_k act run step
  step-Played nothing b p h held decode known =
      let d = decode _ (push_byte-Holds b h held) in
      record {
        next = record p {
          queue_keyboard = (decode_key_scancode1 (push_byte p.queue_keyboard b)).1;
          input = p.input;
        };
        returns = rw (irq_handler_k, d.is_event) refl;
        input = refl;
        left = d.left;
      }
  step-Played (pressed (some key)) b p h held decode known =
      let d = decode _ (push_byte-Holds b h held) in
      record {
        next = record p {
          queue_keyboard = (decode_key_scancode1 (push_byte p.queue_keyboard b)).1;
          input = press_key bytes key p.input;
        };
        returns = rw (irq_handler_k, d.is_event) refl;
        input = refl;
        left = d.left;
      }
  step-Played (released (some key)) b p h held decode known =
      let d = decode _ (push_byte-Holds b h held) in
      record {
        next = record p {
          queue_keyboard = (decode_key_scancode1 (push_byte p.queue_keyboard b)).1;
          input = release_key bytes key p.input;
        };
        returns = rw (irq_handler_k, d.is_event) refl;
        input = refl;
        left = d.left;
      }
  step-Played (pressed none) b p h held decode known = absurd known
  step-Played (released none) b p h held decode known = absurd known

  -- One byte after the others.
  then-Played :
      {cs : List Call} {rest : List ℕ} {p : Ps2} (b : ℕ) (bs : List ℕ)
      → (played : Played bytes [] rest p (irq_handler_k bytes b p))
      → Played bytes cs [] played.next (run_k bs played.next)
      → Played bytes cs [] p (run_k (b ∷ bs) p)
  unfolding run_k run
  then-Played {cs} b bs played h = record {
    next = h.next;
    returns = rw (run_k, played.returns) h.returns;
    input = h.input ∙ ap (run bytes cs) played.input;
    left = h.left;
  }

  last-Played :
      {cs : List Call} {p : Ps2} (b : ℕ)
      → Played bytes cs [] p (irq_handler_k bytes b p)
      → Played bytes cs [] p (run_k (b ∷ []) p)
  unfolding run_k run
  last-Played b played = record {
    next = played.next;
    returns = rw (run_k, played.returns) refl;
    input = played.input;
    left = played.left;
  }

  stroke-Played :
      (k : Stroke) (p : Ps2)
      → IsSet1 k
      → Holds [] p.queue_keyboard
      → Played bytes (calls_of (k ∷ [])) [] p (run_k (wire k) p)
  stroke-Played (down code key) p h held =
      last-Played code (
        step-Played (pressed (some key)) code p (omega arith) held (λ q. decode-down code key h) tt)
  stroke-Played (up code key) p h held = last-Played (code + 128) (
      step-Played (released (some key)) (code + 128) p (omega arith) held
        (λ q. decode-up code key h) tt)
  stroke-Played (extended_down code key) p h held =
      let first = step-Played nothing 224 p (omega arith) held (λ q. decode-prefix) tt in
      then-Played 224 _ first (
        last-Played code (
          step-Played (pressed (some key)) code first.next (omega arith) first.left
            (λ q k. decode-extended code (decode_extended-key code key h.0 h.1).0 k) tt))
  stroke-Played (extended_up code key) p h held =
      let first = step-Played nothing 224 p (omega arith) held (λ q. decode-prefix) tt in
      then-Played 224 _ first (
        last-Played (code + 128) (
          step-Played (released (some key)) (code + 128) first.next (omega arith) first.left
            (λ q k. decode-extended (code + 128) (decode_extended-key code key h.0 h.1).1 k) tt))
  stroke-Played ack p h held =
      last-Played 250 (step-Played nothing 250 p (omega arith) held (λ q. decode-ack) tt)
  stroke-Played (pause_half x y) p h held =
      let first = step-Played nothing 225 p (omega arith) held (λ q. (decode-pause_start x).0) tt in
      let second =
        step-Played nothing x first.next (omega arith) first.left (λ q. (decode-pause_start x).1)
          tt in
      then-Played 225 _ first (
        then-Played x _ second (
          last-Played y (
            step-Played nothing y second.next (omega arith) second.left (λ q. decode-pause x y)
              tt)))

  run_k-append :
      (xs ys : List ℕ) (p : Ps2) {p' : Ps2}
      → run_k xs p ≡ some p'
      → run_k (xs ++ ys) p ≡ run_k ys p'
  unfolding run_k
  run_k-append [] ys p h = ground arith
  run_k-append (x ∷ xs) ys p {p' = p'} h = elim (Option-cases (irq_handler_k bytes x p)) [
    | inl e ↦ ground (arith, e)
    | inr (p1, e) ↦ ground (arith, e, run_k-append xs ys p1 {p' = p'})
  ]

  strokes-Played :
      (ks : List Stroke) (p : Ps2)
      → AllSet1 ks
      → Holds [] p.queue_keyboard
      → Played bytes (calls_of ks) [] p (run_k (wires ks) p)
  unfolding run_k run
  strokes-Played [] p h held = record { next = p; returns = refl; input = refl; left = held }
  strokes-Played (k ∷ ks) p h held =
      let first = stroke-Played k p h.0 held in
      let rest = strokes-Played ks first.next h.1 first.left in
      record {
        next = rest.next;
        returns = run_k-append (wire k) (wires ks) p first.returns ∙ rest.returns;
        input =
            rest.input
            ∙ ap (run bytes (calls_of ks)) first.input
            ∙ sym (run-append bytes (calls_of (k ∷ [])) (calls_of ks) p.input)
            ∙ ap (λ cs. run bytes cs p.input) (sym (calls_of-cons k ks));
        left = rest.left;
      }

  -- A keyboard that sends scancode set 1 for keys of the tables, acknowledgements and halves of
  -- Pause included, from an empty queue of at least four bytes: after its bytes, one interrupt for
  -- each, the handler has made one call for each key that went down or up, in order, and no other,
  -- and the queue is empty again.
  pub run_k-wires :
      (ks : List Stroke) (p : Ps2)
      → AllSet1 ks
      → Holds [] p.queue_keyboard
      → (p' : Ps2) × (run_k (wires ks) p ≡ some p')
        × (p'.input ≡ run bytes (calls_of ks) p.input)
        × Holds [] p'.queue_keyboard
  run_k-wires ks p h held =
      let played = strokes-Played ks p h held in
      (played.next, played.returns, played.input, played.left)
