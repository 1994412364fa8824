-- ===== src/Driver/Input/Events.antt =====
-- What the calls of driver/input/source.h leave in the queue of events.
use helos.Prelude.{arith, ℕ, ◌≡◌, refl, Option, none, some, List, [], ◌∷◌}
use helos.Util.Queue.{Queue, push as queue_push}
use helos.Util.Queue.Fifo.{push_bytes}
use helos.Util.Queue.Inv.{IsValid, contents, push-IsValid}
use helos.Util.Queue.Refine.{contents-push}
use helos.Driver.Input.{
  Event, Input, flag_control, flag_shift, flag_alt, key_pressed_test, post, notify, press_key,
  release_key, press_mouse, release_mouse, move_mouse, position_mouse, set_desktop_size,
}
use helos.Driver.Input.Calls.{
  Call, press, release, press_button, release_button, move, position, resize, step, run, event_of,
}

-- The bytes in the queue of events, if one is set.
abbrev pub queued : Input → Option (List ℕ)
queued s = elim s.event_queue [ none ↦ none | some q ↦ some (contents q) ]

-- An event is reported as the state was just before.
event_of-post :
    (bytes : Event → List ℕ) (c : Call) (e : Event) (s : Input)
    → event_of c (notify (post bytes e s)) ≡ event_of c s
unfolding event_of notify post flag_control flag_shift flag_alt key_pressed_test
event_of-post bytes (press key) e s = ground arith
event_of-post bytes (release key) e s = ground arith
event_of-post bytes (press_button button) e s = ground arith
event_of-post bytes (release_button button) e s = ground arith
event_of-post bytes (move x y) e s = ground arith
event_of-post bytes (position x y) e s = ground arith
event_of-post bytes (resize x y) e s = refl

event_queue-post :
    (bytes : Event → List ℕ) (e : Event) (s : Input) (q : Queue)
    → s.event_queue ≡ some q
    → (notify (post bytes e s)).event_queue ≡ some (queue_push q (bytes e))
unfolding notify post
event_queue-post bytes e s q h = ground arith

-- The events of the calls, in order.
module _ (bytes : Event → List ℕ) where
  abbrev pub report : Option Event → List ℕ → ℕ → List ℕ
  report none held size = held
  report (some e) held size = push_bytes size held (bytes e)

  -- What a queue of `size` bytes that held `held` holds after the calls.
  abbrev pub reported : List Call → Input → ℕ → List ℕ → List ℕ
  reported [] s size held = held
  reported (c ∷ cs) s size held =
      let s' = step bytes c s in reported cs s' size (report (event_of c s') held size)

  record Reported (c : Call) (s' : Input) (q : Queue) : Type 0 where
    after : Queue
    there : s'.event_queue ≡ some after
    holds : contents after ≡ report (event_of c s') (contents q) q.size
    valid : IsValid after
    same_size : after.size ≡ q.size

  post-Reported :
      (c : Call) (e : Event) (s : Input) (q : Queue)
      → s.event_queue ≡ some q
      → event_of c s ≡ some e
      → IsValid q
      → Reported c (notify (post bytes e s)) q
  post-Reported c e s q h k v = record {
    after = queue_push q (bytes e);
    there = event_queue-post bytes e s q h;
    holds = rw (event_of-post bytes c e s, k) (contents-push (bytes e) v).0;
    valid = push-IsValid (bytes e) v;
    same_size = (contents-push (bytes e) v).1;
  }

  step-Reported :
      (c : Call) (s : Input) (q : Queue)
      → s.event_queue ≡ some q
      → IsValid q
      → Reported c (step bytes c s) q
  unfolding step press_key release_key press_mouse release_mouse move_mouse position_mouse
      set_desktop_size event_of
  step-Reported (press key) s q h v = post-Reported (press key) _ _ q h refl v
  step-Reported (release key) s q h v = post-Reported (release key) _ _ q h refl v
  step-Reported (press_button b) s q h v = post-Reported (press_button b) _ _ q h refl v
  step-Reported (release_button b) s q h v = post-Reported (release_button b) _ _ q h refl v
  step-Reported (move x y) s q h v = post-Reported (move x y) _ _ q h refl v
  step-Reported (position x y) s q h v = post-Reported (position x y) _ _ q h refl v
  step-Reported (resize x y) s q h v = record {
    after = q;
    there = h;
    holds = refl;
    valid = v;
    same_size = refl;
  }

  -- Whatever calls a driver makes while a valid queue of events is set, a queue stays set, and it
  -- holds after them what it held before and then, in order, the bytes of each call's event, with
  -- the modifiers or the cursor after that call; an event that does not fit whole is left out.
  pub run-reported :
      (cs : List Call) (s : Input) (q : Queue)
      → s.event_queue ≡ some q
      → IsValid q
      → queued (run bytes cs s) ≡ some (reported cs s q.size (contents q))
  unfolding run
  run-reported [] s q h v = ground arith
  run-reported (c ∷ cs) s q h v =
      let r = step-Reported c s q h v in
      ground (arith, r, run-reported cs (step bytes c s) r.after r.there r.valid)
