-- ===== src/Smp/Channel/Fill.antt =====
-- `smp_Channel_Send` of smp/channel.c puts whole objects into the queue, as many as fit, in order.
use helos.Prelude.{
  if◌then◌else◌, ℕ, zero, suc, ◌+◌, ◌-◌, ◌*◌, ◌≤◌, ◌<◌, min, ◌≡◌, refl, sym, ap, ◌∙◌, false, some,
  List, [], ◌∷◌, ◌++◌, append-nil, append_assoc, arith, ◌==◌, length, length-append, take, drop,
  length-take, length-drop,
}
use helos.Util.Queue.{Queue, push, space}
use helos.Util.Queue.Inv.{IsValid, contents, length-contents, push-IsValid, space-lem}
use helos.Util.Queue.Refine.{contents-push}
use helos.Smp.Waiting.{Waiting, wait_of}
use helos.Smp.Condition.Wakes.{AllThreads, listed, woken, notify_all-wakes}
use helos.Smp.Channel.{Channel, fill, send_buffered}

take-nil : {A : Type 0} (m : ℕ) → [] ≡ take {A = A} m []
take-nil zero = refl
take-nil (suc m) = refl

take-add : {A : Type 0} (n m : ℕ) (xs : List A) → take (n + m) xs ≡ take n xs ++ take m (drop n xs)
take-add zero m xs = let e : 0 + m ≡ m = omega arith in rw e refl
take-add (suc n) m [] = let e : suc n + m ≡ suc (n + m) = omega arith in rw e (take-nil m)
take-add (suc n) m (x ∷ xs) =
    let e : suc n + m ≡ suc (n + m) = omega arith in rw e (ap (λ l. x ∷ l) (take-add n m xs))

-- The queue has room for `r` objects of `o` bytes.
abbrev pub HasRoom : ℕ → ℕ → Queue → Type 0
HasRoom r o q = q.size ≡ q.count + r * o

-- `n` objects were to be written, and there was room for `r`.
pub record Filled (n r o : ℕ) (bytes : List ℕ) (q : Queue) (out : ℕ × Queue) : Type 0 where
  pub amount : out.0 ≡ min n r
  pub contents_are : contents out.1 ≡ contents q ++ take (out.0 * o) bytes
  pub valid : IsValid out.1
  pub room : HasRoom (r - out.0) o out.1

-- One object is written.
record Pushed (r o : ℕ) (bytes : List ℕ) (q q' : Queue) : Type 0 where
  holds : contents q' ≡ contents q ++ take o bytes
  valid : IsValid q'
  room : HasRoom r o q'

push-Pushed :
    (r o : ℕ) (bytes : List ℕ) (q : Queue)
    → IsValid q
    → HasRoom (suc r) o q
    → o ≤ length bytes
    → Pushed r o bytes q (push q (take o bytes))
push-Pushed r o bytes q v room enough =
    let p = contents-push (take o bytes) v in
    let l = length-take o bytes in
    let h : contents (push q (take o bytes)) ≡ contents q ++ take o bytes =
      p.0 ∙ ground (arith, l, room, length-contents q) in
    record {
      holds = h;
      valid = push-IsValid (take o bytes) v;
      room = omega (
        arith,
        p.1,
        room,
        l,
        ap length h,
        length-append (contents q) (take o bytes),
        length-contents q,
        length-contents (push q (take o bytes)),
      );
    }

Filled-none :
    (n r o : ℕ) (bytes : List ℕ) (q : Queue)
    → IsValid q
    → HasRoom r o q
    → min n r ≡ 0
    → Filled n r o bytes q (0, q)
Filled-none n r o bytes q v room none_fit = record {
  amount = sym none_fit;
  contents_are = let e : 0 * o ≡ 0 = omega arith in rw e (sym (append-nil (contents q)));
  valid = v;
  room = let e : r - 0 ≡ r = omega arith in rw e room;
}

Filled-more :
    (n r o : ℕ) (bytes : List ℕ) (q q' : Queue) (rest : ℕ × Queue)
    → Pushed r o bytes q q'
    → Filled n r o (drop o bytes) q' rest
    → Filled (suc n) (suc r) o bytes q (rest.0 + 1, rest.1)
Filled-more n r o bytes q q' rest p f = record {
  amount = omega (arith, f.amount);
  contents_are =
      f.contents_are
      ∙ ap (λ l. l ++ take (rest.0 * o) (drop o bytes)) p.holds
      ∙ append_assoc (contents q) (take o bytes) (take (rest.0 * o) (drop o bytes))
      ∙ ap (λ l. contents q ++ l)
          (sym (take-add o (rest.0 * o) bytes) ∙ ap (λ k. take k bytes) (omega arith));
  valid = f.valid;
  room = f.room ∙ ap (λ k. rest.1.count + k * o) (omega arith);
}

fill-Filled :
    (n r o : ℕ) (bytes : List ℕ) (q : Queue)
    → 0 < o
    → IsValid q
    → HasRoom r o q
    → n * o ≤ length bytes
    → Filled n r o bytes q (fill n o bytes q)
unfolding fill
fill-Filled zero r o bytes q pos v room enough = Filled-none zero r o bytes q v room (omega arith)
fill-Filled (suc n) zero o bytes q pos v room enough =
    let full : space q ≡ 0 = space-lem v ∙ omega (arith, room) in
    rw full (Filled-none (suc n) zero o bytes q v room (omega arith))
fill-Filled (suc n) (suc r) o bytes q pos v room enough =
    let p = push-Pushed r o bytes q v room (omega (arith, enough)) in
    let f =
      fill-Filled n r o (drop o bytes) (push q (take o bytes)) pos p.valid p.room
        (omega (arith, enough, length-drop o bytes)) in
    let not_full : (space q == 0) ≡ false = ground (arith, space-lem v, room) in
    rw not_full (Filled-more n r o bytes q (push q (take o bytes)) _ p f)

-- `smp_Channel_Send` on a channel with a valid queue, room in it for `r` objects of a size that is
-- not 0, and `count` objects of the caller: before it yields, it has put as many objects as there
-- are or as fit into the queue, whole and in order behind what was there, and the queue stays valid
-- with that much less room; each thread that waits to receive, and no other, no longer waits; and
-- the number that it returns in the end is that of the objects put into the queue.
pub send_buffered-Filled :
    (c : Channel) (bytes : List ℕ) (count r u : ℕ) (waits : List Waiting) (q : Queue)
    → c.queue ≡ some q
    → 0 < c.obj_size
    → IsValid q
    → HasRoom r c.obj_size q
    → count * c.obj_size ≤ length bytes
    → AllThreads waits c.recv.threads
    → let (sent, c', waits') = send_buffered c bytes count waits in
      ((q' : Queue) × (c'.queue ≡ some q') × Filled count r c.obj_size bytes q (sent, q'))
      × (wait_of waits' u
          ≡ (if listed c.recv.threads u then woken 0 (wait_of waits u) else wait_of waits u))
      × (c'.recv.threads ≡ [])
unfolding send_buffered
send_buffered-Filled c bytes count r u waits q e pos v room enough threads =
    let w = notify_all-wakes c.recv 0 u waits threads in
    let f = fill-Filled count r c.obj_size bytes q pos v room enough in
    rw e (((fill count c.obj_size bytes q).1, refl, f), w.0, w.1)
