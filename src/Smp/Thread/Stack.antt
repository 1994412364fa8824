-- ===== src/Smp/Thread/Stack.antt =====
-- The stack of a thread that ended, and the thread of smp/kthread.c that gets it next.
use helos.Prelude.{subst, subst, ℕ, ◌≡◌, Option, some, List, [], ◌∷◌, length, add64}
use helos.Util.Tree.{NodePointer, Tree, first_node}
use helos.Smp.Thread.{Fresh, Arguments, Scheduler, Thread, thread_of, start}

-- The key of the first entry.
head_key : List (ℕ × Unit {0}) → ℕ
head_key [] = 0
head_key (e ∷ es) = e.0

-- A pool that only got `key` begins with it.
record First (key : ℕ) (pool : Tree (Unit {0})) : Type 0 where
  node : NodePointer (Unit {0})
  found : first_node pool ≡ some node
  key_is : node.key ≡ key

-- What the next thread starts with.
pub record Drifts (fresh : Fresh) (entry : ℕ) (args : Option Arguments) (n stackframe : ℕ)
    (s : Scheduler) : Type 0 where
  pub id : ℕ
  pub s' : Scheduler
  pub starts : start fresh entry args n s ≡ some (id, s')
  pub stack_is : (thread_of s' (length s.threads)).stackframe ≡ add64 stackframe 4096
