-- ===== src/Smp/Thread.antt =====
-- smp/kthread.c, with the variables of smp/internal.c and smp/metrics.c: the threads, and what
-- starts and ends one. A thread is its number among all that were ever started; there is one
-- processor.
pub mod Stack
pub mod Tests
use helos.Prelude.{
  Bool, ◌>>=◌, ◌^◌, ltb, ℕ, ◌+◌, ◌-◌, Option, none, some, List, [], ◌∷◌, ◌++◌, if◌then◌else◌,
  length, set, get_or, word, add64,
}
use helos.Prelude.Int.{ℤ, pos, negsuc}
use helos.Memory.Rounding.{allocate_kernel_mapping}
use helos.Memory.PageMap.{Paging}
use helos.Memory.PageMap.Allocated.{map_page_allocated}
use helos.Memory.HeapBreak.{read_write}
use helos.Util.Tree.{
  NodePointer, Tree, create, root_of, insert_node_null, find_node, find, first_node, delete,
}
use helos.Smp.Waiting.{Waiting}

-- `smp_thread_State`
pub record Context : Type 0 where
  pub rax : ℕ
  pub rbx : ℕ
  pub rcx : ℕ
  pub rdx : ℕ
  pub rsi : ℕ
  pub rdi : ℕ
  pub rbp : ℕ
  pub rsp : ℕ
  pub r8 : ℕ
  pub r9 : ℕ
  pub r10 : ℕ
  pub r11 : ℕ
  pub r12 : ℕ
  pub r13 : ℕ
  pub r14 : ℕ
  pub r15 : ℕ
  pub rflags : ℕ
  pub rip : ℕ
  pub ss : ℕ
  pub cs : ℕ

-- `__smp_Thread`, but for `process`; its `wait` stands under its number in the list of waits.
pub record Thread : Type 0 where
  pub id : ℕ
  pub nice : ℕ
  pub last_tick : ℕ
  pub sleep_until : ℕ
  pub state : Context
  pub stackframe : ℕ

-- The variables: `__smp_Now`, the time of the last switch and the three metrics; the current thread
-- or NULL; the last id; the threads with `__smp_Threads` (id to number), `__smp_ThreadsWaiting`
-- (priority to number) and `__smp_StackPool`; the state of the interrupted program; and the kernel's
-- memory.
pub record Scheduler : Type 0 where
  pub now : ℕ
  pub previous_time : ℕ
  pub idling : ℕ
  pub kernel : ℕ
  pub userspace : ℕ
  pub current : Option ℕ
  pub last_id : ℕ
  pub threads : List Thread
  pub waits : List Waiting
  pub by_id : Tree ℕ
  pub waiting : Tree ℕ
  pub stack_pool : Tree (Unit {0})
  pub last_state : Context
  pub mapping_bottom : ℕ
  pub paging : Paging

abbrev pub blank_context : Context
blank_context = record {
  rax = 0;
  rbx = 0;
  rcx = 0;
  rdx = 0;
  rsi = 0;
  rdi = 0;
  rbp = 0;
  rsp = 0;
  r8 = 0;
  r9 = 0;
  r10 = 0;
  r11 = 0;
  r12 = 0;
  r13 = 0;
  r14 = 0;
  r15 = 0;
  rflags = 0;
  rip = 0;
  ss = 0;
  cs = 0;
}

abbrev pub no_thread : Thread
no_thread = record {
  id = 0;
  nice = 0;
  last_tick = 0;
  sleep_until = 0;
  state = blank_context;
  stackframe = 0;
}

abbrev pub thread_of : Scheduler → ℕ → Thread
thread_of s t = get_or s.threads t no_thread

-- `smp_thread_Arguments`
pub record Arguments : Type 0 where
  pub a : ℕ
  pub b : ℕ
  pub c : ℕ
  pub d : ℕ
  pub e : ℕ
  pub f : ℕ

-- GDT_EXEC_SELECTOR and GDT_DATA_SELECTOR
abbrev pub exec_selector : ℕ
exec_selector = 0x10

abbrev pub data_selector : ℕ
data_selector = 0x08

-- SMP_NICENESS_DEFAULT
abbrev pub niceness_default : ℕ
niceness_default = 80

-- `if (args) { ... }`
pub pass_arguments : Option Arguments → Context → Context
pass_arguments none state = state
pass_arguments (some args) state = record state {
  rdi = args.a;
  rsi = args.b;
  rdx = args.c;
  rcx = args.d;
  r8 = args.e;
  r9 = args.f;
}

-- A page of kernel memory for a stack. `none` is a failed assertion or a loop that never ends.
unfoldable pub new_stack : Scheduler → Option (ℕ × Scheduler)
new_stack s = do
  let newstack = allocate_kernel_mapping 4096 4096 s.mapping_bottom
  paging ← map_page_allocated newstack 1 read_write s.paging
  some (add64 newstack 4096, record s { mapping_bottom = newstack; paging = paging })

-- `if (spare) { ... } else { ... }`: the end of the new thread's stack, and the state.
unfoldable pub take_stack : Option (NodePointer (Unit {0})) → Scheduler → Option (ℕ × Scheduler)
take_stack none s = new_stack s
take_stack (some spare) s =
    some (add64 spare.key 4096, record s { stack_pool = delete s.stack_pool spare })

-- What the code finds: in the byte at address 0, which is read for each of two `tree_InsertNode`
-- with NULL for `added`; in the memory of the new object and of the `wait` from kMalloc, as the
-- address of `__smp_thread_EntryPoint` (assembly code), and as the two random numbers.
pub record Fresh : Type 0 where
  pub state : Context
  pub stackframe : ℕ
  pub wait : Waiting
  pub entry_point : ℕ
  pub at_null : Bool
  pub at_null_later : Bool
  pub by_id_random : ℕ
  pub waiting_random : ℕ

-- `*((void **)tree_Insert(tree, key, 0)) = t`: an object that stands under the key is overwritten.
unfoldable pub put_pointer : ℕ → Bool → ℕ → ℕ → Tree ℕ → Tree ℕ
put_pointer random at_null key t tree =
    let (tree', n) = insert_node_null t random at_null tree key in
    record tree' { root = root_of (record n { value = t }) }

-- The object that `smp_thread_Start` fills in.
pub new_thread : Fresh → ℕ → Option Arguments → ℕ → ℕ → ℕ → ℕ → Thread
new_thread fresh entry args nice id now stack = record {
  id = id;
  nice = nice;
  last_tick = now;
  sleep_until = 0;
  state =
      record (pass_arguments args (record fresh.state {
        cs = exec_selector;
        ss = data_selector;
        rip = fresh.entry_point;
        rax = entry;
      })) { rsp = stack };
  stackframe = stack;
}

-- `smp_thread_Start`: the new thread's id. `none` as for the stack.
unfoldable pub start : Fresh → ℕ → Option Arguments → ℕ → Scheduler → Option (ℕ × Scheduler)
start fresh entry args nice s = do
  let id = s.last_id + 1
  let number = length s.threads
  (stack, s') ← take_stack (first_node s.stack_pool) s
  some (
    id,
    record s' {
      last_id = id;
      threads = s.threads ++ (new_thread fresh entry args nice id s.now stack ∷ []);
      waits = s.waits ++ (fresh.wait ∷ []);
      by_id = (insert_node_null number fresh.by_id_random fresh.at_null s.by_id id).0;
      waiting =
          put_pointer fresh.waiting_random fresh.at_null_later (add64 s.now nice) number s.waiting;
    },
  )

abbrev pub set_thread : ℕ → Thread → Scheduler → Scheduler
set_thread t thread s = record s { threads = set s.threads t thread }

-- An `unsigned int` as an `int`.
abbrev pub int_of : ℕ → ℤ
int_of n = if ltb n (2 ^ 31) then pos n else negsuc (2 ^ 32 - 1 - n)

-- What `smp_thread_Nice` does with the object found.
unfoldable pub set_nice : Option ℕ → ℤ → Scheduler → ℤ × Scheduler
set_nice none newnice s = (negsuc 0, s)
set_nice (some t) (negsuc n) s = (int_of (thread_of s t).nice, s)
set_nice (some t) (pos n) s =
    (int_of (thread_of s t).nice, set_thread t (record (thread_of s t) { nice = n }) s)

-- `smp_thread_Nice`
unfoldable pub nice : ℕ → ℤ → Scheduler → ℤ × Scheduler
nice id newnice s = set_nice (find s.by_id id) newnice s

-- An `int` as a 64-bit word.
abbrev pub word_of : ℤ → ℕ
word_of (pos n) = n
word_of (negsuc n) = word - 1 - n

-- `smp_thread_Sleep` up to `smp_thread_Yield`; `none` where no thread runs, and a NULL pointer is
-- read.
unfoldable pub sleep : ℤ → Scheduler → Option Scheduler
sleep ticks s = do
  t ← s.current
  some (set_thread t (record (thread_of s t) { sleep_until = add64 s.now (word_of ticks) }) s)

-- `__smp_thread_Cleanup` up to `smp_thread_Yield`; `none` where there is no current thread or node,
-- and a NULL pointer to it is read. `t->stackframe` is read after `tree_Delete` has freed the memory
-- of `t`, and what stands there then, `after_free`, is an argument, as is the byte at address 0.
unfoldable pub cleanup : ℕ → Bool → ℕ → Scheduler → Option Scheduler
cleanup random at_null after_free s = do
  t ← s.current
  n ← find_node s.by_id (thread_of s t).id
  some (record s {
    by_id = delete s.by_id n;
    current = none;
    stack_pool = (insert_node_null tt random at_null s.stack_pool after_free).0;
  })

-- `smp_thread_Init` at start-up, whose caller becomes the first thread; the handler of the clock is
-- set elsewhere.
unfoldable pub init : Fresh → Context → ℕ → Paging → ℕ × Scheduler
init fresh last_state mapping_bottom paging = (
  1,
  record {
    now = 1;
    previous_time = 0;
    idling = 0;
    kernel = 0;
    userspace = 0;
    current = some 0;
    last_id = 1;
    threads =
        record {
          id = 1;
          nice = niceness_default;
          last_tick = 1;
          sleep_until = 0;
          state = fresh.state;
          stackframe = fresh.stackframe;
        }
        ∷ [];
    waits = fresh.wait ∷ [];
    by_id = (insert_node_null 0 fresh.by_id_random fresh.at_null create 1).0;
    waiting = create;
    stack_pool = create;
    last_state = last_state;
    mapping_bottom = mapping_bottom;
    paging = paging;
  },
)
