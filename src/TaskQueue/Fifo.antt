-- ===== src/TaskQueue/Fifo.antt =====
-- src/task_queue.c: the ring buffer is a first-in first-out queue of at most `capacity` tasks.
use native.Mathlib.Nat.{mod-add-mod, mod-eq_of_lt, mod-eq-sub-mod, add-zero}
use native.Mathlib.Decide.{dec_lt}
use threaded_db_api_server.Prelude.{
  ℕ, zero, suc, ◌+◌, ◌-◌, ◌%◌, ◌≤◌, ◌<◌, ◌≡◌, ◌≢◌, refl, ap, ◌∙◌, false, some, List, [], ◌∷◌, ◌++◌,
  get_or, set, length, length-set, length-replicate, get_or-set_self, get_or-set_ne, arith,
}
use threaded_db_api_server.TaskQueue.{
  Task, TaskQueue, add_size, max_capacity, task_queue_init, enqueue, task_queue_size,
}

-- `n` tasks from the index `h` on, round the end of the storage
abbrev pub tasks_from : List Task → ℕ → ℕ → ℕ → List Task
tasks_from items capacity h zero = []
tasks_from items capacity h (suc n) =
    get_or items h 0 ∷ tasks_from items capacity ((h + 1) % capacity) n

-- the tasks in the queue, the oldest first
abbrev pub contents : TaskQueue → List Task
contents q = tasks_from q.items q.capacity q.head q.count

pub record IsValid (q : TaskQueue) : Type 0 where
  pub storage : length q.items ≡ q.capacity
  pub small : q.capacity < max_capacity
  pub head_in : q.head < q.capacity
  pub count_in : q.count ≤ q.capacity
  pub tail_at : q.tail ≡ (q.head + q.count) % q.capacity

-- A queue that comes to be is valid, empty and open, with the capacity that was asked for.
pub task_queue_init-IsValid :
    (capacity : ℕ) {q : TaskQueue}
    → task_queue_init capacity ≡ some q
    → IsValid q × (contents q ≡ []) × (q.capacity ≡ capacity) × (q.shutdown ≡ false)
unfolding task_queue_init
task_queue_init-IsValid capacity e = ground (arith, length-replicate {A = ℕ} capacity 0)

pub length-tasks_from :
    (items : List Task) (capacity h n : ℕ) → length (tasks_from items capacity h n) ≡ n
length-tasks_from items capacity h zero = refl
length-tasks_from items capacity h (suc n) =
    ap suc (length-tasks_from items capacity ((h + 1) % capacity) n)

-- Of a valid queue (`IsValid`) `task_queue_size` is the number of its tasks, which is at most the
-- capacity.
pub task_queue_size_lem :
    (q : TaskQueue)
    → IsValid q
    → (task_queue_size q ≡ length (contents q)) × (length (contents q) ≤ q.capacity)
unfolding task_queue_size
task_queue_size_lem q v =
    let e = length-tasks_from q.items q.capacity q.head q.count in
    let c = v.count_in in (omega arith, omega arith)

-- Fewer than `capacity` steps do not come back to the start.
step-ne : {c h k : ℕ} → h < c → suc k < c → (h + suc k) % c ≢ h
step-ne {c} {h} {k} p q = elim (dec_lt (h + suc k) c) [
  | yes r ↦ omega (arith, mod-eq_of_lt r)
  | no r ↦ omega (
    arith,
    mod-eq-sub-mod {n = h + suc k} {m = c} (omega arith),
    mod-eq_of_lt {n = h + suc k - c} {m = c} (omega arith),
  )
]

tasks_from-set :
    (items : List Task) (c t n h i : ℕ)
    → length items ≡ c
    → h < c
    → n < c
    → i ≡ (h + n) % c
    → tasks_from (set items i t) c h (suc n) ≡ tasks_from items c h n ++ (t ∷ [])
tasks_from-set items c t zero h i s p q e =
    rw (e, add-zero, mod-eq_of_lt p, get_or-set_self items h t 0 (omega arith))
tasks_from-set items c t (suc n) h i s p q e =
    let shift : (h + suc n) % c ≡ ((h + 1) % c + n) % c =
      rw mod-add-mod (ap (λ k. k % c) (omega arith)) in
    rw (get_or-set_ne items {i = i} {j = h} t 0 (rw e (step-ne p q))) (
      ap (λ r. get_or items h 0 ∷ r)
        (tasks_from-set items c t n ((h + 1) % c) i s (omega arith) (omega arith) (e ∙ shift)))

-- No `size_t` addition wraps.
no_wrap :
    (q : TaskQueue)
    → IsValid q
    → q.count ≢ q.capacity
    → (add_size q.tail 1 ≡ q.tail + 1) × (add_size q.count 1 ≡ q.count + 1)
no_wrap q v ne = ground arith

next_tail : (h n c t : ℕ) → t ≡ (h + n) % c → (t + 1) % c ≡ (h + (n + 1)) % c
next_tail h n c t e = rw (e, mod-add-mod) (ap (λ k. k % c) (omega arith))

pub enqueue-IsValid :
    (q : TaskQueue) (t : Task) → IsValid q → q.count ≢ q.capacity → IsValid (enqueue q t)
unfolding enqueue
enqueue-IsValid q t v ne =
    let (a, b) = no_wrap q v ne in
    let c = v.count_in in
    record {
      storage = length-set q.items q.tail t ∙ v.storage;
      small = v.small;
      head_in = v.head_in;
      count_in = rw b (omega arith);
      tail_at = rw (a, b) (next_tail q.head q.count q.capacity q.tail v.tail_at);
    }

pub contents-enqueue :
    (q : TaskQueue) (t : Task)
    → IsValid q
    → q.count ≢ q.capacity
    → contents (enqueue q t) ≡ contents q ++ (t ∷ [])
unfolding enqueue
contents-enqueue q t v ne =
    let (a, b) = no_wrap q v ne in
    let c = v.count_in in
    let one : q.count + 1 ≡ suc q.count = omega arith in
    ap (tasks_from (set q.items q.tail t) q.capacity q.head) (b ∙ one)
    ∙ tasks_from-set q.items q.capacity t q.count q.head q.tail v.storage v.head_in (omega arith)
        v.tail_at
