-- ===== src/TaskQueue/Refine.antt =====
-- src/task_queue.c against a list with a limit: what a caller can see of the ring buffer.
use native.Mathlib.Nat.{mod-add-mod}
use threaded_db_api_server.Prelude.{
  ℕ, zero, suc, ◌+◌, ◌-◌, ◌%◌, ◌≡◌, ◌≢◌, refl, ap, Bool, true, false, not, ◌&&◌, List, [], ◌∷◌,
  ◌++◌, ◌==◌, if◌then◌else◌, get_or, length, arith,
}
use threaded_db_api_server.TaskQueue.{
  Task, TaskQueue, add_size, Pushed, accepted, full, closed, waiting, enqueue, task_queue_try_push,
  task_queue_push, Popped, task, drained, asleep, task_queue_pop, task_queue_shutdown,
}
use threaded_db_api_server.TaskQueue.Fifo.{
  tasks_from, contents, IsValid, length-tasks_from, enqueue-IsValid, contents-enqueue,
}

-- The queue as its callers know it.
pub record Fifo : Type 0 where
  pub tasks : List Task
  pub shut : Bool

abbrev pub view : TaskQueue → Fifo
view q = record { tasks = contents q; shut = q.shutdown }

-- The calls of the two kinds of threads.
pub data Call : Type 0 where
  try_push push : Task → Call
  pop shutdown : Call

pub data Reply : Type 0 where
  pushed : Pushed → Reply
  popped : Popped → Reply
  nothing : Reply

-- a call of the ring buffer
unfoldable pub call : Call → TaskQueue → TaskQueue × Reply
call (try_push t) q = let (q', r) = task_queue_try_push q t in (q', pushed r)
call (push t) q = let (q', r) = task_queue_push q t in (q', pushed r)
call pop q = let (q', r) = task_queue_pop q in (q', popped r)
call shutdown q = (task_queue_shutdown q, nothing)

-- The list takes a task at its end unless it is shut, or full, where `busy` is the answer.
fifo_push : ℕ → Pushed → Task → Fifo → Fifo × Reply
fifo_push limit busy t f =
    if f.shut
    then (f, pushed closed)
    else if length f.tasks == limit
    then (f, pushed busy)
    else (record f { tasks = f.tasks ++ (t ∷ []) }, pushed accepted)

-- It gives its first task, also when it is shut.
fifo_pop : List Task → Bool → Fifo × Reply
fifo_pop [] shut = (record { tasks = []; shut = shut }, popped (if shut then drained else asleep))
fifo_pop (t ∷ ts) shut = (record { tasks = ts; shut = shut }, popped (task t))

pub fifo_call : ℕ → Call → Fifo → Fifo × Reply
unfolding fifo_push fifo_pop
fifo_call limit (try_push t) f = fifo_push limit full t f
fifo_call limit (push t) f = fifo_push limit waiting t f
fifo_call limit pop f = fifo_pop f.tasks f.shut
fifo_call limit shutdown f = (record f { shut = true }, nothing)

pub tasks_from_ne_zero :
    (items : List Task) (c h n : ℕ)
    → n ≢ 0
    → tasks_from items c h n ≡ get_or items h 0 ∷ tasks_from items c ((h + 1) % c) (n - 1)
tasks_from_ne_zero items c h zero p = absurd (p refl)
tasks_from_ne_zero items c h (suc n) p = ap (λ k. tasks_from items c h (suc k)) (omega arith)

next_head : (h n c : ℕ) → n ≢ 0 → (h + n) % c ≡ ((h + 1) % c + (n - 1)) % c
next_head h n c p = rw mod-add-mod (ap (λ k. k % c) (omega arith))

head_no_wrap : (q : TaskQueue) → IsValid q → add_size q.head 1 ≡ q.head + 1
head_no_wrap q v = ground arith

-- Each of the four calls leaves a valid ring buffer (`IsValid`) valid, with its capacity.
pub call-IsValid :
    (c : Call) (q : TaskQueue)
    → IsValid q
    → IsValid (call c q).0 × ((call c q).0.capacity ≡ q.capacity)
unfolding call task_queue_try_push task_queue_push task_queue_pop task_queue_shutdown
call-IsValid (try_push t) q v = ground (arith, enqueue-IsValid q t v)
call-IsValid (push t) q v = ground (arith, enqueue-IsValid q t v)
call-IsValid pop q v = ground (arith, head_no_wrap q v, next_head q.head q.count q.capacity)
call-IsValid shutdown q v = ground arith

-- Each of the four calls, on a valid ring buffer (`IsValid`), answers and changes what callers can
-- see as the list of at most `capacity` tasks does.
pub call_refines :
    (c : Call) (q : TaskQueue)
    → IsValid q
    → let (q', r) = call c q in (view q', r) ≡ fifo_call q.capacity c (view q)
unfolding call task_queue_try_push task_queue_push task_queue_pop task_queue_shutdown fifo_call
call_refines (try_push t) q v =
    ground (arith, contents-enqueue q t v, length-tasks_from q.items q.capacity q.head q.count)
call_refines (push t) q v =
    ground (arith, contents-enqueue q t v, length-tasks_from q.items q.capacity q.head q.count)
call_refines pop q v = ground (arith, tasks_from_ne_zero q.items q.capacity q.head q.count)
call_refines shutdown q v = refl

-- What a push that does not wait comes to.
abbrev pub PushOutcome : TaskQueue → Task → TaskQueue × Pushed → Type 0
PushOutcome q t (q', accepted) =
    (q.shutdown ≡ false) × (q'.shutdown ≡ false) × (contents q' ≡ contents q ++ (t ∷ []))
PushOutcome q t (q', _) = q' ≡ q

outcome_of_push :
    (q : TaskQueue) (t : Task) (s f : Bool)
    → IsValid q
    → q.shutdown ≡ s
    → (q.count == q.capacity) ≡ f
    → PushOutcome q t (if s then (q, closed) else if f then (q, full) else (enqueue q t, accepted))
unfolding enqueue
outcome_of_push q t true f v s e = refl
outcome_of_push q t false true v s e = refl
outcome_of_push q t false false v s e = (s, s, contents-enqueue q t v (ground arith))

pub try_push-PushOutcome :
    (q : TaskQueue) (t : Task) → IsValid q → PushOutcome q t (task_queue_try_push q t)
unfolding task_queue_try_push
try_push-PushOutcome q t v = outcome_of_push q t q.shutdown (q.count == q.capacity) v refl refl

abbrev pub PopOutcome : TaskQueue → TaskQueue × Popped → Type 0
PopOutcome q (q', task t) = (q'.shutdown ≡ q.shutdown) × (contents q ≡ t ∷ contents q')
PopOutcome q (q', drained) = (q' ≡ q) × (contents q ≡ []) × (q.shutdown ≡ true)
PopOutcome q (q', asleep) = (q' ≡ q) × (q.shutdown ≡ false)

contents_of_zero : (q : TaskQueue) → q.count ≡ 0 → contents q ≡ []
contents_of_zero q e = rw e

outcome_of_pop :
    (q : TaskQueue) (z s : Bool)
    → IsValid q
    → (q.count == 0) ≡ z
    → q.shutdown ≡ s
    → PopOutcome q (
        if z && not s then (q, asleep) else if s && z then (q, drained) else (
          record q { head = add_size q.head 1 % q.capacity; count = q.count - 1 },
          task (get_or q.items q.head 0),
        ))
outcome_of_pop q true false v z s = (refl, s)
outcome_of_pop q true true v z s = (refl, contents_of_zero q (ground arith), s)
outcome_of_pop q false true v z s =
    (refl, ground (arith, tasks_from_ne_zero q.items q.capacity q.head q.count, head_no_wrap q v))
outcome_of_pop q false false v z s =
    (refl, ground (arith, tasks_from_ne_zero q.items q.capacity q.head q.count, head_no_wrap q v))

pub pop-PopOutcome : (q : TaskQueue) → IsValid q → PopOutcome q (task_queue_pop q)
unfolding task_queue_pop
pop-PopOutcome q v = outcome_of_pop q (q.count == 0) q.shutdown v refl refl
