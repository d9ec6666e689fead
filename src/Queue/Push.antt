-- ===== src/Queue/Push.antt =====
-- What `pq_push` adds.
use lazy_os.Prelude.{
  ℕ, ◌+◌, ◌≤◌, ◌<◌, ◌≡◌, refl, ◌∙◌, arith, false, leb, ◌==◌, if◌then◌else◌, update,
}
use lazy_os.Queue.{PriorityQueue, max_processes, pq_push}
use lazy_os.Queue.Order.{IsHeap, count, count-snoc}
use lazy_os.Queue.Up.{UpInv, bubble_up-restores}

-- A queue within its bounds, in heap order.
pub record IsValid (prio : ℕ → ℕ) (q : PriorityQueue) : Type 0 where
  pub order : IsHeap prio q.slots q.size
  pub bounded : q.size ≤ max_processes

-- How often the queue holds `x`.
abbrev pub holds : ℕ → PriorityQueue → ℕ
holds x q = count x q.slots q.size

-- `after` is a valid queue of the processes of `before` and `proc`, and no slot past it changed.
pub record IsPushed (prio : ℕ → ℕ) (before : PriorityQueue) (proc : ℕ) (after : PriorityQueue)
    : Type 0 where
  pub valid : IsValid prio after
  pub size_lem : after.size ≡ before.size + 1
  pub same : (x : ℕ) → holds x after ≡ holds x before + (if proc == x then 1 else 0)
  pub beyond : (j : ℕ) → before.size < j → after.slots j ≡ before.slots j

-- With room in a queue in heap order, `pq_push` adds exactly the process, and keeps the heap
-- order.
pub pq_push-IsPushed :
    (prio : ℕ → ℕ) (q : PriorityQueue) (proc : ℕ)
    → IsValid prio q
    → q.size < max_processes
    → IsPushed prio q proc (pq_push prio q proc)
unfolding pq_push
pq_push-IsPushed prio q proc v room =
    let test : leb max_processes q.size ≡ false = ground arith in
    let start : UpInv prio (update q.slots q.size proc) (q.size + 1) q.size = record {
      inside = omega arith;
      edges = λ c p r s. ground (arith, v.order c);
      bridged = λ c p r s t. absurd (omega arith);
    } in
    let r = bubble_up-restores prio (update q.slots q.size proc) (q.size + 1) q.size start in
    rw test (record {
      valid = record { order = r.order; bounded = omega arith };
      size_lem = refl;
      same = λ x. r.same x ∙ count-snoc x q.slots q.size proc;
      beyond = λ j h. r.beyond j (omega arith) ∙ ground arith;
    })
