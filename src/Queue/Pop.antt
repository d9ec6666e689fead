-- ===== src/Queue/Pop.antt =====
-- What `pq_pop` removes.
use lazy_os.Prelude.{
  ℕ, ◌+◌, ◌-◌, ◌≤◌, ◌<◌, ◌≡◌, refl, arith, false, ◌==◌, if◌then◌else◌, update, some,
}
use lazy_os.Queue.{PriorityQueue, bubble_down, pq_pop}
use lazy_os.Queue.Order.{count, count-update, count-init, root-highest}
use lazy_os.Queue.Up.{IsRestored}
use lazy_os.Queue.Down.{DownInv, bubble_down-restores}
use lazy_os.Queue.Push.{IsValid, holds}

-- `top` is a process of the highest priority, and `after` a valid queue of the others.
pub record IsPopped (prio : ℕ → ℕ) (before : PriorityQueue) (top : ℕ) (after : PriorityQueue)
    : Type 0 where
  pub valid : IsValid prio after
  pub size_lem : after.size + 1 ≡ before.size
  pub same : (x : ℕ) → holds x before ≡ holds x after + (if top == x then 1 else 0)
  pub highest : (i : ℕ) → i < before.size → prio (before.slots i) ≤ prio top

-- What the write of the last process over the root, and `bubble_down`, leave.
module _ (prio : ℕ → ℕ) (q : PriorityQueue) (v : IsValid prio q) (pos : 0 < q.size) where
  abbrev rest : ℕ → ℕ
  rest = update q.slots 0 (q.slots (q.size - 1))

  rest-count : (x : ℕ) → holds x q ≡ count x rest (q.size - 1) + (if q.slots 0 == x then 1 else 0)
  rest-count x = ground (
    arith,
    count-init x q.slots q.size pos,
    count-update x q.slots (q.size - 1) 0 (q.slots (q.size - 1)),
  )

  rest-DownInv : DownInv prio rest (q.size - 1) 0
  rest-DownInv = record {
    edges = λ c p r s. ground (arith, v.order c);
    bridged = λ c p r s t. absurd (omega arith);
  }

  rest-IsRestored : IsRestored prio rest (bubble_down prio rest (q.size - 1) 0) (q.size - 1)
  rest-IsRestored = bubble_down-restores prio rest (q.size - 1) 0 rest-DownInv

-- On a queue in heap order that is within its bounds and not empty, `pq_pop` returns its first
-- process, which has the highest priority, and leaves exactly the others in heap order.
pub pq_pop-IsPopped :
    (prio : ℕ → ℕ) (q : PriorityQueue)
    → IsValid prio q
    → 0 < q.size
    → ((pq_pop prio q).0 ≡ some (q.slots 0)) × IsPopped prio q (q.slots 0) (pq_pop prio q).1
unfolding pq_pop
pq_pop-IsPopped prio q v pos =
    let test : (q.size == 0) ≡ false = ground arith in
    let r = rest-IsRestored prio q v pos in
    rw test (
      refl,
      record {
        valid = record { order = r.order; bounded = omega (arith, v.bounded) };
        size_lem = omega arith;
        same = λ x. ground (arith, rest-count prio q v pos x, r.same x);
        highest = λ i h. root-highest prio q.slots q.size i v.order h;
      },
    )
