-- ===== src/Queue.antt =====
-- src/queue/queue.c and queue.h: the priority queue of processes, a binary max-heap of pointers.
-- A pointer to a process is a number; `prio` reads the priority of the process that it points to.
pub mod Order
pub mod Up
pub mod Down
pub mod Push
pub mod Pop
mod Tests
use lazy_os.Prelude.{
  ℕ, zero, suc, ◌+◌, ◌-◌, ◌*◌, ◌/◌, Bool, ◌&&◌, Option, none, some, ltb, leb, ◌==◌, if◌then◌else◌,
  update,
}

abbrev pub max_processes : ℕ
max_processes = 256

-- The slots of `data` and `size`.
pub record PriorityQueue : Type 0 where
  pub slots : ℕ → ℕ
  pub size : ℕ

unfoldable pub swap : (ℕ → ℕ) → (a b : ℕ) → ℕ → ℕ
swap slots a b = update (update slots a (slots b)) b (slots a)

abbrev pub parent : ℕ → ℕ
parent i = (i - 1) / 2

-- The loop of `bubble_up`: `i` at least halves, so `i` rounds are enough.
unfoldable pub bubble_up_loop : (fuel : ℕ) → (prio : ℕ → ℕ) → (ℕ → ℕ) → (i : ℕ) → ℕ → ℕ
unfolding swap
bubble_up_loop zero prio slots i = slots
bubble_up_loop (suc fuel) prio slots i =
    let risen = bubble_up_loop fuel prio (swap slots i (parent i)) (parent i) in
    if ltb 0 i && ltb (prio (slots (parent i))) (prio (slots i)) then risen else slots

unfoldable pub bubble_up : (prio : ℕ → ℕ) → (ℕ → ℕ) → (i : ℕ) → ℕ → ℕ
unfolding bubble_up_loop
bubble_up prio slots i = bubble_up_loop (i + 1) prio slots i

-- The index of the largest of `i` and its children below `size`.
unfoldable pub largest_of : (prio : ℕ → ℕ) → (ℕ → ℕ) → (size i : ℕ) → ℕ
largest_of prio slots size i =
    let left = 2 * i + 1 in
    let right = 2 * i + 2 in
    let largest = if ltb left size && ltb (prio (slots i)) (prio (slots left)) then left else i in
    if ltb right size && ltb (prio (slots largest)) (prio (slots right)) then right else largest

-- The loop of `bubble_down`: `i` grows and stays below `size`, so `size` rounds are enough.
unfoldable pub bubble_down_loop : (fuel : ℕ) → (prio : ℕ → ℕ) → (ℕ → ℕ) → (size i : ℕ) → ℕ → ℕ
unfolding largest_of swap
bubble_down_loop zero prio slots size i = slots
bubble_down_loop (suc fuel) prio slots size i =
    let largest = largest_of prio slots size i in
    let sunk = bubble_down_loop fuel prio (swap slots i largest) size largest in
    if largest == i then slots else sunk

unfoldable pub bubble_down : (prio : ℕ → ℕ) → (ℕ → ℕ) → (size i : ℕ) → ℕ → ℕ
unfolding bubble_down_loop
bubble_down prio slots size i = bubble_down_loop (size + 1) prio slots size i

unfoldable pub pq_init : PriorityQueue → PriorityQueue
pq_init q = record q { size = 0 }

unfoldable pub pq_push : (prio : ℕ → ℕ) → PriorityQueue → ℕ → PriorityQueue
unfolding bubble_up
pq_push prio q proc =
    if leb max_processes q.size
    then q
    else record { slots = bubble_up prio (update q.slots q.size proc) q.size; size = q.size + 1 }

unfoldable pub pq_pop : (prio : ℕ → ℕ) → PriorityQueue → Option ℕ × PriorityQueue
unfolding bubble_down
pq_pop prio q =
    let size = q.size - 1 in
    if q.size == 0 then (none, q) else (
      some (q.slots 0),
      record { slots = bubble_down prio (update q.slots 0 (q.slots size)) size 0; size = size },
    )

unfoldable pub pq_peek : PriorityQueue → Option ℕ
pq_peek q = if q.size == 0 then none else some (q.slots 0)

unfoldable pub pq_is_empty : PriorityQueue → Bool
pq_is_empty q = q.size == 0
