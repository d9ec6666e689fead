-- ===== src/Queue/Tests.antt =====
-- The queue's theorems on a queue of three processes.
use lazy_os.Prelude.{◌≡◌, arith, some, ◌==◌, if◌then◌else◌}
use lazy_os.Queue.{PriorityQueue, pq_push, pq_pop}
use lazy_os.Queue.Push.{IsValid, IsPushed, pq_push-IsPushed}
use lazy_os.Queue.Pop.{IsPopped, pq_pop-IsPopped}

-- Process `p` has the priority `p`.
abbrev three : PriorityQueue
three = record { slots = λ i. if i == 0 then 3 else if i == 1 then 1 else 2; size = 3 }

three-IsValid : IsValid (λ p. p) three
three-IsValid = record { order = λ c p q. ground arith; bounded = omega arith }

pq_push-IsPushed_example : IsPushed (λ p. p) three 4 (pq_push (λ p. p) three 4)
pq_push-IsPushed_example = pq_push-IsPushed (λ p. p) three 4 three-IsValid (omega arith)

pq_pop-IsPopped_example :
    ((pq_pop (λ p. p) three).0 ≡ some 3) × IsPopped (λ p. p) three 3 (pq_pop (λ p. p) three).1
pq_pop-IsPopped_example = pq_pop-IsPopped (λ p. p) three three-IsValid (omega arith)
