-- ===== src/Process/Sound.antt =====
-- Where the processes are: each in the ready queue at most once, or on the processor.
use lazy_os.Prelude.{
  ℕ, zero, suc, ◌+◌, ◌≤◌, ◌<◌, ◌≡◌, ◌≢◌, refl, sym, subst, ◌∙◌, true, false, Option, none, some,
  arith, ◌==◌, if◌then◌else◌, Bool-cases, inl, inr,
}
use lazy_os.Queue.{PriorityQueue, pq_pop, pq_is_empty, parent}
use lazy_os.Queue.Order.{count}
use lazy_os.Queue.Push.{IsValid, holds}
use lazy_os.Queue.Pop.{IsPopped, pq_pop-IsPopped}
use lazy_os.Process.{
  ProcessState, unused, running, Machine, max_procs, set_state, priority_of, context_switch,
  pop_and_switch,
}
use lazy_os.Process.States.{IsUsed, Keeps, set_state-Keeps, context_switch-Keeps}

-- A process that stands in a queue is counted.
pub holds-slot : (slots : ℕ → ℕ) (n c : ℕ) → c < n → 0 < count (slots c) slots n
unfolding count
holds-slot slots zero c h = absurd (omega arith)
holds-slot slots (suc n) c h = elim (Bool-cases (c == n)) [
  | inl last ↦
      let e : c ≡ n = ground arith in
      let self : (slots n == slots n) ≡ true = ground arith in rw (e, self) (omega arith)
  | inr before ↦ let ih = holds-slot slots n c (ground arith) in omega arith
]

-- Slots below four: each place is one of four processes'.
count-four :
    (slots : ℕ → ℕ) (n : ℕ)
    → ((c : ℕ) → c < n → slots c < 4)
    → count 0 slots n + count 1 slots n + count 2 slots n + count 3 slots n ≡ n
unfolding count
count-four slots zero below = refl
count-four slots (suc n) below =
    let ih = count-four slots n (λ c h. below c (omega arith)) in
    let here = below n (omega arith) in ground arith

-- The order of a queue is that of its processes' priorities.
pub IsValid-prio :
    (prio prio' : ℕ → ℕ) (q : PriorityQueue)
    → ((c : ℕ) → c < q.size → prio' (q.slots c) ≡ prio (q.slots c))
    → IsValid prio q
    → IsValid prio' q
IsValid-prio prio prio' q same v = record {
  order = λ c pos inside. rw (same c inside, same (parent c) (omega arith)) (v.order c pos inside);
  bounded = v.bounded;
}

-- How often a process is on the processor.
abbrev pub on_it : (executing : Option ℕ) → (x : ℕ) → ℕ
on_it none x = 0
on_it (some p) x = if p == x then 1 else 0

-- The ready queue is in the order of the priorities; each process is in it or on the processor at most
-- once, and its slot is one of the four and in use.
pub record IsSound (executing : Option ℕ) (k : Machine) : Type 0 where
  pub valid : IsValid (priority_of k) k.ready_queue
  pub once : (x : ℕ) → holds x k.ready_queue + on_it executing x ≤ 1
  pub used : (x : ℕ) → 0 < holds x k.ready_queue + on_it executing x → IsUsed x k
  pub below : (x : ℕ) → 0 < holds x k.ready_queue + on_it executing x → x < max_procs

-- There is always room for one more.
pub IsSound-room : (e : Option ℕ) (k : Machine) → IsSound e k → k.ready_queue.size ≤ 4
IsSound-room e k is =
    let q = k.ready_queue in
    let all =
      count-four q.slots q.size
        (λ c h. is.below (q.slots c) (let here = holds-slot q.slots q.size c h in omega arith)) in
    let a = is.once 0 in let b = is.once 1 in let c = is.once 2 in let d = is.once 3 in omega arith

-- What an operation keeps that leaves the queue alone.
pub record IsAlike (k k' : Machine) : Type 0 where
  pub queue_lem : k'.ready_queue ≡ k.ready_queue
  pub priority_lem : (x : ℕ) → priority_of k' x ≡ priority_of k x
  pub keeps : Keeps k k'

pub IsSound-alike : (e : Option ℕ) (k k' : Machine) → IsAlike k k' → IsSound e k → IsSound e k'
unfolding priority_of
IsSound-alike e k k' same is = record {
  valid = rw same.queue_lem (
      IsValid-prio (priority_of k) (priority_of k') k.ready_queue
        (λ c h. same.priority_lem (k.ready_queue.slots c)) is.valid);
  once = λ x. rw same.queue_lem (is.once x);
  used = λ x h. same.keeps x (is.used x (rw same.queue_lem at h));
  below = λ x h. is.below x (rw same.queue_lem at h);
}

-- The processor is given up.
pub IsSound-idle : (e : Option ℕ) (k : Machine) → IsSound e k → IsSound none k
IsSound-idle e k is = record {
  valid = is.valid;
  once = λ x. let le = is.once x in omega arith;
  used = λ x h. is.used x (omega arith);
  below = λ x h. is.below x (omega arith);
}

IsAlike-trans : (k m n : Machine) → IsAlike k m → IsAlike m n → IsAlike k n
IsAlike-trans k m n a b = record {
  queue_lem = b.queue_lem ∙ a.queue_lem;
  priority_lem = λ x. b.priority_lem x ∙ a.priority_lem x;
  keeps = λ i h. b.keeps i (a.keeps i h);
}

set_state-priority :
    (p : ℕ) (state : ProcessState) (k : Machine) (x : ℕ)
    → ((set_state p state k).procs x).priority ≡ (k.procs x).priority
unfolding set_state
set_state-priority p state k x = elim (Bool-cases (p == x)) [
  | inl e ↦ let same : p ≡ x = ground arith in rw (e, same) refl
  | inr e ↦ rw e refl
]

pub set_state-IsAlike :
    (p : ℕ) (state : ProcessState) (k : Machine) → state ≢ unused → IsAlike k (set_state p state k)
unfolding set_state priority_of
set_state-IsAlike p state k ne = record {
  queue_lem = refl;
  priority_lem = set_state-priority p state k;
  keeps = set_state-Keeps p state k ne;
}

context_switch-priority :
    (esp : ℕ) (curr : Option ℕ) (next : ℕ) (k : Machine) (x : ℕ)
    → ((context_switch esp curr next k).procs x).priority ≡ (k.procs x).priority
unfolding context_switch
context_switch-priority esp none next k x = elim (Bool-cases (next == x)) [
  | inl e ↦ let same : next ≡ x = ground arith in rw (e, same) refl
  | inr e ↦ rw e refl
]
context_switch-priority esp (some curr) next k x = elim (Bool-cases (next == x)) [
  | inl e ↦
      let same : next ≡ x = ground arith in
      elim (Bool-cases (curr == x)) [
        | inl f ↦ let same' : curr ≡ x = ground arith in rw (e, same, f, same') refl
        | inr f ↦ rw (e, same, f) refl
      ]
  | inr e ↦ rw e (elim (Bool-cases (curr == x)) [
    | inl f ↦ let same : curr ≡ x = ground arith in rw (f, same) refl
    | inr f ↦ rw f refl
  ])
]

-- A switch leaves the queue and the process on the processor as they are.
context_switch-IsAlike :
    (esp : ℕ) (curr : Option ℕ) (next : ℕ) (k : Machine)
    → IsAlike k (context_switch esp curr next k)
      × ((context_switch esp curr next k).executing ≡ k.executing)
unfolding context_switch priority_of
context_switch-IsAlike esp none next k = (
  record {
    queue_lem = refl;
    priority_lem = context_switch-priority esp none next k;
    keeps = context_switch-Keeps esp none next k;
  },
  refl,
)
context_switch-IsAlike esp (some curr) next k = (
  record {
    queue_lem = refl;
    priority_lem = context_switch-priority esp (some curr) next k;
    keeps = context_switch-Keeps esp (some curr) next k;
  },
  refl,
)

-- The first process leaves the queue for the processor.
popped-IsSound :
    (k : Machine) (q : PriorityQueue)
    → IsPopped (priority_of k) k.ready_queue (k.ready_queue.slots 0) q
    → IsSound none k
    → IsSound (some (k.ready_queue.slots 0)) (record k { ready_queue = q })
unfolding priority_of
popped-IsSound k q popped is = record {
  valid = popped.valid;
  once = λ x. let le = is.once x in let same = popped.same x in omega arith;
  used = λ x h. is.used x (let same = popped.same x in omega arith);
  below = λ x h. is.below x (let same = popped.same x in omega arith);
}

-- What the machine is like after every operation.
abbrev pub AllSound : Machine → Type 0
AllSound k = IsSound k.executing k

pub switched-AllSound :
    (esp : ℕ) (curr : Option ℕ) (next : ℕ) (k : Machine)
    → IsSound k.executing k
    → AllSound (context_switch esp curr next k)
switched-AllSound esp curr next k is =
    let (alike, same) = context_switch-IsAlike esp curr next k in
    subst (λ e. IsSound e (context_switch esp curr next k)) (sym same)
      (IsSound-alike k.executing k (context_switch esp curr next k) alike is)

pub pop_and_switch-AllSound :
    (esp : ℕ) (curr : Option ℕ) (k : Machine)
    → pq_is_empty k.ready_queue ≡ false
    → IsSound none k
    → AllSound (pop_and_switch esp curr k)
unfolding pop_and_switch pq_is_empty
pop_and_switch-AllSound esp curr k more is =
    let (e, popped) =
      pq_pop-IsPopped (priority_of k) k.ready_queue is.valid (ground (arith, more)) in
    let first = k.ready_queue.slots 0 in
    let k1 = record k { ready_queue = (pq_pop (priority_of k) k.ready_queue).1 } in
    let alike = set_state-IsAlike first running k1 (λ t. cc) in
    let is1 =
      IsSound-alike (some first) k1 (set_state first running k1) alike
        (popped-IsSound k (pq_pop (priority_of k) k.ready_queue).1 popped is) in
    rw e (
      switched-AllSound esp curr first
        (record (set_state first running k1) { executing = some first })
        (record { valid = is1.valid; once = is1.once; used = is1.used; below = is1.below }))
