-- ===== src/Queue/Order.antt =====
-- The heap order, and how often a pointer occurs in the queue.
use lazy_os.Prelude.{
  ℕ, zero, suc, ◌+◌, ◌-◌, ◌≤◌, ◌<◌, ◌≡◌, refl, arith, ltb, ◌==◌, if◌then◌else◌, update,
}
use native.Mathlib.Numerals.{add-one}
use lazy_os.Queue.{parent, swap}

-- No process among the first `size` has a higher priority than its parent.
abbrev pub IsHeap : (prio slots : ℕ → ℕ) → (size : ℕ) → Type 0
IsHeap prio slots size = (c : ℕ) → 0 < c → c < size → prio (slots c) ≤ prio (slots (parent c))

-- How often `x` stands among the first `n` slots.
unfoldable pub count : (x : ℕ) → (ℕ → ℕ) → (n : ℕ) → ℕ
count x slots zero = 0
count x slots (suc n) = count x slots n + (if slots n == x then 1 else 0)

root_below :
    (k : ℕ) (prio slots : ℕ → ℕ) (size i : ℕ)
    → IsHeap prio slots size
    → i < k
    → i < size
    → prio (slots i) ≤ prio (slots 0)
root_below zero prio slots size i h f p = absurd (omega arith)
root_below (suc k) prio slots size zero h f p = omega arith
root_below (suc k) prio slots size (suc i) h f p =
    let up = h (suc i) (omega arith) p in
    let ih = root_below k prio slots size (parent (suc i)) h (omega arith) (omega arith) in
    omega arith

-- The root of a heap has the highest priority.
pub root-highest :
    (prio slots : ℕ → ℕ) (size i : ℕ)
    → IsHeap prio slots size
    → i < size
    → prio (slots i) ≤ prio (slots 0)
root-highest prio slots size i h p = root_below (suc i) prio slots size i h (omega arith) p

-- A write trades one occurrence of the old pointer for one of the new.
pub count-update :
    (x : ℕ) (slots : ℕ → ℕ) (n i v : ℕ)
    → count x (update slots i v) n + (if ltb i n then (if slots i == x then 1 else 0) else 0)
      ≡ count x slots n + (if ltb i n then (if v == x then 1 else 0) else 0)
unfolding count
count-update x slots zero i v = ground arith
count-update x slots (suc n) i v = ground (arith, count-update x slots n i v)

pub count-swap :
    (x : ℕ) (slots : ℕ → ℕ) (n a b : ℕ)
    → a < n
    → b < n
    → count x (swap slots a b) n ≡ count x slots n
unfolding swap
count-swap x slots n a b p q = ground (
  arith,
  count-update x slots n a (slots b),
  count-update x (update slots a (slots b)) n b (slots a),
)

pub count-snoc :
    (x : ℕ) (slots : ℕ → ℕ) (n v : ℕ)
    → count x (update slots n v) (n + 1) ≡ count x slots n + (if v == x then 1 else 0)
unfolding count
count-snoc x slots n v = rw add-one (ground (arith, count-update x slots n n v))

pub count-init :
    (x : ℕ) (slots : ℕ → ℕ) (n : ℕ)
    → 0 < n
    → count x slots n ≡ count x slots (n - 1) + (if slots (n - 1) == x then 1 else 0)
unfolding count
count-init x slots zero pos = absurd (omega arith)
count-init x slots (suc n) pos = let e : suc n - 1 ≡ n = omega arith in rw e refl
