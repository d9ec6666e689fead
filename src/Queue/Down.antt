-- ===== src/Queue/Down.antt =====
-- `bubble_down` restores the order below one slot.
use lazy_os.Prelude.{
  ℕ, zero, suc, ◌+◌, ◌-◌, ◌*◌, ◌≤◌, ◌<◌, ◌≡◌, ◌≢◌, refl, arith, ◌==◌, Bool-cases, inl, inr, ◌⊎◌,
}
use lazy_os.Queue.{parent, swap, largest_of, bubble_down_loop, bubble_down}
use lazy_os.Queue.Up.{IsRestored, IsRestored-swap}

-- Only the order between `i` and its children may fail.
pub record DownInv (prio slots : ℕ → ℕ) (size i : ℕ) : Type 0 where
  pub edges : (c : ℕ) → 0 < c → c < size → parent c ≢ i → prio (slots c) ≤ prio (slots (parent c))
  pub bridged :
      (c : ℕ) → 0 < c → c < size → parent c ≡ i → 0 < i → prio (slots c) ≤ prio (slots (parent i))

-- `m` is `i` or a child of higher priority, and no child of `i` has a higher one than `m`.
record IsLargest (prio slots : ℕ → ℕ) (size i m : ℕ) : Type 0 where
  place : (m ≡ i) ⊎ ((m < size) × (0 < m) × (parent m ≡ i) × (prio (slots i) < prio (slots m)))
  top : (c : ℕ) → 0 < c → c < size → parent c ≡ i → prio (slots c) ≤ prio (slots m)
  self : prio (slots i) ≤ prio (slots m)

largest_of-top :
    (prio slots : ℕ → ℕ) (size i c : ℕ)
    → 0 < c
    → c < size
    → parent c ≡ i
    → prio (slots c) ≤ prio (slots (largest_of prio slots size i))
unfolding largest_of
largest_of-top prio slots size i c p q r = elim (Bool-cases (c == 2 * i + 1)) [
  | inl e ↦ let left : c ≡ 2 * i + 1 = ground arith in ground arith
  | inr e ↦ let right : c ≡ 2 * i + 2 = ground arith in ground arith
]

largest_of-IsLargest :
    (prio slots : ℕ → ℕ) (size i : ℕ) → IsLargest prio slots size i (largest_of prio slots size i)
unfolding largest_of
largest_of-IsLargest prio slots size i = record {
  place = ground arith;
  top = λ c p q r. largest_of-top prio slots size i c p q r;
  self = ground arith;
}

swap-DownInv :
    (prio slots : ℕ → ℕ) (size i m : ℕ)
    → DownInv prio slots size i
    → IsLargest prio slots size i m
    → m ≢ i
    → DownInv prio (swap slots i m) size m
unfolding swap
swap-DownInv prio slots size i m v l ne = record {
  edges = λ c p q r. ground (arith, v.edges c, v.bridged m, l.top c, l.place, l.self);
  bridged = λ c p q r s. ground (arith, v.edges c, l.place);
}

bubble_down_loop-restores :
    (fuel : ℕ) (prio slots : ℕ → ℕ) (size i : ℕ)
    → size - i < fuel
    → DownInv prio slots size i
    → IsRestored prio slots (bubble_down_loop fuel prio slots size i) size
unfolding bubble_down_loop
bubble_down_loop-restores zero prio slots size i f v = absurd (omega arith)
bubble_down_loop-restores (suc fuel) prio slots size i f v =
    let m = largest_of prio slots size i in
    let l = largest_of-IsLargest prio slots size i in
    elim (Bool-cases (m == i)) [
      | inl stays ↦ rw stays (record {
        order = λ c q r. ground (arith, v.edges c, l.top c);
        same = λ x. refl;
        beyond = λ j h. refl;
      })
      | inr sinks ↦
          let inside : m < size = ground (arith, l.place) in
          rw sinks (
            IsRestored-swap (ground (arith, l.place)) inside (
              bubble_down_loop-restores fuel prio (swap slots i m) size m (ground (arith, l.place))
                (swap-DownInv prio slots size i m v l (ground arith))))
    ]

-- With one process too high in the tree `bubble_down` restores the heap order of the same processes.
pub bubble_down-restores :
    (prio slots : ℕ → ℕ) (size i : ℕ)
    → DownInv prio slots size i
    → IsRestored prio slots (bubble_down prio slots size i) size
unfolding bubble_down
bubble_down-restores prio slots size i v =
    bubble_down_loop-restores (size + 1) prio slots size i (omega arith) v
