-- ===== src/Queue/Up.antt =====
-- `bubble_up` restores the order above one slot.
use lazy_os.Prelude.{
  ℕ, zero, suc, ◌+◌, ◌≤◌, ◌<◌, ◌≡◌, ◌≢◌, refl, ◌∙◌, arith, ltb, ◌&&◌, Bool-cases, inl, inr,
}
use lazy_os.Queue.{parent, swap, bubble_up_loop, bubble_up}
use lazy_os.Queue.Order.{IsHeap, count, count-swap}

-- Only the order between `i` and its parent may fail.
pub record UpInv (prio slots : ℕ → ℕ) (size i : ℕ) : Type 0 where
  pub inside : i < size
  pub edges : (c : ℕ) → 0 < c → c < size → c ≢ i → prio (slots c) ≤ prio (slots (parent c))
  pub bridged :
      (c : ℕ) → 0 < c → c < size → parent c ≡ i → 0 < i → prio (slots c) ≤ prio (slots (parent i))

-- What a loop leaves: the same pointers in heap order, and nothing written past `size`.
pub record IsRestored (prio before after : ℕ → ℕ) (size : ℕ) : Type 0 where
  pub order : IsHeap prio after size
  pub same : (x : ℕ) → count x after size ≡ count x before size
  pub beyond : (j : ℕ) → size ≤ j → after j ≡ before j

pub IsRestored-swap :
    {prio before after : ℕ → ℕ} {size a b : ℕ}
    → a < size
    → b < size
    → IsRestored prio (swap before a b) after size
    → IsRestored prio before after size
unfolding swap
IsRestored-swap {before} {size} {a} {b} p q r = record {
  order = r.order;
  same = λ x. r.same x ∙ count-swap x before size a b p q;
  beyond = λ j h. ground (arith, r.beyond j);
}

swap-UpInv :
    (prio slots : ℕ → ℕ) (size i : ℕ)
    → UpInv prio slots size i
    → 0 < i
    → prio (slots (parent i)) < prio (slots i)
    → UpInv prio (swap slots i (parent i)) size (parent i)
unfolding swap
swap-UpInv prio slots size i v pos above = record {
  inside = omega (arith, v.inside);
  edges = λ c p q r. ground (arith, v.edges c, v.bridged c);
  bridged = λ c p q r s. ground (arith, v.edges c, v.edges (parent i), v.inside);
}

bubble_up_loop-restores :
    (fuel : ℕ) (prio slots : ℕ → ℕ) (size i : ℕ)
    → i < fuel
    → UpInv prio slots size i
    → IsRestored prio slots (bubble_up_loop fuel prio slots i) size
unfolding bubble_up_loop
bubble_up_loop-restores zero prio slots size i f v = absurd (omega arith)
bubble_up_loop-restores (suc fuel) prio slots size i f v =
    elim (Bool-cases (ltb 0 i && ltb (prio (slots (parent i))) (prio (slots i)))) [
      | inl up ↦ rw up (
          IsRestored-swap v.inside (omega (arith, v.inside)) (
            bubble_up_loop-restores fuel prio (swap slots i (parent i)) size (parent i)
              (ground arith) (swap-UpInv prio slots size i v (ground arith) (ground arith))))
      | inr settled ↦ rw settled (record {
        order = λ c p q. ground (arith, v.edges c);
        same = λ x. refl;
        beyond = λ j h. refl;
      })
    ]

-- With one process too low in the tree `bubble_up` restores the heap order of the same processes.
pub bubble_up-restores :
    (prio slots : ℕ → ℕ) (size i : ℕ)
    → UpInv prio slots size i
    → IsRestored prio slots (bubble_up prio slots i) size
unfolding bubble_up
bubble_up-restores prio slots size i v =
    bubble_up_loop-restores (i + 1) prio slots size i (omega arith) v
