-- ===== src/Queue/Ring.antt =====
-- src/queue/queue.c: the slots of the ring in use, as a list of values.
use pmem_rts_cache.Common.{
  ℕ, zero, suc, ◌+◌, ◌%◌, ◌<◌, ◌≡◌, ◌≢◌, refl, sym, ◌∙◌, subst, ap, ap₂, List, [], ◌∷◌, ◌++◌,
  length, get_or, set, arith, get_or-set, ne→==_false,
}
use native.Mathlib.Nat.{add-zero}
use pmem_rts_cache.Queue.{Slot, unset, live, freed}

abbrev pub value_of : Slot → ℕ
value_of unset = 0
value_of (live value) = value
value_of freed = 0

-- Fewer than `cap` steps round the ring do not come back to the start.
pub mod-add-ne : (cap i d : ℕ) → 0 < d → d < cap → (i + d) % cap ≢ i % cap
mod-add-ne cap i d p q = grind arith

module _ (cap : ℕ) where
  -- The values of the `n` slots from index `i` on.
  unfoldable pub window : List Slot → ℕ → ℕ → List ℕ
  window slots i zero = []
  window slots i (suc n) = value_of (get_or slots (i % cap) unset) ∷ window slots (i + 1) n

  -- A slot that is not in the window does not count.
  pub window-set :
      (slots : List Slot) (i n j : ℕ) (s : Slot)
      → j % cap < length slots
      → ((k : ℕ) → k < n → (i + k) % cap ≢ j % cap)
      → window (set slots (j % cap) s) i n ≡ window slots i n
  unfolding window
  window-set slots i zero j s h away = refl
  window-set slots i (suc n) j s h away =
      let first : get_or (set slots (j % cap) s) (i % cap) unset ≡ get_or slots (i % cap) unset =
        rw
          (
            get_or-set slots (j % cap) (i % cap) s unset h,
            ne→==_false (j % cap) (i % cap) (λ e. away 0 (omega arith) (rw (add-zero i) (sym e))),
          )
          refl in
      ap₂ (λ x vs. value_of x ∷ vs) first
        (window-set slots (i + 1) n j s h
          (λ k p. subst (λ t. t % cap ≢ j % cap) (omega arith) (away (suc k) (omega arith))))

  pub window-snoc :
      (slots : List Slot) (i n : ℕ)
      → window slots i (suc n)
        ≡ window slots i n ++ value_of (get_or slots ((i + n) % cap) unset) ∷ []
  unfolding window
  window-snoc slots i zero = rw (add-zero i)
  window-snoc slots i (suc n) =
      ap (λ vs. value_of (get_or slots (i % cap) unset) ∷ vs)
        (window-snoc slots (i + 1) n
          ∙ ap (λ t. window slots (i + 1) n ++ value_of (get_or slots (t % cap) unset) ∷ [])
              (omega arith))

  pub length-window : (slots : List Slot) (i n : ℕ) → length (window slots i n) ≡ n
  unfolding window
  length-window slots i zero = refl
  length-window slots i (suc n) = ap suc (length-window slots (i + 1) n)
