-- ===== src/Fetch/Load.antt =====
-- src/httpfetch.c, the loop of `load_new_handles` against the nodes that are due.
use newsbaoter.Common.{
  ℕ, zero, suc, ◌+◌, ◌≡◌, refl, inl, inr, Bool, false, not, ◌&&◌, ◌||◌, List, [], ◌∷◌, ◌++◌, take,
  drop, Bool-cases, if◌then◌else◌, arith,
}
use native.Mathlib.Nat.{add-zero}
use newsbaoter.Common.Int.{pos, ltbℤ}
use newsbaoter.Fetch.{UrlItem, FetchConfig, skip_over, advance, start, load_from, is_over}

module _ (config : FetchConfig) where
  -- not fetched in this cycle, or failed fewer times than is allowed
  abbrev pub is_due : UrlItem → Bool
  is_due u =
      ltbℤ u.n_httperr (pos 0) || (ltbℤ (pos 0) u.n_httperr && ltbℤ u.n_httperr config.dl_retries)

  -- The first `k` due nodes are started.
  unfoldable pub start_due : ℕ → List UrlItem → List UrlItem
  start_due k [] = []
  start_due k (u ∷ ul) =
      if is_due u
      then elim k [ zero ↦ u ∷ ul | suc n ↦ start u ∷ start_due n ul ]
      else u ∷ start_due k ul

  -- the positions of the first `k` due nodes, counted from `i`
  unfoldable pub due_positions : ℕ → ℕ → List UrlItem → List ℕ
  due_positions k i [] = []
  due_positions k i (u ∷ ul) =
      if is_due u
      then elim k [ zero ↦ [] | suc n ↦ i ∷ due_positions n (i + 1) ul ]
      else due_positions k (i + 1) ul

  start_due-zero : (ul : List UrlItem) → start_due 0 ul ≡ ul
  unfolding start_due
  start_due-zero [] = refl
  start_due-zero (u ∷ ul) = ground (arith, start_due-zero ul)

  due_positions-zero : (i : ℕ) (ul : List UrlItem) → due_positions 0 i ul ≡ []
  unfolding due_positions
  due_positions-zero i [] = refl
  due_positions-zero i (u ∷ ul) = ground (arith, due_positions-zero (i + 1) ul)

  module _ (r : ℕ) (retries : config.dl_retries ≡ pos r) where
    is_over-due : (u : UrlItem) → is_over config u ≡ not (is_due u)
    is_over-due u = rw retries (ground arith)

    advance-skip_over : (ul : List UrlItem) → advance config ul ≡ skip_over config ul
    unfolding advance skip_over
    advance-skip_over [] = refl
    advance-skip_over (u ∷ ul) = rw retries (ground arith)

    -- The node that the loop stops at, or the end of the list.
    data Stops (k i : ℕ) (ul : List UrlItem) (n : ℕ) : Type 0 where
      at_end :
          drop n ul ≡ []
          → start_due (suc k) ul ≡ ul
          → due_positions (suc k) i ul ≡ []
          → Stops k i ul n
      at_node :
          (u : UrlItem) (rest : List UrlItem)
          → drop n ul ≡ u ∷ rest
          → start_due (suc k) ul ≡ take n ul ++ start u ∷ start_due k rest
          → due_positions (suc k) i ul ≡ (i + n) ∷ due_positions k (i + n + 1) rest
          → Stops k i ul n

    skip_over-Stops : (k i : ℕ) (ul : List UrlItem) → Stops k i ul (skip_over config ul)
    unfolding skip_over start_due due_positions
    skip_over-Stops k i [] = at_end refl refl refl
    skip_over-Stops k i (u ∷ ul) = elim (Bool-cases (is_due u)) [
      | inl due ↦ rw (is_over-due u, due) (at_node u ul refl (rw due) (rw (due, add-zero i)))
      | inr over ↦ rw (is_over-due u, over) (passed over (skip_over-Stops k (i + 1) ul))
    ]
      where
        passed :
            is_due u ≡ false
            → Stops k (i + 1) ul (skip_over config ul)
            → Stops k i (u ∷ ul) (suc (skip_over config ul))
        passed over (at_end d s p) = at_end d (rw (over, s)) (rw (over, p))
        passed over (at_node v rest d s p) =
            let shift : i + 1 + skip_over config ul ≡ i + suc (skip_over config ul) = omega arith in
            at_node v rest d (rw (over, s)) (rw (over, p, shift))

    -- With a number of retries that is not negative, `load_new_handles` starts the first `k` nodes
    -- that are due, leaves the others as they are, and notes the positions in the order of the list.
    pub load_from-start_due :
        (k i : ℕ) (ul : List UrlItem)
        → load_from config k i ul ≡ (start_due k ul, due_positions k i ul)
    unfolding load_from
    load_from-start_due zero i ul = rw (start_due-zero ul, due_positions-zero i ul)
    load_from-start_due (suc k) i ul =
        loaded (skip_over-Stops k i ul) (λ rest j. load_from-start_due k j rest)
      where
        loaded :
            Stops k i ul (skip_over config ul)
            → ((rest : List UrlItem) (j : ℕ)
                → load_from config k j rest ≡ (start_due k rest, due_positions k j rest))
            → load_from config (suc k) i ul ≡ (start_due (suc k) ul, due_positions (suc k) i ul)
        loaded (at_end d s p) ih = rw (advance-skip_over ul, load_from, d, s, p)
        loaded (at_node u rest d s p) ih = rw (
          advance-skip_over ul,
          load_from,
          d,
          s,
          p,
          advance-skip_over ul,
          ih rest (i + skip_over config ul + 1),
        )
