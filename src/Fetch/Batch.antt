-- ===== src/Fetch/Batch.antt =====
-- src/httpfetch.c: one batch of transfers and the feeds that are pending.
use newsbaoter.Common.{
  ℕ, zero, suc, bit_or, ◌+◌, ◌<◌, ◌≤◌, ◌≡◌, ◌⊎◌, refl, ◌∙◌, inl, inr, Bool, true, false, some, List,
  [], ◌∷◌, length, get_elem?, set, length-set, Bool-cases, if◌then◌else◌, arith,
}
use newsbaoter.Common.Int.{pos, ltbℤ}
use newsbaoter.Common.Run.{Returns}
use newsbaoter.Fetch.{
  UrlItem, FetchConfig, HttpData, Message, message_newentry, settle, finish_messages,
  process_multi_group, load_new_handles, cleanup_handles, http_fetch_init,
}
use newsbaoter.Fetch.Load.{is_due, start_due, due_positions, load_from-start_due}

abbrev pub All {ℓ κ} : {A : Type ℓ} → (A → Type κ) → List A → Type κ
All P [] = Unit
All P (x ∷ xs) = P x × All P xs

-- the feeds that this reload has not come to
unfoldable pub pending : List UrlItem → ℕ
pending [] = 0
pending (u ∷ ul) = (if ltbℤ u.n_httperr (pos 0) then 1 else 0) + pending ul

pub process_multi_group-rnp :
    (calls : List (Bool × ℕ)) (d : HttpData)
    → process_multi_group calls d ≡ record d { rnp = (process_multi_group calls d).rnp }
unfolding process_multi_group
process_multi_group-rnp [] d = refl
process_multi_group-rnp ((true, n) ∷ calls) d = process_multi_group-rnp calls (record d { rnp = n })
process_multi_group-rnp ((false, n) ∷ calls) d = refl

length-start_due :
    (config : FetchConfig) (k : ℕ) (ul : List UrlItem) → length (start_due config k ul) ≡ length ul
unfolding start_due
length-start_due config k [] = refl
length-start_due config zero (u ∷ ul) = ground (arith, length-start_due config 0 ul)
length-start_due config (suc k) (u ∷ ul) =
    ground (arith, length-start_due config k ul, length-start_due config (suc k) ul)

due_positions-lt :
    (config : FetchConfig) (k i n : ℕ) (ul : List UrlItem)
    → i + length ul ≤ n
    → All (λ p. p < n) (due_positions config k i ul)
unfolding due_positions
due_positions-lt config k i n [] h = tt
due_positions-lt config zero i n (u ∷ ul) h = elim (Bool-cases (is_due config u)) [
  | inl due ↦ rw due tt
  | inr over ↦ rw over (due_positions-lt config zero (i + 1) n ul (omega arith))
]
due_positions-lt config (suc k) i n (u ∷ ul) h = elim (Bool-cases (is_due config u)) [
  | inl due ↦ rw due (omega arith, due_positions-lt config k (i + 1) n ul (omega arith))
  | inr over ↦ rw over (due_positions-lt config (suc k) (i + 1) n ul (omega arith))
]

All-get {ℓ} :
    {P : ℕ → Type ℓ} (xs : List ℕ) (i : ℕ)
    → All P xs
    → i < length xs
    → (p : ℕ) × (get_elem? xs i ≡ some p) × P p
All-get [] i a h = absurd (omega arith)
All-get (x ∷ xs) zero a h = (x, refl, a.0)
All-get (x ∷ xs) (suc i) a h = All-get xs i a.1 (omega arith)

at_index : (ul : List UrlItem) (i : ℕ) → i < length ul → (u : UrlItem) × (get_elem? ul i ≡ some u)
at_index [] i h = absurd (omega arith)
at_index (u ∷ ul) zero h = (u, refl)
at_index (u ∷ ul) (suc i) h = at_index ul i (omega arith)

-- Between two calls of `handle_urls` in a reload.
pub record IsActive (ul : List UrlItem) (d : HttpData) : Type 0 where
  pub multi : d.has_multi ≡ true
  pub arrays : d.has_arrays ≡ true
  pub parallel : 0 < d.npara
  pub positions : All (λ p. p < length ul) d.ula

-- What a call of `handle_urls` leaves: the reload is over, or goes on with fewer feeds pending.
abbrev pub Advances : List UrlItem → List UrlItem × HttpData → Type 0
Advances ul (ul', d') =
    ((pending ul' ≡ 0) × (d'.has_multi ≡ false)) ⊎ ((pending ul' < pending ul) × IsActive ul' d')

-- `load_new_handles` ends the reload only when no feed was pending.
abbrev pub Loads : List UrlItem → List UrlItem × HttpData → Type 0
Loads ul (ul', d') =
    ((pending ul ≡ 0) × (pending ul' ≡ 0) × (d'.has_multi ≡ false))
    ⊎ ((pending ul' < pending ul) × IsActive ul' d')

module _ (config : FetchConfig) (r : ℕ) (retries : config.dl_retries ≡ pos r) where
  -- each node that is started leaves the pending ones
  pending-start_due :
      (k i : ℕ) (ul : List UrlItem)
      → r ≤ 1
      → pending (start_due config k ul) + length (due_positions config k i ul) ≡ pending ul
  unfolding start_due due_positions pending
  pending-start_due k i [] h = omega arith
  pending-start_due zero i (u ∷ ul) h =
      rw retries (ground (arith, pending-start_due zero (i + 1) ul h))
  pending-start_due (suc k) i (u ∷ ul) h =
      rw retries
        (ground (arith, pending-start_due k (i + 1) ul h, pending-start_due (suc k) (i + 1) ul h))

  none_due :
      (k i : ℕ) (ul : List UrlItem)
      → length (due_positions config (suc k) i ul) ≡ 0
      → pending ul ≡ 0
  unfolding due_positions pending
  none_due k i [] h = refl
  none_due k i (u ∷ ul) h = ground (arith, none_due k (i + 1) ul)

  settle_sign :
      (msg : Message) (u : UrlItem)
      → ltbℤ u.n_httperr (pos 0) ≡ false
      → ltbℤ (settle config msg u).n_httperr (pos 0) ≡ false
  unfolding settle
  settle_sign msg u h = rw retries (ground arith)

  pending-settle :
      (msg : Message) (ul : List UrlItem) (i : ℕ) (u : UrlItem)
      → get_elem? ul i ≡ some u
      → pending (set ul i (settle config msg u)) ≤ pending ul
  unfolding pending
  pending-settle msg [] i u h = cc
  pending-settle msg (x ∷ ul) zero u h = ground (arith, settle_sign msg u)
  pending-settle msg (x ∷ ul) (suc i) u h = omega (arith, pending-settle msg ul i u h)

  -- `finish_messages` does not fault; it changes `n_httperr` and `newentry` alone.
  pub finish_messages-Returns :
      (msgs : List Message) (ul : List UrlItem) (d : HttpData)
      → All (λ p. p < length ul) d.ula
      → All (λ m. m.handle < length d.ula) msgs
      → Returns (finish_messages config msgs ul d) λ r.
        (pending r.0 ≤ pending ul)
        × (length r.0 ≡ length ul)
        × (r.1 ≡ record d { newentry = r.1.newentry })
  unfolding finish_messages
  finish_messages-Returns [] ul d a b = ((ul, d), refl, (omega arith, refl, refl))
  finish_messages-Returns (msg ∷ msgs) ul d a b = elim (Bool-cases msg.is_done) [
    | inr other ↦ rw (other, finish_messages) (finish_messages-Returns msgs ul d a b.1)
    | inl done ↦
        let (p, at, lt) = All-get d.ula msg.handle a b.0 in
        let (u, read) = at_index ul p lt in
        let sized = length-set ul p (settle config msg u) in
        let (s, run, (fewer, same, kept)) =
          finish_messages-Returns msgs (set ul p (settle config msg u))
            (record d { newentry = bit_or d.newentry (message_newentry msg) }) (rw sized a) b.1 in
        (
          s,
          rw (done, finish_messages, at, read) run,
          (omega (arith, pending-settle msg ul p u read), same ∙ sized, kept),
        )
  ]

  pub load-Loads :
      (ul : List UrlItem) (d : HttpData)
      → r ≤ 1
      → d.has_multi ≡ true
      → d.has_arrays ≡ true
      → 0 < d.npara
      → Returns (load_new_handles config ul d) (Loads ul)
  unfolding load_new_handles cleanup_handles
  load-Loads ul d small m a p = loaded d.npara refl p
    where
      picked : ℕ → List ℕ
      picked k = due_positions config k 0 ul

      result :
          (k : ℕ)
          → d.npara ≡ suc k
          → (n : ℕ) → length (picked (suc k)) ≡ n
          → Returns (load_new_handles config ul d) (Loads ul)
      result k e zero none_picked = (
        (start_due config (suc k) ul, record d { has_multi = false; has_arrays = false; ula = [] }),
        rw (e, load_from-start_due config r retries (suc k) 0 ul, none_picked, a),
        inl (
          none_due k 0 ul none_picked,
          omega (arith, pending-start_due (suc k) 0 ul small, none_due k 0 ul none_picked),
          refl,
        ),
      )
      result k e (suc n) some_picked = (
        (start_due config (suc k) ul, record d { ula = picked (suc k) }),
        rw (e, load_from-start_due config r retries (suc k) 0 ul, some_picked) (ground arith),
        inr (
          omega (arith, pending-start_due (suc k) 0 ul small),
          record {
            multi = m;
            arrays = a;
            parallel = p;
            positions =
                rw length-start_due
                  (due_positions-lt config (suc k) 0 (length ul) ul (omega arith));
          },
        ),
      )

      loaded : (k : ℕ) → d.npara ≡ k → 0 < k → Returns (load_new_handles config ul d) (Loads ul)
      loaded zero e h = absurd (omega arith)
      loaded (suc k) e h = result k e (length (picked (suc k))) refl

  pub http_fetch_init-open :
      (p : ℕ) (ul : List UrlItem) (d : HttpData)
      → config.parallel_reload ≡ pos (suc p)
      → ((http_fetch_init config ul d).1.has_multi ≡ true)
        × ((http_fetch_init config ul d).1.has_arrays ≡ true)
        × (0 < (http_fetch_init config ul d).1.npara)
  unfolding http_fetch_init
  http_fetch_init-open p ul d para = (refl, refl, rw para (omega arith))

  pub pending-unfetched :
      (ul : List UrlItem) (d : HttpData) → pending (http_fetch_init config ul d).0 ≡ length ul
  unfolding http_fetch_init pending
  pending-unfetched [] d = refl
  pending-unfetched (u ∷ ul) d = omega (arith, pending-unfetched ul d)
