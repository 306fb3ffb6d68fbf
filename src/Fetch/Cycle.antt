-- ===== src/Fetch/Cycle.antt =====
-- src/httpfetch.c: a whole reload in which no failed transfer is tried again.
use newsbaoter.Common.{
  ℕ, zero, suc, ◌+◌, ◌*◌, subst, ◌<◌, ◌≤◌, ◌≡◌, ◌≢◌, ◌⊎◌, refl, inl, inr, true, false, Option, none,
  some, List, [], ◌∷◌, length, arith,
}
use newsbaoter.Common.Int.{pos, negsuc}
use newsbaoter.Common.Run.{Run, ok, fault, Returns}
use newsbaoter.Fetch.{
  UrlItem, FetchConfig, HttpData, Curl, finish_messages, process_multi_group, process_batch,
  load_new_handles, handle_urls, http_fetch_init, fetch_result,
}
use newsbaoter.Fetch.Batch.{
  All, pending, process_multi_group-rnp, finish_messages-Returns, load-Loads, http_fetch_init-open,
  pending-unfetched, IsActive,
}

-- The calls of `handle_urls` until one says that the reload is over; `curl k` answers the `k`-th.
unfoldable pub run_cycle :
    ℕ
    → ℕ
    → FetchConfig
    → (ℕ → HttpData → Curl)
    → List UrlItem
    → HttpData
    → Run (Option (List UrlItem × HttpData × ℕ))
run_cycle zero k config curl ul d = ok none
run_cycle (suc calls) k config curl ul d = elim (handle_urls config ul d (curl k)) [
  | fault e ↦ fault e
  | ok (ul', d', pos n) ↦ ok (some (ul', d', n))
  | ok (ul', d', negsuc n) ↦ run_cycle calls (k + 1) config curl ul' d'
]

-- Every batch ends: while transfers are running, ever fewer calls are left until none is, at most
-- `wait` behind the first. The messages that are there when none is running name handles of the batch.
pub record BatchesEnd (curl : ℕ → HttpData → Curl) (wait : ℕ) : Type 0 where
  pub left : ℕ → HttpData → ℕ
  pub bounded : (k : ℕ) (d : HttpData) → left k d ≤ wait
  pub falls :
      (k : ℕ) (d : HttpData)
      → ((process_multi_group (curl k d).performs d).rnp ≡ 0)
        ⊎ (left (k + 1) (process_multi_group (curl k d).performs d) < left k d)
  pub handles :
      (k : ℕ) (d : HttpData)
      → (process_multi_group (curl k d).performs d).rnp ≡ 0
      → All (λ m. m.handle < length d.ula) (curl k d).messages

-- The reload is over: no feed is pending, and `cm` is NULL again.
abbrev pub Over : Option (List UrlItem × HttpData × ℕ) → Type 0
Over none = ⊥
Over (some (ul', d', n)) = (pending ul' ≡ 0) × (d'.has_multi ≡ false)

zero_or_more : (n : ℕ) → (n ≡ 0) ⊎ (0 < n)
zero_or_more zero = inl refl
zero_or_more (suc n) = inr (omega arith)

module _ (config : FetchConfig) (r : ℕ) (retries : config.dl_retries ≡ pos r) where
  process_batch_of :
      (c : Curl) (ul : List UrlItem) (d : HttpData) (s s' : List UrlItem × HttpData)
      → d.has_multi ≡ true
      → (process_multi_group c.performs d).rnp ≡ 0
      → finish_messages config c.messages ul (process_multi_group c.performs d) ≡ ok s
      → load_new_handles config s.0 s.1 ≡ ok s'
      → process_batch config ul d c ≡ ok s'
  unfolding process_batch
  process_batch_of c ul d s s' m z run runs = ground arith

  process_batch_busy :
      (c : Curl) (ul : List UrlItem) (d : HttpData)
      → d.has_multi ≡ true
      → 0 < (process_multi_group c.performs d).rnp
      → process_batch config ul d c ≡ ok (ul, process_multi_group c.performs d)
  unfolding process_batch
  process_batch_busy c ul d m z = ground (arith, m, z)

  module _ (small : r ≤ 1) (curl : ℕ → HttpData → Curl) (wait : ℕ)
      (ends : BatchesEnd curl wait) where
    -- the calls that are needed, but one
    abbrev calls_left : ℕ → List UrlItem → HttpData → ℕ
    calls_left k ul d = pending ul * suc wait + ends.left k d

    -- a call ends the reload, or leaves fewer calls
    abbrev Nearer : ℕ → ℕ → List UrlItem × HttpData → Type 0
    Nearer k n (ul, d) =
        ((pending ul ≡ 0) × (d.has_multi ≡ false)) ⊎ ((calls_left k ul d < n) × IsActive ul d)

    fewer_pending : (p p' l l' : ℕ) → p' < p → l' ≤ wait → p' * suc wait + l' < p * suc wait + l
    fewer_pending p p' l l' h k = grind (arith, h, k)

    batch_ends :
        (k : ℕ) (ul : List UrlItem) (d : HttpData)
        → IsActive ul d
        → (process_multi_group (curl k d).performs d).rnp ≡ 0
        → Returns (process_batch config ul d (curl k d)) (Nearer (k + 1) (calls_left k ul d))
    batch_ends k ul d active idle =
        let calls = (curl k d).performs in
        let done = process_multi_group calls d in
        let same_data = process_multi_group-rnp calls d in
        let (s, run, (fewer, same, kept)) =
          finish_messages-Returns config r retries (curl k d).messages ul done
            (rw same_data active.positions) (rw same_data (ends.handles k d idle)) in
        let (s', runs, next) =
          load-Loads config r retries s.0 s.1 small (rw (kept, same_data) active.multi)
            (rw (kept, same_data) active.arrays) (rw (kept, same_data) active.parallel) in
        (
          s',
          process_batch_of (curl k d) ul d s s' active.multi idle run runs,
          elim next [
            | inl (before, after, closed) ↦ inl (after, closed)
            | inr (less, on) ↦ inr (
              fewer_pending (pending ul) (pending s'.0) _ _ (omega (arith, less, fewer))
                  (ends.bounded (k + 1) s'.1),
              on,
            )
          ],
        )

    batch_runs :
        (k : ℕ) (ul : List UrlItem) (d : HttpData)
        → IsActive ul d
        → 0 < (process_multi_group (curl k d).performs d).rnp
        → ends.left (k + 1) (process_multi_group (curl k d).performs d) < ends.left k d
        → Returns (process_batch config ul d (curl k d)) (Nearer (k + 1) (calls_left k ul d))
    batch_runs k ul d active busy less =
        let same_data = process_multi_group-rnp (curl k d).performs d in
        (
          (ul, process_multi_group (curl k d).performs d),
          process_batch_busy (curl k d) ul d active.multi busy,
          inr (
            omega (arith, less),
            record {
              multi = rw same_data active.multi;
              arrays = rw same_data active.arrays;
              parallel = rw same_data active.parallel;
              positions = rw same_data active.positions;
            },
          ),
        )

    batch-Nearer :
        (k : ℕ) (ul : List UrlItem) (d : HttpData)
        → IsActive ul d
        → Returns (process_batch config ul d (curl k d)) (Nearer (k + 1) (calls_left k ul d))
    batch-Nearer k ul d active = elim (ends.falls k d) [
      | inl idle ↦ batch_ends k ul d active idle
      | inr less ↦ elim (zero_or_more (process_multi_group (curl k d).performs d).rnp) [
        | inl idle ↦ batch_ends k ul d active idle
        | inr busy ↦ batch_runs k ul d active busy less
      ]
    ]

    handle_active :
        (k : ℕ) (ul : List UrlItem) (d : HttpData) (s : List UrlItem × HttpData)
        → d.has_multi ≡ true
        → process_batch config ul d (curl k d) ≡ ok s
        → handle_urls config ul d (curl k) ≡ ok (s.0, s.1, fetch_result s.1)
    unfolding handle_urls
    handle_active k ul d s m run = ground arith

    continue_cycle :
        (calls k : ℕ) (ul : List UrlItem) (d : HttpData) (s : List UrlItem × HttpData)
        → handle_urls config ul d (curl k) ≡ ok (s.0, s.1, fetch_result s.1)
        → (IsActive s.0 s.1 → Returns (run_cycle calls (k + 1) config curl s.0 s.1) Over)
        → ((pending s.0 ≡ 0) × (s.1.has_multi ≡ false)) ⊎ IsActive s.0 s.1
        → Returns (run_cycle (suc calls) k config curl ul d) Over
    unfolding run_cycle
    continue_cycle calls k ul d s run rest (inl (none_left, closed)) =
        (some (s.0, s.1, s.1.newentry), rw (run, run_cycle) (ground arith), (none_left, closed))
    continue_cycle calls k ul d s run rest (inr active) =
        let (o, runs, over) = rest active in (o, rw (run, run_cycle) (ground arith), over)

    run_active :
        (calls k : ℕ) (ul : List UrlItem) (d : HttpData)
        → IsActive ul d
        → calls_left k ul d < calls
        → Returns (run_cycle calls k config curl ul d) Over
    run_active zero k ul d active h = absurd (omega (arith, h))
    run_active (suc calls) k ul d active h =
        let (s, run, next) = batch-Nearer k ul d active in
        elim next [
          | inl over ↦
              continue_cycle calls k ul d s (handle_active k ul d s active.multi run)
                (λ on. cc (on.multi, over.1)) (inl over)
          | inr (less, on) ↦
              continue_cycle calls k ul d s (handle_active k ul d s active.multi run)
                (λ on'. run_active calls (k + 1) s.0 s.1 on' (omega (arith, less, h))) (inr on)
        ]

    handle_idle :
        (k : ℕ) (ul : List UrlItem) (d : HttpData) (s s' : List UrlItem × HttpData)
        → d.has_multi ≡ false
        → load_new_handles config (http_fetch_init config ul d).0 (http_fetch_init config ul d).1
          ≡ ok s
        → process_batch config s.0 s.1 (curl k s.1) ≡ ok s'
        → handle_urls config ul d (curl k) ≡ ok (s'.0, s'.1, fetch_result s'.1)
    unfolding handle_urls
    handle_idle k ul d s s' m begun run = ground arith

    first_call : (n p l : ℕ) → p < suc n → l ≤ wait → p * suc wait + l ≤ n * suc wait + wait
    first_call n p l h k = grind (arith, h, k)

    -- With no failed transfer tried again (dl_retries is 0 or 1), a list that is not empty, a positive
    -- number of parallel transfers, no transfer under way at first, and batches that end within some
    -- number of calls behind the first: whatever the transfers result in, as many calls of
    -- `handle_urls` for each feed end the reload without a fault; no feed is left pending and `cm` is NULL again.
    pub reload_ends :
        (p : ℕ) (ul : List UrlItem) (d : HttpData)
        → config.parallel_reload ≡ pos (suc p)
        → ul ≢ []
        → d.has_multi ≡ false
        → Returns (run_cycle (length ul * suc wait) 0 config curl ul d) Over
    reload_ends p [] d para ne m = absurd (ne refl)
    reload_ends p (u ∷ us) d para ne m =
        let ul = u ∷ us in
        let calls = length us * suc wait + wait in
        let begun = http_fetch_init config ul d in
        let started = http_fetch_init-open config r retries p ul d para in
        let (s, run, next) =
          load-Loads config r retries begun.0 begun.1 small started.0 started.1 started.2 in
        let enough : suc calls ≡ length ul * suc wait = omega arith in
        let all = pending-unfetched config r retries ul d in
        subst (λ c. Returns (run_cycle c 0 config curl ul d) Over) enough
          (elim next [
            | inl (none_left, after, closed) ↦ absurd (omega (arith, all))
            | inr (less, active) ↦
                let (s', runs, next') = batch-Nearer 0 s.0 s.1 active in
                let handled = handle_idle 0 ul d s s' m run runs in
                let bound =
                  first_call (length us) (pending s.0) (ends.left 0 s.1) (omega (arith, less, all))
                    (ends.bounded 0 s.1) in
                elim next' [
                  | inl over ↦
                      continue_cycle calls 0 ul d s' handled (λ on. cc (on.multi, over.1))
                        (inl over)
                  | inr (less', on) ↦
                      continue_cycle calls 0 ul d s' handled
                        (λ on'. run_active calls 1 s'.0 s'.1 on' (omega (arith, less', bound)))
                        (inr on)
                ]
          ])
