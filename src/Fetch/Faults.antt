-- ===== src/Fetch/Faults.antt =====
-- src/httpfetch.c: reloads with nothing to load, and with a retry.
use newsbaoter.Common.{
  ℕ, zero, suc, ◌+◌, bit_or, ◌≡◌, refl, ◌⊎◌, inl, inr, true, false, none, List, [], ◌∷◌,
  if◌then◌else◌, arith,
}
use newsbaoter.Common.Int.{pos, negsuc, ◌≤ℤ◌}
use newsbaoter.Common.Run.{ok, fault, double_free}
use newsbaoter.Fetch.{
  UrlItem, FetchConfig, HttpData, Curl, http_init, finish_messages, settle, process_multi_group,
  process_batch, load_new_handles, cleanup_handles, handle_urls, http_fetch_init, load_from, start,
  unfetched, TransferResult, transferred, timed_out,
}
use newsbaoter.Fetch.Load.{is_due, start_due, due_positions, load_from-start_due}
use newsbaoter.Fetch.Cycle.{run_cycle}

module _ (config : FetchConfig) where
  load_from-nil : (k i : ℕ) → load_from config k i [] ≡ ([], [])
  unfolding load_from
  load_from-nil zero i = refl
  load_from-nil (suc k) i = refl

  nothing_loaded :
      (ul : List UrlItem) (d : HttpData)
      → (ul ≡ []) ⊎ (d.npara ≡ 0)
      → load_from config d.npara 0 ul ≡ (ul, [])
  nothing_loaded ul d (inl e) = rw (e, load_from-nil)
  nothing_loaded ul d (inr z) = rw z (unfold load_from in refl)

  load-nothing :
      (ul : List UrlItem) (d : HttpData)
      → (ul ≡ []) ⊎ (d.npara ≡ 0)
      → load_new_handles config ul d ≡ (
          if d.has_arrays
          then ok (ul, record d { has_multi = false; has_arrays = false; ula = [] })
          else fault double_free)
  unfolding load_new_handles cleanup_handles
  load-nothing ul d h = rw (nothing_loaded ul d h) (ground arith)

  init_nothing :
      (ul : List UrlItem) (d : HttpData)
      → (ul ≡ []) ⊎ ((d.npara ≡ 0) × (config.parallel_reload ≤ℤ pos 0))
      → ((http_fetch_init config ul d).0 ≡ []) ⊎ ((http_fetch_init config ul d).1.npara ≡ 0)
  unfolding http_fetch_init
  init_nothing ul d (inl e) = inl (rw e)
  init_nothing ul d (inr (z, p)) = inr (ground arith)

  init_fields :
      (ul : List UrlItem) (d : HttpData)
      → ((http_fetch_init config ul d).1.has_arrays ≡ true)
        × ((http_fetch_init config ul d).1.rnp ≡ 0)
  unfolding http_fetch_init
  init_fields ul d = (refl, refl)

  batch_nothing :
      (ul : List UrlItem) (d : HttpData) (c : Curl)
      → (ul ≡ []) ⊎ (d.npara ≡ 0)
      → d.has_multi ≡ false
      → d.has_arrays ≡ false
      → d.rnp ≡ 0
      → process_batch config ul d c ≡ fault double_free
  unfolding process_batch process_multi_group finish_messages
  batch_nothing ul d c h m a z = ground (arith, load-nothing ul d h)

  -- A reload with no feed, or with no parallel transfer configured before or now, frees the arrays
  -- of the batch twice.
  pub reload_nothing :
      (ul : List UrlItem) (d : HttpData) (curl : HttpData → Curl)
      → d.has_multi ≡ false
      → (ul ≡ []) ⊎ ((d.npara ≡ 0) × (config.parallel_reload ≤ℤ pos 0))
      → handle_urls config ul d curl ≡ fault double_free
  unfolding handle_urls
  reload_nothing ul d curl m h =
      let begun = http_fetch_init config ul d in
      let empty = init_nothing ul d h in
      let closed = record begun.1 { has_multi = false; has_arrays = false; ula = [] } in
      ground (
        arith,
        load-nothing begun.0 begun.1 empty,
        batch_nothing begun.0 closed (curl closed) empty refl refl (init_fields ul d).1,
        init_fields ul d,
      )

-- the first feed times out once, and is fetched well from then on
abbrev pub answer : TransferResult → Curl
answer r = record {
  performs = (false, 0) ∷ [];
  messages =
      record { is_done = true; handle = 0; result = r; finish_ret = 0; finish_newentry = 0 } ∷ [];
}

abbrev pub late_then_fine : ℕ → HttpData → Curl
late_then_fine zero d = answer timed_out
late_then_fine (suc k) d = answer transferred

module _ (config : FetchConfig) (r p : ℕ) (retries : config.dl_retries ≡ pos (suc (suc r)))
    (para : config.parallel_reload ≡ pos (suc p)) where
  -- the reload between two batches, with one feed that has failed once
  abbrev open_with : ℕ → HttpData
  open_with n = record {
    has_multi = true;
    has_arrays = true;
    npara = suc p;
    ula = 0 ∷ [];
    rnp = 0;
    newentry = n;
  }

  abbrev failed_once : UrlItem → UrlItem
  failed_once u = record u { has_doc = false; n_httperr = pos 1 }

  load_one :
      (v : UrlItem) (d : HttpData)
      → is_due config v ≡ true
      → d.npara ≡ suc p
      → load_new_handles config (v ∷ []) d ≡ ok (start v ∷ [], record d { ula = 0 ∷ [] })
  unfolding load_new_handles start_due due_positions
  load_one v d due e =
      rw (e, load_from-start_due config (suc (suc r)) retries (suc p) 0 (v ∷ []), due)

  load_due :
      (u : UrlItem) (n : ℕ)
      → load_new_handles config (failed_once u ∷ []) (open_with n)
        ≡ ok (failed_once u ∷ [], open_with n)
  load_due u n = load_one (failed_once u) (open_with n) (rw retries (ground arith)) refl

  first_call :
      (u : UrlItem)
      → handle_urls config (u ∷ []) http_init (late_then_fine 0)
        ≡ ok (failed_once u ∷ [], open_with 0, negsuc 0)
  unfolding handle_urls http_init http_fetch_init process_batch process_multi_group finish_messages
      settle
  first_call u =
      rw (para, load_one (unfetched u) (record (open_with 0) { ula = [] }) refl refl, load_due u 0)

  later_call :
      (k n : ℕ) (u : UrlItem)
      → handle_urls config (failed_once u ∷ []) (open_with n) (late_then_fine (suc k))
        ≡ ok (failed_once u ∷ [], open_with (bit_or n 0), negsuc 0)
  unfolding handle_urls process_batch process_multi_group finish_messages settle
  later_call k n u = rw (load_due u (bit_or n 0))

  stays_open :
      (calls j k n : ℕ) (u : UrlItem)
      → j ≡ suc k
      → run_cycle calls j config late_then_fine (failed_once u ∷ []) (open_with n) ≡ ok none
  unfolding run_cycle
  stays_open zero j k n u e = refl
  stays_open (suc calls) j k n u e =
      rw (e, later_call k n u, run_cycle)
        (stays_open calls (j + 1) (suc k) (bit_or n 0) u (omega arith))

  -- With two or more tries and one feed, whose first transfer times out and whose later transfers
  -- all succeed: no number of calls of `handle_urls` ends the reload.
  pub retry_never_ends :
      (calls : ℕ) (u : UrlItem)
      → run_cycle calls 0 config late_then_fine (u ∷ []) http_init ≡ ok none
  unfolding run_cycle
  retry_never_ends zero u = refl
  retry_never_ends (suc calls) u = rw (first_call u, run_cycle) (stays_open calls 1 0 0 u refl)
