-- ===== src/Fetch/Tests.antt =====
-- Runs of the reload, and the theorems at concrete inputs.
use newsbaoter.Common.{
  ℕ, zero, suc, ◌+◌, ◌<◌, ◌≤◌, ◌≡◌, refl, ap, Bool, not, ◌⊎◌, inl, inr, if◌then◌else◌, true, false,
  none, List, [], ◌∷◌, length, arith,
}
use native.Mathlib.Numerals.{add-one}
use newsbaoter.Common.Int.{ℤ, pos, negsuc}
use newsbaoter.Common.Run.{ok, fault, double_free, Returns}
use newsbaoter.Fetch.{
  UrlItem, FetchConfig, HttpData, Message, Curl, http_init, load_from, handle_urls,
  process_multi_group, timed_out,
}
use newsbaoter.Fetch.Load.{start_due, due_positions, load_from-start_due}
use newsbaoter.Fetch.Batch.{All}
use newsbaoter.Fetch.Cycle.{run_cycle, BatchesEnd, Over, reload_ends}
use newsbaoter.Fetch.Faults.{late_then_fine, reload_nothing, retry_never_ends}

abbrev feed : ℕ → ℤ → UrlItem
feed n e = record { url = n ∷ []; has_doc = false; n_httperr = e }

abbrev config_of : ℤ → ℤ → FetchConfig
config_of retries parallel = record { dl_retries = retries; parallel_reload = parallel }

-- one fetched, one that has failed twice, two that are due
abbrev feeds : List UrlItem
feeds = feed 1 (pos 0) ∷ feed 2 (pos 2) ∷ feed 3 (negsuc 0) ∷ feed 4 (pos 1) ∷ []

load_feeds :
    load_from (config_of (pos 2) (pos 5)) 5 0 feeds
    ≡ (feed 1 (pos 0) ∷ feed 2 (pos 2) ∷ feed 3 (pos 0) ∷ feed 4 (pos 1) ∷ [], 2 ∷ 3 ∷ [])
unfolding load_from
load_feeds = refl

load_from-start_due_example : load_from (config_of (pos 2) (pos 5)) 1 0 feeds ≡ (
  start_due (config_of (pos 2) (pos 5)) 1 feeds,
  due_positions (config_of (pos 2) (pos 5)) 1 0 feeds,
)
load_from-start_due_example = load_from-start_due (config_of (pos 2) (pos 5)) 2 refl 1 0 feeds

-- each batch ends at the second call of handle_urls; all its transfers time out
abbrev answers_all : ℕ → List ℕ → List Message
answers_all i [] = []
answers_all i (p ∷ ps) =
    record { is_done = true; handle = i; result = timed_out; finish_ret = 0; finish_newentry = 0 }
    ∷ answers_all (suc i) ps

abbrev is_first : ℕ → Bool
is_first zero = true
is_first (suc k) = not (is_first k)

abbrev all_time_out : ℕ → HttpData → Curl
all_time_out k d =
    if is_first k
    then record { performs = (true, 3) ∷ (false, 2) ∷ []; messages = [] }
    else record { performs = (false, 0) ∷ []; messages = answers_all 0 d.ula }

answers_all-handles :
    (i n : ℕ) (ps : List ℕ) → i + length ps ≡ n → All (λ m. m.handle < n) (answers_all i ps)
answers_all-handles i n [] h = tt
answers_all-handles i n (p ∷ ps) h = (omega arith, answers_all-handles (suc i) n ps (omega arith))

flips : (k : ℕ) → is_first (k + 1) ≡ not (is_first k)
flips zero = refl
flips (suc k) = ap is_first (add-one (suc k))

abbrev left : Bool → ℕ
left first = if first then 1 else 0

all_time_out-BatchesEnd : BatchesEnd all_time_out 1
unfolding process_multi_group
all_time_out-BatchesEnd = record {
  left = λ k d. left (is_first k);
  bounded = λ k d. at_most_one (is_first k);
  falls = λ k d. falls_at k (is_first k) d refl;
  handles = λ k d e. handles_at (is_first k) d;
}
  where
    at_most_one : (b : Bool) → left b ≤ 1
    at_most_one true = omega arith
    at_most_one false = omega arith

    answer : Bool → HttpData → Curl
    answer b d =
        if b
        then record { performs = (true, 3) ∷ (false, 2) ∷ []; messages = [] }
        else record { performs = (false, 0) ∷ []; messages = answers_all 0 d.ula }

    falls_at :
        (k : ℕ) (b : Bool) (d : HttpData)
        → is_first k ≡ b
        → ((process_multi_group (all_time_out k d).performs d).rnp ≡ 0)
          ⊎ (left (is_first (k + 1)) < left (is_first k))
    falls_at k true d e = inr (rw (flips k, e) (omega arith))
    falls_at k false d e = inl (rw e refl)

    handles_at :
        (b : Bool) (d : HttpData) → All (λ m. m.handle < length d.ula) (answer b d).messages
    handles_at true d = tt
    handles_at false d = answers_all-handles 0 (length d.ula) d.ula (omega arith)

reload_ends_example :
    Returns
      (run_cycle 6 0
        (config_of (pos 1) (pos 2))
        all_time_out
        (feed 1 (pos 0) ∷ feed 2 (pos 0) ∷ feed 3 (pos 0) ∷ [])
        http_init)
      Over
reload_ends_example =
    reload_ends (config_of (pos 1) (pos 2)) 1 refl (omega arith) all_time_out 1
      all_time_out-BatchesEnd 1 (feed 1 (pos 0) ∷ feed 2 (pos 0) ∷ feed 3 (pos 0) ∷ []) http_init
      refl (λ e. cc) (unfold http_init in refl)

reload_nothing_example :
    handle_urls (config_of (pos 1) (pos 0)) (feed 1 (pos 0) ∷ []) http_init (late_then_fine 0)
    ≡ fault double_free
reload_nothing_example =
    reload_nothing (config_of (pos 1) (pos 0)) (feed 1 (pos 0) ∷ []) http_init (late_then_fine 0)
      (unfold http_init in refl) (inr (unfold http_init in (refl, omega arith)))

retry_never_ends_example :
    run_cycle 9 0 (config_of (pos 3) (pos 5)) late_then_fine (feed 1 (pos 0) ∷ []) http_init
    ≡ ok none
retry_never_ends_example =
    retry_never_ends (config_of (pos 3) (pos 5)) 1 4 refl refl 9 (feed 1 (pos 0))
