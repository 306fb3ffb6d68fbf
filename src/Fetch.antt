-- ===== src/Fetch.antt =====
-- src/httpfetch.c: batches of transfers over the list of feeds. The list is `struct urllist`, and a
-- pointer into it is a position. libcurl is outside: what its calls return is the argument `Curl`.
-- An easy handle is named by the slot of `data->ce` that holds it, and `data->anp` is the length of
-- `ula`.
pub mod Load
pub mod Batch
pub mod Cycle
pub mod Faults
mod Tests
use newsbaoter.Common.{
  ℕ, zero, suc, ◌+◌, ◌/◌, ◌%◌, ◌*◌, bit_or, Bool, true, false, not, ◌&&◌, ◌||◌, Option, none, some,
  List, [], ◌∷◌, ◌++◌, Bytes, length, get_elem?, set, take, drop, map, ltb, ◌==◌, if◌then◌else◌,
}
use newsbaoter.Common.Int.{ℤ, pos, negsuc, ◌+ℤ◌, ltbℤ, lebℤ}
use newsbaoter.Common.Run.{Run, ok, fault, out_of_bounds, double_free, ◌>>=◌}

-- `struct urlitem`; the document is there or NULL.
pub record UrlItem : Type 0 where
  pub url : Bytes
  pub has_doc : Bool
  pub n_httperr : ℤ

-- The part of `struct nb_config` that is read here.
pub record FetchConfig : Type 0 where
  pub dl_retries : ℤ
  pub parallel_reload : ℤ

-- `struct http_data`: `cm` and the arrays are there or not.
pub record HttpData : Type 0 where
  pub has_multi : Bool
  pub has_arrays : Bool
  pub npara : ℕ
  pub ula : List ℕ
  pub rnp : ℕ
  pub newentry : ℕ

pub data TransferResult : Type 0 where
  transferred : TransferResult
  timed_out : TransferResult
  failed : TransferResult

-- A message of `curl_multi_info_read`, with what `xmlproc_finish` gives for its handle: the return
-- value and `*newentry`.
pub record Message : Type 0 where
  pub is_done : Bool
  pub handle : ℕ
  pub result : TransferResult
  pub finish_ret : ℕ
  pub finish_newentry : ℕ

-- The results of the calls of `curl_multi_perform` (to be called again, running transfers), and the
-- messages; they depend on the handles that were added.
pub record Curl : Type 0 where
  pub performs : List (Bool × ℕ)
  pub messages : List Message

-- `http_init`
unfoldable pub http_init : HttpData
http_init = record {
  has_multi = false;
  has_arrays = false;
  npara = 0;
  ula = [];
  rnp = 0;
  newentry = 0;
}

-- the node of `ula[i]` after the loop's body
abbrev pub start : UrlItem → UrlItem
start u = record u {
  has_doc = false;
  n_httperr = if ltbℤ u.n_httperr (pos 0) then pos 0 else u.n_httperr;
}

-- The arrays are freed, and stay named by `data`.
unfoldable pub cleanup_handles : HttpData → Run HttpData
cleanup_handles data' =
    if data'.has_arrays
    then ok (record data' { has_multi = false; has_arrays = false; ula = [] })
    else fault double_free

abbrev pub unfetched : UrlItem → UrlItem
unfetched u = record u { n_httperr = negsuc 0 }

-- `process_multi_group`: the calls until one is not to be repeated
unfoldable pub process_multi_group : List (Bool × ℕ) → HttpData → HttpData
process_multi_group [] data' = data'
process_multi_group ((again, running) ∷ calls) data' =
    let called = record data' { rnp = running } in
    if again then process_multi_group calls called else called

abbrev pub bump : UrlItem → UrlItem
bump u = record u { n_httperr = if ltbℤ u.n_httperr (pos 0) then pos 1 else u.n_httperr +ℤ pos 1 }

abbrev pub message_newentry : Message → ℕ
message_newentry msg = elim msg.result [ transferred ↦ msg.finish_newentry | _ ↦ 0 ]

-- With `cm` NULL libcurl answers CURLM_BAD_HANDLE and gives no message.
abbrev pub calls_of : Curl → HttpData → List (Bool × ℕ)
calls_of curl data' = if data'.has_multi then curl.performs else []

abbrev pub messages_of : Curl → HttpData → List Message
messages_of curl data' = if data'.has_multi then curl.messages else []

abbrev pub fetch_result : HttpData → ℤ
fetch_result data' = if data'.has_multi then negsuc 0 else pos data'.newentry

module _ (config : FetchConfig) where
  abbrev pub is_over : UrlItem → Bool
  is_over u =
      lebℤ config.dl_retries u.n_httperr
      || not (ltbℤ u.n_httperr (pos 0) || ltbℤ (pos 0) u.n_httperr)

  -- the inner `while` of `load_new_handles`: how many nodes it passes
  unfoldable pub skip_over : List UrlItem → ℕ
  skip_over [] = 0
  skip_over (u ∷ ul) = if is_over u then suc (skip_over ul) else 0

  -- from `tul` to the node that is loaded next
  unfoldable pub advance : List UrlItem → ℕ
  unfolding skip_over
  advance [] = 0
  advance (u ∷ ul) =
      if ltbℤ u.n_httperr (pos 0) then 0 else if is_over u then suc (skip_over ul) else 0

  -- The loop of `load_new_handles`, with the rounds left, from the node `at` on: the list after it
  -- and the positions stored in `ula`.
  unfoldable pub load_from : ℕ → ℕ → List UrlItem → List UrlItem × List ℕ
  unfolding advance
  load_from zero at ul = (ul, [])
  load_from (suc rounds) at ul =
      let n = advance ul in
      elim (drop n ul) [
        | [] ↦ (ul, [])
        | u ∷ rest ↦
            let (rest', picked) = load_from rounds (at + n + 1) rest in
            (take n ul ++ start u ∷ rest', (at + n) ∷ picked)
      ]

  unfoldable pub load_new_handles : List UrlItem → HttpData → Run (List UrlItem × HttpData)
  unfolding load_from cleanup_handles
  load_new_handles ul data' =
      let (ul', picked) = load_from data'.npara 0 ul in
      let loaded = record data' { ula = picked } in
      if length picked == 0 then (cleanup_handles loaded >>= λ d. ok (ul', d)) else ok (ul', loaded)

  unfoldable pub http_fetch_init : List UrlItem → HttpData → List UrlItem × HttpData
  http_fetch_init ul data' = (
    map unfetched ul,
    record data' {
      npara = elim config.parallel_reload [ pos (suc n) ↦ suc n | _ ↦ data'.npara ];
      has_multi = true;
      has_arrays = true;
      ula = [];
      rnp = 0;
      newentry = 0;
    },
  )

  -- what a finished transfer does to its node
  unfoldable pub settle : Message → UrlItem → UrlItem
  settle msg u = elim msg.result [
    | timed_out ↦ bump u
    | failed ↦ record u { n_httperr = config.dl_retries }
    | transferred ↦ if msg.finish_ret == 0 then u else bump u
  ]

  -- The message loop of `finish_batch`. A message for no handle of the batch reads past `ula`.
  unfoldable pub finish_messages :
      List Message → List UrlItem → HttpData → Run (List UrlItem × HttpData)
  unfolding settle
  finish_messages [] ul data' = ok (ul, data')
  finish_messages (msg ∷ msgs) ul data' =
      let entry' = record data' { newentry = bit_or data'.newentry (message_newentry msg) } in
      elim msg.is_done [
        | false ↦ finish_messages msgs ul data'
        | true ↦ elim (get_elem? data'.ula msg.handle) [
          | none ↦ fault out_of_bounds
          | some i ↦ elim (get_elem? ul i) [
            | none ↦ fault out_of_bounds
            | some u ↦ finish_messages msgs (set ul i (settle msg u)) entry'
          ]
        ]
      ]

  -- the second half of `handle_urls`
  unfoldable pub process_batch : List UrlItem → HttpData → Curl → Run (List UrlItem × HttpData)
  unfolding process_multi_group finish_messages load_new_handles
  process_batch ul data' curl =
      let done = process_multi_group (calls_of curl data') data' in
      if done.rnp == 0
      then (finish_messages (messages_of curl data') ul done >>= λ r. load_new_handles r.0 r.1)
      else ok (ul, done)

  unfoldable pub handle_urls :
      List UrlItem → HttpData → (HttpData → Curl) → Run (List UrlItem × HttpData × ℤ)
  unfolding http_fetch_init process_batch
  handle_urls ul data' curl = do
    begun ←
        if data'.has_multi
        then ok (ul, data')
        else (let r = http_fetch_init ul data' in load_new_handles r.0 r.1)
    r ← process_batch begun.0 begun.1 (curl begun.1)
    ok (r.0, r.1, fetch_result r.1)

-- `struct timeval`
pub record Timeval : Type 0 where
  pub tv_sec : ℕ
  pub tv_usec : ℕ

-- `http_get_timeout`, on `data->timeout` and the number of milliseconds that `curl_multi_timeout`
-- gives; NULL is `none`.
unfoldable pub http_get_timeout : HttpData → Timeval → ℤ → Option Timeval
http_get_timeout data' timeout (negsuc n) = if data'.has_multi then some timeout else none
http_get_timeout data' timeout (pos ms) =
    if not data'.has_multi
    then none
    else if ltb 1 (ms / 1000)
    then some (record timeout { tv_sec = 1 })
    else some (record { tv_sec = ms / 1000; tv_usec = ms % 1000 * 1000 })
