-- ===== src/Views/Wait.antt =====
-- src/ui/view.c: how long `run_ui` waits for a key. Times are seconds; a wait is seconds and
-- microseconds, or `none` for NULL.
use newsbaoter.Common.{
  ℕ, ◌+◌, ◌-◌, ◌≤◌, ◌≡◌, Bool, true, false, ◌&&◌, Bool-cases, inl, inr, Option, some, ltb, leb,
  ◌==◌, if◌then◌else◌, arith,
}
use newsbaoter.Common.Int.{ℤ, pos, negsuc, ◌-ℤ◌, ◌≤ℤ◌, ltbℤ}

abbrev pub is_minus_one : ℤ → Bool
is_minus_one (pos n) = false
is_minus_one (negsuc n) = n == 0

-- `last_time` where the clock went back
abbrev pub earlier : ℕ → ℕ → ℕ
earlier now last = if ltb now last then now else last

-- the seconds left up to the next reload
abbrev pub time_left : ℤ → ℕ → ℕ → ℤ
time_left waittime now last =
    if ltbℤ waittime (pos (now - last)) then pos 0 else waittime -ℤ pos (now - last)

-- The timeout for select(2), and `last_time`: `ret` is what `http_get_fds` returns, and `transfers` what
-- `http_get_timeout` does.
unfoldable pub choose_timeout : ℤ → Bool → ℤ → ℕ → ℕ → Option (ℤ × ℕ) → Option (ℤ × ℕ) × ℕ
choose_timeout ret auto_reload waittime now last transfers =
    if is_minus_one ret
    then (some (pos 0, 100000), last)
    else if auto_reload && ltbℤ ret (pos 0)
    then (some (time_left waittime now (earlier now last), 0), earlier now last)
    else (transfers, last)

earlier_le : (now last : ℕ) → earlier now last ≤ now
earlier_le now last = ground arith

time_left_bounds :
    (w now last : ℕ) → (pos 0 ≤ℤ time_left (pos w) now last) × (time_left (pos w) now last ≤ℤ pos w)
time_left_bounds w now last = elim (Bool-cases (ltbℤ (pos w) (pos (now - last)))) [
  | inl over ↦ rw over (omega arith, omega arith)
  | inr under ↦
      let fits : leb (now - last + 0) (w + 0) ≡ true = ground (arith, under) in
      let fits' : leb (0 + (now - last)) (w + 0) ≡ true = ground (arith, fits) in
      rw (fits, fits') (omega arith, omega arith)
]

-- With automatic reloads and no transfer under way, and a time between reloads that is not negative:
-- run_ui waits for a number of seconds from 0 to that time, and the time of the last reload is then not
-- in the future.
pub choose_timeout_bounds :
    (n w now last : ℕ) (transfers : Option (ℤ × ℕ))
    → (s : ℤ) × (choose_timeout (negsuc (n + 1)) true (pos w) now last transfers
        ≡ (some (s, 0), earlier now last))
      × (pos 0 ≤ℤ s)
      × (s ≤ℤ pos w)
      × (earlier now last ≤ now)
unfolding choose_timeout
choose_timeout_bounds n w now last transfers =
    let running : (n + 1 == 0) ≡ false = ground arith in
    let none_runs : ltbℤ (negsuc (n + 1)) (pos 0) ≡ true = ground arith in
    let b = time_left_bounds w now (earlier now last) in
    (_, rw (running, none_runs), b.0, b.1, earlier_le now last)
