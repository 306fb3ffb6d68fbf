-- ===== src/Process/Pipe.antt =====
-- src/ui/util.c: the descriptors of both processes, and the wait for the child.
use newsbaoter.Common.{
  ℕ, ◌≡◌, ◌≢◌, refl, ap, true, false, ◌&&◌, ◌⊎◌, inl, inr, Option, none, some, List, [], ◌∷◌, ◌++◌,
  Bytes, if◌then◌else◌, ◌==◌, arith,
}
use newsbaoter.Common.Int.{pos}
use newsbaoter.Common.Run.{ok, ◌>>=◌, Returns}
use newsbaoter.Cache.Table.{All}
use newsbaoter.Process.{
  File, read_end, write_end, Fds, close, dup2, made, with_pipe, child, parent, no_child,
  pipe_to_process, Status, exited, signaled, stopped, Waited, failed, changed, has_ended,
  wait_for_process, Fed, in_child, fed, feed_process,
}

-- an answer with which the wait for a process goes on: a call that a signal interrupts, another
-- process, or the process that is stopped
abbrev pub IsPassing : ℕ → Waited → Type 0
IsPassing pid (failed eintr) = eintr ≡ true
IsPassing pid (changed p s) = (p ≢ pid) ⊎ (s ≡ stopped)

other-passed :
    (pid p : ℕ) (s : Status) → (p ≢ pid) ⊎ (s ≡ stopped) → (p == pid && has_ended s) ≡ false
other-passed pid p exited (inl h) = ground arith
other-passed pid p signaled (inl h) = ground arith
other-passed pid p stopped h = ground arith
other-passed pid p exited (inr h) = ground arith
other-passed pid p signaled (inr h) = ground arith

own-has_ended : (pid : ℕ) (s : Status) → has_ended s ≡ true → (pid == pid && has_ended s) ≡ true
own-has_ended pid s h = ground (arith, h)

wait_for_process-passed :
    (pid : ℕ) (s : Status) (over : has_ended s ≡ true) (later : List Waited) (status : Status)
    (before : List Waited)
    → All (IsPassing pid) before
    → wait_for_process status (pos pid) (before ++ changed pid s ∷ later) ≡ ok later
unfolding wait_for_process
wait_for_process-passed pid s over later status [] h = rw (own-has_ended pid s over)
wait_for_process-passed pid s over later status (failed eintr ∷ before) h =
    rw (h.0, wait_for_process-passed pid s over later status before h.1)
wait_for_process-passed pid s over later status (changed p u ∷ before) h =
    rw (other-passed pid p u h.0, wait_for_process-passed pid s over later u before h.1)

-- the program of the child: its input is the read end of the pipe, and what else it has is what the
-- parent had before
abbrev pub RunsProgram : Bytes → List Bytes → ℕ → Fds → Fed → Type 0
RunsProgram name args n t (in_child prog rest u) =
    (prog ≡ name) × (rest ≡ args) × (u n ≡ (if n == 0 then some read_end else t n))
RunsProgram name args n t (fed sink u rest) = true ≡ false

-- the parent: what it wrote went into the pipe, and it has the descriptors that it had before
abbrev pub HasFed : List Waited → ℕ → Fds → Fed → Type 0
HasFed later n t (in_child prog args u) = true ≡ false
HasFed later n t (fed sink u rest) = (sink ≡ some write_end) × (u n ≡ t n) × (rest ≡ later)

module _ (r w : ℕ) (distinct : r ≢ w) (r_not_zero : r ≢ 0) (w_not_zero : w ≢ 0) (t : Fds)
    (r_free : t r ≡ none) (w_free : t w ≡ none) where
  child_fds :
      (n : ℕ)
      → close w (close r (dup2 r 0 (with_pipe (made r w) t))) n
        ≡ (if n == 0 then some read_end else t n)
  child_fds n = ground arith

  parent_fds : (n : ℕ) → close w (close r (with_pipe (made r w) t)) n ≡ t n
  parent_fds n = ground arith

  parent_writes : close r (with_pipe (made r w) t) w ≡ some write_end
  parent_writes = ground arith

  -- With the pipe opened as two descriptors that are free and not 0, and for each descriptor n: in the
  -- child a program that is found runs with the arguments, with the read end of the pipe as its
  -- input and at n what the parent had there before. In the parent, where waitpid(2) answers any
  -- number of interruptions, other processes and stops, and then that the child ended: the text is
  -- written to the pipe, the loop ends with that answer, and n is afterwards as before the call.
  pub feed_process-both :
      (n fd : ℕ) (junk : Status) (name : Bytes) (args : List Bytes) (pid : ℕ) (s : Status)
      → has_ended s ≡ true
      → (before later : List Waited) → All (IsPassing pid) before
      → Returns
          (feed_process (made r w) (child true) fd junk (some (name ∷ args)) [] t)
          (RunsProgram name args n t)
        × Returns
            (feed_process
              (made r w)
              (parent pid)
              fd
              junk
              (some (name ∷ args))
              (before ++ changed pid s ∷ later)
              t)
            (HasFed later n t)
  unfolding feed_process pipe_to_process
  feed_process-both n fd junk name args pid s over before later passing = (
    (in_child name args _, refl, (refl, refl, child_fds n)),
    (
      fed _ _ later,
      ap
          (λ m. m >>= λ rest. ok (
            fed (close r (with_pipe (made r w) t) w) (close w (close r (with_pipe (made r w) t)))
              rest))
          (wait_for_process-passed pid s over later junk before passing),
      (parent_writes, parent_fds n, refl),
    ),
  )

-- the text went to `before`, the descriptor it was written to is closed, and the pipe is open
abbrev pub HasLeaked : ℕ → ℕ → ℕ → Option File → Fed → Type 0
HasLeaked r w fd before (in_child prog args u) = true ≡ false
HasLeaked r w fd before (fed sink u rest) =
    (sink ≡ before) × (u fd ≡ none) × (u r ≡ some read_end) × (u w ≡ some write_end)

-- With the pipe opened as two descriptors, where fork(2) fails and waitpid(2) reports an error other than an
-- interruption: the text is written to whatever descriptor the uninitialised `fd` names, if it is not
-- one of the pipe, that descriptor is closed, and both ends of the pipe stay open.
pub feed_process-no_child :
    (r w fd : ℕ) (junk : Status) (args : Option (List Bytes)) (later : List Waited) (t : Fds)
    → r ≢ w
    → fd ≢ r
    → fd ≢ w
    → Returns
        (feed_process (made r w) no_child fd junk args (failed false ∷ later) t)
        (HasLeaked r w fd (t fd))
unfolding feed_process pipe_to_process wait_for_process
feed_process-no_child r w fd junk args later t distinct not_r not_w =
    (fed _ _ later, refl, (ground arith, ground arith, ground arith, ground arith))
