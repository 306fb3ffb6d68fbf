-- ===== src/Process/Tests.antt =====
-- src/ui/util.c: an entry that is given to a pager.
use newsbaoter.Common.{
  ◌≡◌, refl, true, false, none, some, List, [], ◌∷◌, ◌++◌, codes, if◌then◌else◌, ltb, inl, inr,
  arith,
}
use newsbaoter.Common.Int.{negsuc}
use newsbaoter.Common.Run.{Returns, ok}
use newsbaoter.Process.{
  other, Fds, made, child, parent, no_child, exited, stopped, Waited, failed, changed,
  wait_for_process, feed_process,
}
use newsbaoter.Process.Pipe.{
  RunsProgram, HasFed, HasLeaked, feed_process-both, feed_process-no_child,
}

-- the input, the output and the messages of the terminal
abbrev terminal : Fds
terminal n = if ltb n 3 then some (other n) else none

abbrev interrupted : List Waited
interrupted = failed true ∷ changed 9 exited ∷ changed 8 stopped ∷ []

feed_process-both_example :
    Returns
      (feed_process
        (made 3 4)
        (child true)
        77
        stopped
        (some (codes "less" ∷ codes "-f" ∷ []))
        []
        terminal)
      (RunsProgram (codes "less") (codes "-f" ∷ []) 1 terminal)
    × Returns
        (feed_process
          (made 3 4)
          (parent 8)
          77
          stopped
          (some (codes "less" ∷ codes "-f" ∷ []))
          (interrupted ++ changed 8 exited ∷ [])
          terminal)
        (HasFed [] 1 terminal)
feed_process-both_example =
    feed_process-both 3 4 (ground arith) (ground arith) (ground arith) terminal refl refl 1 77
      stopped (codes "less") (codes "-f" ∷ []) 8 exited refl interrupted []
      (refl, (inl (ground arith), (inr refl, tt)))

feed_process-no_child_example :
    Returns
      (feed_process
        (made 3 4)
        no_child
        1
        stopped
        (some (codes "less" ∷ []))
        (failed false ∷ [])
        terminal)
      (HasLeaked 3 4 1 (some (other 1)))
feed_process-no_child_example =
    feed_process-no_child 3 4 1 stopped (some (codes "less" ∷ [])) [] terminal (ground arith)
      (ground arith) (ground arith)

-- with -1 for the process, an interruption ends the loop where `status` looks like an exit
interrupted_end :
    wait_for_process exited (negsuc 0) (failed true ∷ failed false ∷ []) ≡ ok (failed false ∷ [])
unfolding wait_for_process
interrupted_end = refl
