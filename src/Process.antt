-- ===== src/Process.antt =====
-- src/ui/util.c: the process that is given the text of an entry, and the pipe to it. What pipe(2),
-- fork(2), execvp(3) and waitpid(2) answer are arguments.
pub mod Pipe
mod Tests
use newsbaoter.Common.{
  ℕ, Bool, true, false, ◌&&◌, Option, none, some, List, [], ◌∷◌, Bytes, if◌then◌else◌, ◌==◌,
}
use newsbaoter.Common.Int.{ℤ, pos, negsuc}
use newsbaoter.Common.Run.{Run, ok, fault, null_pointer, diverges, exits, ◌>>=◌}

-- what a descriptor stands for
pub data File : Type 0 where
  read_end : File
  write_end : File
  other : ℕ → File

abbrev pub Fds : Type 0
Fds = ℕ → Option File

abbrev pub close : ℕ → Fds → Fds
close fd t n = if n == fd then none else t n

abbrev pub dup2 : ℕ → ℕ → Fds → Fds
dup2 from to t n = if n == to then t from else t n

-- pipe(2): the two descriptors that it opens, or those in `pipefd` where it fails
pub data Piped : Type 0 where
  made : ℕ → ℕ → Piped
  not_made : ℕ → ℕ → Piped

abbrev pub pipefd : Piped → ℕ × ℕ
pipefd (made r w) = (r, w)
pipefd (not_made r w) = (r, w)

abbrev pub with_pipe : Piped → Fds → Fds
with_pipe (made r w) t n = if n == r then some read_end else if n == w then some write_end else t n
with_pipe (not_made r w) t n = t n

-- what fork(2) returns, and where: in the child, with whether execvp(3) succeeds, or in the parent
pub data Forked : Type 0 where
  child : Bool → Forked
  parent : ℕ → Forked
  no_child : Forked

-- Where `pipe_to_process` ends: the program runs, or the call returns a result, with `*pid` and `*fd`.
pub data Piping : Type 0 where
  runs : Bytes → List Bytes → Fds → Piping
  back : ℕ → ℤ → ℕ → Fds → Piping

-- execvp(args[0],args), and exit(1) behind it
abbrev pub exec : Bool → Option (List Bytes) → Fds → Run Piping
exec found none t = fault null_pointer
exec found (some []) t = fault (exits 1)
exec false (some (a ∷ rest)) t = fault (exits 1)
exec true (some (a ∷ rest)) t = ok (runs a rest t)

-- `fd` is what `*fd` holds before
unfoldable pub pipe_to_process : Piped → Forked → ℕ → Option (List Bytes) → Fds → Run Piping
pipe_to_process p (child found) fd args t =
    let u = dup2 (pipefd p).0 0 (with_pipe p t) in
    exec found args (close (pipefd p).1 (close (pipefd p).0 u))
pipe_to_process p (parent pid) fd args t =
    ok (back 0 (pos pid) (pipefd p).1 (close (pipefd p).0 (with_pipe p t)))
pipe_to_process p no_child fd args t = ok (back 1 (negsuc 0) fd (with_pipe p t))

-- `WIFEXITED(status)`, `WIFSIGNALED(status)`, or neither
pub data Status : Type 0 where
  exited : Status
  signaled : Status
  stopped : Status

-- what waitpid(2) answers: -1, with whether errno is EINTR, or a process with its status
pub data Waited : Type 0 where
  failed : Bool → Waited
  changed : ℕ → Status → Waited

abbrev pub has_ended : Status → Bool
has_ended exited = true
has_ended signaled = true
has_ended stopped = false

-- ret==pid
abbrev pub is_of : ℤ → Waited → Bool
is_of (pos pid) (failed eintr) = false
is_of (pos pid) (changed p s) = p == pid
is_of (negsuc n) (failed eintr) = n == 0
is_of (negsuc n) (changed p s) = false

-- `status`, which a call that fails leaves as it is
abbrev pub status_of : Status → Waited → Status
status_of old (failed eintr) = old
status_of old (changed p s) = s

abbrev pub is_error : Waited → Bool
is_error (failed true) = false
is_error (failed false) = true
is_error (changed p s) = false

-- The answers that are left where the loop ends.
unfoldable pub wait_for_process : Status → ℤ → List Waited → Run (List Waited)
wait_for_process status pid [] = fault diverges
wait_for_process status pid (a ∷ rest) =
    let later = wait_for_process (status_of status a) pid rest in
    if is_error a
    then ok rest
    else if is_of pid a && has_ended (status_of status a)
    then ok rest
    else later

-- What `pipe_fields` has done: where the text is written, the descriptors after it, and the answers
-- that are left; or the program of the child.
pub data Fed : Type 0 where
  in_child : Bytes → List Bytes → Fds → Fed
  fed : Option File → Fds → List Waited → Fed

-- `pid` and `fd` of `pipe_fields` are not initialised; the text goes to `fd`, whatever the result is
abbrev pub write_and_wait : Status → List Waited → Piping → Run Fed
write_and_wait junk answers (runs a rest t) = ok (in_child a rest t)
write_and_wait junk answers (back r pid fd t) =
    wait_for_process junk pid answers >>= λ rest. ok (fed (t fd) (close fd t) rest)

-- what `pipe_fields` does with processes and descriptors
unfoldable pub feed_process :
    Piped → Forked → ℕ → Status → Option (List Bytes) → List Waited → Fds → Run Fed
unfolding pipe_to_process wait_for_process
feed_process p f fd junk args answers t =
    pipe_to_process p f fd args t >>= write_and_wait junk answers
