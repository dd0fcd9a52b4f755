-- ===== src/Tests/FdManager.antt =====
-- src/fdmanager.cc on concrete inputs: descriptor 5 is a socket, and there is no other.
use tiger.Base.{ℕ, Bool, true, Option, none, some, ◌≡◌, refl}
use tiger.Base.{◌==◌, if◌then◌else◌, replicate}
use tiger.FdManager.Table.{FdManager, add_fd, timeout}
use tiger.FdManager.TableLaws.{add_fd_beyond}

abbrev fstat : ℕ → Option Bool
fstat fd = if fd == 5 then some true else none

timeout_run : timeout 6000 0 ≡ 6000
unfolding timeout
timeout_run = refl

abbrev short : FdManager
short = replicate 3 none

-- A table of 135 has grown from 60 by way of 90.
add_fd_beyond_example : add_fd fstat 202 (replicate 135 none) ≡ none
add_fd_beyond_example = add_fd_beyond fstat 202 (replicate 135 none) refl
