-- ===== src/Pipeline.antt =====
-- Assignment1/location_updater.c: it connects `email_filter` to `calendar_filter` by a pipe. The
-- tables of open files of the three processes, in Safe what holds of an event line on its way through
-- both programs, and in Run the two programs on a whole mail.
pub mod Files
pub mod Run
pub mod Safe
mod Tests
use advanced_systems_program.Prelude.{ℕ, Option, none, some, ◌==◌, if◌then◌else◌}

-- What a file descriptor stands for.
pub data File : Type 0 where
  terminal_in terminal_out terminal_err : File
  read_end write_end : File

-- The open files of a process, by descriptor.
abbrev pub Table : Type 0
Table = ℕ → Option File

unfoldable pub close : ℕ → Table → Table
close fd t k = if k == fd then none else t k

-- `dup2(old, new)`
unfoldable pub dup2 : ℕ → ℕ → Table → Table
dup2 old new t k = if k == new then t old else t k

-- The table that the program starts with.
unfoldable pub standard : Table
standard k =
    if k == 0
    then some terminal_in
    else if k == 1
    then some terminal_out
    else if k == 2
    then some terminal_err
    else none

-- `pipe(pfd)` with the descriptors `r` and `w` that it chose.
unfoldable pub pipe : ℕ → ℕ → Table → Table
pipe r w t k = if k == r then some read_end else if k == w then some write_end else t k

-- The tables of the two children when they call `execlp`, and that of the parent when it waits.
-- `fork` copies the table.
unfoldable pub child_a : ℕ → ℕ → Table
unfolding close dup2 standard pipe
child_a r w = close w (dup2 w 1 (close r (pipe r w standard)))

unfoldable pub child_b : ℕ → ℕ → Table
unfolding close dup2 standard pipe
child_b r w = close r (dup2 r 0 (close w (pipe r w standard)))

unfoldable pub parent : ℕ → ℕ → Table
unfolding close standard pipe
parent r w = close w (close r (pipe r w standard))
