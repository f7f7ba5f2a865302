-- ===== src/Pipeline/Files.antt =====
-- Who holds the ends of the pipe.
use advanced_systems_program.Prelude.{ℕ, ◌≤◌, ◌≡◌, ◌≢◌, ◌↔◌, some, arith}
use advanced_systems_program.Pipeline.{read_end, write_end, child_a, child_b, parent}

-- `pipe` gives two different descriptors behind the three that are open. Then the write end is the
-- standard output of the first child and nothing else, the read end is the standard input of the
-- second and nothing else, and the parent holds neither, so the second child sees the end of its
-- input once the first has exited.
pub pipe_ends :
    (r w : ℕ)
    → 3 ≤ r
    → 3 ≤ w
    → r ≢ w
    → (k : ℕ)
    → ((child_a r w k ≡ some write_end) ↔ (k ≡ 1))
      × (child_a r w k ≢ some read_end)
      × ((child_b r w k ≡ some read_end) ↔ (k ≡ 0))
      × (child_b r w k ≢ some write_end)
      × (parent r w k ≢ some read_end)
      × (parent r w k ≢ some write_end)
unfolding child_a child_b parent
pipe_ends r w hr hw ne k = (
  (λ h. ground arith, λ h. ground arith),
  λ h. ground arith,
  (λ h. ground arith, λ h. ground arith),
  λ h. ground arith,
  λ h. ground arith,
  λ h. ground arith,
)
