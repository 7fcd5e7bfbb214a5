-- ===== src/Pod/Statuses.antt =====
-- How the container statuses of a pod are first set.
use krustlet.Pod.{Pod, is_populated}
use krustlet.Prelude.{ℕ, ◌+◌, ◌*◌, ◌<◌, ◌≡◌, true}

module _ (latest : ℕ → Pod) (nc ni : ℕ) where
  -- Of the reads `t`, `t + 1` and so on, `polls` many, one is populated.
  abbrev pub Seen : ℕ → ℕ → Type 0
  Seen polls t = (j : ℕ) × (j < polls) × (is_populated nc ni (latest (t + j)) ≡ true)

  -- Of the reads of the inner loops, ten in each of `left` rounds of eleven from read `t` on, one is
  -- populated.
  abbrev pub SeenFrom : ℕ → ℕ → Type 0
  SeenFrom left t = (r : ℕ) × (r < left) × Seen 10 (t + 11 * r + 1)
