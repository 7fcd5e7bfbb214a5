-- ===== src/States/Running.antt =====
-- Waiting for the containers of a pod.
use krustlet.States.{await_results, Transition, next, complete, completed, error, first_error}
use krustlet.Prelude.{
  subst, zero, suc, refl, List, [], ◌∷◌, Result, ok, err, ◌≡◌, ◌<◌, ◌+◌, ℕ, take, length, String,
  ◌<>◌, nat_eq, ◌==◌, arith, if◌then◌else◌,
}

-- What the results that the channel delivers, at most one for each container, come to.
abbrev pub outcome : String → ℕ → Result String (Unit {0}) → ℕ → Transition
outcome p total (err e) delivered = complete (err e)
outcome p total (ok _) delivered =
    if delivered == total
    then next completed
    else next (error ("Pod " <> (p <> " container result channel hung up.")))

-- With `left + 1` containers still to come.
await_results-from :
    (p : String) (left total done : ℕ) (rs : List (Result String (Unit {0})))
    → total ≡ done + suc left
    → await_results p total done rs
      ≡ outcome p total (first_error (take (suc left) rs)) (done + length (take (suc left) rs))
unfolding await_results first_error
await_results-from p left total done [] h = ground (arith, h)
await_results-from p left total done (err e ∷ rs) h = refl
await_results-from p zero total done (ok _ ∷ rs) h = ground (arith, h)
await_results-from p (suc left) total done (ok _ ∷ rs) h =
    ground (arith, h, await_results-from p left total (done + 1) rs (omega (arith, h)))

-- A pod of `total` containers takes the first `total` results of their channel: with an error among
-- them the machine ends in the first one; with `total` results and no error the pod is completed; and
-- with fewer, the channel closed, the pod goes to the error state.
pub await_results-outcome :
    (p : String) (total : ℕ) (rs : List (Result String (Unit {0})))
    → 0 < total
    → await_results p total 0 rs
      ≡ outcome p total (first_error (take total rs)) (length (take total rs))
await_results-outcome p zero rs h = absurd (omega (arith, h))
await_results-outcome p (suc n) rs h =
    subst
      (λ (k : ℕ).
        await_results p (suc n) 0 rs ≡ outcome p (suc n) (first_error (take (suc n) rs)) k)
      (omega arith) (await_results-from p n (suc n) 0 rs (omega arith))
