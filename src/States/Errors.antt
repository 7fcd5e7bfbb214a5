-- ===== src/States/Errors.antt =====
-- Counting the errors of a pod.
use krustlet.Prelude.{
  ℕ, zero, suc, ◌+◌, ◌%◌, ◌≡◌, arith, String, ok, if◌then◌else◌, ◌==◌, nat_eq, Bool-cases, ltb, inl,
  inr, ap, ◌∙◌, Bool,
}
use krustlet.States.{
  PodState, record_error, World, run_state, error_next, error, next, crash_loop_backoff, registered,
}

-- `n` errors in a row.
pub after_errors : ℕ → PodState → PodState
after_errors zero s = s
after_errors (suc n) s = (record_error (after_errors n s)).0

errors-after_errors : (n : ℕ) (s : PodState) → s.errors ≡ 0 → (after_errors n s).errors ≡ n % 4
unfolding after_errors record_error
errors-after_errors zero s h = omega (arith, h)
errors-after_errors (suc n) s h = ground (arith, errors-after_errors n s h)

error_next-record_error :
    (s : PodState)
    → error_next (record_error s)
      ≡ (next (if ltb 3 (s.errors + 1) then crash_loop_backoff else registered), (record_error s).0)
unfolding error_next record_error
error_next-record_error s = elim (Bool-cases (ltb 3 (s.errors + 1))) [
  | inl e ↦ ground (arith, e)
  | inr e ↦ ground (arith, e)
]

fourth : (n e : ℕ) → e ≡ n % 4 → ltb 3 (e + 1) ≡ ((n + 1) % 4 == 0)
fourth n e h = ground (arith, h)

-- From a pod state with no errors, the error that follows `n` others sends the pod to the crash loop
-- backoff if it is a fourth one, that is if four divides `n + 1`, and to `registered` if it is not,
-- whatever the error and the answers of the outside.
pub error_next-fourth :
    (n : ℕ) (s : PodState) (message : String) (w : World)
    → s.errors ≡ 0
    → run_state (error message) w (after_errors n s)
      ≡ ok (
        next (if (n + 1) % 4 == 0 then crash_loop_backoff else registered),
        after_errors (suc n) s,
      )
unfolding run_state after_errors
error_next-fourth n s message w h = ap ok (
    error_next-record_error (after_errors n s)
    ∙ ap
        (λ (b : Bool). (
          next (if b then crash_loop_backoff else registered),
          (record_error (after_errors n s)).0,
        ))
        (fourth n (after_errors n s).errors (errors-after_errors n s h)))
