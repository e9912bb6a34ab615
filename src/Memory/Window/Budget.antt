-- ===== src/Memory/Window/Budget.antt =====
-- memory/context.go: the budget of a window with a reserve for the tool schemas.
use sp4rk.Base.{
  ℕ, suc, ◌+◌, ◌-◌, ◌*◌, ◌≤◌, ◌<◌, true, false, ◌==◌, ◌≡◌, refl, ℤ, pos, negsuc, sub_ℕ, arith, ◌∙◌,
  ap,
}
use sp4rk.Memory.Window.{
  Floats, ContextWindow, reserved, overhead_limit, set_tool_overhead, effective_max, check_fill,
  status_of, reject,
}

sub-pos : (a b : ℕ) → b ≤ a → sub_ℕ a b ≡ pos (a - b)
sub-pos a b h = ground arith

module _ {F : Type 0} where
  overhead_limit_le :
      (w : ContextWindow F) → 5 * overhead_limit w ≤ 4 * (w.context_window - reserved w)
  unfolding overhead_limit
  overhead_limit_le w = omega arith

  -- The reserve that is set is within its cap.
  overhead-set :
      (tokens : ℤ) (w : ContextWindow F)
      → (set_tool_overhead tokens w).tool_overhead ≤ overhead_limit w
  unfolding set_tool_overhead
  overhead-set (pos n) w = ground arith
  overhead-set (negsuc n) w = omega arith

  effective-set :
      (tokens : ℤ) (w : ContextWindow F)
      → effective_max (set_tool_overhead tokens w)
        ≡ sub_ℕ w.context_window (reserved w + (set_tool_overhead tokens w).tool_overhead)
  unfolding set_tool_overhead effective_max
  effective-set (pos n) w = refl
  effective-set (negsuc n) w = refl

  -- Where the output limit and the safety margin leave a budget, a reserve for the tool schemas
  -- leaves it positive, and at least a fifth of it, however large or small the reserve asked for.
  pub effective_max-set_tool_overhead :
      (tokens : ℤ) (w : ContextWindow F)
      → reserved w < w.context_window
      → (n : ℕ) × (effective_max (set_tool_overhead tokens w) ≡ pos n)
        × (1 ≤ n)
        × (w.context_window - reserved w ≤ 5 * n)
  effective_max-set_tool_overhead tokens w h =
      let overhead = (set_tool_overhead tokens w).tool_overhead in
      let within : overhead ≤ overhead_limit w = overhead-set tokens w in
      let cap = overhead_limit_le w in
      (
        w.context_window - (reserved w + overhead),
        effective-set tokens w ∙ sub-pos w.context_window (reserved w + overhead) (omega arith),
        omega arith,
        omega arith,
      )

  status_of-reject :
      (floats : Floats F) (w : ContextWindow F) (p : F)
      → status_of floats w.thresholds p ≡ reject
      → floats.at_least p (floats.float 100) ≡ true
  unfolding status_of
  status_of-reject floats w p h = ground arith

  -- With a positive budget the status is that of the percentage.
  check_fill-reject :
      (floats : Floats F) (w : ContextWindow F) (n : ℕ)
      → effective_max w ≡ pos (suc n)
      → (check_fill floats w).status ≡ reject
      → floats.at_least (check_fill floats w).percent (floats.float 100) ≡ true
  unfolding check_fill
  check_fill-reject floats w n e =
      let over : (suc n == 0) ≡ false = ground arith in
      rw (e, check_fill, over) (λ h. status_of-reject floats w _ h)

  -- Where the output limit and the safety margin leave a budget, a window with any reserve for the
  -- tool schemas is rejected as full only when the percentage that is reported has reached 100.
  pub check_fill-set_tool_overhead :
      (floats : Floats F) (tokens : ℤ) (w : ContextWindow F)
      → reserved w < w.context_window
      → (check_fill floats (set_tool_overhead tokens w)).status ≡ reject
      → floats.at_least (check_fill floats (set_tool_overhead tokens w)).percent (floats.float 100)
        ≡ true
  check_fill-set_tool_overhead floats tokens w h =
      let positive = effective_max-set_tool_overhead tokens w h in
      let n = positive.0 - 1 in
      let suc_n : pos positive.0 ≡ pos (suc n) = ap pos (omega arith) in
      check_fill-reject floats (set_tool_overhead tokens w) n (positive.1 ∙ suc_n)
