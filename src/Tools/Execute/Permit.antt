-- ===== src/Tools/Execute/Permit.antt =====
-- tools/registry.go: when Execute runs a tool, and what it replies.
use sp4rk.Base.{
  Text, List, [], ◌∷◌, ◌++◌, Bool, true, Option, none, some, ◌≡◌, ◌≢◌, refl, sym, ap, subst, ◌∙◌,
  codes, inl, inr, ◌⊎◌, Memᴰ, Option-cases,
}
use sp4rk.Base.Map.{Keys}
use sp4rk.Tools.Tool.{
  Tool, ToolPolicy, always_allow, always_deny, user_confirm, unlisted, Reply, returned, failed,
  JudgeOutcome, ConfirmationRequest, allow_once, deny, deny_and_stop, unknown, Confirmation,
  answered, unavailable, ToolResult,
}
use sp4rk.Tools.Registry.{ToolRegistry, get}
use sp4rk.Tools.Execute.{
  Event, asked, ran, Run, refused, run_tool, request_for, confirm_and_execute, unjudged, flagged,
  policy_of, judge_and_execute, dispatch, invalid, execute, conclude, no_confirm_func_text,
  tool_not_found_text,
}
use sp4rk.Tools.Execute.Policy.{
  Confirmed, HasPolicy, Flags, IsValidInput, Permitted, policy_of-HasPolicy, flagged-Flags,
  invalid-IsValidInput,
}

-- An answer that is not the tool's own: a Go error, or a result that is marked as an error.
pub data IsRefusal : Reply → Type 0 where
  error : (e : Text) → IsRefusal (failed e)
  error_result : (r : ToolResult) → r.is_error ≡ true → IsRefusal (returned r)

-- A run that ran the tool, as its last event, with the tool's answer; or that did not, with a refusal.
abbrev pub RunsIf : Type 0 → Tool → Text → Run → Type 0
RunsIf P tool input x =
    (P
      × ((before : List Event) × (x.events ≡ before ++ (ran tool input ∷ []))
          × ((t : Tool) (i : Text) → ¬ Memᴰ (ran t i) before)
          × (x.reply ≡ tool.execute input)))
    ⊎ (¬ P × (((t : Tool) (i : Text) → ¬ Memᴰ (ran t i) x.events) × IsRefusal x.reply))

asked_only : (q : ConfirmationRequest) (t : Tool) (i : Text) → ¬ Memᴰ (ran t i) (asked q ∷ [])
asked_only q t i (Memᴰ.head e) = cc e
asked_only q t i (Memᴰ.tail m) = elim m [ ]

nothing : (t : Tool) (i : Text) → ¬ Memᴰ (ran t i) []
nothing t i m = elim m [ ]

RunsIf-refused :
    (P : Type 0) (tool : Tool) (input content : Text) → ¬ P → RunsIf P tool input (refused content)
RunsIf-refused P tool input content n = inr (n, (nothing, error_result _ refl))

confirm_and_execute-some :
    (quote : Text → Text) (r : ToolRegistry) (tool : Tool) (name input : Text) (o : JudgeOutcome)
    (confirm : ConfirmationRequest → Confirmation) (c : Confirmation)
    → r.confirm_func ≡ some confirm
    → confirm (request_for name input o) ≡ c
    → confirm_and_execute quote r tool name input o
      ≡ conclude tool input o (request_for name input o) c
unfolding confirm_and_execute
confirm_and_execute-some quote r tool name input o confirm c h e =
    rw (h, e, confirm_and_execute) refl

confirm_and_execute-none :
    (quote : Text → Text) (r : ToolRegistry) (tool : Tool) (name input : Text) (o : JudgeOutcome)
    → r.confirm_func ≡ none
    → confirm_and_execute quote r tool name input o ≡ refused (no_confirm_func_text quote name)
unfolding confirm_and_execute
confirm_and_execute-none quote r tool name input o h = rw (h, confirm_and_execute) refl

module _ (quote : Text → Text) (r : ToolRegistry) (tool : Tool) (name input : Text) where
  -- The policies of the default arm.
  abbrev IsOther : ToolPolicy → Type 0
  IsOther p = (p ≢ always_deny) × (p ≢ user_confirm)

  dispatch-other :
      (p : ToolPolicy)
      → policy_of r name tool ≡ p
      → IsOther p
      → dispatch quote r tool name input ≡ judge_and_execute quote r tool name input
  unfolding dispatch
  dispatch-other always_allow e d = rw (e, dispatch) refl
  dispatch-other (unlisted n) e d = rw (e, dispatch) refl
  dispatch-other always_deny e d = absurd (d.0 refl)
  dispatch-other user_confirm e d = absurd (d.1 refl)

  judge-none :
      flagged tool input ≡ none → judge_and_execute quote r tool name input ≡ run_tool [] tool input
  unfolding judge_and_execute
  judge-none f = rw (f, judge_and_execute) refl

  judge-some :
      (o : JudgeOutcome)
      → flagged tool input ≡ some o
      → judge_and_execute quote r tool name input ≡ confirm_and_execute quote r tool name input o
  unfolding judge_and_execute
  judge-some o f = rw (f, judge_and_execute) refl

  dispatch-confirm :
      policy_of r name tool ≡ user_confirm
      → dispatch quote r tool name input ≡ confirm_and_execute quote r tool name input unjudged
  unfolding dispatch
  dispatch-confirm p = rw (p, dispatch) refl

  dispatch-deny :
      policy_of r name tool ≡ always_deny
      → dispatch quote r tool name input
        ≡ refused (codes "tool " ++ (quote name ++ codes " blocked by security policy"))
  unfolding dispatch
  dispatch-deny p = rw (p, dispatch) refl

module _ (quote : Text → Text) (r : ToolRegistry) (tool : Tool) (name input : Text) where
  -- Another answer than the allowing one is no confirmation.
  other-Confirmed :
      (o : JudgeOutcome) (confirm : ConfirmationRequest → Confirmation) (c : Confirmation)
      → r.confirm_func ≡ some confirm
      → confirm (request_for name input o) ≡ c
      → c ≢ answered allow_once
      → ¬ Confirmed r name input o
  other-Confirmed o confirm c h e n (confirm', h', e') =
      let same : confirm ≡ confirm' = cc (h, h') in
      n (
        sym e
        ∙ (ap (λ (f : ConfirmationRequest → Confirmation). f (request_for name input o)) same ∙ e'))

  conclude-RunsIf :
      (o : JudgeOutcome) (confirm : ConfirmationRequest → Confirmation) (c : Confirmation)
      → r.confirm_func ≡ some confirm
      → confirm (request_for name input o) ≡ c
      → RunsIf
          (Confirmed r name input o)
          tool
          input
          (conclude tool input o (request_for name input o) c)
  unfolding conclude
  conclude-RunsIf o confirm (answered allow_once) h e =
      let q = request_for name input o in
      inl ((confirm, h, e), (asked q ∷ [], refl, asked_only q, refl))
  conclude-RunsIf o confirm (answered deny) h e = inr (
    other-Confirmed o confirm _ h e (λ p. cc p),
    (asked_only (request_for name input o), error_result _ refl),
  )
  conclude-RunsIf o confirm (answered deny_and_stop) h e = inr (
    other-Confirmed o confirm _ h e (λ p. cc p),
    (asked_only (request_for name input o), error _),
  )
  conclude-RunsIf o confirm (answered (unknown n)) h e = inr (
    other-Confirmed o confirm _ h e (λ p. cc p),
    (asked_only (request_for name input o), error _),
  )
  conclude-RunsIf o confirm (unavailable t) h e = inr (
    other-Confirmed o confirm _ h e (λ p. cc p),
    (asked_only (request_for name input o), error _),
  )

  confirm_and_execute-RunsIf :
      (o : JudgeOutcome)
      → RunsIf (Confirmed r name input o) tool input (confirm_and_execute quote r tool name input o)
  confirm_and_execute-RunsIf o = elim (Option-cases r.confirm_func) [
    | inl p ↦ rw (confirm_and_execute-none quote r tool name input o p) (
        RunsIf-refused (Confirmed r name input o) tool input (no_confirm_func_text quote name)
          (λ c. absurd (cc (p, c.1))))
    | inr (confirm, p) ↦
        rw (confirm_and_execute-some quote r tool name input o confirm _ p refl)
          (conclude-RunsIf o confirm (confirm (request_for name input o)) p refl)
  ]

  -- The condition under which a run is made may be replaced by an equivalent one.
  RunsIf-iff :
      (P Q : Type 0) (x : Run) → (P → Q) → (Q → P) → RunsIf P tool input x → RunsIf Q tool input x
  RunsIf-iff P Q x f g (inl (p, t)) = inl (f p, t)
  RunsIf-iff P Q x f g (inr (n, t)) = inr (λ q. n (g q), t)

  -- The default arm.
  judge-RunsIf :
      ¬ HasPolicy r name tool always_deny
      → ¬ HasPolicy r name tool user_confirm
      → RunsIf (Permitted r tool name input) tool input (judge_and_execute quote r tool name input)
  judge-RunsIf nd nc = elim (Option-cases (flagged tool input)) [
    | inl f ↦
        let quiet = λ (o : JudgeOutcome) (k : Flags tool input o).
          absurd (cc (f, (flagged-Flags tool input o).1 k)) in
        rw (judge-none quote r tool name input f)
          (inl (inr ((nd, nc), inl quiet), ([], refl, nothing, refl)))
    | inr (o, f) ↦
        let flags = (flagged-Flags tool input o).0 f in
        rw (judge-some quote r tool name input o f) (
          RunsIf-iff (Confirmed r name input o) (Permitted r tool name input)
            (confirm_and_execute quote r tool name input o) (λ c. inr ((nd, nc), inr (o, flags, c)))
            (λ q. elim q [
              | inl x ↦ absurd (nc x.0)
              | inr (_, inl n) ↦ absurd (n o flags)
              | inr (_, inr (o', k, c)) ↦
                  let same : o ≡ o' = cc (f, (flagged-Flags tool input o').1 k) in
                  subst (Confirmed r name input) (sym same) c
            ])
            (confirm_and_execute-RunsIf o))
  ]

  not-HasPolicy : (p q : ToolPolicy) → policy_of r name tool ≡ p → p ≢ q → ¬ HasPolicy r name tool q
  not-HasPolicy p q e n k = n (sym e ∙ (policy_of-HasPolicy r name tool q).1 k)

  other-RunsIf :
      (p : ToolPolicy)
      → policy_of r name tool ≡ p
      → p ≢ always_deny
      → p ≢ user_confirm
      → RunsIf (Permitted r tool name input) tool input (dispatch quote r tool name input)
  other-RunsIf p e nd nc =
      rw (dispatch-other quote r tool name input p e (nd, nc))
        (judge-RunsIf (not-HasPolicy p always_deny e nd) (not-HasPolicy p user_confirm e nc))

  by_policy :
      (policy : ToolPolicy)
      → policy_of r name tool ≡ policy
      → RunsIf (Permitted r tool name input) tool input (dispatch quote r tool name input)
  by_policy always_allow p = other-RunsIf always_allow p (λ e. cc e) (λ e. cc e)
  by_policy (unlisted n) p = other-RunsIf (unlisted n) p (λ e. cc e) (λ e. cc e)
  by_policy always_deny p = rw (dispatch-deny quote r tool name input p) (
      RunsIf-refused (Permitted r tool name input) tool input _ (λ q. elim q [
        | inl x ↦ not-HasPolicy always_deny user_confirm p (λ e. cc e) x.0
        | inr y ↦ y.0.0 ((policy_of-HasPolicy r name tool always_deny).0 p)
      ]))
  by_policy user_confirm p =
      let policy = (policy_of-HasPolicy r name tool user_confirm).0 p in
      rw (dispatch-confirm quote r tool name input p) (
        RunsIf-iff (Confirmed r name input unjudged) (Permitted r tool name input)
          (confirm_and_execute quote r tool name input unjudged) (λ c. inl (policy, c))
          (λ q. elim q [ inl x ↦ x.1 | inr y ↦ absurd (y.0.1 policy) ])
          (confirm_and_execute-RunsIf unjudged))

  dispatch-RunsIf :
      RunsIf (Permitted r tool name input) tool input (dispatch quote r tool name input)
  dispatch-RunsIf = by_policy (policy_of r name tool) refl

module _ (quote : Text → Text) (validate : Text → Text → Text → Bool → Option Text)
    (scope : Option Keys) (r : ToolRegistry) (name input : Text) where
  execute-valid :
      (tool : Tool)
      → get r name ≡ some tool
      → invalid validate r tool name input ≡ none
      → execute quote validate scope r name input ≡ dispatch quote r tool name input
  unfolding execute
  execute-valid tool g v = rw (g, v, execute) refl

  execute-invalid :
      (tool : Tool) (e : Text)
      → get r name ≡ some tool
      → invalid validate r tool name input ≡ some e
      → execute quote validate scope r name input ≡ refused e
  unfolding execute
  execute-invalid tool e g v = rw (g, v, execute) refl

  execute-missing :
      get r name ≡ none
      → execute quote validate scope r name input ≡ refused (tool_not_found_text quote scope r name)
  unfolding execute
  execute-missing g = rw (g, execute) refl

-- A call of a registered tool runs it, once and as the last thing that it does, exactly when its
-- input is valid (the validation is off or finds no error) and the policy, which is the override of
-- the name or else the tool's own, permits the call: it asks for a confirmation, or it is no denial
-- and the tool's judge does not flag the call, or the judge does; and where the policy or the judge
-- asks, a ConfirmFunc is set and allowed this call. The reply is then the tool's, and in every other
-- case it is an error, with no tool run.
pub execute-RunsIf :
    (quote : Text → Text) (validate : Text → Text → Text → Bool → Option Text) (scope : Option Keys)
    (r : ToolRegistry) (name input : Text) (tool : Tool)
    → get r name ≡ some tool
    → RunsIf
        (IsValidInput validate r tool name input × Permitted r tool name input)
        tool
        input
        (execute quote validate scope r name input)
execute-RunsIf quote validate scope r name input tool g =
    let checked = invalid-IsValidInput validate r tool name input in
    elim (Option-cases (invalid validate r tool name input)) [
      | inl v ↦ rw (execute-valid quote validate scope r name input tool g v) (
          RunsIf-iff quote r tool name input _ _ (dispatch quote r tool name input)
            (λ p. (checked.0 v, p)) (λ p. p.1) (dispatch-RunsIf quote r tool name input))
      | inr (e, v) ↦
          rw (execute-invalid quote validate scope r name input tool e g v)
            (RunsIf-refused _ tool input e (λ p. absurd (cc (v, checked.1 p.0))))
    ]

-- A call of a name that is not registered runs no tool, and its reply is an error.
pub execute_unknown :
    (quote : Text → Text) (validate : Text → Text → Text → Bool → Option Text) (scope : Option Keys)
    (r : ToolRegistry) (name input : Text)
    → get r name ≡ none
    → ((t : Tool) (i : Text) → ¬ Memᴰ (ran t i) (execute quote validate scope r name input).events)
      × IsRefusal (execute quote validate scope r name input).reply
execute_unknown quote validate scope r name input g =
    rw (execute-missing quote validate scope r name input g) (nothing, error_result _ refl)
