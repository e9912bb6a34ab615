-- ===== src/Tools/Execute/Policy.antt =====
-- tools/registry.go: which calls the policy, the judge and the validation let run.
use sp4rk.Base.{
  Text, [], ◌∷◌, Bool, true, false, false≢true, if◌then◌else◌, not, ◌&&◌, is_empty, Bool-cases, ◌↔◌,
  text_eq, text_eq_iff, arith, Option, none, some, ◌≡◌, ◌≢◌, refl, sym, ap, subst, ◌∙◌, inl, inr,
  ◌⊎◌, Option-cases,
}
use sp4rk.Base.Map.{lookup}
use sp4rk.Tools.Tool.{
  Tool, ToolPolicy, always_deny, user_confirm, JudgeOutcome, ConfirmationRequest, allow_once,
  Confirmation, answered,
}
use sp4rk.Tools.Registry.{ToolRegistry, category_for, source_category_mcp}
use sp4rk.Tools.Execute.{request_for, unjudged, flagged, policy_of, invalid}

-- The user was asked about `outcome` and allowed this call.
abbrev pub Confirmed : ToolRegistry → Text → Text → JudgeOutcome → Type 0
Confirmed r name input outcome =
    (confirm : ConfirmationRequest → Confirmation) × (r.confirm_func ≡ some confirm)
    × (confirm (request_for name input outcome) ≡ answered allow_once)

-- The policy of a tool: the override of its name, or the tool's own where there is none.
abbrev pub HasPolicy : ToolRegistry → Text → Tool → ToolPolicy → Type 0
HasPolicy r name tool p =
    (lookup name r.policy_overrides ≡ some p)
    ⊎ ((lookup name r.policy_overrides ≡ none) × (tool.default_policy ≡ p))

-- The tool has a judge that does not allow the input, and says why.
abbrev pub Flags : Tool → Text → JudgeOutcome → Type 0
Flags tool input o =
    (judge : Text → JudgeOutcome) × (tool.judge ≡ some judge)
    × (judge input ≡ o)
    × (o.allow ≡ false)
    × (o.reason ≢ [])

-- The validation is off or finds no error; it takes a schema as closed but for the tools of MCP.
abbrev pub IsValidInput :
    (Text → Text → Text → Bool → Option Text) → ToolRegistry → Tool → Text → Text → Type 0
IsValidInput validate r tool name input =
    (r.input_validation_enabled ≡ false)
    ⊎ ((closed : Bool) × (validate tool.name tool.input_schema input closed ≡ none)
        × ((closed ≡ false) ↔ (category_for r name ≡ source_category_mcp)))

-- The policy lets the call run: it asks for a confirmation, which was given, or it is neither that
-- nor a denial, and the judge does not flag the call, or it does and the call was confirmed.
abbrev pub Permitted : ToolRegistry → Tool → Text → Text → Type 0
Permitted r tool name input =
    (HasPolicy r name tool user_confirm × Confirmed r name input unjudged)
    ⊎ ((¬ HasPolicy r name tool always_deny × ¬ HasPolicy r name tool user_confirm)
        × (((o : JudgeOutcome) → ¬ Flags tool input o)
            ⊎ ((o : JudgeOutcome) × Flags tool input o × Confirmed r name input o)))

pub policy_of-HasPolicy :
    (r : ToolRegistry) (name : Text) (tool : Tool) (p : ToolPolicy)
    → (policy_of r name tool ≡ p) ↔ HasPolicy r name tool p
unfolding policy_of
policy_of-HasPolicy r name tool p = (
  λ h. elim (Option-cases (lookup name r.policy_overrides)) [
    | inl e ↦ inr (e, rw (e, policy_of) at h)
    | inr (q, e) ↦ inl (e ∙ ap some (rw (e, policy_of) at h))
  ],
  λ k. elim k [ inl e ↦ rw (e, policy_of) refl | inr (e, d) ↦ rw (e, policy_of) d ],
)

is_empty-false : (t : Text) → (is_empty t ≡ false) ↔ (t ≢ [])
is_empty-false [] = (λ h. cc, λ n. absurd (n refl))
is_empty-false (c ∷ t) = (λ h e. cc e, λ n. refl)

-- The test of an outcome.
flag_iff :
    (x o : JudgeOutcome)
    → ((if not x.allow && not (is_empty x.reason) then some x else none) ≡ some o)
      ↔ ((x ≡ o) × (o.allow ≡ false) × (o.reason ≢ []))
flag_iff x o = (
  λ h. elim (Bool-cases (not x.allow && not (is_empty x.reason))) [
    | inl t ↦
        let same : x ≡ o = cc (rw t at h) in
        (
          same,
          subst (λ (y : JudgeOutcome). y.allow ≡ false) same (ground arith),
          subst (λ (y : JudgeOutcome). y.reason ≢ []) same
              ((is_empty-false x.reason).0 (ground arith)),
        )
    | inr f ↦ absurd (cc (rw f at h))
  ],
  λ (same, a, n).
      let a' : x.allow ≡ false = subst (λ (y : JudgeOutcome). y.allow ≡ false) (sym same) a in
      let n' : is_empty x.reason ≡ false =
        (is_empty-false x.reason).1 (subst (λ (y : JudgeOutcome). y.reason ≢ []) (sym same) n) in
      let t : (not x.allow && not (is_empty x.reason)) ≡ true = ground arith in rw t (ap some same),
)

pub flagged-Flags :
    (tool : Tool) (input : Text) (o : JudgeOutcome)
    → (flagged tool input ≡ some o) ↔ Flags tool input o
unfolding flagged
flagged-Flags tool input o = (
  λ h. elim (Option-cases tool.judge) [
    | inl p ↦ absurd (cc (rw (p, flagged) at h))
    | inr (judge, p) ↦
        let (same, a, n) = (flag_iff (judge input) o).0 (rw (p, flagged) at h) in
        (judge, p, same, a, n)
  ],
  λ (judge, p, same, a, n). rw (p, flagged) ((flag_iff (judge input) o).1 (same, a, n)),
)

same_test : (a b : Bool) (P : Type 0) → (a ≡ false) ↔ P → (b ≡ false) ↔ P → a ≡ b
same_test true true P k l = refl
same_test false false P k l = refl
same_test true false P k l = k.1 (l.0 refl)
same_test false true P k l = sym (l.1 (k.0 refl))

pub invalid-IsValidInput :
    (validate : Text → Text → Text → Bool → Option Text) (r : ToolRegistry) (tool : Tool)
    (name input : Text)
    → (invalid validate r tool name input ≡ none) ↔ IsValidInput validate r tool name input
unfolding invalid
invalid-IsValidInput validate r tool name input =
    let closed = not (text_eq (category_for r name) source_category_mcp) in
    let mcp = text_eq_iff (category_for r name) source_category_mcp in
    let is_closed : (closed ≡ false) ↔ (category_for r name ≡ source_category_mcp) =
      (λ c. mcp.0 (ground arith), λ e. let t = mcp.1 e in ground arith) in
    elim (Bool-cases r.input_validation_enabled) [
      | inl on ↦ (
        λ h. inr (closed, rw (on, invalid) at h, is_closed),
        λ v. elim v [
          | inl off ↦ absurd (false≢true (sym off ∙ on))
          | inr (b, h, k) ↦
              let same : b ≡ closed = same_test b closed _ k is_closed in
              rw (on, invalid)
                (subst (λ c. validate tool.name tool.input_schema input c ≡ none) same h)
        ],
      )
      | inr off ↦ (λ h. inl off, λ v. rw (off, invalid) refl)
    ]
