-- ===== src/Llm/Retry/Attempts.antt =====
-- llm/router.go: how many attempts a call makes, and which of them the caller sees.
use sp4rk.Base.{
  Text, List, [], ◌∷◌, ℕ, zero, suc, ◌+◌, ◌-◌, ◌≤◌, ◌<◌, Bool, true, false, Option, is_empty,
  if◌then◌else◌, length, All, ◌≡◌, refl, sym, ap, ◌∙◌, subst, arith, inl, inr, Bool-cases, ◌⊎◌,
}
use sp4rk.Llm.Retry.{
  RetrySettings, Attempt, Outcome, responded, failed, Failure, is_retryable, CallRun, ChatResponse,
  outcome_of, forwarded, gives_up, ended, after, next_backoff, call_from, call,
}

outcome-cases :
    (o : Outcome) → ((r : ChatResponse) × (o ≡ responded r)) ⊎ ((e : Failure) × (o ≡ failed e))
outcome-cases (responded r) = inl (r, refl)
outcome-cases (failed e) = inr (e, refl)

move : (i attempt : ℕ) → suc i + attempt ≡ i + suc attempt
move i attempt = omega arith

is_empty-nil : (ds : List Text) → is_empty ds ≡ true → ds ≡ []
is_empty-nil [] h = refl
is_empty-nil (d ∷ ds) h = cc

module _ (settings : RetrySettings) (provider : Text) (request_model : Text)
    (family_of : Option (Text → Text)) (streaming : Bool) (chat : ℕ → Attempt)
    (slept : ℕ → Bool) where
  abbrev outcome_at : ℕ → Outcome
  outcome_at = outcome_of settings provider request_model family_of streaming chat slept

  abbrev seen_at : ℕ → List Text
  seen_at = forwarded settings provider request_model family_of streaming chat slept

  abbrev stops_at : ℕ → Failure → Bool
  stops_at = gives_up settings provider request_model family_of streaming chat slept

  abbrev next_after : ℕ → ℕ
  next_after = next_backoff settings provider request_model family_of streaming chat slept

  abbrev end_at : ℕ → CallRun
  end_at = ended settings provider request_model family_of streaming chat slept

  abbrev then_at : ℕ → ℕ → CallRun → CallRun
  then_at = after settings provider request_model family_of streaming chat slept

  abbrev loop : ℕ → ℕ → ℕ → CallRun
  loop = call_from settings provider request_model family_of streaming chat slept

  -- A round of the loop by the outcome of its attempt.
  abbrev round : ℕ → ℕ → ℕ → Outcome → CallRun
  round left attempt b o = elim o [
    | responded r ↦ end_at attempt
    | failed e ↦
        if stops_at attempt e
        then end_at attempt
        else then_at attempt b (loop left (suc attempt) (next_after b))
  ]

  loop-round :
      (left attempt b : ℕ) → loop (suc left) attempt b ≡ round left attempt b (outcome_at attempt)
  unfolding call_from
  loop-round left attempt b = refl

  loop-responds :
      (left attempt b : ℕ) (r : ChatResponse)
      → outcome_at attempt ≡ responded r
      → loop (suc left) attempt b ≡ end_at attempt
  loop-responds left attempt b r p = loop-round left attempt b ∙ ap (round left attempt b) p

  loop-fails :
      (left attempt b : ℕ) (e : Failure)
      → outcome_at attempt ≡ failed e
      → loop (suc left) attempt b ≡ (
          if stops_at attempt e
          then end_at attempt
          else then_at attempt b (loop left (suc attempt) (next_after b)))
  loop-fails left attempt b e p = loop-round left attempt b ∙ ap (round left attempt b) p

  -- With retries left, a round ends the call, or is followed by the rest of the loop.
  loop-cases :
      (left attempt b : ℕ)
      → (loop (suc left) attempt b ≡ end_at attempt)
        ⊎ ((e : Failure) × (outcome_at attempt ≡ failed e)
            × (stops_at attempt e ≡ false)
            × (loop (suc left) attempt b
                ≡ then_at attempt b (loop left (suc attempt) (next_after b))))
  loop-cases left attempt b = elim (outcome-cases (outcome_at attempt)) [
    | inl (r, p) ↦ inl (loop-responds left attempt b r p)
    | inr (e, p) ↦ elim (Bool-cases (stops_at attempt e)) [
      | inl g ↦ inl (loop-fails left attempt b e p ∙ rw g refl)
      | inr g ↦ inr (e, p, g, loop-fails left attempt b e p ∙ rw g refl)
    ]
  ]

  -- A round that is followed by another one has shown nothing to the caller.
  stops_at-seen : (attempt : ℕ) (e : Failure) → stops_at attempt e ≡ false → seen_at attempt ≡ []
  unfolding gives_up
  stops_at-seen attempt e h = is_empty-nil (seen_at attempt) (ground arith)

  -- The run is over at the attempt `last`: it has its outcome, and shows its deltas.
  record EndsAt (first : ℕ) (run : CallRun) : Type 0 where
    last : ℕ
    count : first + run.attempts ≡ suc last
    outcome_is : run.outcome ≡ outcome_at last
    deltas_are : run.deltas ≡ seen_at last

  end_at-EndsAt : (attempt : ℕ) → EndsAt attempt (end_at attempt)
  end_at-EndsAt attempt = record {
    last = attempt;
    count = omega arith;
    outcome_is = refl;
    deltas_are = refl;
  }

  loop-EndsAt : (left attempt b : ℕ) → EndsAt attempt (loop left attempt b)
  loop-EndsAt zero attempt b = unfold call_from in end_at-EndsAt attempt
  loop-EndsAt (suc left) attempt b = elim (loop-cases left attempt b) [
    | inl p ↦ subst (EndsAt attempt) (sym p) (end_at-EndsAt attempt)
    | inr (e, o, g, p) ↦
        let rest = loop-EndsAt left (suc attempt) (next_after b) in
        subst (EndsAt attempt) (sym p) (record {
          last = rest.last;
          count = omega (arith, rest.count);
          outcome_is = rest.outcome_is;
          deltas_are = rw (stops_at-seen attempt e g) rest.deltas_are;
        })
  ]

  -- The bounds on a run with `left` retries.
  record Bounded (left : ℕ) (run : CallRun) : Type 0 where
    attempts_le : run.attempts ≤ suc left
    sleeps_count : suc (length run.sleeps) ≡ run.attempts
    sleeps_le : All (λ b. b ≤ settings.max_backoff) run.sleeps

  next_after-le : (b : ℕ) → next_after b ≤ settings.max_backoff
  unfolding next_backoff
  next_after-le b = ground arith

  loop-Bounded :
      (left attempt b : ℕ) → b ≤ settings.max_backoff → Bounded left (loop left attempt b)
  loop-Bounded zero attempt b h =
      unfold call_from in record { attempts_le = omega arith; sleeps_count = refl; sleeps_le = tt }
  loop-Bounded (suc left) attempt b h = elim (loop-cases left attempt b) [
    | inl p ↦
        subst (Bounded (suc left)) (sym p)
          (record { attempts_le = omega arith; sleeps_count = refl; sleeps_le = tt })
    | inr (e, o, g, p) ↦
        let rest = loop-Bounded left (suc attempt) (next_after b) (next_after-le b) in
        subst (Bounded (suc left)) (sym p) (record {
          attempts_le = omega (arith, rest.attempts_le);
          sleeps_count = ap suc rest.sleeps_count;
          sleeps_le = (h, rest.sleeps_le);
        })
  ]

  -- An attempt that is retried: a retryable error, no delta, and a sleep that is not cut short.
  pub record Transient (attempt : ℕ) : Type 0 where
    pub error : Failure
    pub fails : outcome_at attempt ≡ failed error
    pub retries : is_retryable error ≡ true
    pub silent : seen_at attempt ≡ []
    pub sleeps : slept attempt ≡ true

  Transient-stops : (attempt : ℕ) (t : Transient attempt) → stops_at attempt t.error ≡ false
  unfolding gives_up
  Transient-stops attempt t = rw (t.silent, t.retries, t.sleeps) refl

  loop-retries :
      (left attempt b : ℕ) (t : Transient attempt)
      → loop (suc left) attempt b ≡ then_at attempt b (loop left (suc attempt) (next_after b))
  loop-retries left attempt b t =
      loop-fails left attempt b t.error t.fails ∙ rw (Transient-stops attempt t) refl

  loop-arrives :
      (left attempt b : ℕ) (r : ChatResponse)
      → outcome_at attempt ≡ responded r
      → ((loop left attempt b).outcome ≡ responded r) × ((loop left attempt b).attempts ≡ 1)
  loop-arrives zero attempt b r o = unfold call_from in (o, refl)
  loop-arrives (suc left) attempt b r o =
      let p = loop-responds left attempt b r o in
      (ap (λ (run : CallRun). run.outcome) p ∙ o, ap (λ (run : CallRun). run.attempts) p)

  loop-reaches :
      (k left attempt b : ℕ) (r : ChatResponse)
      → k ≤ left
      → ((i : ℕ) → i < k → Transient (i + attempt))
      → outcome_at (k + attempt) ≡ responded r
      → ((loop left attempt b).outcome ≡ responded r) × ((loop left attempt b).attempts ≡ suc k)
  loop-reaches zero left attempt b r h t o =
      let here : 0 + attempt ≡ attempt = omega arith in
      loop-arrives left attempt b r (subst (λ a. outcome_at a ≡ responded r) here o)
  loop-reaches (suc k) zero attempt b r h t o = absurd (omega arith)
  loop-reaches (suc k) (suc left) attempt b r h t o =
      let here : 0 + attempt ≡ attempt = omega arith in
      let now = subst Transient here (t 0 (omega arith)) in
      let p = loop-retries left attempt b now in
      let on : suc k + attempt ≡ k + suc attempt = omega arith in
      let later =
        λ (i : ℕ) (q : i < k). subst Transient (move i attempt) (t (suc i) (omega arith)) in
      let rest =
        loop-reaches k left (suc attempt) (next_after b) r (omega arith) later
          (subst (λ a. outcome_at a ≡ responded r) on o) in
      (
        ap (λ (run : CallRun). run.outcome) p ∙ rest.0,
        ap (λ (run : CallRun). run.attempts) p ∙ ap suc rest.1,
      )

  abbrev run : CallRun
  run = call settings provider request_model family_of streaming chat slept

  -- A call ends with the outcome of its last attempt, and the caller's sink has seen the deltas of
  -- that attempt only: no text that was shown is ever shown again.
  pub call-last :
      (run.outcome ≡ outcome_at (run.attempts - 1)) × (run.deltas ≡ seen_at (run.attempts - 1))
  unfolding call
  call-last =
      let ends = loop-EndsAt settings.max_retries 0 settings.initial_backoff in
      let at : ends.last ≡ run.attempts - 1 = omega (arith, ends.count) in
      (ends.outcome_is ∙ ap outcome_at at, ends.deltas_are ∙ ap seen_at at)

  -- If the first backoff is not above the largest one: a call makes at most one attempt more than
  -- there are retries, sleeps once between two attempts, and each of these sleeps starts from at most
  -- the largest backoff.
  pub call-bounds :
      settings.initial_backoff ≤ settings.max_backoff
      → (run.attempts ≤ suc settings.max_retries)
        × (suc (length run.sleeps) ≡ run.attempts)
        × All (λ b. b ≤ settings.max_backoff) run.sleeps
  unfolding call
  call-bounds h =
      let bounds = loop-Bounded settings.max_retries 0 settings.initial_backoff h in
      (bounds.attempts_le, bounds.sleeps_count, bounds.sleeps_le)

  -- If an attempt within the retries has a response, and each one before it fails with a retryable
  -- error, before any delta and with a sleep that is not cut short, then the call returns that
  -- response, at that attempt.
  pub call-responds :
      (k : ℕ) (r : ChatResponse)
      → k ≤ settings.max_retries
      → ((i : ℕ) → i < k → Transient (i + 0))
      → outcome_at (k + 0) ≡ responded r
      → (run.outcome ≡ responded r) × (run.attempts ≡ suc k)
  unfolding call
  call-responds k r h t o = loop-reaches k settings.max_retries 0 settings.initial_backoff r h t o
