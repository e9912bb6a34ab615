-- ===== src/Llm/Prepare/Policy.antt =====
-- llm/router.go: which sampling parameters a prepared request has.
use sp4rk.Base.{
  Text, [], ℕ, Bool, true, false, Option, none, some, is_some, not, ◌||◌, if◌then◌else◌, ◌≡◌, refl,
  subst, arith,
}
use sp4rk.Llm.Prepare.{
  CallPurpose, deterministic, ModelCapabilities, ModelMetadata, SamplingDefaults, no_sampling,
  ChatRequest, Router, refuses, unvouched, or_else, fill_sampling, apply_default_sampling,
  prepare_request, identified, text_or,
}

-- A parameter that was set is as it was.
abbrev pub Kept {ℓ} : {A : Type ℓ} → Option A → Option A → Type ℓ
Kept {A = A} old new = (x : A) → old ≡ some x → new ≡ some x

or_else-Kept {ℓ} : {A : Type ℓ} (o d : Option A) → Kept o (or_else o d)
or_else-Kept (some y) d x h = h
or_else-Kept none d x h = absurd cc

Kept-refl {ℓ} : {A : Type ℓ} (o : Option A) → Kept o o
Kept-refl o x h = h

module _ {F : Type 0} where
  pub record Extends (old new : SamplingDefaults F) : Type 0 where
    pub temperature_kept : Kept old.temperature new.temperature
    pub top_p_kept : Kept old.top_p new.top_p
    pub top_k_kept : Kept old.top_k new.top_k
    pub repetition_kept : Kept old.repetition_penalty new.repetition_penalty
    pub presence_kept : Kept old.presence_penalty new.presence_penalty

  -- Nothing but the temperature is different.
  pub record Plain (old new : SamplingDefaults F) : Type 0 where
    pub top_p_same : new.top_p ≡ old.top_p
    pub top_k_same : new.top_k ≡ old.top_k
    pub repetition_same : new.repetition_penalty ≡ old.repetition_penalty
    pub presence_same : new.presence_penalty ≡ old.presence_penalty

  Extends-refl : (s : SamplingDefaults F) → Extends s s
  Extends-refl s = record {
    temperature_kept = Kept-refl s.temperature;
    top_p_kept = Kept-refl s.top_p;
    top_k_kept = Kept-refl s.top_k;
    repetition_kept = Kept-refl s.repetition_penalty;
    presence_kept = Kept-refl s.presence_penalty;
  }

  Plain-refl : (s : SamplingDefaults F) → Plain s s
  Plain-refl s = record {
    top_p_same = refl;
    top_k_same = refl;
    repetition_same = refl;
    presence_same = refl;
  }

  -- The sampling of a request after the policy, by what the registry says of the model: that it
  -- takes no parameters (refused), or that it does not know (unknown).
  pub data Policy (refused unknown : Bool) (purpose : CallPurpose) (old : SamplingDefaults F)
      : SamplingDefaults F → Type 0 where
    stripped : refused ≡ true → Policy refused unknown purpose old no_sampling
    untouched : refused ≡ false → unknown ≡ true → Policy refused unknown purpose old old
    steady :
        (new : SamplingDefaults F)
        → refused ≡ false
        → unknown ≡ false
        → deterministic purpose ≡ true
        → Extends old new
        → Plain old new
        → Policy refused unknown purpose old new
    preset :
        (new : SamplingDefaults F)
        → refused ≡ false
        → unknown ≡ false
        → deterministic purpose ≡ false
        → Extends old new
        → Policy refused unknown purpose old new

  module _ (purpose : CallPurpose) (s : SamplingDefaults F) where
    if-Policy :
        (b : Bool) (t e : SamplingDefaults F)
        → deterministic purpose ≡ b
        → Extends s t
        → Plain s t
        → Extends s e
        → Policy false false purpose s (if b then t else e)
    if-Policy true t e h x y z = steady t refl refl h x y
    if-Policy false t e h x y z = preset e refl refl h z

    Policy-if :
        (refused unknown : Bool) (filled : SamplingDefaults F)
        → Policy false false purpose s filled
        → Policy refused unknown purpose s
            (if refused then no_sampling else if unknown then s else filled)
    Policy-if true unknown filled p = stripped refl
    Policy-if false true filled p = untouched refl refl
    Policy-if false false filled p = p

  module _ (tenths : ℕ → F) where
    fill_sampling-Policy :
        (sampling : Option (Text → SamplingDefaults F)) (purpose : CallPurpose) (family : Text)
        (s : SamplingDefaults F)
        → Policy false false purpose s (fill_sampling tenths sampling purpose family s)
    unfolding fill_sampling
    fill_sampling-Policy sampling purpose family s =
        if-Policy purpose s (deterministic purpose) _ _ refl
          (record {
            temperature_kept = or_else-Kept s.temperature _;
            top_p_kept = Kept-refl s.top_p;
            top_k_kept = Kept-refl s.top_k;
            repetition_kept = Kept-refl s.repetition_penalty;
            presence_kept = Kept-refl s.presence_penalty;
          })
          (record {
            top_p_same = refl;
            top_k_same = refl;
            repetition_same = refl;
            presence_same = refl;
          })
          (record {
            temperature_kept = or_else-Kept s.temperature _;
            top_p_kept = or_else-Kept s.top_p _;
            top_k_kept = or_else-Kept s.top_k _;
            repetition_kept = or_else-Kept s.repetition_penalty _;
            presence_kept = or_else-Kept s.presence_penalty _;
          })

    -- The model is known to accept no temperature: its capabilities say so, and are no guess.
    abbrev pub takes_none : ModelMetadata → Bool
    takes_none meta =
        if meta.guessed_capabilities
        then false
        else elim meta.capabilities [ none ↦ false | some c ↦ not c.temperature ]

    -- There are no capabilities, or they are a guess.
    abbrev pub is_unknown : ModelMetadata → Bool
    is_unknown meta = not (is_some meta.capabilities) || meta.guessed_capabilities

    refuses_lem :
        (o : Option ModelCapabilities) (guessed : Bool)
        → refuses o guessed
          ≡ (if guessed then false else elim o [ none ↦ false | some c ↦ not c.temperature ])
    unfolding refuses
    refuses_lem none guessed = ground arith
    refuses_lem (some c) guessed = ground arith

    unvouched_lem :
        (o : Option ModelCapabilities) (guessed : Bool)
        → unvouched o guessed ≡ (not (is_some o) || guessed)
    unfolding unvouched
    unvouched_lem none guessed = refl
    unvouched_lem (some c) guessed = refl

    -- What the registry of a router says of the model of a request.
    abbrev pub refused_by : Router F → Text → Bool
    refused_by r model = elim r.registry [
      | none ↦ false
      | some resolve ↦ takes_none (resolve model)
    ]

    abbrev pub unknown_to : Router F → Text → Bool
    unknown_to r model = elim r.registry [
      | none ↦ false
      | some resolve ↦ is_unknown (resolve model)
    ]

    sampling-if :
        (a b : Bool) (named filled : ChatRequest F) (P : SamplingDefaults F → Type 0)
        → P (if a then no_sampling else if b then named.sampling else filled.sampling)
        → P (
            (if a
              then record named { sampling = no_sampling }
              else if b
              then named
              else filled).sampling)
    sampling-if true b named filled P p = p
    sampling-if false true named filled P p = p
    sampling-if false false named filled P p = p

    module _ (shrink : ℕ → ℕ → ℕ) (quote : Text → Text) (r : Router F) (bare_model : Text)
        (req : ChatRequest F) where
      abbrev with_registry : Option (Text → ModelMetadata) → Router F
      with_registry o = record r { registry = o }

      abbrev model : Text
      model = text_or req.model bare_model

      by_registry :
          (o : Option (Text → ModelMetadata))
          → Policy
              (refused_by (with_registry o) model)
              (unknown_to (with_registry o) model)
              req.call_purpose
              req.sampling
              (prepare_request tenths shrink quote (with_registry o) bare_model req).0.sampling
      unfolding prepare_request identified apply_default_sampling
      by_registry none = fill_sampling-Policy r.sampling req.call_purpose [] req.sampling
      by_registry (some resolve) =
          let meta = resolve model in
          let refused = refuses meta.capabilities meta.guessed_capabilities in
          let unknown = unvouched meta.capabilities meta.guessed_capabilities in
          let prepared =
            prepare_request tenths shrink quote (with_registry (some resolve)) bare_model req in
          let new = prepared.0.sampling in
          let coded : Policy refused unknown req.call_purpose req.sampling new =
            sampling-if refused unknown _ _ (Policy refused unknown req.call_purpose req.sampling) (
              Policy-if req.call_purpose req.sampling _ _ _
                (fill_sampling-Policy r.sampling req.call_purpose meta.family req.sampling)) in
          subst (λ a. Policy a (is_unknown meta) req.call_purpose req.sampling new)
            (refuses_lem meta.capabilities meta.guessed_capabilities)
            (subst (λ b. Policy refused b req.call_purpose req.sampling new)
              (unvouched_lem meta.capabilities meta.guessed_capabilities) coded)

      -- Whatever the request, the sampling of the prepared request follows the policy: a model that
      -- is known to take no parameters gets none, even those that were set; a model that the
      -- registry does not know gets those that were set and no others; else each parameter that was
      -- set is kept, and for a deterministic purpose no other one but the temperature changes.
      pub prepare_request-Policy :
          Policy
            (refused_by r model)
            (unknown_to r model)
            req.call_purpose
            req.sampling
            (prepare_request tenths shrink quote r bare_model req).0.sampling
      prepare_request-Policy = by_registry r.registry
