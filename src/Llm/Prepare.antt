-- ===== src/Llm/Prepare.antt =====
-- llm/router.go: prepareRequest, which fills the defaults of a request (model, family, protocol,
-- sampling) and checks it against the context window, with CallPurpose of llm/message.go. The
-- registry, where there is one, is the function that resolves a model. A float64 is an element of
-- a type F, `tenths n` is n / 10, and `shrink percent n` is int(n * (1 - percent / 100)). The tools
-- and the sink of a request, which are passed on, are left out.
pub mod Policy
pub mod Fits
use sp4rk.Base.{
  Text, List, [], ◌∷◌, ◌++◌, ℕ, zero, suc, ◌+◌, ◌-◌, Bool, true, false, ◌&&◌, ◌||◌, not, Option,
  none, some, is_empty, ltb, leb, ◌==◌, if◌then◌else◌, codes, text_eq, decimal, ℤ, pos, negsuc,
}
use sp4rk.Llm.Message.{Message}
use sp4rk.Llm.Tracker.{TokenCounter}
use sp4rk.Llm.Retry.{ProviderError, unclassified}

pub data CallPurpose : Type 0 where
  purpose_default purpose_executor purpose_routing purpose_compaction purpose_summarization :
      CallPurpose

unfoldable pub deterministic : CallPurpose → Bool
deterministic purpose_default = false
deterministic purpose_executor = false
deterministic purpose_routing = true
deterministic purpose_compaction = true
deterministic purpose_summarization = true

pub record ModelCapabilities : Type 0 where
  pub attachment : Bool
  pub reasoning : Bool
  pub temperature : Bool
  pub tool_call : Bool

pub record ModelMetadata : Type 0 where
  pub context_window : ℤ
  pub output_limit : ℤ
  pub tokenizer_type : Text
  pub family : Text
  pub protocol : Text
  pub capabilities : Option ModelCapabilities
  pub guessed_capabilities : Bool

-- The zero value, which a router without a registry works with.
abbrev pub no_metadata : ModelMetadata
no_metadata = record {
  context_window = pos 0;
  output_limit = pos 0;
  tokenizer_type = [];
  family = [];
  protocol = [];
  capabilities = none;
  guessed_capabilities = false;
}

pub record SamplingDefaults (F : Type 0) : Type 0 where
  pub temperature : Option F
  pub top_p : Option F
  pub top_k : Option ℕ
  pub repetition_penalty : Option F
  pub presence_penalty : Option F

abbrev pub no_sampling : {F : Type 0} → SamplingDefaults F
no_sampling = record {
  temperature = none;
  top_p = none;
  top_k = none;
  repetition_penalty = none;
  presence_penalty = none;
}

-- The five sampling parameters of a request are its `sampling`.
pub record ChatRequest (F : Type 0) : Type 0 where
  pub model : Text
  pub model_family : Text
  pub protocol : Text
  pub messages : List Message
  pub max_tokens : ℕ
  pub call_purpose : CallPurpose
  pub sampling : SamplingDefaults F
  pub reasoning_effort : Text

-- What prepareRequest reads of a router.
pub record Router (F : Type 0) : Type 0 where
  pub registry : Option (Text → ModelMetadata)
  pub token_counter : Option TokenCounter
  pub sampling : Option (Text → SamplingDefaults F)
  pub safety_margin_percent : ℕ
  pub output_token_reserve : ℕ

-- A parameter that is nil takes the default.
abbrev pub or_else {ℓ} : {A : Type ℓ} → Option A → Option A → Option A
or_else (some x) d = some x
or_else none d = d

-- The registry vouches that the model takes no sampling parameters.
unfoldable pub refuses : Option ModelCapabilities → Bool → Bool
refuses none guessed = false
refuses (some c) guessed = not c.temperature && not guessed

-- The registry does not vouch for the capabilities.
unfoldable pub unvouched : Option ModelCapabilities → Bool → Bool
unvouched none guessed = true
unvouched (some c) guessed = guessed

unfoldable pub output_reserve : ℤ → ℕ → ℕ
output_reserve (pos n) reserve = if n == 0 then reserve else n
output_reserve (negsuc _) reserve = reserve

module _ {F : Type 0} (tenths : ℕ → F) where
  unfoldable pub deterministic_temperature : Text → Option F
  unfolding text_eq
  deterministic_temperature family =
      if text_eq family (codes "google") || text_eq family (codes "kimi")
      then some (tenths 10)
      else if text_eq family (codes "qwen")
      then some (tenths 6)
      else some (tenths 0)

  -- The family's preset; without a sampling function, the temperature 0.
  unfoldable pub preset_of : Option (Text → SamplingDefaults F) → Text → SamplingDefaults F
  preset_of none family =
      let base : SamplingDefaults F = no_sampling in record base { temperature = some (tenths 0) }
  preset_of (some sampling) family = sampling family

  -- The part of applyDefaultSampling after the tests of the capabilities.
  unfoldable pub fill_sampling :
      Option (Text → SamplingDefaults F)
      → CallPurpose
      → Text
      → SamplingDefaults F
      → SamplingDefaults F
  unfolding deterministic deterministic_temperature preset_of
  fill_sampling sampling purpose family s =
      if deterministic purpose
      then record s { temperature = or_else s.temperature (deterministic_temperature family) }
      else record {
        temperature = or_else s.temperature (preset_of sampling family).temperature;
        top_p = or_else s.top_p (preset_of sampling family).top_p;
        top_k = or_else s.top_k (preset_of sampling family).top_k;
        repetition_penalty =
            or_else s.repetition_penalty (preset_of sampling family).repetition_penalty;
        presence_penalty = or_else s.presence_penalty (preset_of sampling family).presence_penalty;
      }

  unfoldable pub apply_default_sampling : Router F → ModelMetadata → ChatRequest F → ChatRequest F
  unfolding refuses unvouched fill_sampling
  apply_default_sampling r meta req =
      let filled = record req {
        sampling = fill_sampling r.sampling req.call_purpose meta.family req.sampling;
      } in
      elim r.registry [
        | none ↦ filled
        | some _ ↦
            if refuses meta.capabilities meta.guessed_capabilities
            then record req { sampling = no_sampling }
            else if unvouched meta.capabilities meta.guessed_capabilities
            then req
            else filled
      ]

module _ (shrink : ℕ → ℕ → ℕ) (quote : Text → Text) where
  unfoldable pub new_context_window_error : Text → ℕ → ℕ → ℕ → ℕ → ProviderError
  unfolding decimal
  new_context_window_error model estimated_tokens effective_max context_window output_reserve =
      record {
        provider = codes "router";
        status_code = 0;
        retryable = false;
        err_kind = unclassified;
        err =
            codes "context window exceeded: estimated "
            ++ decimal estimated_tokens
            ++ codes " tokens, model "
            ++ quote model
            ++ codes " allows "
            ++ decimal effective_max
            ++ codes " (context_window="
            ++ decimal context_window
            ++ codes ", output_reserve="
            ++ decimal output_reserve
            ++ codes ")";
      }

  -- The test of a model with a context window.
  unfoldable pub validate_size : ℕ → ℕ → ℕ → ℕ → Text → Option ProviderError
  unfolding new_context_window_error
  validate_size margin context_window reserve estimated model =
      let effective_max = shrink margin (context_window - reserve) in
      if leb context_window reserve
      then none
      else if ltb effective_max estimated
      then some (new_context_window_error model estimated effective_max context_window reserve)
      else none

  unfoldable pub validate_context_window :
      {F : Type 0} → Router F → Text → List Message → ModelMetadata → Option ProviderError
  unfolding validate_size output_reserve
  validate_context_window r model msgs meta = elim r.registry [
    | none ↦ none
    | some _ ↦ elim r.token_counter [
      | none ↦ none
      | some counter ↦ elim meta.context_window [
        | negsuc _ ↦ none
        | pos window ↦
            validate_size r.safety_margin_percent window
              (output_reserve meta.output_limit r.output_token_reserve)
              (counter.count_messages msgs) model
      ]
    ]
  ]

abbrev pub text_or : Text → Text → Text
text_or t d = if is_empty t then d else t

module _ {F : Type 0} where
  -- The request with its model, and with what the registry knows of that model.
  unfoldable pub identified : Router F → Text → ChatRequest F → ChatRequest F × ModelMetadata
  identified r bare_model req =
      let model = text_or req.model bare_model in
      let named = record req { model = model } in
      elim r.registry [
        | none ↦ (named, no_metadata)
        | some resolve ↦
            let meta = resolve model in
            (
              record named {
                protocol = text_or req.protocol meta.protocol;
                model_family = text_or req.model_family meta.family;
              },
              meta,
            )
      ]

module _ {F : Type 0} (tenths : ℕ → F) (shrink : ℕ → ℕ → ℕ) (quote : Text → Text) where
  unfoldable pub prepare_request :
      Router F → Text → ChatRequest F → ChatRequest F × Option ProviderError
  unfolding identified apply_default_sampling validate_context_window
  prepare_request r bare_model req =
      let named = identified r bare_model req in
      let sampled = apply_default_sampling tenths r named.1 named.0 in
      (sampled, validate_context_window shrink quote r sampled.model sampled.messages named.1)
