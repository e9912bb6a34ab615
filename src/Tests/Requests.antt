-- ===== src/Tests/Requests.antt =====
-- Requests that prepareRequest of llm/router.go fills and checks; a float64 is a number of tenths.
use sp4rk.Base.{
  Text, [], ◌∷◌, ℕ, ◌+◌, ◌-◌, ◌*◌, ◌/◌, ◌≤◌, true, false, none, some, codes, pos, length, ◌≡◌, refl,
  ◌⊎◌, arith, text_eq,
}
use sp4rk.Llm.Message.{user}
use sp4rk.Llm.Tracker.{TokenCounter}
use sp4rk.Memory.Steps.{plain_message}
use sp4rk.Llm.Prepare.{
  ModelMetadata, SamplingDefaults, ChatRequest, Router, purpose_routing, prepare_request,
  output_reserve, deterministic, refuses, unvouched,
}
use sp4rk.Llm.Prepare.Policy.{Policy, prepare_request-Policy}
use sp4rk.Llm.Prepare.Fits.{Refuses, prepare_request-fits}

abbrev shrunk : ℕ → ℕ → ℕ
shrunk percent n = n * (100 - percent) / 100

abbrev quoted : Text → Text
quoted t = t

abbrev tenths : ℕ → ℕ
tenths n = n

abbrev qwen : ModelMetadata
qwen = record {
  context_window = pos 100;
  output_limit = pos 20;
  tokenizer_type = [];
  family = codes "qwen";
  protocol = codes "chat";
  capabilities =
      some (record { attachment = false; reasoning = true; temperature = true; tool_call = true });
  guessed_capabilities = false;
}

abbrev resolve : Text → ModelMetadata
resolve model = qwen

abbrev hundred : TokenCounter
hundred = record { count = λ t. length t; count_messages = λ ms. 40 * length ms }

abbrev router : Router ℕ
router = record {
  registry = some resolve;
  token_counter = some hundred;
  sampling = none;
  safety_margin_percent = 5;
  output_token_reserve = 10;
}

abbrev asked : SamplingDefaults ℕ
asked = record {
  temperature = none;
  top_p = some 9;
  top_k = none;
  repetition_penalty = none;
  presence_penalty = none;
}

abbrev request : ChatRequest ℕ
request = record {
  model = [];
  model_family = [];
  protocol = [];
  messages = plain_message user (codes "hi") ∷ [];
  max_tokens = 0;
  call_purpose = purpose_routing;
  sampling = asked;
  reasoning_effort = [];
}

-- The model, the family and the temperature of the family.
routed :
    ((prepare_request tenths shrunk quoted router (codes "q") request).0.model ≡ codes "q")
    × ((prepare_request tenths shrunk quoted router (codes "q") request).0.sampling.temperature
        ≡ some 6)
    × ((prepare_request tenths shrunk quoted router (codes "q") request).1 ≡ none)
unfolding prepare_request text_eq deterministic
routed = (refl, refl, refl)

prepare_request-Policy_example :
    Policy false false purpose_routing asked
      (prepare_request tenths shrunk quoted router (codes "q") request).0.sampling
unfolding refuses unvouched
prepare_request-Policy_example =
    prepare_request-Policy tenths shrunk quoted router (codes "q") request

shrunk-le : (n : ℕ) → shrunk 5 n ≤ n
shrunk-le n = omega arith

prepare_request-fits_example :
    (((prepare_request tenths shrunk quoted router (codes "q") request).1 ≡ none)
      × (hundred.count_messages
              (prepare_request tenths shrunk quoted router (codes "q") request).0.messages
            + 20
          ≤ 100))
    ⊎ Refuses shrunk quoted 5 100 20
        (hundred.count_messages
          (prepare_request tenths shrunk quoted router (codes "q") request).0.messages)
        (prepare_request tenths shrunk quoted router (codes "q") request).1
unfolding output_reserve
prepare_request-fits_example =
    prepare_request-fits shrunk quoted tenths router (codes "q") request resolve hundred 100 refl
      refl refl (omega arith) shrunk-le
