-- ===== src/Llm/Retry.antt =====
-- llm/router.go: the retry loop of Call, with the classification of errors of llm/errors.go. A provider
-- is the sequence of its answers, one for each attempt, with the deltas that it streams; a sleep is
-- cut short where the context is cancelled. Jitter is left out: a sleep is recorded by the backoff
-- that it starts from, and one that is cut short is not recorded. The classification of network errors is a parameter.
pub mod Attempts
use sp4rk.Base.{
  Text, List, [], ◌∷◌, ◌++◌, ℕ, zero, suc, ◌+◌, ◌*◌, Bool, true, false, ◌&&◌, ◌||◌, not, Option,
  none, some, is_empty, ltb, ◌==◌, if◌then◌else◌, codes, ℤ, pos, negsuc,
}
use sp4rk.Strutil.{trim_right}
use sp4rk.Llm.Message.{Message}

pub record TokenUsage : Type 0 where
  pub input_tokens : ℕ
  pub output_tokens : ℕ

pub record ChatResponse : Type 0 where
  pub model : Text
  pub family : Text
  pub message : Message
  pub reasoning : Text
  pub usage : TokenUsage
  pub stop_reason : Text

pub data ErrKind : Type 0 where
  rate_limit overloaded unclassified : ErrKind

unfoldable pub err_kind_for_status : ℕ → ErrKind
err_kind_for_status code =
    if code == 429 then rate_limit else if code == 529 then overloaded else unclassified

-- Error of llm/errors.go; the underlying error is its text.
pub record ProviderError : Type 0 where
  pub provider : Text
  pub status_code : ℕ
  pub retryable : Bool
  pub err_kind : ErrKind
  pub err : Text

-- An error with a *Error in its chain, or without one.
pub data Failure : Type 0 where
  classified : ProviderError → Failure
  other : Text → Failure

unfoldable pub new_error : Text → ℕ → Bool → Text → ProviderError
unfolding err_kind_for_status
new_error provider status_code retryable err = record {
  provider = provider;
  status_code = status_code;
  retryable = retryable;
  err_kind = err_kind_for_status status_code;
  err = err;
}

unfoldable pub is_retryable : Failure → Bool
is_retryable (classified e) = e.retryable
is_retryable (other _) = false

unfoldable pub is_one_of : ℕ → List ℕ → Bool
is_one_of code [] = false
is_one_of code (c ∷ cs) = code == c || is_one_of code cs

unfoldable pub classify_http_status : ℕ → Bool
unfolding is_one_of
classify_http_status code =
    is_one_of code (408 ∷ 429 ∷ 500 ∷ 502 ∷ 503 ∷ 504 ∷ 520 ∷ 521 ∷ 522 ∷ 523 ∷ 524 ∷ 529 ∷ [])

unfoldable pub wrap_provider_error : (Text → Bool) → Text → ℕ → Text → ProviderError
unfolding classify_http_status new_error
wrap_provider_error classify_net_error provider status_code err =
    new_error provider status_code
      ((ltb 0 status_code && classify_http_status status_code) || classify_net_error err) err

-- NewRouter: zero is the default, and a negative setting is zero.
abbrev pub setting : ℕ → ℤ → ℕ
setting default (pos n) = if n == 0 then default else n
setting default (negsuc _) = 0

-- What Call reads of a router; times are milliseconds.
pub record RetrySettings : Type 0 where
  pub max_retries : ℕ
  pub initial_backoff : ℕ
  pub max_backoff : ℕ

unfoldable pub new_retry_settings : ℤ → ℤ → ℤ → RetrySettings
new_retry_settings max_retries initial_backoff max_backoff = record {
  max_retries = setting 3 max_retries;
  initial_backoff = setting 1000 initial_backoff;
  max_backoff = setting 30000 max_backoff;
}

-- What ChatCompletion returns: a response, an error, or neither.
pub data Reply : Type 0 where
  response : ChatResponse → Reply
  failure : Failure → Reply
  nothing : Reply

pub record Attempt : Type 0 where
  pub deltas : List Text
  pub reply : Reply

pub data Outcome : Type 0 where
  responded : ChatResponse → Outcome
  failed : Failure → Outcome

-- What a call has returned and done.
pub record CallRun : Type 0 where
  pub outcome : Outcome
  pub attempts : ℕ
  pub deltas : List Text
  pub sleeps : List ℕ

unfoldable pub normalize_response : ChatResponse → ChatResponse
unfolding trim_right
normalize_response r = record r {
  message = record (r.message) {
    content = trim_right r.message.content;
    reasoning_content = trim_right r.message.reasoning_content;
  };
  reasoning = trim_right r.reasoning;
}

-- The response with the model and the family that it leaves out; without a registry there is no
-- family.
unfoldable pub completed : Text → Option (Text → Text) → ChatResponse → ChatResponse
unfolding normalize_response
completed request_model family_of r =
    let model = if is_empty r.model then request_model else r.model in
    normalize_response (record r {
      model = model;
      family = elim family_of [
        | none ↦ r.family
        | some f ↦ if is_empty r.family then f model else r.family
      ];
    })

module _ (settings : RetrySettings) (provider : Text) (request_model : Text)
    (family_of : Option (Text → Text)) (streaming : Bool) (chat : ℕ → Attempt)
    (slept : ℕ → Bool) where
  unfoldable pub outcome_of : ℕ → Outcome
  unfolding completed new_error
  outcome_of attempt = elim (chat attempt).reply [
    | response r ↦ responded (completed request_model family_of r)
    | failure e ↦ failed e
    | nothing ↦ failed (
        classified
          (new_error provider 0 true (codes "llm: provider returned a nil response with no error")))
  ]

  -- The deltas of an attempt that reach the caller's sink.
  unfoldable pub forwarded : ℕ → List Text
  forwarded attempt = if streaming then (chat attempt).deltas else []

  -- The error of an attempt ends the call, though there are retries left.
  unfoldable pub gives_up : ℕ → Failure → Bool
  unfolding forwarded is_retryable
  gives_up attempt e =
      not (is_empty (forwarded attempt)) || (not (is_retryable e) || not (slept attempt))

  abbrev pub ended : ℕ → CallRun
  ended attempt = record {
    outcome = outcome_of attempt;
    attempts = 1;
    deltas = forwarded attempt;
    sleeps = [];
  }

  unfoldable pub next_backoff : ℕ → ℕ
  next_backoff backoff =
      if ltb settings.max_backoff (backoff * 2) then settings.max_backoff else backoff * 2

  abbrev pub after : ℕ → ℕ → CallRun → CallRun
  after attempt backoff rest = record {
    outcome = rest.outcome;
    attempts = suc rest.attempts;
    deltas = forwarded attempt ++ rest.deltas;
    sleeps = backoff ∷ rest.sleeps;
  }

  -- The loop from an attempt on, with the number of retries that are left.
  unfoldable pub call_from : ℕ → ℕ → ℕ → CallRun
  unfolding outcome_of forwarded gives_up next_backoff
  call_from zero attempt backoff = ended attempt
  call_from (suc left) attempt backoff =
      let rest = call_from left (suc attempt) (next_backoff backoff) in
      elim (outcome_of attempt) [
        | responded r ↦ ended attempt
        | failed e ↦ if gives_up attempt e then ended attempt else after attempt backoff rest
      ]

  unfoldable pub call : CallRun
  unfolding call_from
  call = call_from settings.max_retries 0 settings.initial_backoff
