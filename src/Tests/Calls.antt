-- ===== src/Tests/Calls.antt =====
-- Runs of the retry loop of llm/router.go on a provider that is overloaded once.
use sp4rk.Base.{
  [], ◌∷◌, ℕ, zero, suc, ◌≤◌, ◌<◌, ◌-◌, ◌+◌, Bool, true, false, none, codes, length, All, ◌≡◌, refl,
  arith,
}
use sp4rk.Llm.Message.{assistant}
use sp4rk.Memory.Steps.{plain_message}
use sp4rk.Strutil.{trim_right}
use sp4rk.Llm.Retry.{
  RetrySettings, Attempt, ChatResponse, CallRun, Failure, classified, response, failure, responded,
  wrap_provider_error, outcome_of, forwarded, call, is_retryable,
}
use sp4rk.Llm.Retry.Attempts.{Transient, call-last, call-bounds, call-responds}

abbrev settings : RetrySettings
settings = record { max_retries = 3; initial_backoff = 10; max_backoff = 15 }

abbrev answer : ChatResponse
answer = record {
  model = codes "m";
  family = codes "f";
  message = plain_message assistant (codes "done");
  reasoning = [];
  usage = record { input_tokens = 5; output_tokens = 1 };
  stop_reason = codes "end_turn";
}

abbrev overload : Failure
overload = classified (wrap_provider_error (λ t. false) (codes "p") 529 (codes "busy"))

-- Overloaded at first, then an answer.
abbrev busy_once : ℕ → Attempt
busy_once zero = record { deltas = []; reply = failure overload }
busy_once (suc n) = record { deltas = codes "done" ∷ []; reply = response answer }

abbrev always : ℕ → Bool
always n = true

abbrev busy_run : CallRun
busy_run = call settings (codes "p") (codes "m") none true busy_once always

-- The run, with its one sleep.
busy_is : busy_run ≡ record {
  outcome = responded answer;
  attempts = 2;
  deltas = codes "done" ∷ [];
  sleeps = 10 ∷ [];
}
unfolding call is_retryable trim_right wrap_provider_error
busy_is = refl

call-last_example :
    (busy_run.outcome
      ≡ outcome_of settings
          (codes "p")
          (codes "m")
          none
          true
          busy_once
          always
          (busy_run.attempts - 1))
    × (busy_run.deltas
        ≡ forwarded settings
            (codes "p")
            (codes "m")
            none
            true
            busy_once
            always
            (busy_run.attempts - 1))
call-last_example = call-last settings (codes "p") (codes "m") none true busy_once always

call-bounds_example :
    (busy_run.attempts ≤ 4)
    × (suc (length busy_run.sleeps) ≡ busy_run.attempts)
    × All (λ b. b ≤ 15) busy_run.sleeps
call-bounds_example =
    call-bounds settings (codes "p") (codes "m") none true busy_once always (omega arith)

first_Transient : Transient settings (codes "p") (codes "m") none true busy_once always 0
unfolding outcome_of forwarded is_retryable wrap_provider_error
first_Transient = record {
  error = overload;
  fails = refl;
  retries = refl;
  silent = refl;
  sleeps = refl;
}

early :
    (i : ℕ) → i < 1 → Transient settings (codes "p") (codes "m") none true busy_once always (i + 0)
early zero h = first_Transient
early (suc i) h = absurd (omega arith)

second : outcome_of settings (codes "p") (codes "m") none true busy_once always 1 ≡ responded answer
unfolding outcome_of trim_right
second = refl

call-responds_example : (busy_run.outcome ≡ responded answer) × (busy_run.attempts ≡ 2)
call-responds_example =
    call-responds settings (codes "p") (codes "m") none true busy_once always 1 answer (omega arith)
      early second
