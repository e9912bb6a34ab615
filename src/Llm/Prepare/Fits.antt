-- ===== src/Llm/Prepare/Fits.antt =====
-- llm/router.go: what the check of a prepared request against the context window lets through.
use sp4rk.Base.{
  Text, List, ℕ, ◌+◌, ◌-◌, ◌≤◌, ◌<◌, false, Option, none, some, leb, ltb, ◌≡◌, refl, sym, ap, ◌∙◌,
  subst, ◌⊎◌, inl, inr, Bool-cases, pos, arith,
}
use sp4rk.Llm.Message.{Message}
use sp4rk.Llm.Tracker.{TokenCounter}
use sp4rk.Llm.Retry.{ProviderError, classified, is_retryable}
use sp4rk.Llm.Prepare.{
  ModelMetadata, ChatRequest, Router, text_or, output_reserve, new_context_window_error,
  validate_size, validate_context_window, identified, prepare_request,
}

module _ (shrink : ℕ → ℕ → ℕ) (quote : Text → Text) where
  validate_size-none :
      (margin window reserve estimated : ℕ) (model : Text)
      → ((n : ℕ) → shrink margin n ≤ n)
      → reserve < window
      → validate_size shrink quote margin window reserve estimated model ≡ none
      → estimated + reserve ≤ window
  unfolding validate_size
  validate_size-none margin window reserve estimated model small h p =
      let q = small (window - reserve) in ground arith

  -- The check refuses a size, with an error that is not retried.
  pub record Refuses (margin window reserve estimated : ℕ) (o : Option ProviderError) : Type 0 where
    pub error : ProviderError
    pub refused : o ≡ some error
    pub final : is_retryable (classified error) ≡ false
    pub over : shrink margin (window - reserve) < estimated

  validate_size-cases :
      (margin window reserve estimated : ℕ) (model : Text)
      → reserve < window
      → (validate_size shrink quote margin window reserve estimated model ≡ none)
        ⊎ Refuses margin window reserve estimated
            (validate_size shrink quote margin window reserve estimated model)
  unfolding validate_size new_context_window_error is_retryable
  validate_size-cases margin window reserve estimated model h =
      let room : leb window reserve ≡ false = ground arith in
      elim (Bool-cases (ltb (shrink margin (window - reserve)) estimated)) [
        | inl t ↦ inr (record {
          error =
              new_context_window_error shrink quote model estimated
                (shrink margin (window - reserve)) window reserve;
          refused = rw (room, t) refl;
          final = refl;
          over = ground arith;
        })
        | inr f ↦ inl (rw (room, f) refl)
      ]

  module _ {F : Type 0} (tenths : ℕ → F) (r : Router F) (bare_model : Text) (req : ChatRequest F)
      (resolve : Text → ModelMetadata) (counter : TokenCounter) (window : ℕ) where
    abbrev meta : ModelMetadata
    meta = resolve (text_or req.model bare_model)

    abbrev reserve : ℕ
    reserve = output_reserve meta.output_limit r.output_token_reserve

    abbrev checked : Option ProviderError
    checked = (prepare_request tenths shrink quote r bare_model req).1

    abbrev estimated : ℕ
    estimated =
        counter.count_messages (prepare_request tenths shrink quote r bare_model req).0.messages

    identified-meta : r.registry ≡ some resolve → (identified r bare_model req).1 ≡ meta
    unfolding identified
    identified-meta p = rw p refl

    validate-size :
        (model : Text) (msgs : List Message) (m : ModelMetadata)
        → r.registry ≡ some resolve
        → r.token_counter ≡ some counter
        → m.context_window ≡ pos window
        → validate_context_window shrink quote r model msgs m
          ≡ validate_size shrink quote r.safety_margin_percent window
              (output_reserve m.output_limit r.output_token_reserve)
              (counter.count_messages msgs)
              model
    unfolding validate_context_window
    validate-size model msgs m p q w = rw (p, q, w) refl

    checked-size :
        r.registry ≡ some resolve
        → r.token_counter ≡ some counter
        → meta.context_window ≡ pos window
        → checked
          ≡ validate_size shrink quote r.safety_margin_percent window reserve estimated
              (prepare_request tenths shrink quote r bare_model req).0.model
    unfolding prepare_request
    checked-size p q w =
        let sent = (prepare_request tenths shrink quote r bare_model req).0 in
        validate-size sent.model sent.messages (identified r bare_model req).1 p q
          (ap (λ (m : ModelMetadata). m.context_window) (identified-meta p) ∙ w)
        ∙ ap
            (λ (m : ModelMetadata).
              validate_size shrink quote r.safety_margin_percent window
                (output_reserve m.output_limit r.output_token_reserve) estimated sent.model)
            (identified-meta p)

    -- With a registry, a counter, a model whose context window is above its output reserve, and a
    -- margin that adds nothing to a size: a prepared request is either let through, and then its
    -- messages fit in the window together with the reserve, or it is refused with an error that is
    -- not retryable, and then its messages are above the window less the reserve and the margin.
    pub prepare_request-fits :
        r.registry ≡ some resolve
        → r.token_counter ≡ some counter
        → meta.context_window ≡ pos window
        → reserve < window
        → ((n : ℕ) → shrink r.safety_margin_percent n ≤ n)
        → ((checked ≡ none) × (estimated + reserve ≤ window))
          ⊎ Refuses r.safety_margin_percent window reserve estimated checked
    prepare_request-fits p q w h small =
        let model = (prepare_request tenths shrink quote r bare_model req).0.model in
        let same = checked-size p q w in
        elim (validate_size-cases r.safety_margin_percent window reserve estimated model h) [
          | inl n ↦ inl (same ∙ n, validate_size-none _ _ _ _ model small h n)
          | inr e ↦
              inr (subst (Refuses r.safety_margin_percent window reserve estimated) (sym same) e)
        ]
