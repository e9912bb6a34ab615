-- ===== src/Memory/Window.antt =====
-- memory/context.go: ContextWindow with its constructor, its setters and its token budget. Settings
-- are natural numbers, a slice is a list, and a nil frozen prefix or strategy is none. The numbers
-- of type float64 are a type with the operations that the code uses (Floats).
pub mod Protect
pub mod Render
pub mod Ops
pub mod Budget
pub mod Groups
pub mod Responses
pub mod Paired
pub mod Agrees
pub mod Origin
pub mod Frozen
pub mod Fenced
pub mod Strategies
pub mod Runs
use sp4rk.Base.{
  Text, List, [], ◌∷◌, ◌++◌, ℕ, zero, suc, ◌+◌, ◌-◌, ◌*◌, ◌/◌, Bool, true, false, ◌&&◌, not, Option,
  none, some, is_empty, ltb, ◌==◌, if◌then◌else◌, codes, ℤ, pos, negsuc, sub_ℕ,
}
use sp4rk.Llm.Message.{ContentBlock, Message}
use sp4rk.Llm.Tracker.{
  TokenCounter, ContextTokenTracker, new_context_token_tracker, estimate_total, add_delta, reset,
}
use sp4rk.Llm.Tracker
use sp4rk.Agent.Step.{Step}

pub record Floats (F : Type 0) : Type 0 where
  -- float64(a) / float64(b) * 100
  pub percent_of : ℕ → ℕ → F
  pub float : ℕ → F
  -- a >= b
  pub at_least : F → F → Bool

pub record CompactionThresholds : Type 0 where
  pub predictive_percent : ℕ
  pub warning_percent : ℕ
  pub emergency_percent : ℕ

pub record ToolOutputPruning (F : Type 0) : Type 0 where
  pub keep_last_n : ℕ
  pub protected_tools : List Text
  pub placeholder_text : Text
  pub threshold_percent : F

pub record HistoryMutation : Type 0 where
  pub tool_result_eviction_step : ℕ
  pub evict_step_status : Bool
  pub dedup_repeated_reads : Bool

-- sdkagent.CompactionStrategy: Compact on the steps and the budget.
abbrev pub Strategy : Type 0
Strategy = List Step → ℤ → Option (List Message)

pub record ContextWindow (F : Type 0) : Type 0 where
  pub system_prompt : Text
  pub task_content : Text
  pub task_content_blocks : List ContentBlock
  pub plan_content : Text
  pub steps : List Step
  pub strategy : Option Strategy
  pub tracker : ContextTokenTracker
  pub context_window : ℕ
  pub output_limit : ℕ
  pub thresholds : CompactionThresholds
  pub pruning : ToolOutputPruning F
  pub mutation : HistoryMutation
  pub safety_margin : ℕ
  pub tool_overhead : ℕ
  pub prior_conversation : List Message
  pub injection_defense_enabled : Bool
  pub compacted_messages : Option (List Message)
  pub compacted_through_index : ℕ
  pub pending_user_interjection : Text

pub record ContextWindowConfig (F : Type 0) : Type 0 where
  pub system_prompt : Text
  pub context_window : ℕ
  pub output_limit : ℕ
  pub tracker : Option ContextTokenTracker
  pub thresholds : CompactionThresholds
  pub strategy : Option Strategy
  pub safety_margin_percent : ℕ
  pub injection_defense_enabled : Bool
  pub pruning : ToolOutputPruning F

abbrev pub noop_counter : TokenCounter
noop_counter = record { count = λ _. 0; count_messages = λ _. 0 }

-- A setting that is zero falls back.
abbrev pub or_default : ℕ → ℕ → ℕ
or_default n d = if n == 0 then d else n

abbrev pub pruned_text : Text
pruned_text =
    codes
      "[Tool output pruned — not available in context. Use search_facts for stored findings, or re-read the file if needed. Do NOT fabricate content you cannot see.]"

unfoldable pub new_context_window : {F : Type 0} → ContextWindowConfig F → ContextWindow F
new_context_window cfg = record {
  system_prompt = cfg.system_prompt;
  task_content = [];
  task_content_blocks = [];
  plan_content = [];
  steps = [];
  strategy = cfg.strategy;
  tracker = elim cfg.tracker [ some t ↦ t | none ↦ new_context_token_tracker noop_counter ];
  context_window = or_default cfg.context_window 128000;
  output_limit = or_default cfg.output_limit 4096;
  thresholds = record {
    predictive_percent = or_default cfg.thresholds.predictive_percent 85;
    warning_percent = or_default cfg.thresholds.warning_percent 92;
    emergency_percent = or_default cfg.thresholds.emergency_percent 98;
  };
  pruning = record (cfg.pruning) {
    placeholder_text =
        if is_empty cfg.pruning.placeholder_text then pruned_text else cfg.pruning.placeholder_text;
  };
  mutation = record {
    tool_result_eviction_step = 0;
    evict_step_status = false;
    dedup_repeated_reads = false;
  };
  safety_margin = or_default cfg.safety_margin_percent 5;
  tool_overhead = 0;
  prior_conversation = [];
  injection_defense_enabled = cfg.injection_defense_enabled;
  compacted_messages = none;
  compacted_through_index = 0;
  pending_user_interjection = [];
}

pub data FillStatus : Type 0 where
  ok compact warning emergency reject : FillStatus

pub record FillCheck (F : Type 0) : Type 0 where
  pub percent : F
  pub status : FillStatus
  pub used : ℕ
  pub budget : ℤ

module _ {F : Type 0} where
  -- ContextWindow − OutputLimit − safety margin, without the sign
  abbrev pub reserved : ContextWindow F → ℕ
  reserved w = w.output_limit + w.context_window * w.safety_margin / 100

  unfoldable pub effective_max : ContextWindow F → ℤ
  effective_max w = sub_ℕ w.context_window (reserved w + w.tool_overhead)

  -- The cap of the reserve: toolOverheadMaxReservePercent of the maximum reserve.
  unfoldable pub overhead_limit : ContextWindow F → ℕ
  overhead_limit w = (w.context_window - reserved w) * 80 / 100

  unfoldable pub set_tool_overhead : ℤ → ContextWindow F → ContextWindow F
  unfolding overhead_limit
  set_tool_overhead (pos tokens) w = record w {
    tool_overhead = if ltb (overhead_limit w) tokens then overhead_limit w else tokens;
  }
  set_tool_overhead (negsuc _) w = record w { tool_overhead = 0 }

  unfoldable pub available_tokens : ContextWindow F → ℕ
  unfolding estimate_total effective_max
  available_tokens w = elim (effective_max w) [
    | pos max ↦ max - estimate_total w.tracker
    | negsuc _ ↦ 0
  ]

  unfoldable pub fill_percent : Floats F → ContextWindow F → F
  unfolding estimate_total effective_max
  fill_percent floats w = elim (effective_max w) [
    | pos max ↦
        if max == 0 then floats.float 100 else floats.percent_of (estimate_total w.tracker) max
    | negsuc _ ↦ floats.float 100
  ]

  unfoldable pub status_of : Floats F → CompactionThresholds → F → FillStatus
  status_of floats thresholds percent =
      if floats.at_least percent (floats.float 100)
      then reject
      else if floats.at_least percent (floats.float thresholds.emergency_percent)
      then emergency
      else if floats.at_least percent (floats.float thresholds.warning_percent)
      then warning
      else if floats.at_least percent (floats.float thresholds.predictive_percent)
      then compact
      else ok

  unfoldable pub check_fill : Floats F → ContextWindow F → FillCheck F
  unfolding status_of estimate_total effective_max
  check_fill floats w =
      let used = estimate_total w.tracker in
      let full : FillCheck F = record {
        percent = floats.float 100;
        status = reject;
        used = used;
        budget = effective_max w;
      } in
      elim (effective_max w) [
        | negsuc _ ↦ full
        | pos max ↦ if max == 0 then full else record {
          percent = floats.percent_of used max;
          status = status_of floats w.thresholds (floats.percent_of used max);
          used = used;
          budget = pos max;
        }
      ]
