-- ===== src/Lib.antt =====
-- Verification library for the sp4rk agent SDK (Go).
--
-- The program runs language-model agents: a planner turns a task into a plan (a graph of steps), an
-- orchestrator schedules the ready steps and carries completed ones over a replan, an executor runs
-- each step as a loop of model calls and tool calls, and a session cache keeps tool results under
-- short hashes. The parts below are modelled; paths are from the repository's root.
--
-- Base: what the parts share: Boolean tests (Base/Tests), lists over the native numbers
--   (Base/Lists), texts as lists of codes (Base/Strings), Go maps as association lists (Base/Map).
--   The order in which Go visits a map is not fixed; the model visits the bindings in list order.
-- Llm/Message: the records of llm/message.go. Agent/Step: Step of agent/types.go. Orchestration/Plan:
--   Plan, PlanStep and CompletedStep of orchestration/types.go; a step's profile (any) is a type
--   parameter, and an error is the text that it prints.
-- Orchestration/Ready, CarryForward, Aggregate: orchestration/dag.go. FindReadySteps is
--   find_ready_steps, BuildCarryForward is build_carry_forward (its two phases candidates and
--   settle, one pass of the second being sweep), AggregateOutput is aggregate_output over outputs,
--   and BuildPlanExecutionSteps is build_plan_execution_steps. The fuel of settle is the number of
--   candidates and one: every pass but the last removes one. A nil plan or map is none.
-- Orchestration/Summary: GenerateSummary of orchestration/blackboard.go as generate_summary.
--   Orchestration/Blackboard: MapBlackboard of the same file, one function per method; an empty
--   slice stands for a nil one, copies are the lists themselves, and the clock is an argument.
--   Blackboard/Attachments relates AddAttachment, RemoveAttachment and GetAttachment to a map from
--   ids, Blackboard/Facts is about SearchFacts, Blackboard/Stored about plans and step results.
-- Planner/Validate: validatePlanDAG of planner/planner.go, with its checks check_ids, check_known
--   and the search visit. The fuel of visit is the number of steps and one: a call that recurses
--   has turned a white step gray. The model's error out_of_fuel stands for its end.
--   Planner/Progress relates validation to scheduling.
-- Agent/ToolCache: agent/tool_cache.go. Store is store, Get is get with its write-locked part
--   get_locked, abbreviateLocked is abbreviate, resolveLocked is resolve, evictExpiredLocked is
--   evict_expired, CheckCoherence is check_coherence and Len is cache_len. SHA-256 and os.Stat are
--   parameters, times are natural numbers of nanoseconds, and the clock is read as an argument. The
--   calls of other goroutines are sequences of critical sections (Reach in
--   Agent/ToolCache/Histories). Sizes and counters are not bounded by the machine's words.
-- Tools/Tool: the types of tools/tool.go, tools/safety.go and tools/cache_mode.go. Tools/Registry:
--   tools/registry.go, one function per method in the source's order. Tools/Execute: Execute as
--   execute, with its switch on the policy as dispatch and the default arm of that as
--   judge_and_execute, confirmAndExecute as confirm_and_execute and ToolNotFoundResult of
--   tools/tool_not_found.go as tool_not_found_text; a Run is the trace of what
--   a call asks and runs, and its reply. The validation of tools/inputvalidate.go and the verb %q
--   are parameters; a tool is the record of its methods, which do not change the registry, and
--   nothing else does between the reads of one call.
-- Tools/Filter: FilterToolsByProfile of tools/filter.go.
-- Strutil: strutil/truncate.go. Llm/Blocks: NormalizeContentBlocks and ValidateContentBlocks of
--   llm/message.go.
-- Memory/Steps: memory/steps.go, stepsToMessages as steps_to_messages; the loop's fuel is the number
--   of steps, and a round takes one at least. Memory/Sliding: Compact of
--   memory/compaction_sliding.go as sliding_compact. Memory/Hierarchy: Compact of
--   memory/compaction_hierarchy.go as hierarchy_compact; the shares of the zones, computed in
--   floating point from the ratios, are functions of the number of steps, and the summarizer, the
--   token counter and WrapUntrustedContent are parameters. The fuel of blocks_of is the number of
--   steps, and a block takes one at least.
-- Memory/Window: ContextWindow of memory/context.go with its constructor and budget; Window/Ops has
--   the setters, AddStep, SeedSteps, Compact (compact) and wrapUntrustedInFrozenPrefix,
--   Window/Protect computeProtectedIndices and VulnerableOutputs, Window/Render BuildPrompt with
--   buildStepMessages, whose loop has the number of steps as its fuel and takes one at least in each
--   round. A float64 is an element of a type with the operations that the code uses (Floats), a
--   negative budget is an integer (Base/Int), and a compaction strategy is a function of the steps
--   and the budget. Prompt: SplitCacheBreak of prompt/builder.go. Llm/Tracker: ContextTokenTracker
--   of llm/tokencount.go. The other modules of Memory/Window relate these: over sequences of
--   operations (Runs), to stepsToMessages (Agrees), to the responses that steps belong to
--   (Responses), and to the boundary of security/wrap.go
--   (Frozen, Fenced).
-- Memory/Conversation: memory/compaction_conversation.go, with CompactConversationHistory as
--   compact_conversation_history and, in Conversation/Predict, PredictCompaction as
--   predict_compaction. The loop over blocks has the number of messages as its fuel, and a block
--   takes one at least, since block sizes are not zero there.
-- Llm/Retry: the retry loop of Call of llm/router.go as call, with the errors of llm/errors.go. A
--   provider is the sequence of its answers, one for each attempt; the number of retries that are
--   left is the recursion argument, so that the loop needs no other fuel. A backoff is a natural
--   number; settings so large that their double overflows a time.Duration, over a century, are left
--   out.
--   Llm/Prepare: prepareRequest, which comes before that loop, as prepare_request, with
--   applyDefaultSampling and validateContextWindow; a resolved registry is a function of the model.
-- Security/Wrap: security/wrap.go, with its regular expressions written out; a match of a tag is
--   found by a scan, and Security/Wrap/Boundary counts the tags that such a scan finds.
-- Tests: runs of the definitions and instances of the theorems.
--
-- Not modelled: model providers and HTTP, prompts, the embedding runtime, the built-in tools with
-- their file and process access, MCP transport and the framework's builders: what they do is the
-- outside world's or the formatting of texts.
pub mod Base
pub mod Llm
pub mod Agent
pub mod Orchestration
pub mod Planner
pub mod Strutil
pub mod Security
pub mod Prompt
pub mod Tools
pub mod Memory
mod Tests
