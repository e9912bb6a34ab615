-- ===== src/Tests/Memory.antt =====
-- Runs of memory/ on a response with two calls, a step of its own and a nudge.
use sp4rk.Base.{
  Text, List, [], ◌∷◌, ◌++◌, ◌<◌, ◌-◌, none, some, codes, take, drop, length, ◌≡◌, refl, arith, map,
}
use sp4rk.Strutil.{trim_right}
use sp4rk.Llm.Message.{user, assistant, tool, ToolCall, Message}
use sp4rk.Agent.Step.{Step, empty_step}
use sp4rk.Memory.Steps.{steps_to_messages, tool_calls_of}
use sp4rk.Memory.Steps.Paired.{IsPaired, steps_to_messages-IsPaired}
use sp4rk.Memory.Steps.Results.{Carries, observed, calls_in, answers_in}
use sp4rk.Memory.Steps.Trace.{Trace, steps_to_messages-Trace}
use sp4rk.Memory.Sliding.{
  SlidingWindowStrategy, sliding_compact, sliding_compact-IsPaired, sliding_compact-Carries,
}
use sp4rk.Memory.Hierarchy.{HierarchicalStrategy, summarized, zone_ends, hierarchy_compact}
use sp4rk.Memory.Hierarchy.Zones.{
  zones_partition, hierarchy_compact-IsPaired, hierarchy_compact-Carries,
}

abbrev read : ToolCall
read = record { id = codes "1"; name = codes "read_file"; input = [] }

abbrev grep : ToolCall
grep = record { id = codes "2"; name = codes "ripgrep"; input = [] }

abbrev reads : Step
reads = record empty_step {
  thought = codes "look  ";
  action = read;
  observation = codes "text\n";
  response_group = 7;
}

abbrev greps : Step
greps = record empty_step { action = grep; response_group = 7; user_nudge = codes "go on" }

abbrev alone : Step
alone = record empty_step { action = record read { id = codes "3" } }

abbrev nudged : Step
nudged = record empty_step { user_nudge = codes "finish" }

abbrev trajectory : List Step
trajectory = reads ∷ greps ∷ alone ∷ nudged ∷ []

roles_are :
    map (λ (m : Message). m.role) (steps_to_messages trajectory)
    ≡ assistant ∷ tool ∷ tool ∷ user ∷ assistant ∷ tool ∷ user ∷ []
unfolding steps_to_messages tool_calls_of trim_right
roles_are = refl

abbrev long : List Step
long = trajectory ++ trajectory

abbrev window : SlidingWindowStrategy
window = record { keep_first = 2; keep_last = 3 }

abbrev zones : HierarchicalStrategy
zones = record {
  distant_share = λ n. 3;
  distant_and_middle_share = λ n. 5;
  observation_truncate = 500;
  summarizer = some (λ t. summarized (codes "summary"));
  token_counter = none;
  max_summarize_tokens = 16000;
}

same : Text → Text → Text
same content name = content

steps_to_messages-IsPaired_example : IsPaired (steps_to_messages trajectory)
steps_to_messages-IsPaired_example = steps_to_messages-IsPaired trajectory

steps_to_messages-Trace_example :
    Trace trajectory
      (calls_in (steps_to_messages trajectory))
      (answers_in (steps_to_messages trajectory))
steps_to_messages-Trace_example = steps_to_messages-Trace trajectory

sliding_compact-IsPaired_example : IsPaired (sliding_compact window long)
sliding_compact-IsPaired_example = sliding_compact-IsPaired window long

sliding_compact-Carries_example :
    Carries
      (tool_calls_of (take 2 long) ++ tool_calls_of (drop (length long - 3) long))
      (observed (take 2 long) ++ observed (drop (length long - 3) long))
      (sliding_compact window long)
sliding_compact-Carries_example = sliding_compact-Carries window long (omega arith)

hierarchy_compact-IsPaired_example : IsPaired (hierarchy_compact same zones long)
hierarchy_compact-IsPaired_example = hierarchy_compact-IsPaired same zones long

hierarchy_compact-Carries_example :
    Carries
      (tool_calls_of (drop (zone_ends zones (length long)).1 long))
      (observed (drop (zone_ends zones (length long)).1 long))
      (hierarchy_compact same zones long)
hierarchy_compact-Carries_example =
    hierarchy_compact-Carries same zones long (λ t. summarized (codes "summary")) (omega arith) refl

zones_partition_example :
    (take (zone_ends zones 8).0 long
        ++ (take ((zone_ends zones 8).1 - (zone_ends zones 8).0) (drop (zone_ends zones 8).0 long)
            ++ drop (zone_ends zones 8).1 long)
      ≡ long)
    × (0 < length (drop (zone_ends zones 8).1 long))
zones_partition_example = zones_partition zones long (omega arith)
