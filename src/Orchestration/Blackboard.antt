-- ===== src/Orchestration/Blackboard.antt =====
-- orchestration/blackboard.go: MapBlackboard. What its mutex makes atomic is one function; a copy of
-- a slice is the list itself, and a nil slice is the empty list. Times are numbers, Go's zero time is
-- 0, and time.Now() is an argument. strings.ToLower and the sort of sort.Slice are parameters.
pub mod Attachments
pub mod Facts
pub mod Stored
use sp4rk.Base.{
  Text, List, [], ◌∷◌, ◌++◌, ℕ, zero, suc, ◌+◌, Bool, true, false, ◌&&◌, ◌||◌, not, Option, none,
  some, is_empty, ltb, ◌==◌, if◌then◌else◌, text_eq, codes, decimal, has_prefix, map, length,
}
use sp4rk.Base.Map.{Map, lookup, insert, member}
use sp4rk.Agent.Step.{Step}
use sp4rk.Orchestration.Plan.{Plan, PlanStep}
use sp4rk.Orchestration.Summary.{generate_summary}

pub record StepResult : Type 0 where
  pub step_id : Text
  pub summary : Text
  pub full_output : Text
  pub error : Option Text
  pub steps : List Step

pub record BlackboardEntry : Type 0 where
  pub kind : Text
  pub key : Text
  pub summary : Text

pub record Reflection : Type 0 where
  pub summary : Text
  pub hypotheses : List Text
  pub suggested_action : Text
  pub reasoning : Text
  pub failure_analysis : Text
  pub root_cause : Text
  pub action_plan : Text
  pub timestamp : ℕ

pub record Fact : Type 0 where
  pub keywords : List Text
  pub content : Text
  pub author : Text

pub record Attachment : Type 0 where
  pub id : Text
  pub original_name : Text
  pub original_path : Text
  pub format : Text
  pub size_bytes : ℕ
  pub markdown_content : Text
  pub attached_at : ℕ

pub record MapBlackboard (P : Type 0) : Type 0 where
  pub request : Text
  pub plan : Option (Plan P)
  pub step_results : Map StepResult
  pub reflections : List Reflection
  pub final_result : Text
  pub max_summary_len : ℕ
  pub facts : List Fact
  pub attachments : List Attachment

-- copyPlan, field by field
abbrev copy_step : {P : Type 0} → PlanStep P → PlanStep P
copy_step s = record {
  id = s.id;
  summary = s.summary;
  description = s.description;
  depends_on = s.depends_on;
  parallelizable = s.parallelizable;
  estimated_tools = s.estimated_tools;
  agent = s.agent;
  profile = s.profile;
}

unfoldable pub copy_plan : {P : Type 0} → Plan P → Plan P
copy_plan p = record { steps = map copy_step p.steps; exploration_context = p.exploration_context }

-- The stored attachment that the id finds.
unfoldable pub find_attachment : Text → List Attachment → Option Attachment
find_attachment id [] = none
find_attachment id (a ∷ attachments) =
    if text_eq a.id id then some a else find_attachment id attachments

-- The attachment in place of the first one with its id, or at the end.
unfoldable pub put_attachment : Attachment → List Attachment → List Attachment
put_attachment a [] = a ∷ []
put_attachment a (x ∷ attachments) =
    let rest = put_attachment a attachments in
    if text_eq x.id a.id then a ∷ attachments else x ∷ rest

-- The attachments without the first one with the id, and whether there is one.
unfoldable pub drop_attachment : Text → List Attachment → List Attachment × Bool
drop_attachment id [] = ([], false)
drop_attachment id (a ∷ attachments) =
    let rest = drop_attachment id attachments in
    if text_eq a.id id then (attachments, true) else (a ∷ rest.0, rest.1)

abbrev pub stamped : ℕ → Attachment → Attachment
stamped now a = record a { attached_at = if a.attached_at == 0 then now else a.attached_at }

-- The keywords of a fact that are among the (lower-case) ones searched for.
unfoldable pub match_count : (Text → Text) → List Text → List Text → ℕ
match_count to_lower queries [] = 0
match_count to_lower queries (k ∷ keywords) =
    let rest = match_count to_lower queries keywords in
    if member (to_lower k) queries then suc rest else rest

-- Substrings, strings.Contains.
unfoldable pub contains_text : Text → Text → Bool
unfolding has_prefix
contains_text [] q = is_empty q
contains_text (c ∷ s) q = has_prefix (c ∷ s) q || contains_text s q

pub record Scored : Type 0 where
  pub fact : Fact
  pub score : ℕ

unfoldable pub scored_facts : (Text → Text) → List Text → List Fact → List Scored
unfolding match_count
scored_facts to_lower queries [] = []
scored_facts to_lower queries (f ∷ facts) =
    let rest = scored_facts to_lower queries facts in
    let score = match_count to_lower queries f.keywords in
    if ltb 0 score then record { fact = f; score = score } ∷ rest else rest

-- The entries of the step results that a test on texts takes.
unfoldable pub result_entries : (Text → Bool) → Map StepResult → List BlackboardEntry
result_entries test [] = []
result_entries test ((id, r) ∷ results) =
    let rest = result_entries test results in
    if test r.summary || test r.full_output
    then record { kind = codes "step_result"; key = id; summary = r.summary } ∷ rest
    else rest

unfoldable pub reflection_entries : (Text → Bool) → ℕ → List Reflection → List BlackboardEntry
reflection_entries test i [] = []
reflection_entries test i (r ∷ reflections) =
    let rest = reflection_entries test (suc i) reflections in
    if test r.summary
    then record {
      kind = codes "reflection";
      key = codes "reflection_" ++ decimal i;
      summary = r.summary;
    }
      ∷ rest
    else rest

module _ {P : Type 0} where
  abbrev pub new_map_blackboard : ℕ → MapBlackboard P
  new_map_blackboard max_summary_len = record {
    request = [];
    plan = none;
    step_results = [];
    reflections = [];
    final_result = [];
    max_summary_len = max_summary_len;
    facts = [];
    attachments = [];
  }

  unfoldable pub get_plan : MapBlackboard P → Option (Plan P)
  unfolding copy_plan
  get_plan b = elim b.plan [ none ↦ none | some p ↦ some (copy_plan p) ]

  unfoldable pub set_plan : Option (Plan P) → MapBlackboard P → MapBlackboard P
  unfolding copy_plan
  set_plan plan b = record b { plan = elim plan [ none ↦ none | some p ↦ some (copy_plan p) ] }

  abbrev pub set_original_request : Text → MapBlackboard P → MapBlackboard P
  set_original_request request b = record b { request = request }

  abbrev pub set_final_result : Text → MapBlackboard P → MapBlackboard P
  set_final_result result b = record b { final_result = result }

  abbrev pub set_facts : List Fact → MapBlackboard P → MapBlackboard P
  set_facts facts b = record b { facts = facts }

  abbrev pub set_attachments : List Attachment → MapBlackboard P → MapBlackboard P
  set_attachments attachments b = record b { attachments = attachments }

  unfoldable pub get_step_result : Text → MapBlackboard P → Option StepResult
  get_step_result id b = lookup id b.step_results

  unfoldable pub get_step_summary : Text → MapBlackboard P → Text
  get_step_summary id b = elim (lookup id b.step_results) [ none ↦ [] | some r ↦ r.summary ]

  unfoldable pub set_step_result :
      Text → Text → Option Text → List Step → MapBlackboard P → MapBlackboard P
  unfolding insert generate_summary
  set_step_result id output error steps b = record b {
    step_results =
        insert id
          (record {
            step_id = id;
            summary =
                generate_summary output (if b.max_summary_len == 0 then 500 else b.max_summary_len);
            full_output = output;
            error = error;
            steps = steps;
          })
          b.step_results;
  }

  unfoldable pub set_step_result_raw : Text → StepResult → MapBlackboard P → MapBlackboard P
  unfolding insert
  set_step_result_raw id r b = record b { step_results = insert id r b.step_results }

  unfoldable pub add_reflection : Reflection → MapBlackboard P → MapBlackboard P
  add_reflection r b = record b { reflections = b.reflections ++ (r ∷ []) }

  unfoldable pub store_fact : Fact → MapBlackboard P → MapBlackboard P
  store_fact f b = record b { facts = b.facts ++ (f ∷ []) }

  unfoldable pub search_facts :
      (Text → Text) → (List Scored → List Scored) → List Text → MapBlackboard P → List Fact
  unfolding scored_facts
  search_facts to_lower sort keywords b =
      if is_empty keywords || is_empty b.facts
      then []
      else map (λ (s : Scored). s.fact)
          (sort (scored_facts to_lower (map to_lower keywords) b.facts))

  unfoldable pub add_attachment : ℕ → Attachment → MapBlackboard P → MapBlackboard P
  unfolding put_attachment
  add_attachment now a b = record b { attachments = put_attachment (stamped now a) b.attachments }

  unfoldable pub get_attachment : Text → MapBlackboard P → Option Attachment
  unfolding find_attachment
  get_attachment id b = find_attachment id b.attachments

  unfoldable pub remove_attachment : Text → MapBlackboard P → MapBlackboard P × Bool
  unfolding drop_attachment
  remove_attachment id b =
      let left = drop_attachment id b.attachments in (record b { attachments = left.0 }, left.1)

  unfoldable pub search : (Text → Text) → Text → MapBlackboard P → List BlackboardEntry
  unfolding contains_text result_entries reflection_entries
  search to_lower query b =
      let test : Text → Bool = λ t. contains_text (to_lower t) (to_lower query) in
      result_entries test b.step_results ++ reflection_entries test 0 b.reflections
