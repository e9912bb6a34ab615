-- ===== src/Orchestration/Blackboard/Attachments.antt =====
-- orchestration/blackboard.go: the attachments as a map from ids.
use sp4rk.Base.{
  Text, List, [], ◌∷◌, ℕ, Bool, Option, none, some, is_some, if◌then◌else◌, text_eq, text_eq_iff,
  text-eq_cases, ◌≡◌, refl, ap, subst, ◌∙◌, arith, inl, inr, Bool-cases,
}
use sp4rk.Orchestration.Blackboard.{
  Attachment, MapBlackboard, find_attachment, put_attachment, drop_attachment, stamped,
  add_attachment, get_attachment, remove_attachment, new_map_blackboard,
}

-- The calls that change the attachments one at a time.
pub data AttachmentOp : Type 0 where
  attach : ℕ → Attachment → AttachmentOp
  detach : Text → AttachmentOp

-- The abstract state: the attachment of each id.
abbrev pub Attached : Type 0
Attached = Text → Option Attachment

abbrev pub spec_step : AttachmentOp → Attached → Attached
spec_step (attach now a) f id = if text_eq a.id id then some (stamped now a) else f id
spec_step (detach k) f id = if text_eq k id then none else f id

abbrev pub spec_run : List AttachmentOp → Attached → Attached
spec_run [] f = f
spec_run (op ∷ ops) f = spec_run ops (spec_step op f)

-- The answers of RemoveAttachment: whether there was one.
abbrev pub spec_answers : List AttachmentOp → Attached → List Bool
spec_answers [] f = []
spec_answers (attach now a ∷ ops) f = spec_answers ops (spec_step (attach now a) f)
spec_answers (detach k ∷ ops) f = is_some (f k) ∷ spec_answers ops (spec_step (detach k) f)

module _ {P : Type 0} where
  unfoldable pub apply : AttachmentOp → MapBlackboard P → MapBlackboard P
  unfolding add_attachment remove_attachment
  apply (attach now a) b = add_attachment now a b
  apply (detach k) b = (remove_attachment k b).0

  unfoldable pub run : List AttachmentOp → MapBlackboard P → MapBlackboard P
  unfolding apply
  run [] b = b
  run (op ∷ ops) b = run ops (apply op b)

  unfoldable pub answers : List AttachmentOp → MapBlackboard P → List Bool
  unfolding apply remove_attachment
  answers [] b = []
  answers (attach now a ∷ ops) b = answers ops (apply (attach now a) b)
  answers (detach k ∷ ops) b = (remove_attachment k b).1 ∷ answers ops (apply (detach k) b)

-- No two attachments have the same id.
abbrev Distinct : List Attachment → Type 0
Distinct [] = Unit
Distinct (a ∷ attachments) = (find_attachment a.id attachments ≡ none) × Distinct attachments

find-put :
    (a : Attachment) (id : Text) (xs : List Attachment)
    → find_attachment id (put_attachment a xs)
      ≡ (if text_eq a.id id then some a else find_attachment id xs)
unfolding find_attachment put_attachment
find-put a id [] = refl
find-put a id (x ∷ xs) =
    ground
      (arith, find-put a id xs, text_eq_iff x.id a.id, text_eq_iff x.id id, text_eq_iff a.id id)

find-drop :
    (k id : Text) (xs : List Attachment)
    → Distinct xs
    → find_attachment id (drop_attachment k xs).0
      ≡ (if text_eq k id then none else find_attachment id xs)
unfolding find_attachment drop_attachment
find-drop k id [] d = ground arith
find-drop k id (x ∷ xs) (n, d) = elim (Bool-cases (text_eq x.id k)) [
  | inl e ↦ rw e (elim (text-eq_cases x.id id) [
    | inl q ↦
        let gone : find_attachment id xs ≡ none = subst (λ i. find_attachment i xs ≡ none) q n in
        ground (arith, text_eq_iff k id, text_eq_iff x.id id, text_eq_iff x.id k)
    | inr q ↦ ground (arith, text_eq_iff k id, text_eq_iff x.id id, text_eq_iff x.id k)
  ])
  | inr e ↦ rw e (
      ground
        (arith, find-drop k id xs d, text_eq_iff k id, text_eq_iff x.id id, text_eq_iff x.id k))
]

drop-found :
    (k : Text) (xs : List Attachment) → (drop_attachment k xs).1 ≡ is_some (find_attachment k xs)
unfolding find_attachment drop_attachment
drop-found k [] = refl
drop-found k (x ∷ xs) = ground (arith, drop-found k xs)

put-Distinct :
    (a : Attachment) (xs : List Attachment) → Distinct xs → Distinct (put_attachment a xs)
unfolding put_attachment find_attachment
put-Distinct a [] d = (refl, tt)
put-Distinct a (x ∷ xs) (n, d) = elim (Bool-cases (text_eq x.id a.id)) [
  | inl e ↦
      let same : x.id ≡ a.id = ground (arith, text_eq_iff x.id a.id) in
      rw e (subst (λ i. find_attachment i xs ≡ none) same n, d)
  | inr e ↦ rw e (
    ground (arith, find-put a x.id xs, text_eq_iff a.id x.id, text_eq_iff x.id a.id),
    put-Distinct a xs d,
  )
]

drop-Distinct : (k : Text) (xs : List Attachment) → Distinct xs → Distinct (drop_attachment k xs).0
unfolding drop_attachment
drop-Distinct k [] d = tt
drop-Distinct k (x ∷ xs) (n, d) = elim (Bool-cases (text_eq x.id k)) [
  | inl e ↦ rw e d
  | inr e ↦ rw e (ground (arith, find-drop k x.id xs d), drop-Distinct k xs d)
]

-- The attachments of a blackboard are the abstract map, each under one id.
record Refines {P : Type 0} (b : MapBlackboard P) (f : Attached) : Type 0 where
  finds : (id : Text) → get_attachment id b ≡ f id
  distinct : Distinct b.attachments

module _ {P : Type 0} where
  apply-Refines :
      (op : AttachmentOp) (b : MapBlackboard P) (f : Attached)
      → Refines b f
      → Refines (apply op b) (spec_step op f)
  unfolding apply add_attachment remove_attachment get_attachment
  apply-Refines (attach now a) b f r = record {
    finds = λ id. find-put (stamped now a) id b.attachments ∙ rw (← r.finds id) refl;
    distinct = put-Distinct (stamped now a) b.attachments r.distinct;
  }
  apply-Refines (detach k) b f r = record {
    finds = λ id. find-drop k id b.attachments r.distinct ∙ rw (← r.finds id) refl;
    distinct = drop-Distinct k b.attachments r.distinct;
  }

  run-Refines :
      (ops : List AttachmentOp) (b : MapBlackboard P) (f : Attached)
      → Refines b f
      → Refines (run ops b) (spec_run ops f)
  unfolding run
  run-Refines [] b f r = r
  run-Refines (op ∷ ops) b f r =
      run-Refines ops (apply op b) (spec_step op f) (apply-Refines op b f r)

  answers-Refines :
      (ops : List AttachmentOp) (b : MapBlackboard P) (f : Attached)
      → Refines b f
      → answers ops b ≡ spec_answers ops f
  unfolding answers remove_attachment get_attachment
  answers-Refines [] b f r = refl
  answers-Refines (attach now a ∷ ops) b f r =
      answers-Refines ops (apply (attach now a) b) _ (apply-Refines (attach now a) b f r)
  answers-Refines (detach k ∷ ops) b f r =
      let first = drop-found k b.attachments ∙ ap is_some (r.finds k) in
      let rest = answers-Refines ops (apply (detach k) b) _ (apply-Refines (detach k) b f r) in
      rw (first, rest) refl

  new-Refines : (n : ℕ) → Refines {P = P} (new_map_blackboard n) (λ _. none)
  unfolding get_attachment find_attachment
  new-Refines n = record { finds = λ id. refl; distinct = tt }

-- After any calls of AddAttachment and RemoveAttachment on a new blackboard, GetAttachment answers
-- as the map from ids does in which an attachment replaces the one with its id, and each
-- RemoveAttachment has told whether the map had the id.
pub run-map :
    (P : Type 0) (n : ℕ) (ops : List AttachmentOp) (id : Text)
    → (get_attachment id (run ops (new_map_blackboard {P = P} n)) ≡ spec_run ops (λ _. none) id)
      × (answers ops (new_map_blackboard {P = P} n) ≡ spec_answers ops (λ _. none))
run-map P n ops id =
    let start = new-Refines {P = P} n in
    (
      (run-Refines ops (new_map_blackboard n) (λ _. none) start).finds id,
      answers-Refines ops (new_map_blackboard n) (λ _. none) start,
    )
