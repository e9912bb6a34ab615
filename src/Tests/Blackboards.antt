-- ===== src/Tests/Blackboards.antt =====
-- Runs of orchestration/blackboard.go on attachments, facts and summaries.
use sp4rk.Base.{
  join, leb, if◌then◌else◌, inl, inr, Bool-cases, Text, List, [], ◌∷◌, ℕ, true, none, some, codes,
  ◌≡◌, refl, ◌↔◌, arith, Memᴰ, byte_length, has_prefix, text_eq,
}
use sp4rk.Base.Map.{member}
use sp4rk.Prompt.{split, trim_space}
use sp4rk.Orchestration.Plan.{Plan}
use sp4rk.Orchestration.Summary.{generate_summary, is_setext_underline, heading_from}
use sp4rk.Orchestration.Summary.Headings.{
  OnlyHeadings, IsBlankOrHeading, none_left, skipped, underlined, more, spaced, HeadingAfter-from,
  generate_summary-OnlyHeadings,
}
use sp4rk.Strutil.{truncate_utf8}
use sp4rk.Orchestration.Blackboard.{
  Attachment, Fact, Scored, MapBlackboard, new_map_blackboard, get_attachment, store_fact,
  search_facts, match_count,
}
use sp4rk.Orchestration.Blackboard.Attachments.{
  AttachmentOp, attach, detach, run, answers, spec_run, spec_answers, run-map,
}
use sp4rk.Orchestration.Blackboard.Facts.{
  Matches, Descending, none_left, last, next, score_of, Sorts, search_facts_iff,
}

abbrev report : Text
report = codes "# Title\n\nDone.\n\nMore of it."

summaries :
    (generate_summary report 0 ≡ codes "Done.")
    × (generate_summary report 3 ≡ codes "Do…")
    × (generate_summary (codes "Title\n===\nText") 0 ≡ codes "Text")
unfolding generate_summary split trim_space has_prefix text_eq byte_length truncate_utf8
    is_setext_underline join
summaries = (refl, refl, refl)

only_titles : OnlyHeadings (split (codes "\n\n# Title\nPart\n---") (codes "\n"))
unfolding split trim_space has_prefix text_eq heading_from
only_titles = skipped (inl refl) (
    skipped (inl refl) (
      skipped (inr (more (spaced (omega arith) (omega arith) (inl refl))))
        (underlined plain ((λ e. cc e), inr (refl, (refl, (refl, tt)))) none_left)))
  where
    plain : ¬ IsBlankOrHeading (codes "Part")
    plain (inl e) = cc e
    plain (inr h) = cc (HeadingAfter-from h)

generate_summary-OnlyHeadings_example : generate_summary (codes "\n\n# Title\nPart\n---") 0 ≡ []
generate_summary-OnlyHeadings_example =
    generate_summary-OnlyHeadings (codes "# Title\nPart\n---") 0 only_titles

abbrev scan : Attachment
scan = record {
  id = codes "a";
  original_name = codes "scan.pdf";
  original_path = codes "/tmp/scan.pdf";
  format = codes "pdf";
  size_bytes = 10;
  markdown_content = codes "text";
  attached_at = 0;
}

abbrev changes : List AttachmentOp
changes = attach 5 scan ∷ attach 6 (record scan { size_bytes = 20 }) ∷ detach (codes "b") ∷ []

run-map_example :
    (get_attachment (codes "a") (run changes (new_map_blackboard {P = ℕ} 0))
      ≡ spec_run changes (λ _. none) (codes "a"))
    × (answers changes (new_map_blackboard {P = ℕ} 0) ≡ spec_answers changes (λ _. none))
run-map_example = run-map ℕ 0 changes (codes "a")

abbrev same_case : Text → Text
same_case t = t

-- An insertion sort in the place of Go's.
unfoldable insert_scored : Scored → List Scored → List Scored
insert_scored s [] = s ∷ []
insert_scored s (t ∷ l) =
    let rest = insert_scored s l in if leb t.score s.score then s ∷ t ∷ l else t ∷ rest

unfoldable sort_scored : List Scored → List Scored
unfolding insert_scored
sort_scored [] = []
sort_scored (s ∷ l) = insert_scored s (sort_scored l)

swap :
    {x : Scored} (s t : Scored) {l m : List Scored}
    → Memᴰ x (s ∷ t ∷ l)
    → (Memᴰ x (s ∷ l) → Memᴰ x m)
    → Memᴰ x (t ∷ m)
swap s t (Memᴰ.head e) f = Memᴰ.tail (f (Memᴰ.head e))
swap s t (Memᴰ.tail (Memᴰ.head e)) f = Memᴰ.head e
swap s t (Memᴰ.tail (Memᴰ.tail i)) f = Memᴰ.tail (f (Memᴰ.tail i))

under_two : {x : Scored} (s t : Scored) {l : List Scored} → Memᴰ x (s ∷ l) → Memᴰ x (s ∷ t ∷ l)
under_two s t (Memᴰ.head e) = Memᴰ.head e
under_two s t (Memᴰ.tail i) = Memᴰ.tail (Memᴰ.tail i)

swap_back :
    {x : Scored} (s t : Scored) {l m : List Scored}
    → Memᴰ x (t ∷ m)
    → (Memᴰ x m → Memᴰ x (s ∷ l))
    → Memᴰ x (s ∷ t ∷ l)
swap_back s t (Memᴰ.head e) f = Memᴰ.tail (Memᴰ.head e)
swap_back s t (Memᴰ.tail i) f = under_two s t (f i)

under :
    {x : Scored} (s : Scored) {l m : List Scored}
    → Memᴰ x (s ∷ l)
    → (Memᴰ x l → Memᴰ x m)
    → Memᴰ x (s ∷ m)
under s (Memᴰ.head e) f = Memᴰ.head e
under s (Memᴰ.tail i) f = Memᴰ.tail (f i)

insert_scored-in : (s x : Scored) (l : List Scored) → Memᴰ x (s ∷ l) → Memᴰ x (insert_scored s l)
unfolding insert_scored
insert_scored-in s x [] i = i
insert_scored-in s x (t ∷ l) i = elim (Bool-cases (leb t.score s.score)) [
  | inl e ↦ rw e i
  | inr e ↦ rw e (swap s t i (insert_scored-in s x l))
]

insert_scored-out : (s x : Scored) (l : List Scored) → Memᴰ x (insert_scored s l) → Memᴰ x (s ∷ l)
unfolding insert_scored
insert_scored-out s x [] i = i
insert_scored-out s x (t ∷ l) i = elim (Bool-cases (leb t.score s.score)) [
  | inl e ↦ rw e at i
  | inr e ↦ swap_back s t (rw e at i) (insert_scored-out s x l)
]

sort_scored-keeps : (l : List Scored) (x : Scored) → Memᴰ x (sort_scored l) ↔ Memᴰ x l
unfolding sort_scored
sort_scored-keeps [] x = (λ i. i, λ i. i)
sort_scored-keeps (s ∷ l) x = (
  λ i. under s (insert_scored-out s x (sort_scored l) i) (sort_scored-keeps l x).0,
  λ i. insert_scored-in s x (sort_scored l) (under s i (sort_scored-keeps l x).1),
)

insert_scored-Descending :
    (s : Scored) (l : List Scored) → Descending score_of l → Descending score_of (insert_scored s l)
unfolding insert_scored
insert_scored-Descending s [] d = last s
insert_scored-Descending s (t ∷ []) d = elim (Bool-cases (leb t.score s.score)) [
  | inl e ↦ rw e (next s t (ground arith) d)
  | inr e ↦ rw e (next t s (ground arith) (last s))
]
insert_scored-Descending s (t ∷ u ∷ l) (next _ _ h d) = elim (Bool-cases (leb t.score s.score)) [
  | inl e ↦ rw e (next s t (ground arith) (next t u h d))
  | inr e ↦ elim (Bool-cases (leb u.score s.score)) [
    | inl f ↦ rw (e, f) (next t s (ground arith) (next s u (ground arith) d))
    | inr f ↦
        rw (e, f) (next t u h (rw (f, insert_scored) at (insert_scored-Descending s (u ∷ l) d)))
  ]
]

sort_scored-Descending : (l : List Scored) → Descending score_of (sort_scored l)
unfolding sort_scored
sort_scored-Descending [] = none_left
sort_scored-Descending (s ∷ l) =
    insert_scored-Descending s (sort_scored l) (sort_scored-Descending l)

sort_scored-Sorts : Sorts sort_scored
sort_scored-Sorts = record { keeps = sort_scored-keeps; orders = sort_scored-Descending }

abbrev weak : Fact
weak = record { keywords = codes "go" ∷ []; content = codes "one"; author = codes "s1" }

abbrev strong : Fact
strong = record { keywords = codes "go" ∷ codes "cache" ∷ []; content = codes "two"; author = [] }

abbrev board : MapBlackboard ℕ
board = store_fact strong (store_fact weak (new_map_blackboard 0))

abbrev words : List Text
words = codes "cache" ∷ codes "go" ∷ []

search_facts_iff_example :
    Memᴰ weak (search_facts same_case sort_scored words board)
    ↔ (Memᴰ weak board.facts × Matches same_case words weak)
search_facts_iff_example = search_facts_iff same_case sort_scored sort_scored-Sorts words board weak

strongest_first : search_facts same_case sort_scored words board ≡ strong ∷ weak ∷ []
unfolding search_facts store_fact sort_scored match_count member text_eq
strongest_first = refl

abbrev plan : Plan ℕ
plan = record {
  steps =
      record {
        id = codes "1";
        summary = codes "look";
        description = codes "look around";
        depends_on = codes "0" ∷ [];
        parallelizable = true;
        estimated_tools = codes "grep" ∷ [];
        agent = [];
        profile = some 3;
      }
      ∷ [];
  exploration_context = codes "repo";
}
