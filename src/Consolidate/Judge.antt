-- ===== src/Consolidate/Judge.antt =====
-- judge.go: the two questions that are put to a model, and what counts as its answer.
use jardin.Base.{ℕ, String, ◌<>◌, Bool, true, false, ◌||◌, Option, none, some, List, ◌∷◌}
use jardin.Base.{◌==◌, string_eq, length, if◌then◌else◌}
use jardin.Base.Text.{has_prefix}
use jardin.Consolidate.Gate.{Candidate}

pub data Verdict : Type 0 where
  accept refuse : Verdict

pub data JudgedBy : Type 0 where
  by_fallback by_model : JudgedBy

pub record Judgement : Type 0 where
  pub verdict : Verdict
  pub judged_by : JudgedBy

-- A question that left the process: whether a candidate lasts, or whether it contradicts a text.
pub data Question : Type 0 where
  durability : Candidate → Question
  contradiction : String → Candidate → Question

abbrev pub candidate_of : Question → Candidate
candidate_of (durability c) = c
candidate_of (contradiction claim c) = c

-- A Judge, and the model behind it: its response to the n-th prompt, none where the call fails, with
-- strings.ToLower and strings.TrimSpace.
pub record Judge : Type 0 where
  pub base_url : String
  pub model : String
  pub response : ℕ → String → Option String
  pub to_lower : String → String
  pub trim_space : String → String

unfoldable pub judge_prompt : String → String
judge_prompt text =
    "You are a durability judge for a personal knowledge wiki. Answer with exactly one word: YES or NO.\nQuestion: will this finding still be useful in 30 days?\n\nFinding:\n"
    <> text

unfoldable pub compare_prompt : String → String → String
compare_prompt existing candidate =
    "You are a consistency judge for a personal knowledge wiki. Answer with exactly one word: YES or NO.\nQuestion: does the new finding state something the existing claim denies or says is no longer true?\n\nExisting claim:\n"
    <> (existing <> ("\n\nNew finding:\n" <> candidate))

unfoldable pub prompt_of : Question → String
unfolding judge_prompt compare_prompt
prompt_of (durability c) = judge_prompt c.text
prompt_of (contradiction claim c) = compare_prompt claim c.text

-- The questions asked so far, the last one first.
abbrev pub Log : Type 0
Log = List Question

-- `ask`, on the response to its prompt.
unfoldable pub read_answer : Judge → Option String → Option Bool
unfolding has_prefix
read_answer j none = none
read_answer j (some response) = some (has_prefix (j.to_lower (j.trim_space response)) "yes")

abbrev judged : Option Bool → Judgement
judged none = record { verdict = refuse; judged_by = by_fallback }
judged (some true) = record { verdict = accept; judged_by = by_model }
judged (some false) = record { verdict = refuse; judged_by = by_model }

-- The method `verdict`.
unfoldable pub verdict_on : Judge → Question → Log → Judgement × Log
unfolding read_answer prompt_of
verdict_on j q log = (judged (read_answer j (j.response (length log) (prompt_of q))), q ∷ log)

abbrev is_off : Judge → Bool
is_off j = (j.model == "") || (j.base_url == "")

abbrev or_accept : Judgement → Judgement
or_accept v = elim v.judged_by [
  | by_fallback ↦ record { verdict = accept; judged_by = by_fallback }
  | by_model ↦ v
]

-- The method Judge.
unfoldable pub judge_durability : Judge → Candidate → Log → Judgement × Log
unfolding verdict_on
judge_durability j c log =
    let (v, asked) = verdict_on j (durability c) log in
    if is_off j
    then (record { verdict = accept; judged_by = by_fallback }, log)
    else (or_accept v, asked)

-- The method Compare.
unfoldable pub compare : Judge → String → Candidate → Log → Judgement × Log
unfolding verdict_on
compare j claim c log =
    let asked = verdict_on j (contradiction claim c) log in
    if is_off j then (record { verdict = refuse; judged_by = by_fallback }, log) else asked
