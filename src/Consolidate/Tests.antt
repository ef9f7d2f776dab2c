-- ===== src/Consolidate/Tests.antt =====
-- A run over three candidates, and the theorems of the consolidation at concrete data.
use jardin.Base.{ℕ, ◌+◌, true, none, some, List, [], ◌∷◌, ◌≡◌, refl, All}
use jardin.Base.{◌==◌, string_eq, nat_eq, ltb, leb, length, if◌then◌else◌}
use jardin.Base.Dict
use jardin.Base.Text.{has_text, has_prefix, text_lt}
use jardin.Consolidate.Gate.{
  Candidate, Matching, path_re, token_re, date_re, error_re, version_re, assign_re, pem_re, gate,
  leaks_secret, check_behavior, check_obvious, check_secrets, contains_any, count_signals,
}
use jardin.Consolidate.Judge.{
  Judge, Log, compare, verdict_on, read_answer, prompt_of, judge_prompt, compare_prompt,
}
use jardin.Consolidate.Dedupe.{
  Scores, Chunk, Deduper, Decision, supersede_choice, lexical, earliest_timestamp, earliest_from,
  after_last_at, similarities, lexical_similarity, tokenize, keep_tokens, fields_from, shared,
  best_from, decide,
}
use jardin.Consolidate.Apply.{Pipeline, Run, no_result, apply_all}
use jardin.Consolidate.Cursor.{Cursor, Mark, position_for, mark_processed, mark_all}
use jardin.Consolidate.Secrets.{IsClean, apply_all-IsClean}
use jardin.Consolidate.Counts.{total, apply_all-counts}
use jardin.Consolidate.Retract.{IsBacked, decide-IsBacked}
use jardin.Consolidate.Watermark.{covers, mark_all-covers}

-- Similarities in percent, and a vector that is never asked for.
abbrev num : Scores ℕ ℕ
num = record {
  lt = ltb;
  le = leb;
  zero_score = 0;
  ratio = λ n m. if n == m then 100 else 0;
  cosine = λ v w. 0;
  embed_near_duplicate = 90;
  embed_supersede = 94;
  lexical_near_duplicate = 60;
  weak_match_similarity = 20;
}

-- Patterns that stand for a path and a token.
abbrev re : Matching
re = record {
  find = λ p s. elim p [
    | path_re ↦ if has_text s ".go" then some ".go" else none
    | token_re ↦ if has_text s "ghp_" then some "ghp_" else none
    | date_re ↦ none
    | error_re ↦ none
    | version_re ↦ none
    | assign_re ↦ none
    | pem_re ↦ none
  ];
  to_lower = λ s. s;
  trim_space = λ s. s;
  reason = λ rule s. "refused";
}

-- A model that says yes to every question.
abbrev model : Judge
model = record {
  base_url = "http://127.0.0.1:11434";
  model = "llama";
  response = λ n s. some "yes";
  to_lower = λ s. s;
  trim_space = λ s. s;
}

abbrev chunk : Chunk
chunk = record {
  path = "bugs/run.md";
  heading = "run";
  line = 3;
  text = "always run the tests in main.go";
  date = 10;
}

abbrev deduper : Deduper ℕ
deduper = record {
  chunks = some (chunk ∷ []);
  backend = none;
  judge = some model;
  to_lower = λ s. s;
  parse = λ s. if s == "noon" then some 12 else none;
}

abbrev pipeline : Pipeline ℕ
pipeline = record {
  re = re;
  judge = model;
  deduper = λ edits. deduper;
  refusal = λ edits e. none;
  decide_error = "unreadable";
  judge_reason = λ s. "not durable";
}

abbrev correction : Candidate
correction = record { text = "always run the tests in main.go"; episode_refs = "pi@noon" ∷ [] }

abbrev leak : Candidate
leak = record {
  text = "always set ghp_123 in main.go, or the deploy fails";
  episode_refs = "pi@noon" ∷ [];
}

abbrev chatter : Candidate
chatter = record { text = "ok"; episode_refs = [] }

abbrev candidates : List Candidate
candidates = correction ∷ leak ∷ chatter ∷ []

abbrev start : Run
start = record { result = no_result; log = []; edits = [] }

abbrev no_questions : Log
no_questions = []

abbrev struck : Decision ℕ
struck = record {
  outcome = supersede_choice;
  similarity = 100;
  metric = lexical;
  found = some (record { chunk = chunk; similarity = 100 });
}

strikes : (decide num deduper correction no_questions).0 ≡ some struck
unfolding decide similarities lexical_similarity tokenize keep_tokens fields_from shared best_from
    earliest_timestamp earliest_from after_last_at compare verdict_on read_answer prompt_of
    judge_prompt compare_prompt has_prefix string_eq nat_eq
strikes = refl

leaks : leaks_secret (gate re leak) ≡ true
unfolding leaks_secret gate check_behavior check_obvious check_secrets contains_any count_signals
    has_text has_prefix
leaks = refl

apply_all-IsClean_example :
    IsClean num pipeline
      (apply_all num pipeline candidates (record { result = no_result; log = []; edits = [] }))
apply_all-IsClean_example = apply_all-IsClean num pipeline candidates

apply_all-counts_example :
    (total (apply_all num pipeline candidates start).result ≡ length candidates + total no_result)
    × (length (apply_all num pipeline candidates start).edits
          + (no_result.created + no_result.superseded)
        ≡ length start.edits
          + ((apply_all num pipeline candidates start).result.created
              + (apply_all num pipeline candidates start).result.superseded))
apply_all-counts_example = apply_all-counts num pipeline candidates start

decide-IsBacked_example : IsBacked num deduper correction no_questions struck
decide-IsBacked_example = decide-IsBacked num deduper correction no_questions struck strikes refl

abbrev marks : List Mark
marks =
    record { source = "pi"; timestamp = 7; hash = "b" }
    ∷ record { source = "pi"; timestamp = 5; hash = "c" }
    ∷ record { source = "pi"; timestamp = 7; hash = "d" }
    ∷ []

abbrev reached : Cursor
reached = ("pi", record { timestamp = 6; last_hash = "a" }) ∷ []

was_reached : covers (position_for "pi" reached) 6 "a" ≡ true
unfolding position_for Dict.lookup string_eq text_lt
was_reached = refl

position :
    position_for "pi" (mark_all marks reached) ≡ some (record { timestamp = 7; last_hash = "d" })
unfolding position_for mark_all mark_processed Dict.lookup Dict.insert string_eq text_lt
position = refl

mark_all-covers_example :
    All
      (λ m. covers (position_for m.source (mark_all marks reached)) m.timestamp m.hash ≡ true)
      marks
mark_all-covers_example = mark_all-covers marks reached
