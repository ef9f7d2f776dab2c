-- ===== src/Consolidate/Apply.antt =====
-- run.go: what becomes of each candidate of a run, and the count of it.
use jardin.Base.{
  ℕ, suc, String, ◌<>◌, Bool, true, false, not, Option, none, some, List, [], ◌∷◌, ◌++◌, map,
}
use jardin.Consolidate.Gate.{Matching, Candidate, Rejection, gate, leaks_secret}
use jardin.Consolidate.Judge.{Judge, Verdict, accept, refuse, Log, judge_durability}
use jardin.Consolidate.Dedupe.{
  Scores, Deduper, noop_choice, create_choice, supersede_choice, Decision, decide,
}

-- Result, without Skipped.
pub record Result : Type 0 where
  pub created : ℕ
  pub superseded : ℕ
  pub noop : ℕ
  pub dropped : ℕ
  pub reasons : List String

abbrev pub no_result : Result
no_result = record { created = 0; superseded = 0; noop = 0; dropped = 0; reasons = [] }

-- A write that was made to the wiki.
pub data Edit : Type 0 where
  creates supersedes : Candidate → Edit

-- The state of a run: its result, the questions that left the process, and the edits, last ones first.
pub record Run : Type 0 where
  pub result : Result
  pub log : Log
  pub edits : List Edit

-- A pipeline. The wiki changes as a run writes, so the deduper is that of the edits so far; `refusal`
-- is the error of the Writer's Create or Supersede, after these edits, `decide_error` the error of a
-- wiki that cannot be read, and `judge_reason` the text of a judge's refusal.
pub record Pipeline (V : Type 0) : Type 0 where
  pub re : Matching
  pub judge : Judge
  pub deduper : List Edit → Deduper V
  pub refusal : List Edit → Edit → Option String
  pub decide_error : String
  pub judge_reason : String → String

abbrev pub reason_of : Rejection → String
reason_of r = r.reason

module _ {P V : Type 0} (num : Scores P V) (p : Pipeline V) where
  abbrev drop : List String → Run → Run
  drop reasons r = record r {
    result = record r.result {
      dropped = suc r.result.dropped;
      reasons = r.result.reasons ++ reasons;
    };
  }

  abbrev fail : String → Run → Run
  fail text r = drop (("candidate failed: " <> text) ∷ []) r

  abbrev pub edit : Edit → (Result → Result) → Run → Run
  edit e count r = elim (p.refusal r.edits e) [
    | some text ↦ fail text r
    | none ↦ record r { result = count r.result; edits = e ∷ r.edits }
  ]

  abbrev count_created : Result → Result
  count_created x = record x { created = suc x.created }

  abbrev count_superseded : Result → Result
  count_superseded x = record x { superseded = suc x.superseded }

  abbrev count_noop : Result → Result
  count_noop x = record x { noop = suc x.noop }

  -- The switch of `write`.
  abbrev pub carry_out : Candidate → Option (Decision P) → Run → Run
  carry_out c none r = fail p.decide_error r
  carry_out c (some dec) r = elim dec.outcome [
    | create_choice ↦ edit (creates c) count_created r
    | supersede_choice ↦ edit (supersedes c) count_superseded r
    | noop_choice ↦ record r { result = count_noop r.result }
  ]

  -- The method `write`, and what `apply` does with its error.
  unfoldable pub write : Candidate → Run → Run
  unfolding decide
  write c r =
      let (dec, asked) = decide num (p.deduper r.edits) c r.log in
      carry_out c dec (record r { log = asked })

  abbrev accepts : Verdict → Bool
  accepts accept = true
  accepts refuse = false

  -- Whether the judge refuses a candidate; it is not asked about one that carries a secret.
  abbrev pub ask_judge : Bool → Candidate → Log → Bool × Log
  ask_judge true c log = (false, log)
  ask_judge false c log =
      let (v, asked) = judge_durability p.judge c log in (not (accepts v.verdict), asked)

  -- The reasons that `apply` gathers: those of the gate, and the judge's.
  abbrev pub refused : Bool → Candidate → List String
  refused true c = p.judge_reason c.text ∷ []
  refused false c = []

  abbrev pub settle : Candidate → List String → Run → Run
  settle c [] r = write c r
  settle c (x ∷ xs) r = drop (x ∷ xs) r

  -- The method `apply`.
  unfoldable pub apply : Candidate → Run → Run
  unfolding gate leaks_secret judge_durability write
  apply c r =
      let gated = gate p.re c in
      let (no_verdict, asked) = ask_judge (leaks_secret gated) c r.log in
      settle c (map reason_of gated ++ refused no_verdict c) (record r { log = asked })

  -- consolidateEpisodes, on the candidates that Propose gives.
  unfoldable pub apply_all : List Candidate → Run → Run
  unfolding apply
  apply_all [] r = r
  apply_all (c ∷ cs) r = apply_all cs (apply c r)
