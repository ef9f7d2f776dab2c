-- ===== src/Consolidate/Secrets.antt =====
-- What a run lets out of the process, and what it writes.
use jardin.Base.{
  suc, String, Bool, true, false, ◌||◌, Option, none, some, List, [], ◌∷◌, ◌++◌, map, ◌≡◌, refl, ap,
  ◌⊎◌, arith,
}
use jardin.Base.{◌==◌, string_eq, All, Option-cases, Bool-cases, inl, inr}
use jardin.Consolidate.Gate.{Candidate, Rejection, gate, leaks_secret}
use jardin.Consolidate.Judge.{
  Judge, contradiction, candidate_of, Log, judge_durability, compare, verdict_on,
}
use jardin.Consolidate.Dedupe.{
  Scores, Chunk, Metric, Deduper, Decision, among, weigh, retract, near_duplicate, best_from,
  similarities, noop_choice, create_choice, supersede_choice, decide,
}
use jardin.Consolidate.Apply.{
  Pipeline, Run, Edit, creates, supersedes, no_result, Result, edit, reason_of, refused, write,
  carry_out, ask_judge, settle, apply, apply_all,
}

abbrev pub edited : Edit → Candidate
edited (creates c) = c
edited (supersedes c) = c

module _ {P V : Type 0} (num : Scores P V) (p : Pipeline V) where
  abbrev HasNoSecret : Candidate → Type 0
  HasNoSecret c = leaks_secret (gate p.re c) ≡ false

  -- The log after a call that asks at most about a contradiction with a candidate.
  abbrev Asks : Candidate → Log → Log → Type 0
  Asks c log after = (after ≡ log) ⊎ ((claim : String) × (after ≡ contradiction claim c ∷ log))

  compare-Asks :
      (j : Judge) (claim : String) (c : Candidate) (log : Log)
      → Asks c log (compare j claim c log).1
  unfolding compare verdict_on
  compare-Asks j claim c log = elim (Bool-cases ((j.model == "") || (j.base_url == ""))) [
    | inl off ↦ inl (ground (arith, off))
    | inr on ↦ inr (claim, ground (arith, on))
  ]

  among-Asks :
      (d : Deduper V) (c : Candidate) (log : Log) (chunks : List Chunk) (sims : List P × Metric)
      → Asks c log (among num d c log chunks sims).1
  among-Asks d c log [] sims = inl refl
  among-Asks d c log (chunk ∷ chunks) ([], m) = inl refl
  among-Asks d c log (chunk ∷ chunks) (s ∷ sims, m) =
      weigh-Asks (best_from num (chunk, s) chunks sims)
    where
      retract-Asks :
          (o : Option Judge)
          → d.judge ≡ o
          → (x : Chunk) (t : P) → Asks c log (retract num d c x t m log).1
      retract-Asks none e x t = inl (ground (arith, e))
      retract-Asks (some j) e x t = elim (compare-Asks j x.text c log) [
        | inl same ↦ inl (ground (arith, e, same))
        | inr (claim, asked) ↦ inr (claim, ground (arith, e, asked))
      ]

      weigh-Asks : (best : Chunk × P) → Asks c log (weigh num d c m log best).1
      weigh-Asks (x, t) = elim (Bool-cases (num.lt t (near_duplicate num m))) [
        | inl new ↦ inl (ground (arith, new))
        | inr near ↦ elim (retract-Asks d.judge refl x t) [
          | inl same ↦ inl (ground (arith, near, same))
          | inr (claim, asked) ↦ inr (claim, ground (arith, near, asked))
        ]
      ]

  decide-Asks : (d : Deduper V) (c : Candidate) (log : Log) → Asks c log (decide num d c log).1
  unfolding decide
  decide-Asks d c log = elim (Option-cases d.chunks) [
    | inl broken ↦ inl (ground (arith, broken))
    | inr (chunks, read) ↦ rw read (among-Asks d c log chunks (similarities num d c.text chunks))
  ]

  -- Every question is about a candidate that carries no secret, and every edit is of one that the gate
  -- has nothing against.
  pub record IsClean (r : Run) : Type 0 where
    pub questions : All (λ q. leaks_secret (gate p.re (candidate_of q)) ≡ false) r.log
    pub edits : All (λ e. gate p.re (edited e) ≡ []) r.edits

  asked-HasNoSecret :
      (c : Candidate) (log after : Log)
      → HasNoSecret c
      → Asks c log after
      → All (λ q. HasNoSecret (candidate_of q)) log
      → All (λ q. HasNoSecret (candidate_of q)) after
  asked-HasNoSecret c log after ok (inl same) h = rw same h
  asked-HasNoSecret c log after ok (inr (claim, asked)) h = rw asked (ok, h)

  edit-IsClean :
      (e : Edit) (count : Result → Result) (r : Run)
      → gate p.re (edited e) ≡ []
      → IsClean r
      → IsClean (edit num p e count r)
  edit-IsClean e count r free h = elim (Option-cases (p.refusal r.edits e)) [
    | inl written ↦ rw (written, edit) (record { questions = h.questions; edits = (free, h.edits) })
    | inr (text, failed) ↦ rw (failed, edit) (record { questions = h.questions; edits = h.edits })
  ]

  carry_out-IsClean :
      (c : Candidate) (o : Option (Decision P)) (r : Run)
      → gate p.re c ≡ []
      → IsClean r
      → IsClean (carry_out num p c o r)
  carry_out-IsClean c none r free h = record { questions = h.questions; edits = h.edits }
  carry_out-IsClean c (some dec) r free h =
      elim dec.outcome as (λ o. IsClean (carry_out num p c (some (record dec { outcome = o })) r)) [
        | noop_choice ↦ record { questions = h.questions; edits = h.edits }
        | create_choice ↦
            edit-IsClean (creates c) (λ x. record x { created = suc x.created }) r free h
        | supersede_choice ↦
            edit-IsClean (supersedes c) (λ x. record x { superseded = suc x.superseded }) r free h
      ]

  write-IsClean :
      (c : Candidate) (r : Run) → gate p.re c ≡ [] → IsClean r → IsClean (write num p c r)
  unfolding write leaks_secret
  write-IsClean c r free h =
      let (dec, asked) = decide num (p.deduper r.edits) c r.log in
      carry_out-IsClean c dec (record r { log = asked }) free
        (record {
          questions =
              asked-HasNoSecret c r.log asked (ap leaks_secret free)
                (decide-Asks (p.deduper r.edits) c r.log) h.questions;
          edits = h.edits;
        })

  settle-IsClean :
      (c : Candidate) (gated : List Rejection) (v : Bool) (r : Run)
      → gate p.re c ≡ gated
      → IsClean r
      → IsClean (settle num p c (map reason_of gated ++ refused num p v c) r)
  settle-IsClean c [] true r e h = record { questions = h.questions; edits = h.edits }
  settle-IsClean c [] false r e h = write-IsClean c r e h
  settle-IsClean c (x ∷ xs) v r e h = record { questions = h.questions; edits = h.edits }

  judged-HasNoSecret :
      (c : Candidate) (log : Log) (leak : Bool)
      → leaks_secret (gate p.re c) ≡ leak
      → All (λ q. HasNoSecret (candidate_of q)) log
      → All (λ q. HasNoSecret (candidate_of q)) (ask_judge num p leak c log).1
  unfolding judge_durability verdict_on
  judged-HasNoSecret c log true e h = h
  judged-HasNoSecret c log false e h =
      elim (Bool-cases ((p.judge.model == "") || (p.judge.base_url == ""))) [
        | inl off ↦ rw off h
        | inr on ↦ rw on (e, h)
      ]

  apply-IsClean : (c : Candidate) (r : Run) → IsClean r → IsClean (apply num p c r)
  unfolding apply
  apply-IsClean c r h =
      let gated = gate p.re c in
      let (v, asked) = ask_judge num p (leaks_secret gated) c r.log in
      settle-IsClean c gated v (record r { log = asked }) refl
        (record {
          questions = judged-HasNoSecret c r.log (leaks_secret gated) refl h.questions;
          edits = h.edits;
        })

  apply_all_from-IsClean :
      (cs : List Candidate) (r : Run) → IsClean r → IsClean (apply_all num p cs r)
  unfolding apply_all
  apply_all_from-IsClean [] r h = h
  apply_all_from-IsClean (c ∷ cs) r h =
      apply_all_from-IsClean cs (apply num p c r) (apply-IsClean c r h)

  -- In a run over any candidates, each question that leaves the process is about a candidate in which
  -- the gate finds no secret, and each edit of the wiki is of a candidate that the gate has nothing
  -- against, whatever the model, the wiki and the disk answer.
  pub apply_all-IsClean :
      (cs : List Candidate)
      → IsClean (apply_all num p cs (record { result = no_result; log = []; edits = [] }))
  apply_all-IsClean cs =
      apply_all_from-IsClean cs (record { result = no_result; log = []; edits = [] })
        (record { questions = tt; edits = tt })
