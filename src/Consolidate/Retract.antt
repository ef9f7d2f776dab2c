-- ===== src/Consolidate/Retract.antt =====
-- When a finding of the wiki is struck.
use jardin.Base.{true, false, Option, none, some, List, [], ◌∷◌, ◌≡◌, refl, ap, sym, ◌∙◌, arith}
use jardin.Base.{Option-cases, Bool-cases, inl, inr}
use jardin.Consolidate.Gate.{Candidate}
use jardin.Consolidate.Judge.{Judge, accept, Log, compare}
use jardin.Consolidate.Dedupe.{
  Scores, Chunk, Metric, Deduper, Match, Decision, supersede_choice, supersede_bar, near_duplicate,
  is_older, earliest_timestamp, among, weigh, retract, best_from, similarities, decide,
}

module _ {P V : Type 0} (num : Scores P V) (d : Deduper V) (c : Candidate) (log : Log) where
  -- What backs a decision to strike a finding.
  pub record IsBacked (dec : Decision P) : Type 0 where
    pub judge : Judge
    pub struck : Match P
    pub asked : d.judge ≡ some judge
    pub names : dec.found ≡ some struck
    pub agreed : (compare judge struck.chunk.text c log).0.verdict ≡ accept
    close : num.lt struck.similarity (supersede_bar num dec.metric) ≡ false
    pub newer : is_older num struck.chunk.date (earliest_timestamp num d.parse c) ≡ true

  retract-IsBacked :
      (o : Option Judge)
      → d.judge ≡ o
      → (chunk : Chunk) (s : P) (m : Metric)
      → (retract num d c chunk s m log).0.outcome ≡ supersede_choice
      → IsBacked (retract num d c chunk s m log).0
  retract-IsBacked none e chunk s m h = absurd (ground (arith, e, h))
  retract-IsBacked (some j) e chunk s m h = record {
    judge = j;
    struck = record { chunk = chunk; similarity = s };
    asked = e;
    names = ground (arith, e, h);
    agreed = ground (arith, e, h);
    close = ground (arith, e, h);
    newer = ground (arith, e, h);
  }

  weigh-IsBacked :
      (m : Metric) (best : Chunk × P)
      → (weigh num d c m log best).0.outcome ≡ supersede_choice
      → IsBacked (weigh num d c m log best).0
  weigh-IsBacked m (chunk, s) h = elim (Bool-cases (num.lt s (near_duplicate num m))) [
    | inl new ↦ absurd (ground (arith, new, h))
    | inr near ↦
        let b = retract-IsBacked d.judge refl chunk s m (ground (arith, near, h)) in
        let same : (weigh num d c m log (chunk, s)).0 ≡ (retract num d c chunk s m log).0 =
          ground (arith, near) in
        rw same b
  ]

  among-IsBacked :
      (chunks : List Chunk) (sims : List P × Metric)
      → (among num d c log chunks sims).0.outcome ≡ supersede_choice
      → IsBacked (among num d c log chunks sims).0
  among-IsBacked [] sims h = absurd (cc)
  among-IsBacked (chunk ∷ chunks) ([], m) h = absurd (cc)
  among-IsBacked (chunk ∷ chunks) (s ∷ sims, m) h =
      weigh-IsBacked m (best_from num (chunk, s) chunks sims) h

  pub decide-IsBacked :
      (dec : Decision P)
      → (decide num d c log).0 ≡ some dec
      → dec.outcome ≡ supersede_choice
      → IsBacked dec
  unfolding decide
  decide-IsBacked dec e h = elim (Option-cases d.chunks) [
    | inl broken ↦ absurd (ground (arith, broken, e))
    | inr (chunks, read) ↦
        let sims = similarities num d c.text chunks in
        let same : dec ≡ (among num d c log chunks sims).0 = ground (arith, read, e) in
        rw same (among-IsBacked chunks sims (ap (λ x. x.outcome) (sym same) ∙ h))
  ]
