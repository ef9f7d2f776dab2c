-- ===== src/Consolidate/Dedupe.antt =====
-- dedupe.go: whether a candidate is new, known, or corrects a finding of the wiki.
use Prim.Native.Char.{code}
use Prim.Native.String.{len}
use jardin.Base.{
  ℕ, suc, String, ◌<>◌, Bool, true, false, not, ◌&&◌, ◌||◌, Option, none, some, List, [], ◌∷◌, map,
}
use jardin.Base.{string_eq, contains, ltb, leb, ◌=?◌, length, if◌then◌else◌}
use jardin.Consolidate.Gate.{Candidate}
use jardin.Consolidate.Judge.{Judge, Verdict, accept, refuse, Log, compare}

-- What the code reads of a chunk of the wiki: its place, its Text and its Date, in nanoseconds.
pub record Chunk : Type 0 where
  pub path : String
  pub heading : String
  pub line : ℕ
  pub text : String
  pub date : ℕ

-- Go's float64 in this file: its comparisons, quotients and constants. `vector` is an embedding.
pub record Scores (P V : Type 0) : Type 0 where
  pub lt : P → P → Bool
  pub le : P → P → Bool
  pub zero_score : P
  pub ratio : ℕ → ℕ → P
  pub cosine : V → V → P
  pub embed_near_duplicate : P
  pub embed_supersede : P
  pub lexical_near_duplicate : P
  pub weak_match_similarity : P

pub data Metric : Type 0 where
  no_metric embeddings lexical : Metric

pub data Choice : Type 0 where
  noop_choice create_choice supersede_choice : Choice

pub record Match (P : Type 0) : Type 0 where
  pub chunk : Chunk
  pub similarity : P

pub record Decision (P : Type 0) : Type 0 where
  pub outcome : Choice
  pub similarity : P
  pub metric : Metric
  pub found : Option (Match P)

-- A Deduper: the chunks of the wiki, none where reading them fails, the Embed of the backend if there
-- is one, and the judge if there is one; with strings.ToLower and time.Parse.
pub record Deduper (V : Type 0) : Type 0 where
  pub chunks : Option (List Chunk)
  pub backend : Option (List String → Option (List V))
  pub judge : Option Judge
  pub to_lower : String → String
  pub parse : String → Option ℕ

abbrev in_word : ℕ → Bool
in_word r = (leb b'a' r && leb r b'z') || (leb b'0' r && leb r b'9') || ltb 127 r

-- strings.FieldsFunc: the pieces of word characters, `word` being the one that is open.
abbrev close_word : String → List String → List String
close_word String.[] rest = rest
close_word (String.◌∷◌ c s) rest = String.◌∷◌ c s ∷ rest

unfoldable pub fields_from : String → String → List String
fields_from word String.[] = close_word word []
fields_from word (String.◌∷◌ c s) =
    let rest = fields_from (if in_word (code c) then word <> String.◌∷◌ c "" else "") s in
    if in_word (code c) then rest else close_word word rest

-- tokenize, as the list of the keys of its map.
unfoldable pub keep_tokens : List String → List String
keep_tokens [] = []
keep_tokens (w ∷ ws) =
    let rest = keep_tokens ws in if ltb 2 (len w) && not (contains rest w) then w ∷ rest else rest

unfoldable pub tokenize : (String → String) → String → List String
unfolding fields_from keep_tokens
tokenize to_lower s = keep_tokens (fields_from "" (to_lower s))

unfoldable pub shared : List String → List String → ℕ
shared [] bs = 0
shared (a ∷ as_) bs = let rest = shared as_ bs in if contains bs a then suc rest else rest

module _ {P V : Type 0} (num : Scores P V) where
  -- lexicalSimilarity
  unfoldable pub lexical_similarity : (String → String) → String → String → P
  unfolding tokenize shared
  lexical_similarity to_lower a b =
      let at = tokenize to_lower a in
      let bt = tokenize to_lower b in
      let smaller = if ltb (length bt) (length at) then length bt else length at in
      if (length at =? 0) || (length bt =? 0)
      then num.zero_score
      else num.ratio (shared at bt) smaller

  -- The similarities with each chunk's vector, which follow the query's.
  abbrev against : List V → List P
  against [] = []
  against (q ∷ vs) = map (num.cosine q) vs

  abbrev from_backend : Option (List V) → List String → Option (List P)
  from_backend none texts = none
  from_backend (some vectors) texts =
      if length vectors =? length texts then some (against vectors) else none

  abbrev embedded : Option (List String → Option (List V)) → List String → Option (List P)
  embedded none texts = none
  embedded (some embed) texts = from_backend (embed texts) texts

  -- similarities
  unfoldable pub similarities : Deduper V → String → List Chunk → List P × Metric
  unfolding lexical_similarity
  similarities d query chunks = elim (embedded d.backend (query ∷ map (λ c. c.text) chunks)) [
    | some sims ↦ (sims, embeddings)
    | none ↦ (map (λ c. lexical_similarity d.to_lower query c.text) chunks, lexical)
  ]

  -- argmax, on the pairs of a chunk and its similarity: the first of the highest.
  unfoldable pub best_from : Chunk × P → List Chunk → List P → Chunk × P
  best_from best [] sims = best
  best_from best (c ∷ cs) [] = best
  best_from best (c ∷ cs) (s ∷ sims) = best_from (if num.lt best.1 s then (c, s) else best) cs sims

  abbrev pub near_duplicate : Metric → P
  near_duplicate embeddings = num.embed_near_duplicate
  near_duplicate _ = num.lexical_near_duplicate

  abbrev pub supersede_bar : Metric → P
  supersede_bar embeddings = num.embed_supersede
  supersede_bar _ = num.lexical_near_duplicate

  -- strings.LastIndex(ref, "@"): what follows the last one.
  unfoldable pub after_last_at : String → Option String
  after_last_at String.[] = none
  after_last_at (String.◌∷◌ c s) = elim (after_last_at s) [
    | some rest ↦ some rest
    | none ↦ if code c =? b'@' then some s else none
  ]

  abbrev instant_of : (String → Option ℕ) → Option String → Option ℕ
  instant_of parse none = none
  instant_of parse (some text) = parse text

  abbrev earlier : Option ℕ → Option ℕ → Option ℕ
  earlier none best = best
  earlier (some t) none = some t
  earlier (some t) (some best) = if ltb t best then some t else some best

  -- earliestTimestamp, from the best so far.
  unfoldable pub earliest_from : (String → Option ℕ) → List String → Option ℕ → Option ℕ
  unfolding after_last_at
  earliest_from parse [] best = best
  earliest_from parse (ref ∷ refs) best =
      earliest_from parse refs (earlier (instant_of parse (after_last_at ref)) best)

  unfoldable pub earliest_timestamp : (String → Option ℕ) → Candidate → Option ℕ
  unfolding earliest_from
  earliest_timestamp parse c = earliest_from parse c.episode_refs none

  abbrev pub is_older : ℕ → Option ℕ → Bool
  is_older date none = false
  is_older date (some t) = ltb date t

  abbrev pub agrees : Verdict → Bool
  agrees accept = true
  agrees refuse = false

  abbrev decision : Choice → P → Metric → Option (Match P) → Decision P
  decision o s m found = record { outcome = o; similarity = s; metric = m; found = found }

  -- The end of Decide, for a near duplicate.
  abbrev pub retract : Deduper V → Candidate → Chunk → P → Metric → Log → Decision P × Log
  retract d c chunk s m log =
      let found = some (record { chunk = chunk; similarity = s }) in
      elim d.judge [
        | none ↦ (decision noop_choice s m found, log)
        | some j ↦
            let (judged, asked) = compare j chunk.text c log in
            (
              if not (agrees judged.verdict) || num.lt s (supersede_bar m)
                  then decision noop_choice s m found
                  else if is_older chunk.date (earliest_timestamp d.parse c)
                  then decision supersede_choice s m found
                  else decision noop_choice s m found,
              asked,
            )
      ]

  abbrev weak : Chunk → P → Option (Match P)
  weak chunk s =
      if num.le num.weak_match_similarity s
      then some (record { chunk = chunk; similarity = s })
      else none

  abbrev pub weigh : Deduper V → Candidate → Metric → Log → Chunk × P → Decision P × Log
  weigh d c m log (chunk, s) =
      if num.lt s (near_duplicate m)
      then (decision create_choice s m (weak chunk s), log)
      else retract d c chunk s m log

  abbrev pub among : Deduper V → Candidate → Log → List Chunk → List P × Metric → Decision P × Log
  among d c log [] sims = (decision create_choice num.zero_score no_metric none, log)
  among d c log (chunk ∷ chunks) ([], m) = (decision create_choice num.zero_score m none, log)
  among d c log (chunk ∷ chunks) (s ∷ sims, m) = weigh d c m log (best_from (chunk, s) chunks sims)

  -- Decide, where none is an error. There are as many similarities as chunks, so the second clause of
  -- `among` is out of reach.
  unfoldable pub decide : Deduper V → Candidate → Log → Option (Decision P) × Log
  unfolding similarities best_from earliest_timestamp compare
  decide d c log = elim d.chunks [
    | none ↦ (none, log)
    | some chunks ↦
        let (dec, asked) = among d c log chunks (similarities d c.text chunks) in (some dec, asked)
  ]
