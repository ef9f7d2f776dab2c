-- ===== src/Consolidate/Counts.antt =====
-- The result of a run counts each candidate once.
use jardin.Base.{
  ℕ, suc, ◌+◌, String, Option, none, some, List, [], ◌∷◌, ◌++◌, map, ◌≡◌, refl, arith,
}
use jardin.Base.{length, Option-cases, inl, inr}
use jardin.Consolidate.Gate.{Candidate, gate, leaks_secret}
use jardin.Consolidate.Judge.{Log}
use jardin.Consolidate.Dedupe.{
  Scores, Decision, noop_choice, create_choice, supersede_choice, decide,
}
use jardin.Consolidate.Apply.{
  Pipeline, Run, Result, Edit, creates, supersedes, edit, reason_of, refused, write, carry_out,
  ask_judge, settle, apply, apply_all,
}

-- The candidates that a result accounts for.
abbrev pub total : Result → ℕ
total x = x.created + x.superseded + x.noop + x.dropped

module _ {P V : Type 0} (num : Scores P V) (p : Pipeline V) where
  -- What one candidate adds: one to the total, and to the edits exactly what is created or superseded.
  record IsCounted (r after : Run) : Type 0 where
    counted : total after.result ≡ suc (total r.result)
    edited :
        length after.edits + (r.result.created + r.result.superseded)
        ≡ length r.edits + (after.result.created + after.result.superseded)

  edit-IsCounted :
      (e : Edit) (count : Result → Result) (r : Run)
      → total (count r.result) ≡ suc (total r.result)
      → (count r.result).created + (count r.result).superseded
        ≡ suc (r.result.created + r.result.superseded)
      → IsCounted r (edit num p e count r)
  edit-IsCounted e count r grows adds = elim (Option-cases (p.refusal r.edits e)) [
    | inl written ↦ rw (written, edit) (record { counted = grows; edited = omega (arith, adds) })
    | inr (text, failed) ↦ rw (failed, edit) (record { counted = omega arith; edited = refl })
  ]

  carry_out-IsCounted :
      (c : Candidate) (o : Option (Decision P)) (r : Run) → IsCounted r (carry_out num p c o r)
  carry_out-IsCounted c none r = record { counted = omega arith; edited = refl }
  carry_out-IsCounted c (some dec) r =
      elim dec.outcome
        as (λ o. IsCounted r (carry_out num p c (some (record dec { outcome = o })) r)) [
          | noop_choice ↦ record { counted = omega arith; edited = refl }
          | create_choice ↦
              edit-IsCounted (creates c) (λ x. record x { created = suc x.created }) r (omega arith)
                (omega arith)
          | supersede_choice ↦
              edit-IsCounted (supersedes c) (λ x. record x { superseded = suc x.superseded }) r
                (omega arith) (omega arith)
        ]

  settle-IsCounted :
      (c : Candidate) (reasons : List String) (r : Run) (log : Log)
      → IsCounted r (settle num p c reasons (record r { log = log }))
  unfolding write
  settle-IsCounted c [] r log =
      let (dec, asked) = decide num (p.deduper r.edits) c log in
      let k = carry_out-IsCounted c dec (record r { log = asked }) in
      record { counted = k.counted; edited = k.edited }
  settle-IsCounted c (x ∷ xs) r log = record { counted = omega arith; edited = refl }

  apply-IsCounted : (c : Candidate) (r : Run) → IsCounted r (apply num p c r)
  unfolding apply
  apply-IsCounted c r =
      let gated = gate p.re c in
      let (v, asked) = ask_judge num p (leaks_secret gated) c r.log in
      settle-IsCounted c (map reason_of gated ++ refused num p v c) r asked

  -- A run over some candidates counts each of them once, as created, superseded, a duplicate or dropped,
  -- and makes an edit of the wiki for each that it counts as created or superseded, and no other.
  pub apply_all-counts :
      (cs : List Candidate) (r : Run)
      → (total (apply_all num p cs r).result ≡ length cs + total r.result)
        × (length (apply_all num p cs r).edits + (r.result.created + r.result.superseded)
            ≡ length r.edits
              + ((apply_all num p cs r).result.created + (apply_all num p cs r).result.superseded))
  unfolding apply_all
  apply_all-counts [] r = (omega arith, refl)
  apply_all-counts (c ∷ cs) r =
      let s = apply num p c r in
      let k = apply-IsCounted c r in
      let (counted, edited) = apply_all-counts cs s in
      (omega (arith, k.counted, counted), omega (arith, k.edited, edited))
