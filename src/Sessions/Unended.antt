-- ===== src/Sessions/Unended.antt =====
-- A last record of a Nacelle transcript that is counted before its newline is written.
use mathlib.Core.List.{append_assoc}
use jardin.Base.{ℕ, ◌+◌, true, none, List, [], ◌∷◌, ◌++◌, ◌≡◌, refl, ap, sym, ◌∙◌, arith}
use jardin.Base.{◌=?◌, length, length-append, if◌then◌else◌, Bool-cases, inl, inr}
use jardin.Sessions.Types.{Event}
use jardin.Sessions.Collect.{Bytes, drop, lines_from, pending, next_line}
use jardin.Sessions.Nacelle.{NacelleReading, complete_record, nacelle_event, turns_of, tail_nacelle}
use jardin.Sessions.Resume.{joined, lines_from-append, lines_from-newline, add_event-append}

length-pending :
    (line bs : Bytes) → (lines_from line bs).1 + length (pending line bs) ≡ length line + length bs
unfolding lines_from pending
length-pending line [] = omega arith
length-pending line (b ∷ bs) =
    ground (
      arith,
      length-pending [] bs,
      length-pending (line ++ (b ∷ [])) bs,
      length-append line (b ∷ []),
    )

pending-append : (line bs ps : Bytes) → pending line (bs ++ (10 ∷ ps)) ≡ pending [] ps
unfolding pending
pending-append line [] ps = refl
pending-append line (b ∷ bs) ps = pending-append (if b =? 10 then [] else line ++ (b ∷ [])) bs ps

drop-length : (bs ps : Bytes) → drop (length bs) (bs ++ ps) ≡ ps
unfolding drop
drop-length [] ps = refl
drop-length (b ∷ bs) ps = drop-length bs ps

module _ (io : NacelleReading) where
  turns_of-append :
      (as_ bs : List Bytes) → turns_of io (as_ ++ bs) ≡ turns_of io as_ ++ turns_of io bs
  unfolding turns_of
  turns_of-append [] bs = refl
  turns_of-append (a ∷ as_) bs =
      rw (turns_of-append as_ bs)
        (add_event-append (nacelle_event io a) (turns_of io as_) (turns_of io bs))

  turns_of-ended :
      (line line' : Bytes) (ls : List Bytes)
      → io.decode line' ≡ io.decode line
      → turns_of io (line' ∷ ls) ≡ turns_of io (line ∷ []) ++ turns_of io ls
  unfolding turns_of nacelle_event
  turns_of-ended line line' ls same =
      rw same (add_event-append (nacelle_event io line) [] (turns_of io ls))

  turns_of-blank :
      (line : Bytes) (ls : List Bytes)
      → io.decode line ≡ none
      → turns_of io (line ∷ ls) ≡ turns_of io ls
  unfolding turns_of nacelle_event
  turns_of-blank line ls blank = rw blank refl

  -- The end of a read, with the bytes after the last newline.
  abbrev ending : List Event → ℕ → Bytes → List Event × ℕ
  ending evs n last =
      if complete_record io last
      then (evs ++ turns_of io (last ∷ []), n + length last)
      else (evs, n)

  abbrev followed : List Event → List Event × ℕ → List Event × ℕ
  followed evs r = (evs ++ r.0, r.1)

  followed-ending :
      (as_ bs : List Event) (n : ℕ) (last : Bytes)
      → followed as_ (ending bs n last) ≡ ending (as_ ++ bs) n last
  followed-ending as_ bs n last = elim (Bool-cases (complete_record io last)) [
    | inl whole ↦
        rw whole
          (ap (λ evs. (evs, n + length last)) (sym (append_assoc as_ bs (turns_of io (last ∷ [])))))
    | inr torn ↦ rw torn refl
  ]

  tail_nacelle-lines :
      (content rest last : Bytes) (offset : ℕ) (lines : List Bytes × ℕ)
      → drop offset content ≡ rest
      → lines_from [] rest ≡ lines
      → pending [] rest ≡ last
      → tail_nacelle io content offset ≡ ending (turns_of io lines.0) (offset + lines.1) last
  unfolding tail_nacelle
  tail_nacelle-lines content rest last offset lines e f g = rw (e, f, g) refl

  first_read :
      (bs : Bytes)
      → complete_record io (pending [] bs) ≡ true
      → tail_nacelle io bs 0
        ≡ (turns_of io (lines_from [] bs).0 ++ turns_of io (pending [] bs ∷ []), length bs)
  unfolding drop
  first_read bs whole =
      let (l1, n1) = lines_from [] bs in
      let rest = pending [] bs in
      rw (tail_nacelle-lines bs bs rest 0 (l1, n1) refl refl refl, whole)
        (ap (λ n. (turns_of io l1 ++ turns_of io (rest ∷ []), n))
          (omega (arith, length-pending [] bs)))

  second_read :
      io.decode (10 ∷ []) ≡ none
      → (bs ps : Bytes)
      → tail_nacelle io (bs ++ (10 ∷ ps)) (length bs)
        ≡ ending
            (turns_of io (lines_from [] ps).0)
            (length bs + (1 + (lines_from [] ps).1))
            (pending [] ps)
  second_read blank bs ps =
      let (l3, n3) = lines_from [] ps in
      tail_nacelle-lines (bs ++ (10 ∷ ps)) (10 ∷ ps) (pending [] ps) (length bs)
        ((10 ∷ []) ∷ l3, 1 + n3) (drop-length bs (10 ∷ ps)) (lines_from-newline [] 10 ps refl)
        (pending-append [] [] ps)
      ∙ ap (λ evs. ending evs (length bs + (1 + n3)) (pending [] ps))
          (turns_of-blank (10 ∷ []) l3 blank)

  whole_read :
      ((raw : Bytes) → io.decode (raw ++ (10 ∷ [])) ≡ io.decode raw)
      → (bs ps : Bytes)
      → tail_nacelle io (bs ++ (10 ∷ ps)) 0
        ≡ ending
            ((turns_of io (lines_from [] bs).0 ++ turns_of io (pending [] bs ∷ []))
              ++ turns_of io (lines_from [] ps).0)
            (length bs + (1 + (lines_from [] ps).1))
            (pending [] ps)
  unfolding drop
  whole_read ended bs ps =
      let (l1, n1) = lines_from [] bs in
      let (l3, n3) = lines_from [] ps in
      let rest = pending [] bs in
      let lines = joined (l1, n1) (next_line (rest ++ (10 ∷ [])) (l3, n3)) in
      let cut : lines_from [] (bs ++ (10 ∷ ps)) ≡ lines =
        lines_from-append [] bs (10 ∷ ps)
        ∙ ap (joined (l1, n1)) (lines_from-newline rest 10 ps refl) in
      let turns : turns_of io lines.0
          ≡ (turns_of io l1 ++ turns_of io (rest ∷ [])) ++ turns_of io l3 =
        turns_of-append l1 ((rest ++ (10 ∷ [])) ∷ l3)
        ∙ (ap (λ evs. turns_of io l1 ++ evs)
              (turns_of-ended rest (rest ++ (10 ∷ [])) l3 (ended rest))
            ∙ sym (append_assoc (turns_of io l1) (turns_of io (rest ∷ [])) (turns_of io l3))) in
      tail_nacelle-lines (bs ++ (10 ∷ ps)) (bs ++ (10 ∷ ps)) (pending [] ps) 0 lines refl cut
        (pending-append [] bs ps)
      ∙ (ap (λ evs. ending evs (0 + lines.1) (pending [] ps)) turns
          ∙ ap
              (λ n.
                ending ((turns_of io l1 ++ turns_of io (rest ∷ [])) ++ turns_of io l3) n
                  (pending [] ps))
              (omega (arith, length-pending [] bs, length-append rest (10 ∷ []))))

  -- When the last record of a transcript is read before its newline is there, and the transcript is read
  -- on when the newline and more have been written, the two reads together give the events and the offset
  -- of one read of the whole, if json.Unmarshal fails on a blank line and ignores a newline that ends it.
  pub tail_nacelle-unended :
      io.decode (10 ∷ []) ≡ none
      → ((raw : Bytes) → io.decode (raw ++ (10 ∷ [])) ≡ io.decode raw)
      → (bs ps : Bytes) → complete_record io (pending [] bs) ≡ true
      → let first = tail_nacelle io bs 0 in
        let second = tail_nacelle io (bs ++ (10 ∷ ps)) first.1 in
        (first.0 ++ second.0, second.1) ≡ tail_nacelle io (bs ++ (10 ∷ ps)) 0
  tail_nacelle-unended blank ended bs ps whole =
      rw (first_read bs whole, second_read blank bs ps)
        (followed-ending (turns_of io (lines_from [] bs).0 ++ turns_of io (pending [] bs ∷ []))
            (turns_of io (lines_from [] ps).0) (length bs + (1 + (lines_from [] ps).1))
            (pending [] ps)
          ∙ sym (whole_read ended bs ps))
