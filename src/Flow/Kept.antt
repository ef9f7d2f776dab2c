-- ===== src/Flow/Kept.antt =====
-- What a capture keeps of the output of a step.
use mathlib.Core.List.{append-nil, append_assoc}
use jardin.Base.{
  ℕ, zero, suc, ◌+◌, ◌-◌, ◌≤◌, Bool, true, false, List, [], ◌∷◌, ◌++◌, ◌≡◌, refl, ap, sym, ◌∙◌,
  arith,
}
use jardin.Base.{ltb, length, length-append, if◌then◌else◌, Bool-cases, inl, inr}
use jardin.Flow.Stream.{
  Bytes, max_stream_bytes, take, Capture, new_capture, cut_last_line, emit, mirror_lines, keep,
  found, write, flush, flushed, write_all, result,
}

-- All that was written.
unfoldable pub joined : List Bytes → Bytes
joined [] = []
joined (p ∷ ps) = p ++ joined ps

take-all : (n : ℕ) (bs : Bytes) → length bs ≤ n → take n bs ≡ bs
unfolding take
take-all zero [] h = refl
take-all zero (b ∷ bs) h = absurd (omega (arith, h))
take-all (suc n) [] h = refl
take-all (suc n) (b ∷ bs) h = ap (λ l. b ∷ l) (take-all n bs (omega (arith, h)))

length-take : (n : ℕ) (bs : Bytes) → n ≤ length bs → length (take n bs) ≡ n
unfolding take
length-take zero bs h = refl
length-take (suc n) [] h = absurd (omega (arith, h))
length-take (suc n) (b ∷ bs) h = omega (arith, length-take n bs (omega (arith, h)))

-- Beyond what the first list holds, the second is taken.
take-append :
    (n : ℕ) (as_ bs : Bytes) → length as_ ≤ n → take n (as_ ++ bs) ≡ as_ ++ take (n - length as_) bs
unfolding take
take-append n [] bs h = ap (λ k. take k bs) (omega arith)
take-append zero (a ∷ as_) bs h = absurd (omega (arith, h))
take-append (suc n) (a ∷ as_) bs h =
    ap (λ l. a ∷ l)
      (take-append n as_ bs (omega (arith, h)) ∙ ap (λ k. as_ ++ take k bs) (omega arith))

take-front : (n : ℕ) (as_ bs : Bytes) → n ≤ length as_ → take n (as_ ++ bs) ≡ take n as_
unfolding take
take-front zero as_ bs h = refl
take-front (suc n) [] bs h = absurd (omega (arith, h))
take-front (suc n) (a ∷ as_) bs h = ap (λ l. a ∷ l) (take-front n as_ bs (omega (arith, h)))

-- What is kept of all that was written, under a cap.
abbrev IsKeptIn : ℕ → Bytes → Bytes × Bool → Type 0
IsKeptIn n all r = (r.0 ≡ take n all) × (r.1 ≡ ltb n (length all))

-- A buffer that is not full holds all that was written, and a full one has no room for more.
kept-short :
    (n : ℕ) (all buf : Bytes)
    → buf ≡ take n all
    → ltb (length buf) n ≡ true
    → (buf ≡ all) × (length all ≤ n)
kept-short n all buf e short = elim (Bool-cases (ltb n (length all))) [
  | inl long ↦ absurd (ground (arith, long, short, ap length e, length-take n all))
  | inr few ↦ let le : length all ≤ n = ground (arith, few) in (e ∙ take-all n all le, le)
]

kept-full :
    (n : ℕ) (all buf : Bytes) → buf ≡ take n all → ltb (length buf) n ≡ false → n ≤ length all
kept-full n all buf e full = elim (Bool-cases (ltb (length all) n)) [
  | inl few ↦
      absurd
        (ground (arith, few, full, ap length e, ap length (take-all n all (ground (arith, few)))))
  | inr long ↦ ground (arith, long)
]

cut_to_room :
    (n : ℕ) (all buf p : Bytes)
    → buf ≡ take n all
    → ltb (length buf) n ≡ true
    → ltb (n - length buf) (length p) ≡ true
    → IsKeptIn n (all ++ p) (buf ++ take (n - length buf) p, true)
cut_to_room n all buf p e short cut =
    let (same, le) = kept-short n all buf e short in
    (
      rw same (sym (take-append n all p le)),
      ground (arith, ap length same, cut, length-append all p),
    )

fits_in_room :
    (n : ℕ) (all buf p : Bytes)
    → buf ≡ take n all
    → ltb (length buf) n ≡ true
    → ltb (n - length buf) (length p) ≡ false
    → (buf ++ p ≡ take n (all ++ p)) × (ltb n (length (all ++ p)) ≡ ltb n (length all))
fits_in_room n all buf p e short fits =
    let (same, le) = kept-short n all buf e short in
    let few : length (all ++ p) ≤ n =
      ground (arith, ap length same, short, fits, length-append all p) in
    (rw same (sym (take-all n (all ++ p) few)), ground (arith, few, le))

no_room :
    (n : ℕ) (all buf p : Bytes)
    → buf ≡ take n all
    → ltb (length buf) n ≡ false
    → (buf ≡ take n (all ++ p)) × (n + length p ≤ length (all ++ p))
no_room n all buf p e full =
    let long = kept-full n all buf e full in
    (e ∙ sym (take-front n all p long), omega (arith, long, length-append all p))

is_longer : (n k m : ℕ) → ltb 0 k ≡ true → n + k ≤ m → true ≡ ltb n m
is_longer n k m more long = ground (arith, more, long)

nothing_more : (k m m' : ℕ) → ltb 0 k ≡ false → m' ≡ m + k → m' ≡ m
nothing_more k m m' nothing longer = ground (arith, nothing, longer)

abbrev IsKept : Bytes → Capture → Type 0
IsKept all c = IsKeptIn max_stream_bytes all (result c)

keep-IsKept : (p all : Bytes) (c : Capture) → IsKept all c → IsKept (all ++ p) (keep p c)
unfolding keep result
keep-IsKept p all c h =
    let cap = max_stream_bytes in
    let longer : length (all ++ p) ≡ length all + length p = length-append all p in
    elim (Bool-cases (ltb (length c.buf) cap)) [
      | inl short ↦ elim (Bool-cases (ltb (cap - length c.buf) (length p))) [
        | inl cut ↦ rw (short, cut) (cut_to_room cap all c.buf p h.0 short cut)
        | inr fits ↦
            let (kept, same) = fits_in_room cap all c.buf p h.0 short fits in
            rw (short, fits) (kept, h.1 ∙ sym same)
      ]
      | inr full ↦
          let (kept, long) = no_room cap all c.buf p h.0 full in
          elim (Bool-cases (ltb 0 (length p))) [
            | inl more ↦
                rw (full, more) (kept, is_longer cap (length p) (length (all ++ p)) more long)
            | inr nothing ↦
                rw (full, nothing)
                  (
                    kept,
                    h.1
                        ∙ sym (
                            ap (ltb cap) (
                              nothing_more (length p) (length all) (length (all ++ p)) nothing
                                longer)),
                  )
          ]
    ]

found-result :
    (r : Bytes × Bool) (complete : Bytes) (waiting sent : Capture)
    → result waiting ≡ r
    → result sent ≡ r
    → result (found complete waiting sent) ≡ r
found-result r [] waiting sent h k = h
found-result r (b ∷ bs) waiting sent h k = k

module _ (prefix : Bytes) (redact : Bytes → Bytes) where
  -- What mirrorLines leaves when the stream is there.
  abbrev pub forwarded : Bytes × Bytes → Bytes → Capture → Capture
  forwarded (complete, rest) pending c =
      found complete (record c { pending = pending })
        (emit prefix redact complete (record c { pending = rest }))

  pub mirror_lines-on :
      (p : Bytes) (c : Capture)
      → c.mirrors ≡ true
      → ltb 0 (length p) ≡ true
      → mirror_lines prefix redact p c
        ≡ forwarded (cut_last_line [] (c.pending ++ p)) (c.pending ++ p) c
  unfolding mirror_lines
  mirror_lines-on [] c on some_ = absurd (ground (arith, some_))
  mirror_lines-on (b ∷ bs) c on some_ =
      ap
        (λ (m : Bool).
          if m
          then forwarded (cut_last_line [] (c.pending ++ (b ∷ bs))) (c.pending ++ (b ∷ bs)) c
          else c)
        on

  pub mirror_lines-off :
      (p : Bytes) (c : Capture) → c.mirrors ≡ false → mirror_lines prefix redact p c ≡ c
  unfolding mirror_lines
  mirror_lines-off [] c off = refl
  mirror_lines-off (b ∷ bs) c off =
      ap
        (λ (m : Bool).
          if m
          then forwarded (cut_last_line [] (c.pending ++ (b ∷ bs))) (c.pending ++ (b ∷ bs)) c
          else c)
        off

  mirror_lines-result :
      (p : Bytes) (c : Capture) → result (mirror_lines prefix redact p c) ≡ result c
  unfolding mirror_lines emit result
  mirror_lines-result [] c = refl
  mirror_lines-result (b ∷ bs) c = elim (Bool-cases c.mirrors) [
    | inl on ↦
        let pending = c.pending ++ (b ∷ bs) in
        let (complete, rest) = cut_last_line [] pending in
        ap result (mirror_lines-on (b ∷ bs) c on (ground arith))
        ∙ found-result (result c) complete (record c { pending = pending })
            (emit prefix redact complete (record c { pending = rest })) refl refl
    | inr off ↦ ap result (mirror_lines-off (b ∷ bs) c off)
  ]

  flushed-result : (bs : Bytes) (c : Capture) → result (flushed prefix redact bs c) ≡ result c
  unfolding emit result
  flushed-result [] c = refl
  flushed-result (b ∷ bs) c = refl

  flush-result : (c : Capture) → result (flush prefix redact c) ≡ result c
  unfolding flush
  flush-result c = elim (Bool-cases c.mirrors) [
    | inl on ↦
        ap (λ (m : Bool). result (if m then flushed prefix redact c.pending c else c)) on
        ∙ flushed-result c.pending c
    | inr off ↦ ap (λ (m : Bool). result (if m then flushed prefix redact c.pending c else c)) off
  ]

  write_all-IsKept :
      (ps : List Bytes) (all : Bytes) (c : Capture)
      → IsKept all c
      → IsKept (all ++ joined ps) (write_all prefix redact ps c)
  unfolding write_all write joined
  write_all-IsKept [] all c h = rw (append-nil all) h
  write_all-IsKept (p ∷ ps) all c h =
      let written : IsKept (all ++ p) (write prefix redact p c) =
        rw (mirror_lines-result p (keep p c)) (keep-IsKept p all c h) in
      rw⁻¹ (append_assoc all p (joined ps))
        (write_all-IsKept ps (all ++ p) (write prefix redact p c) written)

  -- However the output of a process is cut into writes, and whether or not it is mirrored, what is kept of it
  -- is its first MaxStreamBytes bytes, marked as truncated exactly when there are more.
  pub result-write_all :
      (mirrors : Bool) (ps : List Bytes)
      → result (flush prefix redact (write_all prefix redact ps (new_capture mirrors)))
        ≡ (take max_stream_bytes (joined ps), ltb max_stream_bytes (length (joined ps)))
  unfolding result
  result-write_all mirrors ps =
      let (kept, cut) =
        write_all-IsKept ps [] (new_capture mirrors)
          (sym (take-all max_stream_bytes [] (omega arith)), refl) in
      flush-result (write_all prefix redact ps (new_capture mirrors)) ∙ λ i. (kept i, cut i)
