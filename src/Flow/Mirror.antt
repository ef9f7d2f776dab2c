-- ===== src/Flow/Mirror.antt =====
-- What a capture mirrors of the output of a step.
use mathlib.Core.List.{append-nil, append_assoc}
use jardin.Base.{◌-◌, Bool, true, false, List, [], ◌∷◌, ◌++◌, ◌≡◌, refl, ap, sym, ◌∙◌, arith}
use jardin.Base.{ltb, ◌=?◌, length, if◌then◌else◌, Bool-cases, inl, inr}
use jardin.Flow.Stream.{
  max_stream_bytes, take, Bytes, Capture, new_capture, split_after, cut_last_line, mirrored,
  mirrored_all, emit, mirror_lines, keep, write, flush, flushed, write_all,
}
use jardin.Flow.Lines.{
  IsEnded, after, cut_last_line-append, cut_last_line-IsLine, rest-IsLine, cut_last_line-whole,
  complete-IsEnded,
}
use jardin.Flow.Kept.{joined, forwarded, mirror_lines-on, mirror_lines-off}

if_both :
    {A : Type 0} {B : Type 0} (f : A → B) (v : B) (b : Bool) (x y : A)
    → f x ≡ v
    → f y ≡ v
    → f (if b then x else y) ≡ v
if_both f v true x y h k = h
if_both f v false x y h k = k

module _ (prefix : Bytes) (redact : Bytes → Bytes) where
  -- A text as `emit` writes it.
  abbrev pub rendered : Bytes → Bytes
  rendered text = mirrored_all prefix redact (split_after [] (redact text))

  mirrored_all-append :
      (as_ bs : List Bytes)
      → mirrored_all prefix redact (as_ ++ bs)
        ≡ mirrored_all prefix redact as_ ++ mirrored_all prefix redact bs
  unfolding mirrored_all
  mirrored_all-append [] bs = refl
  mirrored_all-append (a ∷ as_) bs = rw (mirrored_all-append as_ bs) (
      sym (
        append_assoc (mirrored prefix redact a) (mirrored_all prefix redact as_)
          (mirrored_all prefix redact bs)))

  -- A text that is cut after a newline is written as its two parts.
  split_after-cut :
      (line as_ bs : Bytes)
      → mirrored_all prefix redact (split_after line (as_ ++ (10 ∷ bs)))
        ≡ mirrored_all prefix redact (split_after line (as_ ++ (10 ∷ [])))
          ++ mirrored_all prefix redact (split_after [] bs)
  unfolding split_after mirrored_all mirrored
  split_after-cut line [] bs =
      ap (λ l. l ++ mirrored_all prefix redact (split_after [] bs))
        (sym (append-nil (mirrored prefix redact (line ++ (10 ∷ [])))))
  split_after-cut line (a ∷ as_) bs = elim (Bool-cases (a =? 10)) [
    | inl newline ↦
        let front = mirrored prefix redact (line ++ (a ∷ [])) in
        rw newline (
          ap (λ l. front ++ l) (split_after-cut [] as_ bs)
          ∙ sym (
              append_assoc front (mirrored_all prefix redact (split_after [] (as_ ++ (10 ∷ []))))
                (mirrored_all prefix redact (split_after [] bs))))
    | inr other ↦ rw other (split_after-cut (line ++ (a ∷ [])) as_ bs)
  ]

  rendered-nil : redact [] ≡ [] → rendered [] ≡ []
  unfolding split_after mirrored_all mirrored
  rendered-nil e = rw e refl

  rendered-append :
      redact [] ≡ []
      → ((as_ bs : Bytes) → redact (as_ ++ (10 ∷ bs)) ≡ redact as_ ++ (10 ∷ redact bs))
      → (c bs : Bytes) → IsEnded c
      → rendered (c ++ bs) ≡ rendered c ++ rendered bs
  rendered-append empty linewise c bs (inl e) =
      rw e (ap (λ l. l ++ rendered bs) (sym (rendered-nil empty)))
  rendered-append empty linewise c bs (inr (line, e)) =
      let write_out : Bytes → Bytes = λ text. mirrored_all prefix redact (split_after [] text) in
      let whole : redact (c ++ bs) ≡ redact line ++ (10 ∷ redact bs) =
        ap (λ l. redact (l ++ bs)) e
        ∙ (ap redact (append_assoc line (10 ∷ []) bs) ∙ linewise line bs) in
      let front : redact c ≡ redact line ++ (10 ∷ []) =
        ap redact e ∙ (linewise line [] ∙ ap (λ l. redact line ++ (10 ∷ l)) empty) in
      ap write_out whole
      ∙ (split_after-cut [] (redact line) (redact bs)
          ∙ ap (λ l. write_out l ++ rendered bs) (sym front))

  -- What a capture that mirrors holds after some bytes.
  abbrev IsMirrored : Bytes → Capture → Type 0
  IsMirrored all c =
      (c.mirrors ≡ true)
      × (c.pending ≡ (cut_last_line [] all).1)
      × (c.written ≡ rendered (cut_last_line [] all).0)

  abbrev mirror_of : Capture → Bool × Bytes × Bytes
  mirror_of c = (c.mirrors, c.pending, c.written)

  mirror_of-keep : (p : Bytes) (c : Capture) → mirror_of (keep p c) ≡ mirror_of c
  unfolding keep
  mirror_of-keep p c =
      let room = max_stream_bytes - length c.buf in
      let cut = record c { buf = c.buf ++ take room p; truncated = true } in
      let whole = record c { buf = c.buf ++ p } in
      let over = record c { truncated = true } in
      let v = mirror_of c in
      if_both mirror_of v (ltb (length c.buf) max_stream_bytes)
        (if ltb room (length p) then cut else whole) (if ltb 0 (length p) then over else c)
        (if_both mirror_of v (ltb room (length p)) cut whole refl refl)
        (if_both mirror_of v (ltb 0 (length p)) over c refl refl)

  module _ (empty : redact [] ≡ [])
      (linewise : (as_ bs : Bytes)
        → redact (as_ ++ (10 ∷ bs)) ≡ redact as_ ++ (10 ∷ redact bs)) where
    -- A write mirrors the lines that it completes, and holds back what follows them.
    found-IsMirrored :
        (all : Bytes) (c : Capture) (p complete rest : Bytes)
        → IsMirrored all c
        → cut_last_line [] (all ++ p) ≡ after (cut_last_line [] all).0 (complete, rest)
        → IsEnded (cut_last_line [] all).0
        → complete ++ rest ≡ c.pending ++ p
        → IsMirrored (all ++ p) (forwarded prefix redact (complete, rest) (c.pending ++ p) c)
    unfolding emit
    found-IsMirrored all c p [] rest (on, held, out) e ended whole = (
      on,
      sym whole ∙ sym (ap (λ r. r.1) e),
      out ∙ sym (ap (λ r. rendered r.0) e ∙ ap rendered (append-nil (cut_last_line [] all).0)),
    )
    found-IsMirrored all c p (x ∷ xs) rest (on, held, out) e ended whole = (
      on,
      sym (ap (λ r. r.1) e),
      ap (λ l. l ++ rendered (x ∷ xs)) out
          ∙ sym (
              ap (λ r. rendered r.0) e
              ∙ rendered-append empty linewise (cut_last_line [] all).0 (x ∷ xs) ended),
    )

    mirror_lines-IsMirrored :
        (p all : Bytes) (c : Capture)
        → IsMirrored all c
        → IsMirrored (all ++ p) (mirror_lines prefix redact p c)
    unfolding mirror_lines
    mirror_lines-IsMirrored [] all c h = rw (append-nil all) h
    mirror_lines-IsMirrored (b ∷ bs) all c (on, held, out) =
        let p = b ∷ bs in
        let (complete, rest) = cut_last_line [] (c.pending ++ p) in
        let (front, waiting) = cut_last_line [] all in
        let same : cut_last_line [] (c.pending ++ p) ≡ cut_last_line waiting p =
          ap (λ l. cut_last_line [] (l ++ p)) held
          ∙ cut_last_line-IsLine [] waiting p (rest-IsLine [] all tt) in
        rw (mirror_lines-on prefix redact p c on (ground arith)) (
          found-IsMirrored all c p complete rest (on, held, out)
            (cut_last_line-append [] all p ∙ ap (after front) (sym same)) (complete-IsEnded [] all)
            (cut_last_line-whole [] (c.pending ++ p)))

    write-IsMirrored :
        (p all : Bytes) (c : Capture)
        → IsMirrored all c
        → IsMirrored (all ++ p) (write prefix redact p c)
    unfolding write
    write-IsMirrored p all c (on, held, out) =
        let kept = mirror_of-keep p c in
        mirror_lines-IsMirrored p all (keep p c)
          (ap (λ m. m.0) kept ∙ on, ap (λ m. m.1) kept ∙ held, ap (λ m. m.2) kept ∙ out)

    write_all-IsMirrored :
        (ps : List Bytes) (all : Bytes) (c : Capture)
        → IsMirrored all c
        → IsMirrored (all ++ joined ps) (write_all prefix redact ps c)
    unfolding write_all joined
    write_all-IsMirrored [] all c h = rw (append-nil all) h
    write_all-IsMirrored (p ∷ ps) all c h =
        rw⁻¹ (append_assoc all p (joined ps)) (
          write_all-IsMirrored ps (all ++ p) (write prefix redact p c) (write-IsMirrored p all c h))

    flushed-written :
        (bs : Bytes) (c : Capture) → (flushed prefix redact bs c).written ≡ c.written ++ rendered bs
    unfolding emit
    flushed-written [] c =
        sym (ap (λ l. c.written ++ l) (rendered-nil empty) ∙ append-nil c.written)
    flushed-written (b ∷ bs) c = refl

    flush-IsMirrored :
        (all : Bytes) (c : Capture)
        → IsMirrored all c
        → (flush prefix redact c).written ≡ rendered all
    unfolding flush
    flush-IsMirrored all c (on, held, out) =
        let (front, rest) = cut_last_line [] all in
        ap (λ (m : Bool). (if m then flushed prefix redact c.pending c else c).written) on
        ∙ (flushed-written c.pending c
            ∙ (ap (λ l. l ++ rendered c.pending) out
                ∙ (ap (λ l. rendered front ++ rendered l) held
                    ∙ (sym (rendered-append empty linewise front rest (complete-IsEnded [] all))
                        ∙ ap rendered (cut_last_line-whole [] all)))))

    -- However the output of a process is cut into writes, what is mirrored of it in the end is the whole
    -- output, line by line, if redaction works line by line.
    pub written-write_all :
        (ps : List Bytes)
        → (flush prefix redact (write_all prefix redact ps (new_capture true))).written
          ≡ rendered (joined ps)
    unfolding cut_last_line
    written-write_all ps =
        let start : IsMirrored [] (new_capture true) = (refl, refl, sym (rendered-nil empty)) in
        flush-IsMirrored (joined ps) (write_all prefix redact ps (new_capture true))
          (write_all-IsMirrored ps [] (new_capture true) start)

  -- With no stream nothing is mirrored.
  write-off :
      (p : Bytes) (c : Capture)
      → c.mirrors ≡ false
      → mirror_of (write prefix redact p c) ≡ mirror_of c
  unfolding write
  write-off p c off =
      ap mirror_of
        (mirror_lines-off prefix redact p (keep p c) (ap (λ m. m.0) (mirror_of-keep p c) ∙ off))
      ∙ mirror_of-keep p c

  write_all-off :
      (ps : List Bytes) (c : Capture)
      → c.mirrors ≡ false
      → mirror_of (write_all prefix redact ps c) ≡ mirror_of c
  unfolding write_all
  write_all-off [] c off = refl
  write_all-off (p ∷ ps) c off =
      let same = write-off p c off in
      write_all-off ps (write prefix redact p c) (ap (λ m. m.0) same ∙ off) ∙ same

  pub flush-off :
      (ps : List Bytes)
      → (flush prefix redact (write_all prefix redact ps (new_capture false))).written ≡ []
  unfolding flush
  flush-off ps =
      let c = write_all prefix redact ps (new_capture false) in
      let same = write_all-off ps (new_capture false) refl in
      ap (λ (m : Bool). (if m then flushed prefix redact c.pending c else c).written)
        (ap (λ m. m.0) same)
      ∙ ap (λ m. m.2) same
