-- ===== src/Flow/Stream.antt =====
-- internal/flow/stream.go: what is kept of a step's output, and what is mirrored of it to the terminal.
use jardin.Base.{ℕ, zero, suc, ◌-◌, Bool, true, false, List, [], ◌∷◌, ◌++◌}
use jardin.Base.{ltb, ◌=?◌, length, if◌then◌else◌}

-- A text as its bytes.
abbrev pub Bytes : Type 0
Bytes = List ℕ

-- MaxStreamBytes: 1 << 20.
abbrev pub max_stream_bytes : ℕ
max_stream_bytes = 1048576

unfoldable pub take : ℕ → Bytes → Bytes
take zero bs = []
take (suc n) [] = []
take (suc n) (b ∷ bs) = b ∷ take n bs

-- A capture, without its lock. `mirrors` is false where the stream is nil, and `written` is what this
-- capture wrote to it.
pub record Capture : Type 0 where
  pub buf : Bytes
  pub pending : Bytes
  pub truncated : Bool
  pub mirrors : Bool
  pub written : Bytes

-- newCapture
abbrev pub new_capture : Bool → Capture
new_capture mirrors = record {
  buf = [];
  pending = [];
  truncated = false;
  mirrors = mirrors;
  written = [];
}

-- strings.SplitAfter by a newline: `line` holds the bytes of the line that is being read.
unfoldable pub split_after : Bytes → Bytes → List Bytes
split_after line [] = line ∷ []
split_after line (b ∷ bs) =
    let rest = split_after (if b =? 10 then [] else line ++ (b ∷ [])) bs in
    if b =? 10 then (line ++ (b ∷ [])) ∷ rest else rest

-- Whether a text ends in a newline.
unfoldable pub is_ended : Bytes → Bool
is_ended [] = false
is_ended (b ∷ []) = b =? 10
is_ended (b ∷ c ∷ bs) = is_ended (c ∷ bs)

-- What stands before and after the last newline: `line` holds the bytes since the last one.
unfoldable pub cut_last_line : Bytes → Bytes → Bytes × Bytes
cut_last_line line [] = ([], line)
cut_last_line line (b ∷ bs) =
    let rest = cut_last_line (if b =? 10 then [] else line ++ (b ∷ [])) bs in
    if b =? 10 then (line ++ ((b ∷ []) ++ rest.0), rest.1) else rest

-- Whether mirrorLines finds a newline.
abbrev pub found : Bytes → Capture → Capture → Capture
found [] waiting sent = waiting
found (b ∷ bs) waiting sent = sent

-- The part of Write that keeps the bytes.
unfoldable pub keep : Bytes → Capture → Capture
unfolding take
keep p c =
    let room = max_stream_bytes - length c.buf in
    if ltb (length c.buf) max_stream_bytes
    then if ltb room (length p)
      then record c { buf = c.buf ++ take room p; truncated = true }
      else record c { buf = c.buf ++ p }
    else if ltb 0 (length p)
    then record c { truncated = true }
    else c

module _ (prefix : Bytes) (redact : Bytes → Bytes) where
  -- One line as `emit` writes it.
  unfoldable pub mirrored : Bytes → Bytes
  unfolding is_ended
  mirrored [] = []
  mirrored (b ∷ line) =
      prefix ++ (if is_ended (b ∷ line) then b ∷ line else (b ∷ line) ++ (10 ∷ []))

  unfoldable pub mirrored_all : List Bytes → Bytes
  unfolding mirrored
  mirrored_all [] = []
  mirrored_all (line ∷ lines) = mirrored line ++ mirrored_all lines

  -- emit
  unfoldable pub emit : Bytes → Capture → Capture
  unfolding split_after mirrored_all
  emit text c = record c { written = c.written ++ mirrored_all (split_after [] (redact text)) }

  -- mirrorLines
  unfoldable pub mirror_lines : Bytes → Capture → Capture
  unfolding emit cut_last_line
  mirror_lines [] c = c
  mirror_lines (b ∷ bs) c =
      let pending = c.pending ++ (b ∷ bs) in
      let (complete, rest) = cut_last_line [] pending in
      if c.mirrors
      then found complete (record c { pending = pending })
          (emit complete (record c { pending = rest }))
      else c

  -- Write
  unfoldable pub write : Bytes → Capture → Capture
  unfolding keep mirror_lines
  write p c = mirror_lines p (keep p c)

  -- flush
  abbrev pub flushed : Bytes → Capture → Capture
  flushed [] c = c
  flushed (b ∷ bs) c = let sent = emit (b ∷ bs) c in record sent { pending = [] }

  unfoldable pub flush : Capture → Capture
  unfolding emit
  flush c = if c.mirrors then flushed c.pending c else c

  -- The writes of a process, one after the other.
  unfoldable pub write_all : List Bytes → Capture → Capture
  unfolding write
  write_all [] c = c
  write_all (p ∷ ps) c = write_all ps (write p c)

-- result
unfoldable pub result : Capture → Bytes × Bool
result c = (c.buf, c.truncated)
