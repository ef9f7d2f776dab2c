-- ===== src/Memory/Struck.antt =====
-- internal/memory/chunk.go: dropStruck, on the bytes of a body.
use jardin.Base.{ℕ, zero, suc, Bool, true, false, ◌&&◌, Option, none, some, List, [], ◌∷◌, ◌++◌}
use jardin.Base.{◌=?◌, length, if◌then◌else◌}

-- A text as its bytes.
abbrev pub Bytes : Type 0
Bytes = List ℕ

abbrev pub backtick : ℕ
backtick = 96

abbrev pub tilde : ℕ
tilde = 126

abbrev pub before : ℕ → Option (Bytes × Bytes) → Option (Bytes × Bytes)
before b none = none
before b (some (front, rest)) = some (b ∷ front, rest)

-- The bytes before and after the first backtick.
unfoldable pub cut_backtick : Bytes → Option (Bytes × Bytes)
cut_backtick [] = none
cut_backtick (b ∷ bs) =
    let rest = cut_backtick bs in if b =? backtick then some ([], bs) else before b rest

-- What follows two tildes at the front.
unfoldable pub cut_tildes : Bytes → Option Bytes
cut_tildes [] = none
cut_tildes (b ∷ []) = none
cut_tildes (b ∷ c ∷ bs) = if b =? tilde && c =? tilde then some bs else none

abbrev pub nearest : ℕ → Option Bytes → Option (Bytes × Bytes) → Option (Bytes × Bytes)
nearest b (some after) later = some ([], after)
nearest b none later = before b later

-- The bytes before and after the first two tildes.
unfoldable pub cut_pair : Bytes → Option (Bytes × Bytes)
unfolding cut_tildes
cut_pair [] = none
cut_pair (b ∷ bs) = nearest b (cut_tildes (b ∷ bs)) (cut_pair bs)

-- The turns of the scan, by what is found: a code span, a struck span, or two tildes. An unterminated one
-- leaves the rest as it is.
abbrev pub turn_span : (Bytes → Bytes) → ℕ → Bytes → Option (Bytes × Bytes) → Bytes
turn_span again b bs none = b ∷ bs
turn_span again b bs (some (span, rest)) = (b ∷ (span ++ (backtick ∷ []))) ++ again rest

abbrev pub turn_struck : (Bytes → Bytes) → ℕ → Bytes → Option (Bytes × Bytes) → Bytes
turn_struck again b bs none = b ∷ bs
turn_struck again b bs (some (struck, rest)) = b' ' ∷ again rest

abbrev pub turn_tildes : (Bytes → Bytes) → ℕ → Bytes → Option Bytes → Bytes
turn_tildes again b bs none = b ∷ again bs
turn_tildes again b bs (some opened) = turn_struck again b bs (cut_pair opened)

abbrev pub turn : (Bytes → Bytes) → ℕ → Bytes → Bool → Bytes
turn again b bs true = turn_span again b bs (cut_backtick bs)
turn again b bs false = turn_tildes again b bs (cut_tildes (b ∷ bs))

-- The scan from one byte on. Each turn passes over a byte or more, so the length of the text is enough fuel.
unfoldable pub drop_from : ℕ → Bytes → Bytes
unfolding cut_backtick cut_tildes cut_pair
drop_from zero bs = bs
drop_from (suc n) [] = []
drop_from (suc n) (b ∷ bs) = turn (drop_from n) b bs (b =? backtick)

-- dropStruck
unfoldable pub drop_struck : Bytes → Bytes
unfolding drop_from
drop_struck body = drop_from (length body) body
