-- ===== src/Memory/Frontmatter.antt =====
-- internal/memory/frontmatter.go: the header of a page. Its `related` list is not modelled.
use Prim.Native.Char.{code}
use jardin.Base.{ℕ, suc, ◌-◌, String, ◌<>◌, Bool, ◌||◌, Option, none, some, List, [], ◌∷◌}
use jardin.Base.{◌=?◌, if◌then◌else◌}
use jardin.Base.Text.{cut_prefix, has_prefix}

pub record PageFront : Type 0 where
  pub title : String
  pub kind : String

pub record Remainder : Type 0 where
  pub text : String
  pub offset : ℕ

-- strings.Cut: the text before and after the first `sep`, if there is one.
unfoldable pub cut : String → String → Option (String × String)
unfolding cut_prefix
cut String.[] sep = elim (cut_prefix String.[] sep) [
  | none ↦ none
  | some rest ↦ some (String.[], rest)
]
cut (String.◌∷◌ c s) sep =
    let later = cut s sep in
    elim (cut_prefix (String.◌∷◌ c s) sep) [
      | some rest ↦ some (String.[], rest)
      | none ↦ elim later [ none ↦ none | some (a, b) ↦ some (String.◌∷◌ c a, b) ]
    ]

-- The lines of a text, cut at each newline.
unfoldable pub lines_of : String → List String
lines_of String.[] = "" ∷ []
lines_of (String.◌∷◌ c s) = elim (lines_of s) [
  | [] ↦ []
  | l ∷ ls ↦ if code c =? 10 then "" ∷ l ∷ ls else String.◌∷◌ c l ∷ ls
]

-- strings.Count(s, "\n")
unfoldable pub newlines : String → ℕ
newlines String.[] = 0
newlines (String.◌∷◌ c s) = if code c =? 10 then suc (newlines s) else newlines s

abbrev is_quote : ℕ → Bool
is_quote n = (n =? b'"') || (n =? 39)

unfoldable pub trim_left : String → String
trim_left String.[] = String.[]
trim_left (String.◌∷◌ c s) =
    let rest = trim_left s in if is_quote (code c) then rest else String.◌∷◌ c s

unfoldable pub trim_right : String → String
trim_right String.[] = String.[]
trim_right (String.◌∷◌ c s) = elim (trim_right s) [
  | String.[] ↦ if is_quote (code c) then String.[] else String.◌∷◌ c String.[]
  | String.◌∷◌ d t ↦ String.◌∷◌ c (String.◌∷◌ d t)
]

-- strings.Trim with the two quotes.
unfoldable pub trim_quotes : String → String
unfolding trim_left trim_right
trim_quotes s = trim_right (trim_left s)

-- What follows the first newline, or all if there is none.
abbrev after_line : String → String
after_line text = elim (cut text "\n") as (λ x. String) [ none ↦ text | some (a, b) ↦ b ]

-- `trim_space` is strings.TrimSpace.
module _ (trim_space : String → String) where
  unfoldable pub scalar_in : List String → String → String
  unfolding trim_quotes
  scalar_in [] key = ""
  scalar_in (line ∷ lines) key =
      let later = scalar_in lines key in
      elim (cut_prefix line (key <> ":")) as (λ x. String) [
        | none ↦ later
        | some value ↦ trim_quotes (trim_space value)
      ]

  unfoldable pub scalar : String → String → String
  unfolding scalar_in lines_of
  scalar head key = scalar_in (lines_of head) key

  abbrev no_front : PageFront
  no_front = record { title = ""; kind = "" }

  -- What stands behind the closing fence, of a text that starts with it.
  abbrev behind_fence : String → String
  behind_fence rest =
      let inner = after_line rest in if has_prefix inner "-" then after_line inner else inner

  -- The page whose header, up to the closing fence, and rest are given.
  abbrev with_front : String → Option (String × String) → PageFront × Remainder
  with_front content none = (no_front, record { text = content; offset = 0 })
  with_front content (some (head, tail)) =
      let rest = behind_fence ("\n---" <> tail) in
      (
        record { title = scalar head "title"; kind = scalar head "type" },
        record { text = rest; offset = newlines content - newlines rest },
      )

  abbrev after_fence : String → Option String → PageFront × Remainder
  after_fence content none = (no_front, record { text = content; offset = 0 })
  after_fence content (some inner) = with_front content (cut inner "\n---")

  unfoldable pub frontmatter : String → PageFront × Remainder
  unfolding scalar cut newlines has_prefix
  frontmatter content = after_fence content (cut_prefix content "---\n")
