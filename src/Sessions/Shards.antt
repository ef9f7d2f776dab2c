-- ===== src/Sessions/Shards.antt =====
-- ReadBlocks gives each block once, however often shards repeat it.
use jardin.Base.{
  ℕ, ◌+◌, String, Bool, false, not, ◌&&◌, ◌||◌, Option, none, some, Option-cases, Bool-cases, inl,
  inr, List, [], ◌∷◌, ◌++◌, ◌≡◌, refl, ap, ◌∙◌, arith,
}
use jardin.Base.{string_eq, ◌==◌, contains, ltb, if◌then◌else◌}
use mathlib.Core.List.{Permᴰ}
use jardin.Sessions.Types.{Block}
use jardin.Sessions.Scan.{ShardLine, read_shard, walk_shards, read_blocks}

abbrev one_if : Bool → ℕ
one_if b = if b then 1 else 0

-- How many of some blocks have an id.
unfoldable pub count_id : String → List Block → ℕ
count_id id [] = 0
count_id id (b ∷ bs) = one_if (b.id == id) + count_id id bs

abbrev line_has : String → Option Block → Bool
line_has id none = false
line_has id (some b) = b.id == id

-- Whether a block of a shard has an id, and the scanner takes its line and all the lines before it.
unfoldable pub has_id : String → List ShardLine → Bool
has_id id [] = false
has_id id (l ∷ ls) = ltb l.size 1048576 && (line_has id l.block || has_id id ls)

-- Whether a shard that can be opened has an id where the scanner comes to it.
unfoldable pub is_held : String → List (Option (List ShardLine)) → Bool
unfolding has_id
is_held id [] = false
is_held id (none ∷ shards) = is_held id shards
is_held id (some ls ∷ shards) = has_id id ls || is_held id shards

count_id-append :
    (id : String) (as_ bs : List Block) → count_id id (as_ ++ bs) ≡ count_id id as_ + count_id id bs
unfolding count_id
count_id-append id [] bs = omega arith
count_id-append id (a ∷ as_) bs = omega (arith, count_id-append id as_ bs)

count_id-Permᴰ :
    (id : String) {as_ bs : List Block} → Permᴰ as_ bs → count_id id as_ ≡ count_id id bs
unfolding count_id
count_id-Permᴰ id Permᴰ.nil = refl
count_id-Permᴰ id (Permᴰ.cons e p) =
    omega (arith, ap (λ b. one_if (b.id == id)) e, count_id-Permᴰ id p)
count_id-Permᴰ id (Permᴰ.swap e f) =
    omega (arith, ap (λ b. one_if (b.id == id)) e, ap (λ b. one_if (b.id == id)) f)
count_id-Permᴰ id (Permᴰ.trans p q) = count_id-Permᴰ id p ∙ count_id-Permᴰ id q

-- What a read adds for an id: one, when it is new, not empty, and there.
abbrev added : Bool → Bool → Bool → ℕ
added empty seen there = one_if (not empty && (not seen && there))

count_id-read_shard :
    (id : String) (ls : List ShardLine) (seen : List String)
    → count_id id (read_shard ls seen).0 ≡ added (id == "") (contains seen id) (has_id id ls)
unfolding read_shard count_id has_id
count_id-read_shard id [] seen = ground arith
count_id-read_shard id (l ∷ ls) seen = elim (Bool-cases (ltb l.size 1048576)) [
  | inr long ↦ ground (arith, long)
  | inl taken ↦ elim (Option-cases l.block) [
    | inl other ↦ ground (arith, taken, other, count_id-read_shard id ls seen)
    | inr (b, here) ↦ ground (
      arith,
      taken,
      here,
      count_id-read_shard id ls seen,
      count_id-read_shard id ls (b.id ∷ seen),
    )
  ]
]

seen-read_shard :
    (id : String) (ls : List ShardLine) (seen : List String)
    → id == "" ≡ false
    → contains (read_shard ls seen).1 id ≡ (contains seen id || has_id id ls)
unfolding read_shard has_id
seen-read_shard id [] seen ne = ground arith
seen-read_shard id (l ∷ ls) seen ne = elim (Bool-cases (ltb l.size 1048576)) [
  | inr long ↦ ground (arith, long)
  | inl taken ↦ elim (Option-cases l.block) [
    | inl other ↦ ground (arith, taken, other, seen-read_shard id ls seen)
    | inr (b, here) ↦
        ground (arith, taken, here, seen-read_shard id ls seen, seen-read_shard id ls (b.id ∷ seen))
  ]
]

count_id-walk_shards :
    (id : String) (shards : List (Option (List ShardLine))) (seen : List String)
    → count_id id (walk_shards shards seen)
      ≡ added (id == "") (contains seen id) (is_held id shards)
unfolding walk_shards count_id is_held
count_id-walk_shards id [] seen = ground arith
count_id-walk_shards id (none ∷ shards) seen = count_id-walk_shards id shards seen
count_id-walk_shards id (some bs ∷ shards) seen =
    let (new, after) = read_shard bs seen in
    ground (
      arith,
      count_id-append id new (walk_shards shards after),
      count_id-read_shard id bs seen,
      seen-read_shard id bs seen,
      count_id-walk_shards id shards after,
    )

-- ReadBlocks gives exactly one block of each id, not empty, that stands in a shard that can be opened, on a line
-- below 1024 * 1024 bytes with no longer line before it in the shard, whatever shards and lines repeat it. Of
-- every other id, and of the empty one, it gives none. The order in which sort.Slice puts them is free.
pub count_id-read_blocks :
    (sort : List Block → List Block)
    → ((bs : List Block) → Permᴰ (sort bs) bs)
    → (id : String) (shards : List (Option (List ShardLine)))
    → count_id id (read_blocks sort shards) ≡ (if not (id == "") && is_held id shards then 1 else 0)
unfolding read_blocks
count_id-read_blocks sort permutes id shards =
    ground (
      arith,
      count_id-Permᴰ id (permutes (walk_shards shards [])),
      count_id-walk_shards id shards [],
    )
