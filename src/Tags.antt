-- ===== src/Tags.antt =====
-- The data of internal/tags/tags.go: tags and sets of tags, and the cleaning of a tag's value.
pub mod Sort
pub mod Clean
pub mod Search
pub mod Build
pub mod Merge
pub mod Serialize
pub mod Parse
use gostats.Prelude.{
  ℕ, Bool, true, false, not, ◌&&◌, ◌||◌, List, [], ◌∷◌, map, ◌==◌, if◌then◌else◌, All, tally, ◌≡◌,
  ◌≤◌,
}
use gostats.Bytes.{Bytes, beq, less}

pub record Tag : Type 0 where
  pub key : Bytes
  pub value : Bytes

abbrev pub TagSet : Type 0
TagSet = List Tag

-- A value of Go's `map[string]string`, as the pairs in the order in which one `range` visits them.
abbrev pub TagMap : Type 0
TagMap = List (Bytes × Bytes)

-- The loop of `ReplaceChars` on one byte.
unfoldable pub replace_char : ℕ → ℕ
replace_char c = if c == b'.' || (c == b':' || c == b'|') then b'_' else c

-- The source copies the string at the first invalid byte only; the bytes are those of the copy.
unfoldable pub replace_chars : Bytes → Bytes
replace_chars s = map replace_char s

unfoldable pub new_tag : Bytes → Bytes → Tag
new_tag key value = record { key = key; value = replace_chars value }

-- `t[i].Key < t[j].Key`, on the two tags.
abbrev pub key_less : Tag → Tag → Bool
key_less p q = less p.key q.key

abbrev pub zero_tag : Tag
zero_tag = record { key = []; value = [] }

abbrev pub tag_eq : Tag → Tag → Bool
tag_eq p q = beq p.key q.key && beq p.value q.value

-- No tag has a smaller key than one before it.
abbrev pub IsSorted : TagSet → Type 0
IsSorted [] = Unit
IsSorted (p ∷ t) = All (λ q. key_less q p ≡ false) t × IsSorted t

-- Every tag has a greater key than those before it, so no key occurs twice.
abbrev pub IsOrdered : TagSet → Type 0
IsOrdered [] = Unit
IsOrdered (p ∷ t) = All (λ q. key_less p q ≡ true) t × IsOrdered t

-- No key occurs twice, in whatever order the tags stand.
abbrev pub HasUniqueKeys : TagSet → Type 0
HasUniqueKeys t = (k : Bytes) → tally (λ q. beq k q.key) t ≤ 1
