-- ===== src/Adapters/Output.antt =====
-- Python's functions on the output of engines, which is a list of code points.
use avbox.Prelude.{
  ℕ, ◌-◌, Bool, false, not, ◌&&◌, ◌||◌, Option, none, some, List, [], ◌∷◌, ◌++◌, leb, ◌==◌,
  if◌then◌else◌, length, take, drop,
}
use avbox.Prelude.Bytes.{starts_with}

abbrev pub Text : Type 0
Text = List ℕ

-- White space: the controls from 9 to 13 and 28 to 31, the space, and those beyond ASCII.
unfoldable pub is_space : ℕ → Bool
is_space c =
    (leb 9 c && leb c 13)
    || (leb 28 c && leb c 32)
    || c == 0x85
    || c == 0xA0
    || c == 0x1680
    || (leb 0x2000 c && leb c 0x200A)
    || c == 0x2028
    || c == 0x2029
    || c == 0x202F
    || c == 0x205F
    || c == 0x3000

-- `text.lstrip()`
unfoldable pub lstrip : Text → Text
lstrip [] = []
lstrip (c ∷ cs) = let rest = lstrip cs in if is_space c then rest else c ∷ cs

unfoldable pub is_blank : Text → Bool
unfolding lstrip
is_blank text = length (lstrip text) == 0

-- The ends of lines that `splitlines` knows.
unfoldable pub is_break : ℕ → Bool
is_break c =
    (leb 10 c && leb c 13) || (leb 28 c && leb c 30) || c == 0x85 || c == 0x2028 || c == 0x2029

abbrev pub last_line : Text → List Text
last_line [] = []
last_line (c ∷ cs) = (c ∷ cs) ∷ []

-- `text.splitlines()`, with the line that has been read so far; after a carriage return (13) a line
-- feed (10) belongs to the same end.
unfoldable pub lines_from : Bool → Text → Text → List Text
lines_from after_return line [] = last_line line
lines_from after_return line (c ∷ cs) =
    let skipped = after_return && c == 10 in
    let ended = not skipped && is_break c in
    let rest =
      lines_from (c == 13) (if skipped then line else if ended then [] else line ++ (c ∷ [])) cs in
    if ended then line ∷ rest else rest

unfoldable pub splitlines : Text → List Text
splitlines text = lines_from false [] text

-- `text.split(maxsplit=1)[0]` of a text that is not blank.
unfoldable pub until_space : Text → Text
until_space [] = []
until_space (c ∷ cs) = let rest = until_space cs in if is_space c then [] else c ∷ rest

unfoldable pub first_word : Text → Text
first_word text = until_space (lstrip text)

-- `text.endswith(suffix)`
unfoldable pub ends_with : Text → Text → Bool
ends_with suffix text =
    leb (length suffix) (length text)
    && starts_with suffix (drop (length text - length suffix) text)

-- `text.removesuffix(suffix)`
unfoldable pub remove_suffix : Text → Text → Text
remove_suffix suffix text =
    if ends_with suffix text then take (length text - length suffix) text else text

-- `text.rsplit(": ", 1)[-1]`: what follows the last colon with a space, or all.
unfoldable pub after_colon : Text → Option Text
after_colon [] = none
after_colon (c ∷ cs) =
    let later = after_colon cs in
    let here = if starts_with (58 ∷ 32 ∷ []) (c ∷ cs) then some (drop 1 cs) else none in
    elim later [ some t ↦ some t | none ↦ here ]

unfoldable pub last_part : Text → Text
last_part text = elim (after_colon text) [ some t ↦ t | none ↦ text ]

-- `",".join(words)`
unfoldable pub join_commas : List Text → Text
join_commas [] = []
join_commas (w ∷ []) = w
join_commas (w ∷ (v ∷ ws)) = w ++ (44 ∷ join_commas (v ∷ ws))
