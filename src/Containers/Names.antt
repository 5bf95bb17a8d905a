-- ===== src/Containers/Names.antt =====
-- `_safe_name` of src/avbox/analyzers/containers.py. A member's name is a list of code points.
pub mod Paths
pub mod Joined
use avbox.Prelude.{
  str_eq, eq_iff, str_append, ℕ, zero, suc, ◌+◌, ◌-◌, ◌*◌, ◌/◌, ◌%◌, ◌^◌, ◌≤◌, ◌<◌, min, max,
  String, ◌≡◌, refl, sym, ap, ◌∙◌, fun_ext, ◌≢◌, ◌↔◌, ◌⊎◌, inl, inr, Bool, true, false, not, ◌&&◌,
  ◌||◌, Option, none, some, List, [], ◌∷◌, ◌++◌, map, arith, ltb, leb, ◌==◌, if◌then◌else◌, ltb→lt,
  ltb→le, leb→le, leb→lt, lt→ltb, le→leb, ==→eq, eq→==, ne→==, tests, Bool-cases, Option-cases,
  and_true, or_false, if_both, length, get_or, take, drop, replicate, All, any, all, select,
  length-append, append-nil, append_assoc, take-append-drop, length-take, length-drop,
  length-replicate, take-all, drop-nil, take-nil, drop-drop, take-append-take, All-append, All-take,
  length-map, is_member, Result, ok, err, ◌>>=◌, ◌>>◌, raise_if, Result-cases,
}

abbrev pub Name : Type 0
Name = List ℕ

-- The bytes of one code point in UTF-8; a surrogate is replaced by "?".
unfoldable pub encoded_size : ℕ → ℕ
encoded_size c =
    if ltb c 128
    then 1
    else if ltb c 2048
    then 2
    else if leb 55296 c && leb c 57343
    then 1
    else if ltb c 65536
    then 3
    else 4

unfoldable pub encoded_length : Name → ℕ
encoded_length [] = 0
encoded_length (c ∷ cs) = encoded_size c + encoded_length cs

abbrev pub is_separator : ℕ → Bool
is_separator c = c == 47 || c == 92

unfoldable pub add_to_first : ℕ → List Name → List Name
add_to_first c [] = (c ∷ []) ∷ []
add_to_first c (p ∷ ps) = (c ∷ p) ∷ ps

-- `name.replace("\\", "/").split("/")`
unfoldable pub split : Name → List Name
unfolding add_to_first
split [] = [] ∷ []
split (c ∷ cs) = let rest = split cs in if is_separator c then [] ∷ rest else add_to_first c rest

abbrev pub is_part : Name → Bool
is_part [] = false
is_part (_ ∷ _) = true

unfoldable pub parts : Name → List Name
parts name = select is_part (split name)

-- `part == ".."`
unfoldable pub is_up : Name → Bool
is_up (a ∷ b ∷ []) = a == 46 && b == 46
is_up _ = false

-- `name.startswith(("/", "\\"))`
unfoldable pub is_rooted : Name → Bool
is_rooted [] = false
is_rooted (c ∷ _) = is_separator c

-- `len(name) >= 2 and name[1] == ":"`
unfoldable pub has_drive : Name → Bool
has_drive (_ ∷ c ∷ _) = c == 58
has_drive _ = false

unfoldable pub safe_name : ℕ → ℕ → Name → Bool
safe_name max_member_name_bytes max_path_depth name =
    not (ltb max_member_name_bytes (encoded_length name))
    && (not (is_member 0 name || is_rooted name)
        && (not (has_drive name)
            && (leb (length (parts name)) max_path_depth && not (any is_up (parts name)))))
