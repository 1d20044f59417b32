-- ===== src/Prelude/Words.antt =====
-- The text functions of JavaScript that lists in one text need, for ASCII text.
use Prim.Native.Char.{Char, code}
use Prim.Native.String.{String, ◌++◌ as concat, [] as empty, ◌∷◌ as put, compare}
use Prim.Native.Nat.{Ordering}
use mathlib.Core.Path.{◌≡◌, refl}
use mathlib.Core.Bool.{Bool, true, false, ◌||◌, ◌&&◌}
use mathlib.Core.List.{List, [], ◌∷◌}
use zvia.Prelude.Tests.{ltb, ◌==◌, nat_eq, string_eq, if◌then◌else◌}

-- a character before the first of the parts
unfoldable pub begin : Char → List String → List String
begin c [] = put c empty ∷ []
begin c (part ∷ rest) = put c part ∷ rest

-- `s.split(separator)`, for a separator of one character
unfoldable pub split_on : Char → String → List String
unfolding begin
split_on separator empty = "" ∷ []
split_on separator (put c s) =
    let rest = split_on separator s in if code c == code separator then "" ∷ rest else begin c rest

-- a space, a tab or an end of line
unfoldable pub is_space : Char → Bool
is_space c = code c == 32 || (ltb 8 (code c) && ltb (code c) 14)

unfoldable pub trim_start : String → String
unfolding is_space
trim_start empty = ""
trim_start (put c s) = let rest = trim_start s in if is_space c then rest else put c s

-- Spaces go when nothing but spaces follows them.
unfoldable pub trim_end : String → String
unfolding is_space
trim_end empty = ""
trim_end (put c s) = let rest = trim_end s in if is_space c && rest == "" then "" else put c rest

-- `s.trim()`
unfoldable pub trim : String → String
unfolding trim_start trim_end
trim s = trim_end (trim_start s)

-- `parts.join(separator)`
unfoldable pub join : String → List String → String
join separator [] = ""
join separator (part ∷ []) = part
join separator (part ∷ next ∷ rest) = concat part (concat separator (join separator (next ∷ rest)))

abbrev is_after : Ordering → Bool
is_after Ordering.lt = false
is_after Ordering.eq = false
is_after Ordering.gt = true

insert_sorted : String → List String → List String
insert_sorted s [] = s ∷ []
insert_sorted s (t ∷ rest) =
    let later = insert_sorted s rest in if is_after (compare s t) then t ∷ later else s ∷ t ∷ rest

-- `parts.sort()`
unfoldable pub sort : List String → List String
unfolding insert_sorted
sort [] = []
sort (s ∷ rest) = insert_sorted s (sort rest)

sort_test : join "," (sort (split_on "," "web,api,,db")) ≡ ",api,db,web"
unfolding join sort split_on
sort_test = refl

trim_test : trim " a b  " ≡ "a b"
unfolding trim
trim_test = refl
