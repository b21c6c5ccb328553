-- ===== src/Base/Text.antt =====
-- The string methods of JavaScript that the workers call, over native texts.
use Prim.Native.Nat.{ℕ}
use Prim.Native.Char.{Char, code}
use Prim.Native.String
use Prim.Native.String.{String, [], ◌∷◌}
use mathlib.Core.Bool.{Bool, false, ◌&&◌, ◌||◌}
use mathlib.Core.Option.{Option, none, some}
use mathlib.Core.List.{List}
use scim_bridge.Base.Tests.{leb, nat_eq, if◌then◌else◌}

-- `\s`, which is also what `trim` removes: white space and line terminators of ECMAScript.
unfoldable pub is_space : ℕ → Bool
is_space c =
    (leb 9 c && leb c 13)
    || nat_eq c 32
    || nat_eq c 160
    || nat_eq c 5760
    || (leb 8192 c && leb c 8202)
    || nat_eq c 8232
    || nat_eq c 8233
    || nat_eq c 8239
    || nat_eq c 8287
    || nat_eq c 12288
    || nat_eq c 65279

-- What `.` does not match.
unfoldable pub is_line_end : ℕ → Bool
is_line_end c = nat_eq c 10 || nat_eq c 13 || nat_eq c 8232 || nat_eq c 8233

unfoldable pub some_char : (ℕ → Bool) → String → Bool
some_char p [] = false
some_char p (c ∷ s) = p (code c) || some_char p s

-- `replace(/^[…]*/, "")`
unfoldable pub drop_start : (ℕ → Bool) → String → String
drop_start p [] = []
drop_start p (c ∷ s) = let rest = drop_start p s in if p (code c) then rest else c ∷ s

abbrev pub cons_kept : Bool → Char → String → String
cons_kept dropped c [] = if dropped then [] else c ∷ []
cons_kept dropped c (d ∷ s) = c ∷ d ∷ s

-- `replace(/[…]*$/, "")`
unfoldable pub drop_end : (ℕ → Bool) → String → String
drop_end p [] = []
drop_end p (c ∷ s) = cons_kept (p (code c)) c (drop_end p s)

unfoldable pub trim : String → String
unfolding drop_start drop_end is_space
trim s = drop_end is_space (drop_start is_space s)

-- `replace(/\/+$/, "")`
unfoldable pub strip_slashes : String → String
unfolding drop_end
strip_slashes s = drop_end (λ c. nat_eq c b'/') s

abbrev lower_in : String → String → Char → Char
lower_in [] lowers c = c
lower_in (u ∷ uppers) [] c = c
lower_in (u ∷ uppers) (l ∷ lowers) c =
    if nat_eq (code u) (code c) then l else lower_in uppers lowers c

-- `toLowerCase` on ASCII text
unfoldable pub to_lower : String → String
to_lower [] = []
to_lower (c ∷ s) = lower_in "ABCDEFGHIJKLMNOPQRSTUVWXYZ" "abcdefghijklmnopqrstuvwxyz" c ∷ to_lower s

-- What stands behind a prefix, if the text has it.
unfoldable pub after_prefix : String → String → Option String
after_prefix [] s = some s
after_prefix (p ∷ ps) [] = none
after_prefix (p ∷ ps) (c ∷ s) = if nat_eq (code p) (code c) then after_prefix ps s else none

abbrev flush : String → List String → List String
flush [] parts = parts
flush (c ∷ s) parts = List.◌∷◌ (c ∷ s) parts

abbrev cons_first : Char → String × List String → String × List String
cons_first c (first, parts) = (c ∷ first, parts)

abbrev cut : String × List String → String × List String
cut (first, parts) = ([], flush first parts)

-- The text up to the first slash, and the nonempty parts behind it.
split_parts : String → String × List String
split_parts [] = ([], List.[])
split_parts (c ∷ s) =
    let rest = split_parts s in if nat_eq (code c) b'/' then cut rest else cons_first c rest

-- `split("/").filter(Boolean)`
unfoldable pub slash_segments : String → List String
unfolding split_parts
slash_segments s = let (first, parts) = split_parts s in flush first parts

-- A template literal: its parts, joined.
abbrev pub concat : List String → String
concat List.[] = []
concat (List.◌∷◌ s ss) = String.◌++◌ s (concat ss)

-- `replaceAll('"', '\\"')`
unfoldable pub replace_quotes : String → String
replace_quotes [] = []
replace_quotes (c ∷ s) =
    let rest = replace_quotes s in if nat_eq (code c) 34 then String.◌++◌ "\\\"" rest else c ∷ rest
