-- ===== src/Listener/Signature.antt =====
-- The pattern that `verifySignature` of workers/native/listener.ts searches the signature header for:
-- `t=(\d+)\s*,\s*v1=([0-9a-fA-F]+)`. What each repetition may take cannot begin what follows it, so
-- taking as much as there is decides the match. `Number` of the digits is exact: it rounds from 2 ^ 53
-- on, far from any time of the clock.
use Prim.Native.Char.{code}
use Prim.Native.String.{[], ◌∷◌}
use scim_bridge.Base.{
  ℕ, ◌+◌, ◌-◌, ◌*◌, String, Bool, Option, none, some, ◌&&◌, ◌||◌, leb, if◌then◌else◌,
}
use scim_bridge.Base.Text.{is_space, drop_start, after_prefix}

-- The groups of the match, the first one also as a number.
pub record SignatureHeader : Type 0 where
  pub time_text : String
  pub time : ℕ
  pub signature : String

-- `\d`
abbrev pub is_digit : ℕ → Bool
is_digit c = leb 48 c && leb c 57

-- `[0-9a-fA-F]`
abbrev pub is_hex : ℕ → Bool
is_hex c = is_digit c || (leb 97 c && leb c 102) || (leb 65 c && leb c 70)

-- The longest start of a text that the class takes.
unfoldable pub take_start : (ℕ → Bool) → String → String
take_start p [] = []
take_start p (c ∷ s) = let rest = take_start p s in if p (code c) then c ∷ rest else []

-- `Number` of digits, behind what is read already
unfoldable pub number_from : ℕ → String → ℕ
number_from n [] = n
number_from n (c ∷ s) = number_from (n * 10 + (code c - 48)) s

abbrev pub signed : String → String → Option SignatureHeader
signed digits [] = none
signed digits (h ∷ hex) =
    some (record { time_text = digits; time = number_from 0 digits; signature = h ∷ hex })

-- `v1=` and the signature.
abbrev pub match_version : String → Option String → Option SignatureHeader
match_version digits none = none
match_version digits (some rest) = signed digits (take_start is_hex rest)

-- The comma behind the digits, with space around it.
abbrev pub match_comma : String → Option String → Option SignatureHeader
match_comma digits none = none
match_comma digits (some rest) =
    match_version digits (after_prefix "v1=" (drop_start is_space rest))

abbrev pub match_time : String → String → Option SignatureHeader
match_time [] rest = none
match_time (d ∷ digits) rest =
    match_comma (d ∷ digits) (after_prefix "," (drop_start is_space (drop_start is_digit rest)))

-- The match that begins at the start of the text.
abbrev pub match_start : Option String → Option SignatureHeader
match_start none = none
match_start (some rest) = match_time (take_start is_digit rest) rest

abbrev pub or_later : Option SignatureHeader → Option SignatureHeader → Option SignatureHeader
or_later none later = later
or_later (some h) later = some h

-- `header.match(…)`: the first place where the pattern matches
unfoldable pub match_signature : String → Option SignatureHeader
unfolding take_start number_from is_space drop_start after_prefix
match_signature [] = none
match_signature (c ∷ s) = or_later (match_start (after_prefix "t=" (c ∷ s))) (match_signature s)
