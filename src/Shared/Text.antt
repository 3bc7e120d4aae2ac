-- ===== src/Shared/Text.antt =====
-- What the program uses of Python's texts.
use Prim.Native.Nat.{ℕ, zero, suc, ◌/◌, ◌%◌}
use Prim.Native.Char.{code}
use Prim.Native.String.{String, [], ◌∷◌, ◌++◌ as concat}
use text.Mathlib.Text.{◌==◌ as text_eq}
use mathlib.Core.Bool.{Bool, true, false, ◌&&◌, ◌||◌}
use mathlib.Core.List.{List}
use careerops_agent.Shared.Tests.{leb, ltb, nat_eq, if◌then◌else◌}

abbrev between : ℕ → ℕ → ℕ → Bool
between lo hi n = leb lo n && leb n hi

-- `str.isspace` of one code point
pub is_space : ℕ → Bool
is_space n =
    between 9 13 n
    || between 28 32 n
    || nat_eq n 133
    || nat_eq n 160
    || nat_eq n 5760
    || between 8192 8202 n
    || between 8232 8233 n
    || nat_eq n 8239
    || nat_eq n 8287
    || nat_eq n 12288

unfoldable pub is_blank : String → Bool
is_blank [] = true
is_blank (c ∷ s) = false

pub strip_left : String → String
unfolding is_space
strip_left [] = []
strip_left (c ∷ s) = let rest = strip_left s in if is_space (code c) then rest else c ∷ s

pub strip_right : String → String
unfolding is_space is_blank
strip_right [] = []
strip_right (c ∷ s) =
    let rest = strip_right s in if is_space (code c) && is_blank rest then [] else c ∷ rest

unfoldable pub strip : String → String
unfolding strip_left strip_right
strip s = strip_right (strip_left s)

-- `str.startswith`
unfoldable pub starts_with : (prefix s : String) → Bool
starts_with [] s = true
starts_with (c ∷ prefix) [] = false
starts_with (c ∷ prefix) (d ∷ s) = nat_eq (code c) (code d) && starts_with prefix s

-- `str.removeprefix`
pub drop_prefix : (prefix s : String) → String
drop_prefix [] s = s
drop_prefix (c ∷ prefix) [] = []
drop_prefix (c ∷ prefix) (d ∷ s) = drop_prefix prefix s

unfoldable pub remove_prefix : (prefix s : String) → String
unfolding starts_with drop_prefix
remove_prefix prefix s = if starts_with prefix s then drop_prefix prefix s else s

-- `part in s`
unfoldable pub occurs_in : (part s : String) → Bool
unfolding starts_with is_blank
occurs_in part [] = is_blank part
occurs_in part (c ∷ s) = starts_with part (c ∷ s) || occurs_in part s

-- `str.endswith`
unfoldable pub ends_with : (suffix s : String) → Bool
ends_with suffix [] = text_eq suffix []
ends_with suffix (c ∷ s) = text_eq suffix (c ∷ s) || ends_with suffix s

-- `re.sub(r"\s+", " ", s)`: each run of white space becomes one space.
squeeze_from : (in_space : Bool) → String → String
unfolding is_space
squeeze_from in_space [] = []
squeeze_from in_space (c ∷ s) =
    let spaced = squeeze_from true s in
    let plain = squeeze_from false s in
    if is_space (code c) then (if in_space then spaced else concat " " spaced) else c ∷ plain

unfoldable pub squeeze : String → String
unfolding squeeze_from
squeeze s = squeeze_from false s

-- `"".join(c for c in s if p(c))`
unfoldable pub keep_chars : (ℕ → Bool) → String → String
keep_chars p [] = []
keep_chars p (c ∷ s) = let rest = keep_chars p s in if p (code c) then c ∷ rest else rest

digit_at : ℕ → String → String
digit_at n [] = []
digit_at zero (c ∷ s) = c ∷ []
digit_at (suc n) (c ∷ s) = digit_at n s

decimal_within : (fuel n : ℕ) → String
unfolding digit_at
decimal_within zero n = []
decimal_within (suc fuel) n =
    let more = decimal_within fuel (n / 10) in
    let digit = digit_at (n % 10) "0123456789" in if ltb n 10 then digit else concat more digit

-- `str` of a natural number, which has no more digits than its value plus one.
unfoldable pub decimal : ℕ → String
unfolding decimal_within
decimal n = decimal_within (suc n) n

-- `separator.join(texts)`
unfoldable pub join : (separator : String) → List String → String
join separator List.[] = []
join separator (List.◌∷◌ s List.[]) = s
join separator (List.◌∷◌ s (List.◌∷◌ t rest)) =
    concat s (concat separator (join separator (List.◌∷◌ t rest)))
