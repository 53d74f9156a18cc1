-- ===== src/DailyPush/Text.antt =====
-- What scripts/daily_push.py uses of Python's str and of os.path, on texts as lists of characters.
use Prim.Native.Char.{Char, code}
use Prim.Native.String.{String, [], ◌∷◌}
use Prim.Native.Nat.{ℕ, zero, suc, ◌+◌}
use mathlib.Core.Bool.{Bool, true, false, ◌&&◌, ◌||◌}
use mathlib.Core.List.{List, [] as nil, ◌∷◌ as ◌▹◌}
use apex_payments_engine.Prelude.{leb, ◌==◌, if◌then◌else◌, str_eq}

abbrev pub is_no_text : String → Bool
is_no_text [] = true
is_no_text (c ∷ s) = false

abbrev within : ℕ → ℕ → ℕ → Bool
within low high n = leb low n && leb n high

abbrev one_of : ℕ → List ℕ → Bool
one_of n nil = false
one_of n (m ▹ ms) = n == m || one_of n ms

-- `str.isspace` of one character.
abbrev pub is_space : Char → Bool
is_space c =
    within 9 13 (code c)
    || within 28 32 (code c)
    || within 8192 8202 (code c)
    || one_of (code c) (133 ▹ 160 ▹ 5760 ▹ 8232 ▹ 8233 ▹ 8239 ▹ 8287 ▹ 12288 ▹ nil)

abbrev pub is_quote : Char → Bool
is_quote c = code c == b'"'

-- The line boundaries of `str.splitlines`.
abbrev pub is_break : Char → Bool
is_break c =
    within 10 13 (code c) || within 28 30 (code c) || one_of (code c) (133 ▹ 8232 ▹ 8233 ▹ nil)

abbrev pub lstrip : (Char → Bool) → String → String
lstrip p [] = []
lstrip p (c ∷ s) = if p c then lstrip p s else c ∷ s

abbrev pub rstrip : (Char → Bool) → String → String
rstrip p [] = []
rstrip p (c ∷ s) = let rest = rstrip p s in if p c && is_no_text rest then [] else c ∷ rest

-- `text.strip()`, and `text.strip('"')`.
unfoldable pub strip : String → String
strip s = lstrip is_space (rstrip is_space s)

unfoldable pub strip_quotes : String → String
strip_quotes s = lstrip is_quote (rstrip is_quote s)

-- `text[n:]`.
unfoldable pub text_from : ℕ → String → String
text_from zero s = s
text_from (suc n) [] = []
text_from (suc n) (c ∷ s) = text_from n s

abbrev first_code : String → ℕ
first_code [] = 0
first_code (c ∷ s) = code c

abbrev pub put : Char → List String → List String
put c nil = (c ∷ []) ▹ nil
put c (line ▹ lines) = (c ∷ line) ▹ lines

-- A line feed after a carriage return ends the same line.
unfoldable pub splitlines : String → List String
splitlines [] = nil
splitlines (c ∷ s) =
    let rest = splitlines s in
    if is_break c
    then if code c == 13 && first_code s == 10 then rest else [] ▹ rest
    else put c rest

unfoldable pub ends_with : String → String → Bool
ends_with [] suffix = str_eq [] suffix
ends_with (c ∷ s) suffix = str_eq (c ∷ s) suffix || ends_with s suffix

unfoldable pub ends_with_any : String → List String → Bool
ends_with_any s nil = false
ends_with_any s (suffix ▹ suffixes) = ends_with s suffix || ends_with_any s suffixes

abbrev has_slash : String → Bool
has_slash [] = false
has_slash (c ∷ s) = code c == b'/' || has_slash s

-- `os.path.basename`: what follows the last slash.
unfoldable pub basename : String → String
basename [] = []
basename (c ∷ s) = let rest = basename s in if has_slash (c ∷ s) then rest else c ∷ s

-- `str.lower` of an ASCII letter, as a number.
abbrev lower_code : Char → ℕ
lower_code c = if within b'A' b'Z' (code c) then code c + 32 else code c

abbrev begins_lowered : String → List ℕ → Bool
begins_lowered s nil = true
begins_lowered [] (n ▹ ns) = false
begins_lowered (c ∷ s) (n ▹ ns) = lower_code c == n && begins_lowered s ns

abbrev contains_lowered : String → List ℕ → Bool
contains_lowered [] ns = begins_lowered [] ns
contains_lowered (c ∷ s) ns = begins_lowered (c ∷ s) ns || contains_lowered s ns

-- `"test" in text.lower()`. No other letter than T, E and S has t, e or s in its lower case.
unfoldable pub mentions_test : String → Bool
mentions_test s = contains_lowered s (b't' ▹ b'e' ▹ b's' ▹ b't' ▹ nil)
