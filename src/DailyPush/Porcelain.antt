-- ===== src/DailyPush/Porcelain.antt =====
-- What `git status --porcelain` prints, and what scripts/daily_push.py makes of its text: the
-- stripping of run_cmd, and the lines.
use Prim.Native.Char.{Char}
use Prim.Native.String.{String, [], ◌∷◌}
use mathlib.Core.Bool.{false}
use mathlib.Core.List.{List, [] as nil, ◌∷◌ as ◌▹◌}
use apex_payments_engine.Prelude.{◌≡◌, refl, ap, ◌∙◌, map, All, inl, inr, Bool-cases, Bool, arith}
use apex_payments_engine.DailyPush.Text.{
  is_no_text, is_space, is_quote, is_break, lstrip, rstrip, strip, strip_quotes, splitlines,
}

-- Two characters of status, the blank after them, and the path.
pub record StatusLine : Type 0 where
  pub x : Char
  pub y : Char
  pub gap : Char
  pub path : String

abbrev pub glue : String → String → String
glue [] t = t
glue (c ∷ s) t = c ∷ glue s t

abbrev pub line_of : StatusLine → String
line_of l = l.x ∷ l.y ∷ l.gap ∷ l.path

-- Each line ends with a line feed.
abbrev pub status_text : List StatusLine → String
status_text nil = []
status_text (l ▹ ls) = glue (line_of l) ("\n" ∷ status_text ls)

-- A path that git does not quote has neither blanks nor quotes.
abbrev pub IsPlain : String → Type 0
IsPlain [] = Unit
IsPlain (c ∷ s) = (is_space c ≡ false) × (is_quote c ≡ false) × IsPlain s

abbrev pub IsLine : StatusLine → Type 0
IsLine l =
    (is_break l.x ≡ false)
    × (is_break l.y ≡ false)
    × (is_break l.gap ≡ false)
    × (is_no_text l.path ≡ false)
    × IsPlain l.path

-- The first line does not begin with a blank.
abbrev pub BeginsWithLetter : List StatusLine → Type 0
BeginsWithLetter nil = Unit
BeginsWithLetter (l ▹ ls) = is_space l.x ≡ false

module _ (p : Char → Bool) where
  rstrip_keep :
      (c : Char) (s : String) → is_no_text (rstrip p s) ≡ false → rstrip p (c ∷ s) ≡ c ∷ rstrip p s
  rstrip_keep c s h = elim (Bool-cases (p c)) [
    | inl space ↦ rw (space, h) refl
    | inr other ↦ rw other refl
  ]

  glue_text : (s t : String) → is_no_text t ≡ false → is_no_text (glue s t) ≡ false
  glue_text [] t h = h
  glue_text (c ∷ s) t h = refl

  rstrip-glue :
      (s t : String) → is_no_text (rstrip p t) ≡ false → rstrip p (glue s t) ≡ glue s (rstrip p t)
  rstrip-glue [] t h = refl
  rstrip-glue (c ∷ s) t h =
      let rest = rstrip-glue s t h in
      rstrip_keep c (glue s t) (rw rest (glue_text s (rstrip p t) h)) ∙ ap (λ r. c ∷ r) rest

  rstrip-glue_end : (s t : String) → rstrip p t ≡ [] → rstrip p (glue s t) ≡ rstrip p s
  rstrip-glue_end [] t h = h
  rstrip-glue_end (c ∷ s) t h = rw (rstrip-glue_end s t h) refl

rstrip_plain : (s : String) → IsPlain s → rstrip is_space s ≡ s
rstrip_plain [] h = refl
rstrip_plain (c ∷ s) h = rw (h.0, rstrip_plain s h.2) refl

rstrip_unquoted : (s : String) → IsPlain s → rstrip is_quote s ≡ s
rstrip_unquoted [] h = refl
rstrip_unquoted (c ∷ s) h = rw (h.1, rstrip_unquoted s h.2) refl

-- A plain path is read as it is.
pub strip-IsPlain : (s : String) → IsPlain s → strip_quotes (strip s) ≡ s
unfolding strip strip_quotes
strip-IsPlain [] h = refl
strip-IsPlain (c ∷ s) h =
    rw (rstrip_plain (c ∷ s) h, h.0) (rw (rstrip_unquoted (c ∷ s) h, h.1) refl)

rstrip_line : (l : StatusLine) → IsLine l → rstrip is_space (line_of l) ≡ line_of l
rstrip_line l h =
    let path = rstrip_plain l.path h.4 in
    let gap = rstrip_keep is_space l.gap l.path (rw path h.3) ∙ ap (λ r. l.gap ∷ r) path in
    let y = rstrip_keep is_space l.y (l.gap ∷ l.path) (rw gap refl) ∙ ap (λ r. l.y ∷ r) gap in
    rstrip_keep is_space l.x (l.y ∷ l.gap ∷ l.path) (rw y refl) ∙ ap (λ r. l.x ∷ r) y

-- The text without its last line feed.
abbrev joined : List StatusLine → String
joined nil = []
joined (l ▹ nil) = line_of l
joined (l ▹ m ▹ ls) = glue (line_of l) ("\n" ∷ joined (m ▹ ls))

joined_text : (l : StatusLine) (ls : List StatusLine) → is_no_text (joined (l ▹ ls)) ≡ false
joined_text l nil = refl
joined_text l (m ▹ ls) = refl

rstrip_text : (ls : List StatusLine) → All IsLine ls → rstrip is_space (status_text ls) ≡ joined ls
rstrip_text nil h = refl
rstrip_text (l ▹ nil) h = rstrip-glue_end is_space (line_of l) ("\n" ∷ []) refl ∙ rstrip_line l h.0
rstrip_text (l ▹ m ▹ ls) h =
    let rest = rstrip_text (m ▹ ls) h.1 in
    let t = status_text (m ▹ ls) in
    let feed = rstrip_keep is_space "\n" t (rw rest (joined_text m ls)) in
    rstrip-glue is_space (line_of l) ("\n" ∷ t) (rw feed refl)
    ∙ ap (glue (line_of l)) (feed ∙ ap (λ r. "\n" ∷ r) rest)

lstrip_text : (ls : List StatusLine) → BeginsWithLetter ls → lstrip is_space (joined ls) ≡ joined ls
lstrip_text nil h = refl
lstrip_text (l ▹ nil) h = rw h refl
lstrip_text (l ▹ m ▹ ls) h = rw h refl

HasNoBreak : String → Type 0
HasNoBreak [] = Unit
HasNoBreak (c ∷ s) = (is_break c ≡ false) × HasNoBreak s

space_break : (c : Char) → is_space c ≡ false → is_break c ≡ false
space_break c h = ground arith

IsPlain-HasNoBreak : (s : String) → IsPlain s → HasNoBreak s
unfolding HasNoBreak
IsPlain-HasNoBreak [] h = tt
IsPlain-HasNoBreak (c ∷ s) h = (space_break c h.0, IsPlain-HasNoBreak s h.2)

line-HasNoBreak : (l : StatusLine) → IsLine l → HasNoBreak (line_of l)
unfolding HasNoBreak
line-HasNoBreak l h = (h.0, (h.1, (h.2, IsPlain-HasNoBreak l.path h.4)))

splitlines-glue : (s t : String) → HasNoBreak s → splitlines (glue s ("\n" ∷ t)) ≡ s ▹ splitlines t
unfolding splitlines HasNoBreak
splitlines-glue [] t h = refl
splitlines-glue (c ∷ s) t h = rw (h.0, splitlines-glue s t h.1) refl

splitlines_one : (c : Char) (s : String) → HasNoBreak (c ∷ s) → splitlines (c ∷ s) ≡ (c ∷ s) ▹ nil
unfolding splitlines HasNoBreak
splitlines_one c [] h = rw h.0 refl
splitlines_one c (d ∷ s) h = rw (h.0, splitlines_one d s h.1) refl

splitlines-joined : (ls : List StatusLine) → All IsLine ls → splitlines (joined ls) ≡ map line_of ls
unfolding splitlines
splitlines-joined nil h = refl
splitlines-joined (l ▹ nil) h = splitlines_one l.x (l.y ∷ l.gap ∷ l.path) (line-HasNoBreak l h.0)
splitlines-joined (l ▹ m ▹ ls) h =
    splitlines-glue (line_of l) (joined (m ▹ ls)) (line-HasNoBreak l h.0)
    ∙ ap (λ r. line_of l ▹ r) (splitlines-joined (m ▹ ls) h.1)

-- The lines of the stripped text are those that git printed, if the first one begins with a letter.
pub splitlines-status_text :
    (ls : List StatusLine)
    → All IsLine ls
    → BeginsWithLetter ls
    → splitlines (strip (status_text ls)) ≡ map line_of ls
unfolding strip
splitlines-status_text ls h first =
    ap (λ s. splitlines (lstrip is_space s)) (rstrip_text ls h)
    ∙ ap splitlines (lstrip_text ls first)
    ∙ splitlines-joined ls h
