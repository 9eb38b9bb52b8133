-- ===== src/Base/Strings.antt =====
-- Text as a list of code points, with `str.split` and `str.join` at one character, and the
-- decimal numerals of `str(n)` and `int(s)`.
use Prim.Native.Char.{code}
use Prim.Native.String.{String}
use pyfastipc.Base.Tests.{ltb, leb, ◌==◌, if◌then◌else◌}
use pyfastipc.Base.Results.{Result, ok, err, value_error, unmodelled}
use pyfastipc.Base.Lists.{All}
use Prim.Native.Nat.{ℕ, zero, suc, ◌+◌, ◌-◌, ◌*◌, ◌/◌, ◌%◌, ◌≤◌}
use mathlib.Core.Path.{◌≡◌, refl, ap}
use mathlib.Core.Logic.{◌≢◌}
use mathlib.Core.Bool.{Bool, false, true, ◌&&◌}
use mathlib.Core.List.{List, [], ◌∷◌, ◌++◌}
use native.Mathlib.Omega.{arith}

abbrev pub Text : Type 0
Text = List ℕ

abbrev pub codes : String → Text
codes String.[] = []
codes (String.◌∷◌ c s) = code c ∷ codes s

abbrev pub tab : ℕ
tab = 9

abbrev pub comma : ℕ
comma = 44

abbrev pub Lacks : ℕ → Text → Type 0
Lacks sep = All (λ c. c ≢ sep)

-- puts a character in front of the first part
push : ℕ → List Text → List Text
push c [] = (c ∷ []) ∷ []
push c (p ∷ ps) = (c ∷ p) ∷ ps

-- `s.split(sep)`: always one part at least
unfoldable pub split : ℕ → Text → List Text
unfolding push
split sep [] = [] ∷ []
split sep (c ∷ s) = let rest = split sep s in if c == sep then [] ∷ rest else push c rest

-- `sep.join(parts)`
unfoldable pub join : ℕ → List Text → Text
join sep [] = []
join sep (p ∷ []) = p
join sep (p ∷ q ∷ ps) = p ++ sep ∷ join sep (q ∷ ps)

-- A part without the separator is cut off whole.
pub split-append : (sep : ℕ) (p s : Text) → Lacks sep p → split sep (p ++ sep ∷ s) ≡ p ∷ split sep s
unfolding split
split-append sep [] s h = ground arith
split-append sep (c ∷ p) s h = ground (arith, split-append sep p s h.1)

pub split_whole : (sep : ℕ) (p : Text) → Lacks sep p → split sep p ≡ p ∷ []
unfolding split
split_whole sep [] h = refl
split_whole sep (c ∷ p) h = ground (arith, split_whole sep p h.1)

-- Splitting a join gives the parts back, if there is a part and none holds the separator.
pub split-join :
    (sep : ℕ) (p : Text) (ps : List Text)
    → All (Lacks sep) (p ∷ ps)
    → split sep (join sep (p ∷ ps)) ≡ p ∷ ps
unfolding join
split-join sep p [] h = split_whole sep p h.0
split-join sep p (q ∷ ps) h =
    rw (split-append sep p _ h.0) (ap (λ r. p ∷ r) (split-join sep q ps h.1))

-- `str(n)`, with fuel: a round for each digit but the first
show_from : ℕ → ℕ → Text → Text
show_from zero n out = (b'0' + n % 10) ∷ out
show_from (suc f) n out =
    let out' : Text = (b'0' + n % 10) ∷ out in
    let rest = show_from f (n / 10) out' in if ltb n 10 then out' else rest

-- `n` rounds are enough, since each divides by ten
unfoldable pub show : ℕ → Text
unfolding show_from
show n = show_from n n []

abbrev pub is_digit : ℕ → Bool
is_digit c = leb b'0' c && leb c b'9'

read_from : ℕ → Text → Result ℕ
read_from n [] = ok n
read_from n (c ∷ s) =
    let rest = read_from (n * 10 + (c - b'0')) s in if is_digit c then rest else err unmodelled

-- `int(s)` on a text of decimal digits. Python also takes blanks at the ends, a sign and
-- underscores; on those, and on all other texts, the model says nothing.
unfoldable pub read_int : Text → Result ℕ
unfolding read_from
read_int [] = err value_error
read_int (c ∷ s) = read_from 0 (c ∷ s)

-- One step back: the last digit of `n`, read behind the digits before it, gives `n`.
read_last : (n : ℕ) (out : Text) → read_from (n / 10) ((b'0' + n % 10) ∷ out) ≡ read_from n out
unfolding read_from
read_last n out = ground arith

read-show_from : (f n : ℕ) (out : Text) → n ≤ f → read_from 0 (show_from f n out) ≡ read_from n out
unfolding show_from
read-show_from zero n out h = ground (arith, read_last n out)
read-show_from (suc f) n out h =
    ground (arith, read_last n out, read-show_from f (n / 10) ((b'0' + n % 10) ∷ out))

show_from-ne-nil : (f n : ℕ) (out : Text) → show_from f n out ≢ []
unfolding show_from
show_from-ne-nil zero n out = ground arith
show_from-ne-nil (suc f) n out = ground (arith, show_from-ne-nil f (n / 10) ((b'0' + n % 10) ∷ out))

read_int-read_from : (s : Text) → s ≢ [] → read_int s ≡ read_from 0 s
unfolding read_int
read_int-read_from [] h = absurd (h refl)
read_int-read_from (c ∷ s) h = refl

-- Every number is read back from its decimal print.
pub read_int-show : (n : ℕ) → read_int (show n) ≡ ok n
unfolding show read_from
read_int-show n =
    rw (read_int-read_from _ (show_from-ne-nil n n [])) (read-show_from n n [] (omega arith))

-- A print has no character outside the digits.
show_from-Lacks :
    (f n : ℕ) (out : Text) (sep : ℕ)
    → is_digit sep ≡ false
    → Lacks sep out
    → Lacks sep (show_from f n out)
unfolding show_from
show_from-Lacks zero n out sep h l = ground arith
show_from-Lacks (suc f) n out sep h l =
    ground (arith, show_from-Lacks f (n / 10) ((b'0' + n % 10) ∷ out) sep h)

pub show-Lacks : (n sep : ℕ) → is_digit sep ≡ false → Lacks sep (show n)
unfolding show
show-Lacks n sep h = show_from-Lacks n n [] sep h tt

pub show-ne-nil : (n : ℕ) → show n ≢ []
unfolding show
show-ne-nil n = show_from-ne-nil n n []

show_1024 : show 1024 ≡ codes "1024"
unfolding show
show_1024 = refl

split_row : split tab (codes "a\t\tb") ≡ codes "a" ∷ [] ∷ codes "b" ∷ []
unfolding split
split_row = refl

-- `==` on strings
abbrev pub text_eq : Text → Text → Bool
text_eq [] [] = true
text_eq [] (d ∷ t) = false
text_eq (c ∷ s) [] = false
text_eq (c ∷ s) (d ∷ t) = c == d && text_eq s t

pub text_eq_refl : (s : Text) → text_eq s s ≡ true
text_eq_refl [] = refl
text_eq_refl (c ∷ s) = ground (arith, text_eq_refl s)

pub eq_of_text_eq : (s t : Text) → text_eq s t ≡ true → s ≡ t
eq_of_text_eq [] [] h = refl
eq_of_text_eq [] (d ∷ t) h = cc
eq_of_text_eq (c ∷ s) [] h = cc
eq_of_text_eq (c ∷ s) (d ∷ t) h = ground (arith, eq_of_text_eq s t)
