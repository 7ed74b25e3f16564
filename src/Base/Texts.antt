-- ===== src/Base/Texts.antt =====
-- Texts as lists of code points: the operations of `str` that the sources use.
use Prim.Native.Nat.{ℕ}
use Prim.Native.Char.{code}
use Prim.Native.String.{String}
use mathlib.Core.Path.{◌≡◌, refl}
use native.Mathlib.Omega.{arith}
use mathlib.Core.Bool.{Bool, true, false, ◌&&◌, ◌||◌}
use mathlib.Core.List.{List, [], ◌∷◌}
use mathlib.Core.Option.{Option, none, some}
use kube_hardware_autoscaler.Base.Tests.{leb, ◌==◌, if◌then◌else◌}
use kube_hardware_autoscaler.Base.Lists.{any}

abbrev pub Chars : Type 0
Chars = List ℕ

-- The code points of a text.
abbrev pub codes : String → Chars
codes String.[] = []
codes (String.◌∷◌ c s) = code c ∷ codes s

abbrev pub chars_eq : Chars → Chars → Bool
chars_eq [] [] = true
chars_eq (c ∷ cs) (d ∷ ds) = (c == d) && chars_eq cs ds
chars_eq _ _ = false

-- `s.replace(from, to)` on single characters.
abbrev pub replace : ℕ → ℕ → Chars → Chars
replace from to [] = []
replace from to (c ∷ s) = (if c == from then to else c) ∷ replace from to s

-- `s.strip_prefix(p)`.
abbrev pub strip_prefix : Chars → Chars → Option Chars
strip_prefix [] s = some s
strip_prefix (c ∷ p) [] = none
strip_prefix (c ∷ p) (d ∷ s) = let rest = strip_prefix p s in if c == d then rest else none

-- `trim_start_matches` and `trim_end_matches` with a test on characters.
abbrev pub trim_start : (ℕ → Bool) → Chars → Chars
trim_start p [] = []
trim_start p (c ∷ s) = let rest = trim_start p s in if p c then rest else c ∷ s

abbrev keep_char : (ℕ → Bool) → ℕ → Chars → Chars
keep_char p c [] = if p c then [] else c ∷ []
keep_char p c (d ∷ s) = c ∷ (d ∷ s)

abbrev pub trim_end : (ℕ → Bool) → Chars → Chars
trim_end p [] = []
trim_end p (c ∷ s) = keep_char p c (trim_end p s)

abbrev pub trim_matches : (ℕ → Bool) → Chars → Chars
trim_matches p s = trim_end p (trim_start p s)

-- `char::is_whitespace`.
abbrev pub is_whitespace : ℕ → Bool
is_whitespace c =
    (leb 9 c && leb c 13)
    || any (λ w. c == w) (32 ∷ 133 ∷ 160 ∷ 5760 ∷ 8232 ∷ 8233 ∷ 8239 ∷ 8287 ∷ 12288 ∷ [])
    || (leb 8192 c && leb c 8202)

abbrev pub trim : Chars → Chars
trim s = trim_matches is_whitespace s

abbrev before : ℕ → Option (Chars × Chars) → Option (Chars × Chars)
before c none = none
before c (some (a, b)) = some (c ∷ a, b)

-- `s.split_once(at)`: the text before the first such character, and the text after it.
abbrev pub split_once : ℕ → Chars → Option (Chars × Chars)
split_once at [] = none
split_once at (c ∷ s) =
    let rest = before c (split_once at s) in if c == at then some ([], s) else rest

abbrev last_or : ℕ → ℕ → Chars → Option (Chars × Chars) → Option (Chars × Chars)
last_or at c s (some (a, b)) = some (c ∷ a, b)
last_or at c s none = if c == at then some ([], s) else none

-- `s.rsplit_once(at)`: at the last such character.
abbrev pub rsplit_once : ℕ → Chars → Option (Chars × Chars)
rsplit_once at [] = none
rsplit_once at (c ∷ s) = last_or at c s (rsplit_once at s)

abbrev pub put_first : ℕ → List Chars → List Chars
put_first c [] = (c ∷ []) ∷ []
put_first c (p ∷ ps) = (c ∷ p) ∷ ps

-- `s.split(p)`: one part more than there are separators.
abbrev pub split_on : (ℕ → Bool) → Chars → List Chars
split_on p [] = [] ∷ []
split_on p (c ∷ s) = let parts = split_on p s in if p c then [] ∷ parts else put_first c parts

pub chars_eq_refl : (s : Chars) → chars_eq s s ≡ true
chars_eq_refl [] = refl
chars_eq_refl (c ∷ s) = ground (arith, chars_eq_refl s)
