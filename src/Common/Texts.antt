-- ===== src/Common/Texts.antt =====
-- Texts that the program walks: lists of code points. Only ASCII letters, digits and white space
-- are classified, which is all that the symbols, dates and exchange codes of the program hold.
use Prim.Native.Nat.{ℕ, zero, suc, ◌+◌, ◌-◌, ◌*◌, ◌/◌, ◌%◌}
use Prim.Native.Char.{code}
use Prim.Native.String.{String}
use Prim.Native.String.{◌++◌ as concat}
use mathlib.Core.Path.{◌≡◌, refl}
use mathlib.Core.Bool.{Bool, true, false, ◌&&◌, ◌||◌}
use mathlib.Core.List.{List, [], ◌∷◌, map, reverse}
use mathlib.Core.Logic.{◌↔◌}
use native.Mathlib.Omega.{arith}
use a_share_analysis.Common.Tests.{leb, ltb, ◌==◌, if◌then◌else◌}
use a_share_analysis.Common.Lists.{any}

abbrev pub Text : Type 0
Text = List ℕ

abbrev pub codes : String → Text
codes String.[] = []
codes (String.◌∷◌ c s) = code c ∷ codes s

unfoldable pub text_eq : Text → Text → Bool
text_eq [] [] = true
text_eq (a ∷ s) (b ∷ t) = a == b && text_eq s t
text_eq _ _ = false

pub text_eq_iff : (s t : Text) → (text_eq s t ≡ true) ↔ (s ≡ t)
unfolding text_eq
text_eq_iff [] [] = (λ _. refl, λ _. refl)
text_eq_iff [] (b ∷ t) = (λ h. cc, λ h. cc)
text_eq_iff (a ∷ s) [] = (λ h. cc, λ h. cc)
text_eq_iff (a ∷ s) (b ∷ t) =
    (λ h. ground (arith, text_eq_iff s t), λ h. ground (arith, text_eq_iff s t))

-- x in xs, for texts
unfoldable pub text_in : Text → List Text → Bool
unfolding any text_eq
text_in t ts = any (text_eq t) ts

-- text.startswith(prefix)
unfoldable pub starts_with : Text → Text → Bool
starts_with s [] = true
starts_with [] (c ∷ p) = false
starts_with (d ∷ s) (c ∷ p) = d == c && starts_with s p

-- `part in text`
unfoldable pub has_part : Text → Text → Bool
unfolding starts_with
has_part part [] = starts_with [] part
has_part part (c ∷ s) = starts_with (c ∷ s) part || has_part part s

-- s <= t for texts: code by code, a beginning first
unfoldable pub text_leb : Text → Text → Bool
text_leb [] t = true
text_leb (a ∷ s) [] = false
text_leb (a ∷ s) (b ∷ t) = ltb a b || (a == b && text_leb s t)

-- chr.isspace() on ASCII: tab to carriage return, the four separators, and the blank
unfoldable pub is_space : ℕ → Bool
is_space c = leb 9 c && leb c 13 || leb 28 c && leb c 32

unfoldable pub drop_space : Text → Text
drop_space [] = []
drop_space (c ∷ s) = elim (is_space c) [ true ↦ drop_space s | false ↦ c ∷ s ]

-- str.strip()
unfoldable pub strip : Text → Text
unfolding is_space drop_space
strip s = reverse (drop_space (reverse (drop_space s)))

unfoldable pub to_upper : ℕ → ℕ
to_upper c = if leb b'a' c && leb c b'z' then c - 32 else c

-- str.upper()
unfoldable pub upper : Text → Text
unfolding to_upper
upper s = map to_upper s

to_lower : ℕ → ℕ
to_lower c = if leb b'A' c && leb c b'Z' then c + 32 else c

-- str.lower() and str.casefold()
unfoldable pub lower : Text → Text
unfolding to_lower
lower s = map to_lower s

unfoldable pub is_digit : ℕ → Bool
is_digit c = leb b'0' c && leb c b'9'

-- int(text) for a text of digits
unfoldable pub decimal : ℕ → Text → ℕ
decimal n [] = n
decimal n (c ∷ s) = decimal (n * 10 + (c - b'0')) s

digit_text : ℕ → String
digit_text d =
    if d == 0
    then "0"
    else if d == 1
    then "1"
    else if d == 2
    then "2"
    else if d == 3
    then "3"
    else if d == 4
    then "4"
    else if d == 5
    then "5"
    else if d == 6
    then "6"
    else if d == 7
    then "7"
    else if d == 8
    then "8"
    else "9"

-- The digits of `n` before `acc`. A number has fewer digits than its successor, so the fuel `n + 1`
-- that `show` gives is enough.
show_from : ℕ → ℕ → String → String
unfolding digit_text
show_from zero n acc = acc
show_from (suc f) n acc =
    let acc' = concat (digit_text (n % 10)) acc in
    let rest = show_from f (n / 10) acc' in if leb n 9 then acc' else rest

-- str(n)
unfoldable pub show : ℕ → String
unfolding show_from
show n = show_from (suc n) n ""

show_sample : show 1207 ≡ "1207"
unfolding show
show_sample = refl
