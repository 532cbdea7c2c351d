-- ===== src/Common/Texts.antt =====
-- The equality of texts, as a test and as a decision.
use Prim.Native.String.{String}
use text.Mathlib.TextEquality.{eq_iff}
use text.Mathlib.Text.{◌==◌ as str_eq}
use mathlib.Core.Path.{◌≡◌, refl}
use mathlib.Core.Bool.{Bool, true, false, not, ◌&&◌, ◌||◌}
use mathlib.Core.List.{List, [], ◌∷◌}
use Prim.Native.Nat.{ℕ, suc}
use mathlib.Core.HLevel.{Discrete}

pub str_eq_refl : (s : String) → str_eq s s ≡ true
str_eq_refl s = (eq_iff s s).1 (λ i. s)

pub str_eq→eq : (s t : String) → str_eq s t ≡ true → s ≡ t
str_eq→eq s t = (eq_iff s t).0

by_test : (s t : String) (b : Bool) → str_eq s t ≡ b → Dec (s ≡ t)
by_test s t true h = yes (str_eq→eq s t h)
by_test s t false h = no (λ e. cc ((eq_iff s t).1 e))

unfoldable pub String-discrete : Discrete String
unfolding by_test
String-discrete s t = by_test s t (str_eq s t) refl

-- `s in texts`
abbrev pub mem_text : String → List String → Bool
mem_text s [] = false
mem_text s (t ∷ ts) = str_eq s t || mem_text s ts

-- `len(texts) == len(set(texts))`
abbrev pub distinct_texts : List String → Bool
distinct_texts [] = true
distinct_texts (t ∷ ts) = not (mem_text t ts) && distinct_texts ts

-- `len(s)`
abbrev pub text_length : String → ℕ
text_length String.[] = 0
text_length (String.◌∷◌ c s) = suc (text_length s)
