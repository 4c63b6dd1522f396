-- ===== src/Base/Text.antt =====
-- Texts with a decidable equality.
use Prim.Native.String.{String}
use mathlib.Core.Bool.{Bool, true, false, false≢true}
use mathlib.Core.Path.{◌≡◌, refl, sym, ◌∙◌}
use text.Mathlib.Text.{◌==◌}
use text.Mathlib.TextEquality.{eq_iff}

dec_of_test : (s t : String) (b : Bool) → (s == t) ≡ b → Dec (s ≡ t)
dec_of_test s t true e = yes ((eq_iff s t).0 e)
dec_of_test s t false e = no (λ p. false≢true (sym e ∙ (eq_iff s t).1 p))

unfoldable pub String-discrete : Discrete String
unfolding dec_of_test
String-discrete s t = dec_of_test s t (s == t) refl
