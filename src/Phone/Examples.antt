-- ===== src/Phone/Examples.antt =====
-- The theorems on phone numbers at concrete numbers.
use onwapp.Base.{Str, [], ◌∷◌}

abbrev number : Str
number = b'5' ∷ b'5' ∷ b'1' ∷ []
