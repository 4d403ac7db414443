-- ===== src/Base/Text/Laws.antt =====
-- Laws of the operations on Go strings.
use Prim.Native.Nat.{ℕ, ◌-◌}
use mathlib.Core.Path.{◌≡◌, refl, sym, ap, subst, ◌∙◌}
use mathlib.Core.Logic.{◌≢◌, ◌↔◌, inl, inr}
use mathlib.Core.Bool.{Bool, true, false}
use mathlib.Core.List.{List, [], ◌∷◌, ◌++◌, reverse, reverse-append, reverse-reverse}
use native.Mathlib.Omega.{arith}
use onwapp.Base.Tests.{Bool-cases, and-true}
use onwapp.Base.Lists.{
  length, length-append, drop, take, take-append-drop, drop-append, length-reverse, All, all,
}
use onwapp.Base.Text.{
  Str, is_empty, str_eq, one_of, has_prefix, has_suffix, trim_prefix, trim_suffix, drop_last,
  before, replace_all, replace_from,
}

pub str_eq_refl : (s : Str) → str_eq s s ≡ true
unfolding str_eq
str_eq_refl [] = refl
str_eq_refl (c ∷ s) = ground (arith, str_eq_refl s)

str_eq_sound : (s t : Str) → str_eq s t ≡ true → s ≡ t
unfolding str_eq
str_eq_sound [] [] h = refl
str_eq_sound [] (y ∷ t) h = cc
str_eq_sound (x ∷ s) [] h = cc
str_eq_sound (x ∷ s) (y ∷ t) h = ground (arith, str_eq_sound s t)

pub str_eq_iff : (s t : Str) → (str_eq s t ≡ true) ↔ (s ≡ t)
str_eq_iff s t = (str_eq_sound s t, λ e. subst (λ u. str_eq s u ≡ true) e (str_eq_refl s))

pub str_eq_of_ne : (s t : Str) → s ≢ t → str_eq s t ≡ false
str_eq_of_ne s t h = ground (arith, str_eq_iff s t)

pub is_empty_iff : (s : Str) → (is_empty s ≡ true) ↔ (s ≡ [])
is_empty_iff [] = ((λ h. refl), λ h. refl)
is_empty_iff (c ∷ s) = ((λ h. cc), λ h. cc)

pub has_prefix-append : (p s : Str) → has_prefix (p ++ s) p ≡ true
unfolding has_prefix
has_prefix-append [] s = refl
has_prefix-append (c ∷ p) s = ground (arith, has_prefix-append p s)

pub has_prefix_split : (s p : Str) → has_prefix s p ≡ true → s ≡ p ++ drop (length p) s
unfolding has_prefix
has_prefix_split s [] h = refl
has_prefix_split [] (c ∷ p) h = cc
has_prefix_split (d ∷ s) (c ∷ p) h = ground (arith, has_prefix_split s p)

pub trim_prefix-append : (p s : Str) → trim_prefix (p ++ s) p ≡ s
unfolding trim_prefix
trim_prefix-append p s = ground (arith, has_prefix-append p s, drop-append p s)

pub has_suffix-append : (s p : Str) → has_suffix (s ++ p) p ≡ true
unfolding has_suffix
has_suffix-append s p =
    let n : length (s ++ p) - length p ≡ length s = omega (arith, length-append s p) in
    ground
      (arith, length-append s p, n, ap (λ k. drop k (s ++ p)) n, drop-append s p, str_eq_refl p)

-- A text with the suffix is what stands before it, and the suffix.
pub has_suffix_split : (s p : Str) → has_suffix s p ≡ true → s ≡ take (length s - length p) s ++ p
unfolding has_suffix
has_suffix_split s p h =
    ground
      (arith, str_eq_iff (drop (length s - length p) s) p, take-append-drop (length s - length p) s)

pub trim_suffix-append : (s p : Str) → trim_suffix (s ++ p) p ≡ s
unfolding trim_suffix drop_last
trim_suffix-append s p =
    let back : reverse (drop (length p) (reverse (s ++ p))) ≡ s =
      ap (λ t. reverse (drop (length p) t)) (reverse-append s p)
      ∙ ap (λ k. reverse (drop k (reverse p ++ reverse s))) (sym (length-reverse p))
      ∙ ap reverse (drop-append (reverse p) (reverse s))
      ∙ reverse-reverse s in
    ground (arith, has_suffix-append s p, back)

-- No byte of the text is `c`.
abbrev pub Lacks : ℕ → Str → Type 0
Lacks c s = All (λ x. x ≢ c) s

pub before-append : (c : ℕ) (s t : Str) → Lacks c s → before c (s ++ c ∷ t) ≡ s
unfolding before
before-append c [] t h = ground arith
before-append c (x ∷ s) t h = ground (arith, before-append c s t h.1)

pub before_of_Lacks : (c : ℕ) (s : Str) → Lacks c s → before c s ≡ s
unfolding before
before_of_Lacks c [] h = refl
before_of_Lacks c (x ∷ s) h = ground (arith, before_of_Lacks c s h.1)

pub before-Lacks : (c : ℕ) (s : Str) → Lacks c (before c s)
unfolding before
before-Lacks c [] = tt
before-Lacks c (x ∷ s) = ground (arith, before-Lacks c s)

pub before-Lacks_other : (c d : ℕ) (s : Str) → Lacks d s → Lacks d (before c s)
unfolding before
before-Lacks_other c d [] h = tt
before-Lacks_other c d (x ∷ s) h = ground (arith, before-Lacks_other c d s h.1)

pub has_prefix_of_ne : (c d : ℕ) (s p : Str) → c ≢ d → has_prefix (c ∷ s) (d ∷ p) ≡ false
unfolding has_prefix
has_prefix_of_ne c d s p h = ground arith

-- A prefix of a text is a prefix of what is longer.
pub has_prefix-append_left : (s t p : Str) → has_prefix s p ≡ true → has_prefix (s ++ t) p ≡ true
unfolding has_prefix
has_prefix-append_left s t [] h = refl
has_prefix-append_left [] t (c ∷ p) h = cc
has_prefix-append_left (d ∷ s) t (c ∷ p) h = ground (arith, has_prefix-append_left s t p)

-- What holds of every text of a list holds of one that is found in it.
pub one_of-all :
    (p : Str → Bool) (s : Str) (ts : List Str) → one_of s ts ≡ true → all p ts ≡ true → p s ≡ true
unfolding one_of
one_of-all p s [] h k = cc
one_of-all p s (t ∷ ts) h k = elim (Bool-cases (str_eq s t)) [
  | inl hit ↦ subst (λ u. p u ≡ true) (sym ((str_eq_iff s t).0 hit)) (and-true _ _ k).0
  | inr miss ↦ one_of-all p s ts (rw miss at h) (and-true (p t) _ k).1
]

-- A replacement passes over a text in which the first byte of what it replaces does not occur.
pub replace_all-append :
    (c : ℕ) (old new s t : Str)
    → Lacks c s
    → replace_all (s ++ t) (c ∷ old) new ≡ s ++ replace_all t (c ∷ old) new
unfolding replace_all replace_from
replace_all-append c old new [] t h = refl
replace_all-append c old new (x ∷ s) t h =
    ground (arith, has_prefix_of_ne x c (s ++ t) old h.0, replace_all-append c old new s t h.1)

pub replace_all_of_Lacks : (c : ℕ) (old new s : Str) → Lacks c s → replace_all s (c ∷ old) new ≡ s
unfolding replace_all replace_from
replace_all_of_Lacks c old new [] h = refl
replace_all_of_Lacks c old new (x ∷ s) h =
    ground (arith, has_prefix_of_ne x c s old h.0, replace_all_of_Lacks c old new s h.1)
