-- ===== src/Prelude/Text.antt =====
-- Texts as lists of code points, with the methods of Python's `str` that the program calls.
use Prim.Native.Char.{code}
use Prim.Native.String.{String}
use Prim.Native.Nat.{ℕ}
use mathlib.Core.Path.{◌≡◌, refl, ap, sym, ◌∙◌}
use mathlib.Core.Bool.{Bool, true, false, ◌&&◌, ◌||◌}
use mathlib.Core.List.{List, [], ◌∷◌, ◌++◌}
use native.Mathlib.Omega.{arith}
use config_manager.Prelude.Lists.{All}
use config_manager.Prelude.Tests.{if◌then◌else◌, leb, nat_beq, Eq}

abbrev pub Text : Type 0
Text = List ℕ

-- The code points of a literal.
abbrev pub codes : String → Text
codes String.[] = []
codes (String.◌∷◌ c s) = code c ∷ codes s

unfoldable pub text_beq : Text → Text → Bool
text_beq [] [] = true
text_beq (a ∷ s) (b ∷ t) = nat_beq a b && text_beq s t
text_beq _ _ = false

pub text_beq→eq : (s t : Text) → text_beq s t ≡ true → s ≡ t
unfolding text_beq
text_beq→eq [] [] h = refl
text_beq→eq [] (b ∷ t) h = cc
text_beq→eq (a ∷ s) [] h = cc
text_beq→eq (a ∷ s) (b ∷ t) h = ground (arith, text_beq→eq s t)

pub text_beq_refl : (s : Text) → text_beq s s ≡ true
unfolding text_beq
text_beq_refl [] = refl
text_beq_refl (a ∷ s) = ground (arith, text_beq_refl s)

instance abbrev pub text_eq : Eq Text
text_eq = record { beq = text_beq; beq_sound = text_beq→eq; beq_self = text_beq_refl }

-- `c.isspace()` at one code point: what `strip()` and `split()` take for white space.
unfoldable pub is_space : ℕ → Bool
is_space c =
    (leb 9 c && leb c 13)
    || (leb 28 c && leb c 32)
    || nat_beq c 0x85
    || nat_beq c 0xa0
    || nat_beq c 0x1680
    || (leb 0x2000 c && leb c 0x200a)
    || nat_beq c 0x2028
    || nat_beq c 0x2029
    || nat_beq c 0x202f
    || nat_beq c 0x205f
    || nat_beq c 0x3000

unfoldable pub lstrip : Text → Text
lstrip [] = []
lstrip (c ∷ s) = if is_space c then lstrip s else c ∷ s

unfoldable pub rstrip : Text → Text
rstrip [] = []
rstrip (c ∷ s) = elim (rstrip s) [ [] ↦ if is_space c then [] else c ∷ [] | d ∷ r ↦ c ∷ d ∷ r ]

-- `s.strip()`
unfoldable pub strip : Text → Text
unfolding lstrip rstrip is_space
strip s = rstrip (lstrip s)

-- `s.startswith(p)`
unfoldable pub starts_with : Text → Text → Bool
starts_with [] s = true
starts_with (c ∷ p) [] = false
starts_with (c ∷ p) (d ∷ s) = nat_beq c d && starts_with p s

-- `s.split(sep)[0]` at a separator of one code point
unfoldable pub before : ℕ → Text → Text
before sep [] = []
before sep (c ∷ s) = if nat_beq c sep then [] else c ∷ before sep s

-- `s.split(sep, 1)[1] if sep in s else ""`
unfoldable pub after : ℕ → Text → Text
after sep [] = []
after sep (c ∷ s) = if nat_beq c sep then s else after sep s

-- `c in s`
unfoldable pub has : ℕ → Text → Bool
has c [] = false
has c (d ∷ s) = nat_beq c d || has c s

pub before-append_of_has :
    (sep : ℕ) (s t : Text) → has sep s ≡ false → before sep (s ++ sep ∷ t) ≡ s
unfolding before has
before-append_of_has sep [] t h = ground arith
before-append_of_has sep (c ∷ s) t h = ground (arith, before-append_of_has sep s t)

pub before_of_not_has : (sep : ℕ) (s : Text) → has sep s ≡ false → before sep s ≡ s
unfolding before has
before_of_not_has sep [] h = refl
before_of_not_has sep (c ∷ s) h = ground (arith, before_of_not_has sep s)

pub has-before : (sep : ℕ) (s : Text) → has sep (before sep s) ≡ false
unfolding before has
has-before sep [] = refl
has-before sep (c ∷ s) = ground (arith, has-before sep s)

pub has-append : (c : ℕ) (s t : Text) → has c (s ++ t) ≡ (has c s || has c t)
unfolding has
has-append c [] t = refl
has-append c (d ∷ s) t = ground (arith, has-append c s t)

-- Stripping drops nothing but white space, and adds nothing.
pub has-lstrip : (c : ℕ) (s : Text) → has c s ≡ false → has c (lstrip s) ≡ false
unfolding lstrip has
has-lstrip c [] h = refl
has-lstrip c (d ∷ s) h = ground (arith, has-lstrip c s)

pub has-rstrip : (c : ℕ) (s : Text) → has c s ≡ false → has c (rstrip s) ≡ false
unfolding rstrip has
has-rstrip c [] h = refl
has-rstrip c (d ∷ s) h = ground (arith, has-rstrip c s)

pub has-strip : (c : ℕ) (s : Text) → has c s ≡ false → has c (strip s) ≡ false
unfolding strip
has-strip c s h = has-rstrip c (lstrip s) (has-lstrip c s h)

lstrip_idem : (s : Text) → lstrip (lstrip s) ≡ lstrip s
unfolding lstrip
lstrip_idem [] = refl
lstrip_idem (c ∷ s) = ground (arith, lstrip_idem s)

rstrip_idem : (s : Text) → rstrip (rstrip s) ≡ rstrip s
unfolding rstrip
rstrip_idem [] = refl
rstrip_idem (c ∷ s) = ground (arith, rstrip_idem s)

-- a text that begins with no white space, if it is not empty
abbrev NoLead : Text → Type 0
NoLead [] = Unit
NoLead (c ∷ s) = is_space c ≡ false

lstrip-NoLead : (s : Text) → NoLead (lstrip s)
unfolding lstrip
lstrip-NoLead [] = tt
lstrip-NoLead (c ∷ s) = ground (arith, lstrip-NoLead s)

rstrip-NoLead : (s : Text) → NoLead s → NoLead (rstrip s)
unfolding rstrip
rstrip-NoLead [] h = tt
rstrip-NoLead (c ∷ s) h = ground arith

lstrip_of_NoLead : (s : Text) → NoLead s → lstrip s ≡ s
unfolding lstrip
lstrip_of_NoLead [] h = refl
lstrip_of_NoLead (c ∷ s) h = rw h

pub strip_idem : (s : Text) → strip (strip s) ≡ strip s
unfolding strip
strip_idem s =
    rw (lstrip_of_NoLead (rstrip (lstrip s)) (rstrip-NoLead (lstrip s) (lstrip-NoLead s)))
      (rstrip_idem (lstrip s))

-- Stripping keeps a leading code point that is no white space.
pub rstrip_cons : (c : ℕ) (s : Text) → is_space c ≡ false → rstrip (c ∷ s) ≡ c ∷ rstrip s
unfolding rstrip
rstrip_cons c s h = ground arith

pub strip_cons : (c : ℕ) (s : Text) → is_space c ≡ false → strip (c ∷ s) ≡ c ∷ rstrip s
unfolding strip
strip_cons c s h = rw (lstrip_of_NoLead (c ∷ s) h) (rstrip_cons c s h)

pub before-append_left :
    (sep : ℕ) (s t : Text) → has sep s ≡ true → before sep (s ++ t) ≡ before sep s
unfolding before has
before-append_left sep [] t h = cc
before-append_left sep (c ∷ s) t h = ground (arith, before-append_left sep s t)

pub rstrip_of_strip : (s : Text) → strip s ≡ s → rstrip s ≡ s
unfolding strip
rstrip_of_strip s h = ap rstrip (sym h) ∙ (rstrip_idem (lstrip s) ∙ h)

-- A prefix without white space survives the strip, and what follows is stripped on the right.
pub rstrip-append : (p t : Text) → All (λ c. is_space c ≡ false) p → rstrip (p ++ t) ≡ p ++ rstrip t
rstrip-append [] t h = refl
rstrip-append (c ∷ p) t h = rw (rstrip_cons c (p ++ t) h.0, rstrip-append p t h.1)

pub rstrip_solid : (s : Text) → All (λ c. is_space c ≡ false) s → rstrip s ≡ s
unfolding rstrip
rstrip_solid [] h = refl
rstrip_solid (c ∷ s) h = rw (rstrip_cons c s h.0, rstrip_solid s h.1)
