-- ===== src/Ownership/Texts.antt =====
-- Texts as lists of code points, with what internal/controller/ownership.go uses of Go's strings.
use mathlib.Core.Path.{ap₂}
use dynamic_prefix_operator.Prelude.{
  ℕ, ◌≡◌, refl, Bool, true, false, ◌&&◌, ◌||◌, List, [], ◌∷◌, ◌++◌, leb, ◌==◌, if◌then◌else◌, arith,
  ap, sym,
}

abbrev pub Text : Type 0
Text = List ℕ

abbrev pub text_eq : Text → Text → Bool
text_eq [] [] = true
text_eq (c ∷ s) (d ∷ t) = (c == d) && text_eq s t
text_eq [] (d ∷ t) = false
text_eq (c ∷ s) [] = false

pub text_eq_refl : (s : Text) → text_eq s s ≡ true
text_eq_refl [] = refl
text_eq_refl (c ∷ s) = ground (arith, text_eq_refl s)

pub text_eq→eq : (s t : Text) → text_eq s t ≡ true → s ≡ t
text_eq→eq [] [] h = refl
text_eq→eq (c ∷ s) (d ∷ t) h = ground (arith, text_eq→eq s t)
text_eq→eq [] (d ∷ t) h = cc
text_eq→eq (c ∷ s) [] h = cc

abbrev pub texts_eq : List Text → List Text → Bool
texts_eq [] [] = true
texts_eq (s ∷ ss) (t ∷ ts) = text_eq s t && texts_eq ss ts
texts_eq [] (t ∷ ts) = false
texts_eq (s ∷ ss) [] = false

pub texts_eq→eq : (ss ts : List Text) → texts_eq ss ts ≡ true → ss ≡ ts
texts_eq→eq [] [] h = refl
texts_eq→eq (s ∷ ss) (t ∷ ts) h =
    ap₂ ◌∷◌ (text_eq→eq s t (ground arith)) (texts_eq→eq ss ts (ground arith))
texts_eq→eq [] (t ∷ ts) h = cc
texts_eq→eq (s ∷ ss) [] h = cc

abbrev pub is_blank : Text → Bool
is_blank [] = true
is_blank (c ∷ s) = false

-- A set of texts, as a `map[string]struct{}` is read.
abbrev pub mem : Text → List Text → Bool
mem s [] = false
mem s (t ∷ ts) = text_eq s t || mem s ts

pub mem-eq : (k j : Text) (ks : List Text) → text_eq k j ≡ true → mem j ks ≡ mem k ks
mem-eq k j ks h = ap (λ t. mem t ks) (sym (text_eq→eq k j h))

abbrev pub Distinct : List Text → Type 0
Distinct [] = Unit
Distinct (s ∷ ss) = (mem s ss ≡ false) × Distinct ss

abbrev comma : ℕ
comma = 44

-- `unicode.IsSpace`
abbrev pub is_space : ℕ → Bool
is_space c =
    (leb 9 c && leb c 13)
    || c == 32
    || c == 133
    || c == 160
    || c == 5760
    || (leb 8192 c && leb c 8202)
    || c == 8232
    || c == 8233
    || c == 8239
    || c == 8287
    || c == 12288

abbrev pub trim_left : Text → Text
trim_left [] = []
trim_left (c ∷ s) = if is_space c then trim_left s else c ∷ s

-- The text without the white space at its end.
abbrev pub trim_right : Text → Text
trim_right [] = []
trim_right (c ∷ s) =
    let rest = trim_right s in if (is_blank rest && is_space c) then [] else c ∷ rest

-- `strings.TrimSpace`
abbrev pub trim_space : Text → Text
trim_space s = trim_right (trim_left s)

-- The first piece of a text grows by a code point.
abbrev pub grow : ℕ → List Text → List Text
grow c [] = (c ∷ []) ∷ []
grow c (s ∷ ss) = (c ∷ s) ∷ ss

-- `strings.Split(s, ",")`
abbrev pub split : Text → List Text
split [] = [] ∷ []
split (c ∷ s) = let rest = split s in if c == comma then [] ∷ rest else grow c rest

-- `strings.Join(ss, ",")`
abbrev pub join : List Text → Text
join [] = []
join (s ∷ []) = s
join (s ∷ t ∷ ts) = s ++ comma ∷ join (t ∷ ts)

abbrev pub has_comma : Text → Bool
has_comma [] = false
has_comma (c ∷ s) = c == comma || has_comma s

-- A text without a comma is one piece, and what follows a comma after it is split on its own.
split-one : (s : Text) → has_comma s ≡ false → split s ≡ s ∷ []
split-one [] h = refl
split-one (c ∷ s) h = ground (arith, split-one s)

split-append : (s t : Text) → has_comma s ≡ false → split (s ++ comma ∷ t) ≡ s ∷ split t
split-append [] t h = refl
split-append (c ∷ s) t h = ground (arith, split-append s t)

-- Texts that the operator can write into a record: not blank, without white space around them or a
-- comma in them.
abbrev pub Writable : List Text → Type 0
Writable [] = Unit
Writable (s ∷ ss) = (is_blank s ≡ false) × (has_comma s ≡ false) × (trim_space s ≡ s) × Writable ss

pub split-join : (s : Text) (ss : List Text) → Writable (s ∷ ss) → split (join (s ∷ ss)) ≡ s ∷ ss
split-join s [] w = split-one s w.1
split-join s (t ∷ ts) w = rw (split-append s (join (t ∷ ts)) w.1, split-join t ts w.3) refl
