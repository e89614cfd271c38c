-- ===== src/Base/Text.antt =====
-- Python's `in`, `strip` and `lstrip` on `str`.
use Prim.Native.Nat.{ℕ, zero, suc, ◌-◌, ◌+◌}
use Prim.Native.Char.{Char, code}
use Prim.Native.String.{String, [], ◌∷◌, ◌++◌}
use Prim.Native.String.append
use mathlib.Core.Path.{◌≡◌, refl, ◌∙◌, ap, sym, subst}
use mathlib.Core.Logic.{inl, inr}
use mathlib.Core.Bool.{Bool, true, false, not, ◌&&◌, ◌||◌}
use mathlib.Core.Option.{Option, none, some}
use native.Mathlib.Omega.{arith}
use text.Mathlib.Text.{starts_with}
use super_agent_platform.Base.Tests.{Bool-cases, leb, ltb, ◌==◌, if◌then◌else◌, ℕ_eq, String_eq}

-- `kw in text`
unfoldable pub contains : String → String → Bool
contains kw [] = kw == ""
contains kw (c ∷ s) = starts_with (c ∷ s) kw || contains kw s

-- The code points with `str.isspace()`.
unfoldable pub is_space : ℕ → Bool
is_space c =
    (leb 9 c && leb c 13)
    || (leb 28 c && leb c 32)
    || c == 133
    || c == 160
    || c == 5760
    || (leb 8192 c && leb c 8202)
    || (leb 8232 c && leb c 8233)
    || c == 8239
    || c == 8287
    || c == 12288

unfoldable pub lstrip : String → String
unfolding is_space
lstrip [] = []
lstrip (c ∷ s) = let rest = lstrip s in if is_space (code c) then rest else c ∷ s

-- Drops the white space at the end.
rstrip : String → String
unfolding is_space
rstrip [] = []
rstrip (c ∷ s) = let rest = rstrip s in if is_space (code c) && rest == "" then [] else c ∷ rest

unfoldable pub strip : String → String
unfolding lstrip rstrip
strip s = rstrip (lstrip s)

lstrip-space : (c : Char) (s : String) → is_space (code c) ≡ true → lstrip (c ∷ s) ≡ lstrip s
unfolding lstrip
lstrip-space c s h = ap (λ b. if b then lstrip s else c ∷ s) h

lstrip-other : (c : Char) (s : String) → is_space (code c) ≡ false → lstrip (c ∷ s) ≡ c ∷ s
unfolding lstrip
lstrip-other c s h = ap (λ b. if b then lstrip s else c ∷ s) h

-- The white space at the end starts with this character.
abbrev ends : Char → String → Bool
ends c s = is_space (code c) && rstrip s == ""

rstrip-blank : (c : Char) (s : String) → ends c s ≡ true → rstrip (c ∷ s) ≡ ""
unfolding rstrip
rstrip-blank c s h = ap (λ b. if b then "" else c ∷ rstrip s) h

rstrip-kept : (c : Char) (s : String) → ends c s ≡ false → rstrip (c ∷ s) ≡ c ∷ rstrip s
unfolding rstrip
rstrip-kept c s h = ap (λ b. if b then "" else c ∷ rstrip s) h

rstrip_idem : (s : String) → rstrip (rstrip s) ≡ rstrip s
unfolding rstrip
rstrip_idem [] = refl
rstrip_idem (c ∷ s) = elim (Bool-cases (ends c s)) [
  | inl blank ↦ ap rstrip (rstrip-blank c s blank) ∙ sym (rstrip-blank c s blank)
  | inr kept ↦
      let again : ends c (rstrip s) ≡ false =
        ap (λ t. is_space (code c) && t == "") (rstrip_idem s) ∙ kept in
      ap rstrip (rstrip-kept c s kept)
      ∙ rstrip-kept c (rstrip s) again
      ∙ ap (λ t. c ∷ t) (rstrip_idem s)
      ∙ sym (rstrip-kept c s kept)
]

lstrip-rstrip : (s : String) → lstrip (rstrip (lstrip s)) ≡ rstrip (lstrip s)
unfolding lstrip rstrip
lstrip-rstrip [] = refl
lstrip-rstrip (c ∷ s) = elim (Bool-cases (is_space (code c))) [
  | inl space ↦
      subst (λ t. lstrip (rstrip t) ≡ rstrip t) (sym (lstrip-space c s space)) (lstrip-rstrip s)
  | inr other ↦
      let first : ends c s ≡ false = ap (λ b. b && rstrip s == "") other in
      subst (λ t. lstrip (rstrip t) ≡ rstrip t) (sym (lstrip-other c s other))
        (ap lstrip (rstrip-kept c s first)
          ∙ lstrip-other c (rstrip s) other
          ∙ sym (rstrip-kept c s first))
]

-- Stripping twice is stripping once.
pub strip_idem : (s : String) → strip (strip s) ≡ strip s
unfolding strip
strip_idem s = ap rstrip (lstrip-rstrip s) ∙ rstrip_idem (lstrip s)

-- `s or d` of an `str | None`: the empty text is false too.
abbrev pub str_or : Option String → String → String
str_or none d = d
str_or (some s) d = if s == "" then d else s

-- `len(s)`
abbrev pub chars : String → ℕ
chars [] = 0
chars (c ∷ s) = suc (chars s)

-- `s[n:]`
abbrev pub drop_chars : ℕ → String → String
drop_chars zero s = s
drop_chars (suc n) [] = []
drop_chars (suc n) (c ∷ s) = drop_chars n s

-- `s[:n]`
abbrev pub take_chars : ℕ → String → String
take_chars zero s = []
take_chars (suc n) [] = []
take_chars (suc n) (c ∷ s) = c ∷ take_chars n s

-- The characters of a text that pass a test on their code point.
abbrev pub keep_chars : (ℕ → Bool) → String → String
keep_chars p [] = []
keep_chars p (c ∷ s) = let rest = keep_chars p s in if p (code c) then c ∷ rest else rest

abbrev pub all_chars : (ℕ → Bool) → String → Bool
all_chars p [] = true
all_chars p (c ∷ s) = p (code c) && all_chars p s

-- `s[-n:]` for n > 0
abbrev pub last_chars : ℕ → String → String
last_chars n s = drop_chars (chars s - n) s

-- The bytes of a character in UTF-8.
abbrev pub utf8_bytes : ℕ → ℕ
utf8_bytes c = if ltb c 128 then 1 else if ltb c 2048 then 2 else if ltb c 65536 then 3 else 4

-- The characters that fit in a number of bytes.
abbrev pub utf8_prefix : ℕ → String → String
utf8_prefix n [] = ""
utf8_prefix n (c ∷ s) =
    let b = utf8_bytes (code c) in
    let rest = utf8_prefix (n - b) s in if leb b n then c ∷ rest else ""

pub drop_chars-append : (s t : String) → drop_chars (chars s) (s ++ t) ≡ t
drop_chars-append [] t = append.nil t
drop_chars-append (c ∷ s) t =
    ap (drop_chars (suc (chars s))) (append.cons c s t) ∙ drop_chars-append s t

pub chars-append : (s t : String) → chars (s ++ t) ≡ chars s + chars t
chars-append [] t = omega (arith, ap chars (append.nil t))
chars-append (c ∷ s) t = omega (arith, ap chars (append.cons c s t), chars-append s t)

-- Whether a text has a character, by its code point.
abbrev pub has_code : ℕ → String → Bool
has_code k s = not (all_chars (λ c. not (c == k)) s)

-- The text before the last occurrence of a character, or the whole text where it has none.
abbrev pub cut_last : ℕ → String → String
cut_last k [] = []
cut_last k (c ∷ s) =
    let rest = cut_last k s in if code c == k && not (has_code k s) then [] else c ∷ rest
