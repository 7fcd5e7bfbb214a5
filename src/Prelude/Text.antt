-- ===== src/Prelude/Text.antt =====
-- What the code uses of `str`: the numbers that `parse::<usize>` reads, over the characters.
use Prim.Native.Nat.{ℕ, ◌+◌, ◌-◌, ◌*◌, ◌^◌}
use Prim.Native.Char.{Char, code}
use Prim.Native.String.{String, ◌++◌ as ◌<>◌}
use mathlib.Core.Path.{◌≡◌, refl, ap, sym, subst, ◌∙◌}
use mathlib.Core.Logic.{◌≢◌, inl, inr}
use mathlib.Core.Bool.{Bool, false, ◌&&◌, ◌||◌}
use mathlib.Core.Option.{Option, none, some}
use mathlib.Core.List.{List, [], ◌∷◌}
use text.Mathlib.Text.{starts_with}
use text.Mathlib.TextLemmas.{nil-append, cons-append, append_assoc}
use text.Mathlib.TextEquality.{Char-path}
use native.Mathlib.Omega.{arith}
use krustlet.Prelude.Tests.{ltb, leb, if◌then◌else◌, Bool-cases, Option-cases, some-injective}
use krustlet.Prelude.Lists.{List-cases}
use krustlet.Prelude.Equality.{◌==◌, nat_eq, string_eq}
use krustlet.Prelude.{◌≢◌}

-- A `usize` of a 64-bit machine.
abbrev pub usize_limit : ℕ
usize_limit = 2 ^ 64

parse_digits : ℕ → String → Option ℕ
parse_digits n String.[] = if ltb n usize_limit then some n else none
parse_digits n (String.◌∷◌ c s) =
    let rest = parse_digits (n * 10 + (code c - 48)) s in
    if leb 48 (code c) && leb (code c) 57 then rest else none

unsigned : String → Option ℕ
unsigned String.[] = none
unsigned (String.◌∷◌ c s) = parse_digits 0 (String.◌∷◌ c s)

-- An optional sign, then digits; `none` stands for the error.
unfoldable pub parse_usize : String → Option ℕ
unfolding parse_digits unsigned
parse_usize String.[] = none
parse_usize (String.◌∷◌ c s) = if code c == b'+' then unsigned s else unsigned (String.◌∷◌ c s)

-- `splitn(2, c)`: what stands before and after the first `c`, or `none` where there is no `c`.
unfoldable pub split_once : ℕ → String → Option (String × String)
split_once c String.[] = none
split_once c (String.◌∷◌ d s) =
    let rest = split_once c s in
    if code d == c
    then some (String.[], s)
    else elim rest [ some (before, after) ↦ some (String.◌∷◌ d before, after) | none ↦ none ]

-- A character before the first of some parts.
abbrev pub attach : Char → List String → List String
attach d [] = String.◌∷◌ d String.[] ∷ []
attach d (part ∷ parts) = String.◌∷◌ d part ∷ parts

-- `str::split(c)`
unfoldable pub split : ℕ → String → List String
split c String.[] = String.[] ∷ []
split c (String.◌∷◌ d s) =
    let rest = split c s in if code d == c then String.[] ∷ rest else attach d rest

-- `char::is_whitespace`: the characters with the property White_Space.
abbrev pub is_whitespace : ℕ → Bool
is_whitespace c =
    (leb 9 c && leb c 13)
    || c == 32
    || c == 0x85
    || c == 0xa0
    || c == 0x1680
    || (leb 0x2000 c && leb c 0x200a)
    || c == 0x2028
    || c == 0x2029
    || c == 0x202f
    || c == 0x205f
    || c == 0x3000

unfoldable pub trim_start : String → String
trim_start String.[] = String.[]
trim_start (String.◌∷◌ d s) =
    let rest = trim_start s in if is_whitespace (code d) then rest else String.◌∷◌ d s

unfoldable pub trim_end : String → String
trim_end String.[] = String.[]
trim_end (String.◌∷◌ d s) =
    let rest = trim_end s in
    if is_whitespace (code d) && rest == "" then String.[] else String.◌∷◌ d rest

-- `str::trim`
abbrev pub trim : String → String
trim s = trim_end (trim_start s)

-- Whether a text has a character.
unfoldable pub has_char : ℕ → String → Bool
has_char c String.[] = false
has_char c (String.◌∷◌ d s) = code d == c || has_char c s

unfoldable pub ends_with_char : ℕ → String → Bool
ends_with_char c String.[] = false
ends_with_char c (String.◌∷◌ d s) =
    let rest = ends_with_char c s in if s == "" then code d == c else rest

-- `Path::join`: an absolute path stands for itself.
unfoldable pub join : String → String → String
join dir path =
    if starts_with path "/"
    then path
    else if dir == "" || ends_with_char b'/' dir
    then dir <> path
    else dir <> ("/" <> path)

-- What `split_once` gives of a text that was put together.
pub split_once-join :
    (c : Char) (before after : String)
    → has_char (code c) before ≡ false
    → split_once (code c) (before <> String.◌∷◌ c after) ≡ some (before, after)
unfolding split_once has_char
split_once-join c String.[] after h = rw (nil-append (String.◌∷◌ c after)) (ground arith)
split_once-join c (String.◌∷◌ d before) after h =
    rw (cons-append d before (String.◌∷◌ c after))
      (ground (arith, h, split_once-join c before after))

split_once_here :
    (c d : Char) (s : String) {before after : String}
    → code d ≡ code c
    → ◌≡◌ {A = Option (String × String)} (some (String.[], s)) (some (before, after))
    → (String.◌∷◌ d s ≡ (before <> String.◌∷◌ c after)) × (has_char (code c) before ≡ false)
unfolding has_char
split_once_here c d s {before} {after} e h =
    let same : ◌≡◌ {A = String × String} (String.[], s) (before, after) = some-injective h in
    subst
      (λ (p : String × String).
        (String.◌∷◌ d s ≡ (p.0 <> String.◌∷◌ c p.1)) × (has_char (code c) p.0 ≡ false))
      same
      (
        ap (λ (x : Char). String.◌∷◌ x s) (Char-path d c e) ∙ sym (nil-append (String.◌∷◌ c s)),
        refl,
      )

-- And what it was put together of.
pub split_once-some :
    (c : Char) (s : String) (before after : String)
    → split_once (code c) s ≡ some (before, after)
    → (s ≡ (before <> String.◌∷◌ c after)) × (has_char (code c) before ≡ false)
unfolding split_once has_char
split_once-some c String.[] before after h = cc
split_once-some c (String.◌∷◌ d s) before after h = elim (Bool-cases (code d == code c)) [
  | inl e ↦ split_once_here c d s (ground (arith, e)) (ground (arith, e, h))
  | inr e ↦ elim (Option-cases (split_once (code c) s)) [
    | inl e' ↦ absurd (ground (arith, e, e', h))
    | inr (p, e') ↦
        let (s_is, none_before) = split_once-some c s p.0 p.1 e' in
        let same : ◌≡◌ {A = String × String} (String.◌∷◌ d p.0, p.1) (before, after) =
          some-injective (ground (arith, e, e', h)) in
        subst
          (λ (q : String × String).
            (String.◌∷◌ d s ≡ (q.0 <> String.◌∷◌ c q.1)) × (has_char (code c) q.0 ≡ false))
          same
          (
            ap (String.◌∷◌ d) s_is ∙ sym (cons-append d p.0 (String.◌∷◌ c p.1)),
            ground (arith, e, none_before),
          )
  ]
]

-- What `split` gives of a text that was put together.
pub split-append :
    (c : Char) (before after : String)
    → has_char (code c) before ≡ false
    → split (code c) (before <> String.◌∷◌ c after) ≡ before ∷ split (code c) after
unfolding split has_char
split-append c String.[] after h = rw (nil-append (String.◌∷◌ c after)) (ground arith)
split-append c (String.◌∷◌ d before) after h =
    rw (cons-append d before (String.◌∷◌ c after)) (ground (arith, h, split-append c before after))

pub append_slash : (a t : String) → (a <> "/") <> t ≡ a <> String.◌∷◌ "/" t
append_slash a t =
    append_assoc a "/" t
    ∙ ap (λ x. a <> x) (cons-append "/" "" t ∙ ap (String.◌∷◌ "/") (nil-append t))

pub split-nonempty : (c : ℕ) (s : String) → split c s ≢ []
unfolding split
split-nonempty c String.[] h = absurd (ground (arith, h))
split-nonempty c (String.◌∷◌ d s) h = elim (Bool-cases (code d == c)) [
  | inl e ↦ absurd (ground (arith, e, h))
  | inr e ↦ elim (List-cases (split c s)) [
    | inl q ↦ absurd (ground (arith, e, q, h))
    | inr (x, rest, q) ↦ absurd (ground (arith, e, q, h))
  ]
]

-- A text that `split` leaves whole.
pub split-single :
    (c : ℕ) (s part : String) → split c s ≡ part ∷ [] → (part ≡ s) × (has_char c s ≡ false)
unfolding split has_char
split-single c String.[] part h = (let same : part ≡ String.[] = cc in same, refl)
split-single c (String.◌∷◌ d s) part h = elim (Bool-cases (code d == c)) [
  | inl e ↦
      let none_left : split c s ≡ [] = ground (arith, e, h) in absurd (split-nonempty c s none_left)
  | inr e ↦ elim (List-cases (split c s)) [
    | inl q ↦ absurd (split-nonempty c s q)
    | inr (x, rest, q) ↦
        let h' : String.◌∷◌ d x ∷ rest ≡ part ∷ [] = ground (arith, e, q, h) in
        let rest_is : rest ≡ [] = cc in
        let part_is : part ≡ String.◌∷◌ d x = cc in
        let (x_is, none_in) = split-single c s x (q ∙ ap (λ ys. x ∷ ys) rest_is) in
        (part_is ∙ ap (String.◌∷◌ d) x_is, ground (arith, e, none_in))
  ]
]
