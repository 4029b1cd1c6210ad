-- ===== src/Prelude/Strings.antt =====
-- What the program uses of Go's `strings` package, on the bytes of a text.
use Prim.Native.Nat.{ℕ}
use mathlib.Core.Logic.{◌≢◌, inl, inr}
use mathlib.Core.Path.{◌≡◌, refl, ap, sym, ◌∙◌}
use mathlib.Core.Bool.{Bool, true, false, ◌&&◌, ◌||◌}
use mathlib.Core.List.{List, [], ◌∷◌, ◌++◌, reverse}
use native.Mathlib.Omega.{arith}
use kopiochi.Prelude.Tests.{Text, leb, ◌==◌, if◌then◌else◌, Bool-cases, is_empty, ==_refl, ==_iff}
use kopiochi.Prelude.Lists.{elem, All}

-- The white space of Unicode in UTF-8: the codes of one byte, of two and of three.
abbrev pub is_space : ℕ → Bool
is_space a = leb 9 a && leb a 13 || a == 32

abbrev pub is_space_pair : ℕ → ℕ → Bool
is_space_pair a b = a == 194 && (b == 133 || b == 160)

abbrev pub is_space_triple : ℕ → ℕ → ℕ → Bool
is_space_triple a b c =
    a == 225 && (b == 154 && c == 128)
    || (a == 226 && (b == 128 && (leb 128 c && leb c 138 || (c == 168 || (c == 169 || c == 175))))
        || (a == 226 && (b == 129 && c == 159) || a == 227 && (b == 128 && c == 128)))

-- Cuts white space off the front, with the tests for the codes of two and of three bytes.
trim_front : (ℕ → ℕ → Bool) → (ℕ → ℕ → ℕ → Bool) → Text → Text
trim_front pair triple [] = []
trim_front pair triple (a ∷ []) = if is_space a then [] else a ∷ []
trim_front pair triple (a ∷ b ∷ []) =
    let one = trim_front pair triple (b ∷ []) in
    if is_space a then one else if pair a b then [] else a ∷ b ∷ []
trim_front pair triple (a ∷ b ∷ c ∷ s) =
    let one = trim_front pair triple (b ∷ c ∷ s) in
    let two = trim_front pair triple (c ∷ s) in
    let three = trim_front pair triple s in
    if is_space a
    then one
    else if pair a b
    then two
    else if triple a b c
    then three
    else a ∷ b ∷ c ∷ s

-- strings.TrimSpace. The back is the front of the reversed text, which has each code reversed.
unfoldable pub trim_space : Text → Text
unfolding trim_front
trim_space s = reverse (
    trim_front (λ b a. is_space_pair a b) (λ c b a. is_space_triple a b c)
      (reverse (trim_front is_space_pair is_space_triple s)))

abbrev pub glue : ℕ → List Text → List Text
glue b [] = (b ∷ []) ∷ []
glue b (p ∷ ps) = (b ∷ p) ∷ ps

-- strings.Split at one byte.
unfoldable pub split : ℕ → Text → List Text
split sep [] = [] ∷ []
split sep (b ∷ s) = let rest = split sep s in if b == sep then [] ∷ rest else glue b rest

-- strings.Join with one byte.
unfoldable pub join : ℕ → List Text → Text
join sep [] = []
join sep (p ∷ []) = p
join sep (p ∷ q ∷ ps) = p ++ sep ∷ join sep (q ∷ ps)

-- strings.Contains of one byte.
abbrev pub has_byte : ℕ → Text → Bool
has_byte b s = elem b s

-- A text has a first part.
split-cons : (sep : ℕ) (s : Text) → (p : Text) × (ps : List Text) × (split sep s ≡ p ∷ ps)
unfolding split
split-cons sep [] = ([], [], refl)
split-cons sep (b ∷ s) = elim (Bool-cases (b == sep)) [
  | inl hit ↦ ([], split sep s, rw hit)
  | inr miss ↦ let (p, ps, e) = split-cons sep s in (b ∷ p, ps, rw miss (ap (glue b) e))
]

glue-append :
    (b sep : ℕ) (s : Text) (qs : List Text)
    → glue b (split sep s ++ qs) ≡ glue b (split sep s) ++ qs
glue-append b sep s qs = let (p, ps, e) = split-cons sep s in rw e

pub split-append : (sep : ℕ) (s t : Text) → split sep (s ++ sep ∷ t) ≡ split sep s ++ split sep t
unfolding split
split-append sep [] t = rw (==_refl sep)
split-append sep (b ∷ s) t = elim (Bool-cases (b == sep)) [
  | inl hit ↦ rw hit (ap (λ ps. [] ∷ ps) (split-append sep s t))
  | inr miss ↦ rw miss (ap (glue b) (split-append sep s t) ∙ glue-append b sep s (split sep t))
]

-- A text without the separator is one part.
pub split_free : (sep : ℕ) (s : Text) → has_byte sep s ≡ false → split sep s ≡ s ∷ []
unfolding split
split_free sep [] h = refl
split_free sep (b ∷ s) h = ground (arith, split_free sep s)

-- Parts without the separator are what Split makes of their Join.
pub split-join :
    (sep : ℕ) (p : Text) (ps : List Text)
    → All (λ q. has_byte sep q ≡ false) (p ∷ ps)
    → split sep (join sep (p ∷ ps)) ≡ p ∷ ps
unfolding join
split-join sep p [] h = split_free sep p h.0
split-join sep p (q ∷ ps) h =
    split-append sep p (join sep (q ∷ ps))
    ∙ (ap (λ x. x ++ split sep (join sep (q ∷ ps))) (split_free sep p h.0)
        ∙ ap (λ qs. p ∷ qs) (split-join sep q ps h.1))

abbrev emit : Text → List Text → List Text
emit [] fs = fs
emit (b ∷ s) fs = (b ∷ s) ∷ fs

-- `cur` is the field that is being read.
fields_from : Text → Text → List Text
fields_from cur [] = emit cur []
fields_from cur (a ∷ []) = if is_space a then emit cur [] else emit (cur ++ a ∷ []) []
fields_from cur (a ∷ b ∷ []) =
    let next = fields_from [] (b ∷ []) in
    let on = fields_from (cur ++ a ∷ []) (b ∷ []) in
    if is_space a then emit cur next else if is_space_pair a b then emit cur [] else on
fields_from cur (a ∷ b ∷ c ∷ s) =
    let one = fields_from [] (b ∷ c ∷ s) in
    let two = fields_from [] (c ∷ s) in
    let three = fields_from [] s in
    let on = fields_from (cur ++ a ∷ []) (b ∷ c ∷ s) in
    if is_space a
    then emit cur one
    else if is_space_pair a b
    then emit cur two
    else if is_space_triple a b c
    then emit cur three
    else on

-- strings.Fields
unfoldable pub fields : Text → List Text
unfolding fields_from
fields s = fields_from [] s

pub has_byte-append :
    (b : ℕ) (s t : Text) → has_byte b s ≡ false → has_byte b t ≡ false → has_byte b (s ++ t) ≡ false
has_byte-append b [] t h k = k
has_byte-append b (c ∷ s) t h k = ground (arith, has_byte-append b s t)

module _ (b : ℕ) (space : is_space b ≡ true) where
  abbrev Free : List Text → Type 0
  Free fs = All (λ f. has_byte b f ≡ false) fs

  emit-Free : (cur : Text) (fs : List Text) → has_byte b cur ≡ false → Free fs → Free (emit cur fs)
  emit-Free [] fs h k = k
  emit-Free (c ∷ s) fs h k = (h, k)

  no_space : (a : ℕ) → is_space a ≡ false → has_byte b (a ∷ []) ≡ false
  no_space a h = elim (Bool-cases (b == a)) [
    | inl same ↦ let e = (==_iff b a).0 same in cc (sym space ∙ (ap is_space e ∙ h))
    | inr other ↦ rw other refl
  ]

  fields_from-Free : (cur s : Text) → has_byte b cur ≡ false → Free (fields_from cur s)
  unfolding fields_from
  fields_from-Free cur [] h = emit-Free cur [] h tt
  fields_from-Free cur (a ∷ []) h = elim (Bool-cases (is_space a)) [
    | inl hit ↦ rw hit (emit-Free cur [] h tt)
    | inr miss ↦
        rw miss
          (emit-Free (cur ++ a ∷ []) [] (has_byte-append b cur (a ∷ []) h (no_space a miss)) tt)
  ]
  fields_from-Free cur (a ∷ x ∷ []) h = elim (Bool-cases (is_space a)) [
    | inl hit ↦ rw hit (emit-Free cur _ h (fields_from-Free [] (x ∷ []) refl))
    | inr miss ↦ rw miss (elim (Bool-cases (is_space_pair a x)) [
      | inl two ↦ rw two (emit-Free cur [] h tt)
      | inr on ↦ rw on (
          fields_from-Free (cur ++ a ∷ []) (x ∷ [])
            (has_byte-append b cur (a ∷ []) h (no_space a miss)))
    ])
  ]
  fields_from-Free cur (a ∷ x ∷ y ∷ s) h = elim (Bool-cases (is_space a)) [
    | inl hit ↦ rw hit (emit-Free cur _ h (fields_from-Free [] (x ∷ y ∷ s) refl))
    | inr miss ↦ rw miss (elim (Bool-cases (is_space_pair a x)) [
      | inl two ↦ rw two (emit-Free cur _ h (fields_from-Free [] (y ∷ s) refl))
      | inr not_two ↦ rw not_two (elim (Bool-cases (is_space_triple a x y)) [
        | inl three ↦ rw three (emit-Free cur _ h (fields_from-Free [] s refl))
        | inr on ↦ rw on (
            fields_from-Free (cur ++ a ∷ []) (x ∷ y ∷ s)
              (has_byte-append b cur (a ∷ []) h (no_space a miss)))
      ])
    ])
  ]

-- No field of a text has a byte that is white space.
pub fields_free :
    (b : ℕ) (s : Text) → is_space b ≡ true → All (λ f. has_byte b f ≡ false) (fields s)
unfolding fields
fields_free b s space = fields_from-Free b space [] s refl

pub join_free :
    (b sep : ℕ) (ps : List Text)
    → (b == sep) ≡ false
    → All (λ p. has_byte b p ≡ false) ps
    → has_byte b (join sep ps) ≡ false
unfolding join
join_free b sep [] n h = refl
join_free b sep (p ∷ []) n h = h.0
join_free b sep (p ∷ q ∷ ps) n h =
    has_byte-append b p (sep ∷ join sep (q ∷ ps)) h.0 (rw n (join_free b sep (q ∷ ps) n h.1))

pub is_empty-ne : (s : Text) → s ≢ [] → is_empty s ≡ false
is_empty-ne [] n = elim (n refl) [ ]
is_empty-ne (b ∷ s) n = refl

pub is_empty-nil : (s : Text) → is_empty s ≡ true → s ≡ []
is_empty-nil [] h = refl
is_empty-nil (b ∷ s) h = cc

pub is_empty-false : (s : Text) → is_empty s ≡ false → s ≢ []
is_empty-false [] h e = cc
is_empty-false (b ∷ s) h e = cc
