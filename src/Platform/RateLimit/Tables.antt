-- ===== src/Platform/RateLimit/Tables.antt =====
-- The table of buckets of internal/httpx/ratelimit.go as a map.
use kopiochi.Prelude.{
  suc, ◌≤◌, ◌≡◌, refl, ap, sym, ◌∙◌, inl, inr, true, false, Bool-cases, some, [], ◌∷◌, length, All,
  Text, arith, text_eq, text_eq→eq, text_eq_refl, if◌then◌else◌,
}
use kopiochi.Platform.RateLimit.{Bucket, Table, find_bucket, put_bucket}

flipped : (a b : Text) → text_eq a b ≡ false → text_eq b a ≡ false
flipped a b h = elim (Bool-cases (text_eq b a)) [
  | inl e ↦ cc (sym (text_eq_refl a) ∙ (ap (text_eq a) (sym (text_eq→eq b a e)) ∙ h))
  | inr e ↦ e
]

differ : (a b k : Text) → text_eq a b ≡ false → text_eq a k ≡ true → text_eq b k ≡ false
differ a b k other hit = ap (text_eq b) (sym (text_eq→eq a k hit)) ∙ flipped a b other

module _ {F : Type 0} where
  -- No entry has the key.
  abbrev pub Absent : Text → Table F → Type 0
  Absent key t = All (λ (p : Text × Bucket F). text_eq p.0 key ≡ false) t

  -- No key has two entries.
  abbrev pub KeysUnique : Table F → Type 0
  KeysUnique [] = Unit
  KeysUnique (p ∷ t) = Absent p.0 t × KeysUnique t

  pub find-put :
      (key k : Text) (b : Bucket F) (t : Table F)
      → find_bucket k (put_bucket key b t) ≡ (if text_eq key k then some b else find_bucket k t)
  unfolding find_bucket put_bucket
  find-put key k b [] = refl
  find-put key k b (p ∷ t) = elim (Bool-cases (text_eq p.0 key)) [
    | inl same ↦ rw same (rw (text_eq→eq p.0 key same) (ground arith))
    | inr other ↦ elim (Bool-cases (text_eq p.0 k)) [
      | inl hit ↦
          let apart : text_eq key k ≡ false = differ p.0 key k other hit in
          rw other (rw hit (rw apart refl))
      | inr miss ↦ rw other (rw miss (find-put key k b t))
    ]
  ]

  pub length-put_found :
      (key : Text) (b b' : Bucket F) (t : Table F)
      → find_bucket key t ≡ some b'
      → length (put_bucket key b t) ≡ length t
  unfolding find_bucket put_bucket
  length-put_found key b b' [] h = cc
  length-put_found key b b' (p ∷ t) h = ground (arith, length-put_found key b b' t)

  pub length-put :
      (key : Text) (b : Bucket F) (t : Table F) → length (put_bucket key b t) ≤ suc (length t)
  unfolding put_bucket
  length-put key b [] = ground arith
  length-put key b (p ∷ t) = ground (arith, length-put key b t)

  pub put-Absent :
      (key k : Text) (b : Bucket F) (t : Table F)
      → text_eq key k ≡ false
      → Absent k t
      → Absent k (put_bucket key b t)
  unfolding put_bucket
  put-Absent key k b [] n h = (n, tt)
  put-Absent key k b (p ∷ t) n h = elim (Bool-cases (text_eq p.0 key)) [
    | inl same ↦ rw same (n, h.1)
    | inr other ↦ rw other (h.0, put-Absent key k b t n h.1)
  ]

  pub put-KeysUnique :
      (key : Text) (b : Bucket F) (t : Table F) → KeysUnique t → KeysUnique (put_bucket key b t)
  unfolding put_bucket
  put-KeysUnique key b [] h = (tt, tt)
  put-KeysUnique key b (p ∷ t) h = elim (Bool-cases (text_eq p.0 key)) [
    | inl same ↦ rw same (rw (← text_eq→eq p.0 key same) h)
    | inr other ↦
        rw other (put-Absent key p.0 b t (flipped p.0 key other) h.0, put-KeysUnique key b t h.1)
  ]

  pub put-All {κ} :
      (P : Bucket F → Type κ) (key : Text) (b : Bucket F) (t : Table F)
      → P b
      → All (λ (p : Text × Bucket F). P p.1) t
      → All (λ (p : Text × Bucket F). P p.1) (put_bucket key b t)
  unfolding put_bucket
  put-All P key b [] h a = (h, tt)
  put-All P key b (p ∷ t) h a = elim (Bool-cases (text_eq p.0 key)) [
    | inl same ↦ rw same (h, a.1)
    | inr other ↦ rw other (a.0, put-All P key b t h a.1)
  ]

  pub find-All {κ} :
      (P : Bucket F → Type κ) (key : Text) (b : Bucket F) (t : Table F)
      → find_bucket key t ≡ some b
      → All (λ (p : Text × Bucket F). P p.1) t
      → P b
  unfolding find_bucket
  find-All P key b [] h a = cc
  find-All P key b (p ∷ t) h a = elim (Bool-cases (text_eq p.0 key)) [
    | inl same ↦
        let e : some p.1 ≡ some b =
          sym (ap (λ c. if c then some p.1 else find_bucket key t) same) ∙ h in
        let e' : p.1 ≡ b = cc in rw (← e') a.0
    | inr other ↦
        find-All P key b t (sym (ap (λ c. if c then some p.1 else find_bucket key t) other) ∙ h) a.1
  ]
