-- ===== src/Notification/Domain/Reason.antt =====
-- What `truncateReason` of modules/notification/domain/notification.go keeps of a failure reason.
use kopiochi.Prelude.{
  dec_lt, ℕ, zero, suc, ◌+◌, ◌-◌, ◌≤◌, ◌<◌, ◌≡◌, refl, ◌⊎◌, inl, inr, true, false, [], ◌∷◌, ◌++◌,
  Text, arith, leb, length, take, ℕ_discrete, Bool-cases,
}
use kopiochi.Notification.Domain.Truncate.{
  max_last_error_len, sequence_length, second_lo, second_hi, valid_from, valid_string, shrink,
  truncate_reason,
}

-- A cut that fits and is valid, with no longer one below the bound.
abbrev IsLongestCut : ℕ → Text → Text → Type 0
IsLongestCut bound s t =
    (k : ℕ) × (k ≤ bound)
    × (t ≡ take k s)
    × (valid_string t ≡ true)
    × ((j : ℕ) → k < j → j ≤ bound → valid_string (take j s) ≡ false)

-- One more length is checked, and is not valid.
longer :
    (k n : ℕ) (s : Text)
    → ((j : ℕ) → k < j → j ≤ n → valid_string (take j s) ≡ false)
    → valid_string (take (suc n) s) ≡ false
    → (j : ℕ) → k < j
    → j ≤ suc n
    → valid_string (take j s) ≡ false
longer k n s h e j p q = elim (ℕ_discrete j (suc n)) [
  | yes top ↦ rw top e
  | no below ↦ h j p (omega arith)
]

shrink-IsLongestCut : (n : ℕ) (s : Text) → IsLongestCut n s (shrink n s)
unfolding shrink valid_string valid_from
shrink-IsLongestCut zero s = (0, omega arith, refl, refl, λ j p q. absurd (omega arith))
shrink-IsLongestCut (suc n) s = elim (Bool-cases (valid_string (take (suc n) s))) [
  | inl good ↦ (suc n, omega arith, rw good, rw good good, λ j p q. absurd (omega arith))
  | inr bad ↦
      let (k, below, cut, valid, longest) = shrink-IsLongestCut n s in
      (k, omega arith, rw bad cut, rw bad valid, longer k n s longest bad)
]

truncate_reason_lem :
    (s : Text)
    → ((length s ≤ max_last_error_len) × (truncate_reason s ≡ s))
      ⊎ ((max_last_error_len < length s) × IsLongestCut max_last_error_len s (truncate_reason s))
unfolding truncate_reason
truncate_reason_lem s = elim (Bool-cases (leb (length s) max_last_error_len)) [
  | inl short ↦ inl (ground arith, rw short)
  | inr long ↦ inr (ground arith, rw long (shrink-IsLongestCut 512 s))
]

-- A reason of at most 512 bytes is kept as it is, valid or not. Of a longer one a prefix is kept that
-- has at most 512 bytes and is valid UTF-8, and no valid prefix of at most 512 bytes is longer.
pub truncate_reason_longest :
    (s : Text) (j : ℕ)
    → j ≤ max_last_error_len
    → valid_string (take j s) ≡ true
    → ((length s ≤ max_last_error_len) × (truncate_reason s ≡ s))
      ⊎ ((max_last_error_len < length s)
          × (k : ℕ) × (k ≤ max_last_error_len)
          × (j ≤ k)
          × (truncate_reason s ≡ take k s)
          × (valid_string (truncate_reason s) ≡ true))
truncate_reason_longest s j below good = elim (truncate_reason_lem s) [
  | inl short ↦ inl short
  | inr (long, c) ↦ inr (long, c.0, c.1, at_least c.0 c.4, c.2, c.3)
]
  where
    at_least :
        (k : ℕ)
        → ((i : ℕ) → k < i → i ≤ max_last_error_len → valid_string (take i s) ≡ false)
        → j ≤ k
    at_least k none_longer = elim (dec_lt k j) [
      | yes over ↦ let e = none_longer j over below in cc
      | no under ↦ omega arith
    ]

-- A sequence has at most four bytes.
continuation_le : (b : ℕ) → sequence_length b - 1 ≤ 3
continuation_le b = ground arith

-- Below any length of a valid string there is a valid cut at most three bytes shorter.
near_cut :
    (need lo hi n : ℕ) (s : Text)
    → valid_from need lo hi s ≡ true
    → need ≤ n
    → n ≤ length s
    → (k : ℕ) × (k ≤ n) × (n ≤ k + 3) × (valid_from need lo hi (take k s) ≡ true)
unfolding valid_from
near_cut zero lo hi zero s v h l = (0, omega arith, omega arith, refl)
near_cut (suc need) lo hi n [] v h l = cc
near_cut zero lo hi (suc n) [] v h l = absurd (omega arith)
near_cut (suc need) lo hi zero (b ∷ s) v h l = absurd (omega arith)
near_cut (suc need) lo hi (suc n) (b ∷ s) v h l =
    let (k, below, near, good) =
      near_cut need 0x80 0xBF n s (ground arith) (omega arith) (omega arith) in
    (suc k, omega arith, omega arith, ground arith)
near_cut zero lo hi (suc n) (b ∷ s) v h l = elim (dec_lt n (sequence_length b - 1)) [
  | yes inside ↦ (0, omega arith, omega (arith, continuation_le b), refl)
  | no past ↦
      let (k, below, near, good) =
        near_cut (sequence_length b - 1) (second_lo b) (second_hi b) n s (ground arith)
          (omega arith) (omega arith) in
      (suc k, omega arith, omega arith, ground arith)
]

longest_near :
    (s : Text) (k : ℕ)
    → valid_string s ≡ true
    → max_last_error_len ≤ length s
    → ((j : ℕ) → k < j → j ≤ max_last_error_len → valid_string (take j s) ≡ false)
    → 509 ≤ k
unfolding valid_string
longest_near s k v long longest =
    let (j, below, near, good) = near_cut 0 0 0 512 s v (omega arith) long in
    elim (dec_lt k j) [ yes more ↦ let e = longest j more below in cc | no less ↦ omega arith ]

-- A valid reason stays valid UTF-8 and loses at most the rune that the limit splits: what is kept
-- is a prefix of at most 512 bytes, and of at least 509 if anything was cut off.
truncate_reason_valid :
    (s : Text)
    → valid_string s ≡ true
    → (valid_string (truncate_reason s) ≡ true)
      × ((truncate_reason s ≡ s)
          ⊎ ((k : ℕ) × (509 ≤ k) × (k ≤ 512) × (truncate_reason s ≡ take k s)))
truncate_reason_valid s v = elim (truncate_reason_lem s) [
  | inl (short, e) ↦ (rw e v, inl e)
  | inr (long, c) ↦ (c.3, inr (c.0, longest_near s c.0 v (omega arith) c.4, c.1, c.2))
]

-- A byte that no valid UTF-8 holds.
abbrev pub IsNever : ℕ → Type 0
IsNever b = (b ≡ 0xC0) ⊎ ((b ≡ 0xC1) ⊎ (0xF5 ≤ b))

never_starts : (b : ℕ) → IsNever b → (sequence_length b ≡ 0) × (0xBF < b)
never_starts b (inl e) = rw e (refl, omega arith)
never_starts b (inr (inl e)) = rw e (refl, omega arith)
never_starts b (inr (inr h)) = (ground arith, omega arith)

never_valid :
    (need lo hi b j : ℕ) (p r : Text)
    → sequence_length b ≡ 0
    → 0xBF < b
    → hi ≤ 0xBF
    → length p < j
    → valid_from need lo hi (take j (p ++ b ∷ r)) ≡ false
unfolding valid_from
never_valid need lo hi b zero p r x y h l = absurd (omega arith)
never_valid zero lo hi b (suc j) [] r x y h l = ground arith
never_valid (suc need) lo hi b (suc j) [] r x y h l = ground arith
never_valid zero lo hi b (suc j) (c ∷ p) r x y h l =
    let rest =
      never_valid (sequence_length c - 1) (second_lo c) (second_hi c) b j p r x y (ground arith)
        (omega arith) in
    ground arith
never_valid (suc need) lo hi b (suc j) (c ∷ p) r x y h l =
    let rest = never_valid need 0x80 0xBF b j p r x y (omega arith) (omega arith) in ground arith

-- A reason of over 512 bytes that holds a byte which UTF-8 never has (0xC0, 0xC1, or one from 0xF5 on)
-- loses all of the text behind that byte, however early it stands: the cut ends before it.
pub truncate_reason_invalid :
    (p r : Text) (b : ℕ)
    → IsNever b
    → max_last_error_len < length (p ++ b ∷ r)
    → (k : ℕ) × (k ≤ length p) × (truncate_reason (p ++ b ∷ r) ≡ take k (p ++ b ∷ r))
unfolding valid_string
truncate_reason_invalid p r b x long = elim (truncate_reason_lem (p ++ b ∷ r)) [
  | inl (short, e) ↦ absurd (omega arith)
  | inr (over, c) ↦ elim (dec_lt (length p) c.0) [
    | yes past ↦
        let good = rw c.2 at c.3 in
        let (length_0, above) = never_starts b x in
        let bad = never_valid 0 0 0 b c.0 p r length_0 above (omega arith) past in cc
    | no before ↦ (c.0, omega arith, c.2)
  ]
]
