-- ===== src/Notification/Domain/Truncate.antt =====
-- modules/notification/domain/notification.go: `truncateReason`, with utf8.ValidString of the
-- standard library written out over the bytes.
use kopiochi.Prelude.{
  ℕ, zero, suc, ◌-◌, Bool, true, false, ◌&&◌, [], ◌∷◌, Text, ltb, leb, ◌==◌, if◌then◌else◌, length,
  take,
}

-- maxLastErrorLen
abbrev pub max_last_error_len : ℕ
max_last_error_len = 512

-- A byte in a range, both ends included.
abbrev pub is_in : ℕ → ℕ → ℕ → Bool
is_in lo hi b = leb lo b && leb b hi

-- The range of a sequence's second byte, by its first (RFC 3629); the rest are 0x80 to 0xBF.
abbrev pub second_lo : ℕ → ℕ
second_lo b = if b == 0xE0 then 0xA0 else if b == 0xF0 then 0x90 else 0x80

abbrev pub second_hi : ℕ → ℕ
second_hi b = if b == 0xED then 0x9F else if b == 0xF4 then 0x8F else 0xBF

-- How many bytes the sequence that starts with this byte has; 0 if none starts so.
abbrev pub sequence_length : ℕ → ℕ
sequence_length b =
    if ltb b 0x80
    then 1
    else if is_in 0xC2 0xDF b
    then 2
    else if is_in 0xE0 0xEF b
    then 3
    else if is_in 0xF0 0xF4 b
    then 4
    else 0

-- utf8.ValidString: `need` continuation bytes are outstanding, the next of them within the range.
unfoldable pub valid_from : ℕ → ℕ → ℕ → Text → Bool
valid_from zero lo hi [] = true
valid_from (suc need) lo hi [] = false
valid_from zero lo hi (b ∷ s) =
    ltb 0 (sequence_length b) && valid_from (sequence_length b - 1) (second_lo b) (second_hi b) s
valid_from (suc need) lo hi (b ∷ s) = is_in lo hi b && valid_from need 0x80 0xBF s

unfoldable pub valid_string : Text → Bool
unfolding valid_from
valid_string s = valid_from 0 0 0 s

-- `for len(cut) > 0 && !utf8.ValidString(cut) { cut = cut[:len(cut)-1] }`, where `n` is len(cut)
-- and the cut is the first `n` bytes of `s`.
unfoldable pub shrink : ℕ → Text → Text
shrink zero s = take 0 s
shrink (suc n) s =
    let shorter = shrink n s in if valid_string (take (suc n) s) then take (suc n) s else shorter

-- truncateReason
unfoldable pub truncate_reason : Text → Text
unfolding shrink
truncate_reason s = if leb (length s) max_last_error_len then s else shrink max_last_error_len s
