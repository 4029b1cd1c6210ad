-- ===== src/Platform/Examples/StackCases.antt =====
-- The theorems on the shutdown stack and the database errors at concrete inputs.
use kopiochi.Prelude.{ℕ, suc, ◌≡◌, refl, true, ◌⊎◌, none, some, [], ◌∷◌, map, codes, ◌↔◌}
use kopiochi.Platform.Lifecycle.{Stack, push, shutdown}
use kopiochi.Platform.Lifecycle.Order.{traced, Leads, shutdown_lem}
use kopiochi.Platform.DbErrors.{
  Error, pg_error, wraps, conflict, is_sentinel, is_no_rows, pg_code, translate_error, is_retryable,
}
use kopiochi.Platform.DbErrors.Classes.{translate_lem}

-- The world counts the closers that ran; the second one fails.
abbrev two_closers : Stack ℕ
two_closers =
    record { name = 1 ∷ []; close = λ w. (suc w, none) }
    ∷ record { name = 2 ∷ []; close = λ w. (suc w, some (7 ∷ [])) }
    ∷ []

shutdown_lem_example :
    (shutdown (map traced two_closers) (0, [])
      ≡ (((shutdown two_closers 0).0, (2 ∷ []) ∷ (1 ∷ []) ∷ []), (shutdown two_closers 0).1))
    × ((shutdown (push two_closers (3 ∷ []) (λ w. (suc w, some (8 ∷ [])))) 0).0
        ≡ (shutdown two_closers 1).0)
    × Leads
        (3 ∷ [])
        (some (8 ∷ []))
        (shutdown two_closers 1).1
        (shutdown (push two_closers (3 ∷ []) (λ w. (suc w, some (8 ∷ [])))) 0).1
shutdown_lem_example = shutdown_lem two_closers 0 (3 ∷ []) (λ w. (suc w, some (8 ∷ [])))

-- A unique violation under the text that a repository adds.
abbrev duplicate : Error
duplicate = wraps (codes "insert") (pg_error (codes "23505"))

translate_lem_example :
    (pg_code (translate_error duplicate) ≡ pg_code duplicate)
    × ((is_sentinel conflict (translate_error duplicate) ≡ true)
        ↔ (pg_code duplicate ≡ some (codes "23505")))
    × ((is_retryable (translate_error duplicate) ≡ true)
        ↔ ((pg_code duplicate ≡ some (codes "40001")) ⊎ (pg_code duplicate ≡ some (codes "40P01"))))
translate_lem_example =
    translate_lem duplicate (unfold is_no_rows in refl) (unfold is_sentinel in refl)
      (unfold is_sentinel in refl)
