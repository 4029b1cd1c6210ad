-- ===== src/Platform/Lifecycle/Order.antt =====
-- Shutdown of internal/lifecycle/stack.go closes everything, in the reverse order.
use mathlib.Core.Path.{subst}
use kopiochi.Prelude.{
  ◌≡◌, refl, ap, sym, ◌∙◌, ◌⊎◌, inl, inr, none, some, Option, List, [], ◌∷◌, ◌++◌, map, Text,
}
use mathlib.Core.List.{reverse, append_assoc, append-nil, map-append, reverse-cons, reverse-append}
use kopiochi.Platform.Lifecycle.{Entry, Stack, push, noted, close_all, shutdown}

map-reverse {ℓ κ} :
    {A : Type ℓ} {B : Type κ} (f : A → B) (xs : List A) → map f (reverse xs) ≡ reverse (map f xs)
map-reverse f [] = refl
map-reverse f (x ∷ xs) =
    ap (map f) (reverse-cons x xs)
    ∙ (map-append f (reverse xs) (x ∷ [])
        ∙ (ap (λ ys. ys ++ f x ∷ []) (map-reverse f xs) ∙ sym (reverse-cons (f x) (map f xs))))

-- The errors of a shutdown that began with this closer: its own, under its name, if it failed, and
-- those of the others, in their order.
abbrev pub Leads : Text → Option Text → List (Text × Text) → List (Text × Text) → Type 0
Leads name failed rest errs =
    ((failed ≡ none) × (errs ≡ rest)) ⊎ ((e : Text) × (failed ≡ some e) × (errs ≡ (name, e) ∷ rest))

noted-Leads :
    (name : Text) (failed : Option Text) (rest : List (Text × Text))
    → Leads name failed rest (noted name failed rest)
noted-Leads name none rest = inl (refl, refl)
noted-Leads name (some e) rest = inr (e, refl, refl)

module _ {W : Type 0} where
  -- The closer with a list of the names of those that ran, in the order of their runs.
  abbrev pub traced : Entry W → Entry (W × List Text)
  traced e = record {
    name = e.name;
    close = λ x. let (w, failed) = e.close x.0 in ((w, x.1 ++ e.name ∷ []), failed);
  }

  abbrev names : List (Entry W) → List Text
  names es = map (λ (e : Entry W). e.name) es

  close_all-traced :
      (es : List (Entry W)) (w : W) (ran : List Text)
      → close_all (map traced es) (w, ran)
        ≡ (((close_all es w).0, ran ++ names es), (close_all es w).1)
  unfolding close_all
  close_all-traced [] w ran = ap (λ r. ((w, r), [])) (sym (append-nil ran))
  close_all-traced (e ∷ es) w ran =
      let step = close_all-traced es (e.close w).0 (ran ++ e.name ∷ []) in
      let order = append_assoc ran (e.name ∷ []) (names es) in
      ap (λ (r : (W × List Text) × List (Text × Text)). (r.0, noted e.name (e.close w).1 r.1))
        (step
          ∙ ap (λ o. (((close_all es (e.close w).0).0, o), (close_all es (e.close w).0).1)) order)

  -- Shutdown runs every closer once, in the reverse order of their registration, whichever of them
  -- fail: a closer that is pushed last runs first, the others run on what it left, and its error, if it
  -- failed, stands under its name before theirs.
  pub shutdown_lem :
      (s : Stack W) (w : W) (name : Text) (close : W → W × Option Text)
      → (shutdown (map traced s) (w, [])
          ≡ (((shutdown s w).0, reverse (names s)), (shutdown s w).1))
        × ((shutdown (push s name close) w).0 ≡ (shutdown s (close w).0).0)
        × Leads name (close w).1 (shutdown s (close w).0).1 (shutdown (push s name close) w).1
  unfolding shutdown close_all
  shutdown_lem s w name close =
      let e : Entry W = record { name = name; close = close } in
      let last : shutdown (push s name close) w
          ≡ ((shutdown s (close w).0).0, noted name (close w).1 (shutdown s (close w).0).1) =
        ap (λ es. close_all es w) (reverse-append s (e ∷ [])) in
      (
        ap (λ es. close_all es (w, [])) (sym (map-reverse traced s))
            ∙ (close_all-traced (reverse s) w []
                ∙ ap (λ ns. (((shutdown s w).0, ns), (shutdown s w).1))
                    (map-reverse (λ (x : Entry W). x.name) s)),
        ap (λ x. x.0) last,
        subst (Leads name (close w).1 (shutdown s (close w).0).1) (sym (ap (λ x. x.1) last))
            (noted-Leads name (close w).1 (shutdown s (close w).0).1),
      )
