-- ===== src/Orders/Flag/Pauses.antt =====
-- Which contents of the flag file pause the publisher.
use mathlib.Core.List.{reverse, reverse-append, reverse-reverse}
use reliability_lab.Common.{
  ℕ, ◌+◌, ◌≤◌, ◌==◌, ◌≡◌, refl, sym, ap, ◌∙◌, ◌⊎◌, inl, inr, ◌↔◌, List, [], ◌∷◌, ◌++◌, none, some,
  true, false, not, Bool-cases, All, arith,
}
use reliability_lab.Common.Text.{codes, is_space, trim_left, trim_space, fold_case, equal_fold}
use reliability_lab.Orders.Flag.{File, read, Event, watch_circuit_break}
use reliability_lab.Orders.Flag.Follows.{
  last_file, watch_circuit_break-last_file, IsBlank, IsTrimmed, All-reverse, read-pad,
}

-- The text is the other, of small letters, with some of its letters large.
abbrev pub Folds : List ℕ → List ℕ → Type 0
Folds [] [] = Unit {0}
Folds (c ∷ s) (d ∷ t) = ((c ≡ d) ⊎ (c + 32 ≡ d)) × Folds s t
Folds _ _ = ⊥

-- The file cannot be read, or it holds the word true, in large or small letters, and space around it.
abbrev pub IsEnabled : File → Type 0
IsEnabled file =
    (file ≡ none)
    ⊎ ((l b r : List ℕ) × IsBlank l
        × IsBlank r
        × Folds b (codes "true")
        × (file ≡ some (l ++ (b ++ r))))

abbrev IsSmall : ℕ → Type 0
IsSmall d = (97 ≤ d) × (d ≤ 122)

fold_case_iff :
    (c d : ℕ) → IsSmall d → (fold_case c == fold_case d ≡ true) ↔ ((c ≡ d) ⊎ (c + 32 ≡ d))
fold_case_iff c d s = ground arith

equal_fold_iff : (s t : List ℕ) → All IsSmall t → (equal_fold s t ≡ true) ↔ Folds s t
unfolding equal_fold
equal_fold_iff [] [] small = ((λ e. tt), (λ f. refl))
equal_fold_iff [] (d ∷ t) small = ((λ e. cc), (λ f. absurd f))
equal_fold_iff (c ∷ s) [] small = ((λ e. cc), (λ f. absurd f))
equal_fold_iff (c ∷ s) (d ∷ t) (h, hs) =
    let first = fold_case_iff c d h in
    let rest = equal_fold_iff s t hs in
    (
      (λ e. (first.0 (ground arith), rest.0 (ground arith))),
      (λ f. rw (first.1 f.0, rest.1 f.1) refl),
    )

letter-is_space : (c d : ℕ) → IsSmall d → (c ≡ d) ⊎ (c + 32 ≡ d) → is_space c ≡ false
unfolding is_space
letter-is_space c d s e = ground arith

-- The word has no space at its ends.
Folds-IsTrimmed : (b : List ℕ) → Folds b (codes "true") → IsTrimmed b
unfolding trim_left
Folds-IsTrimmed [] f = absurd f
Folds-IsTrimmed (t ∷ []) f = absurd f.1
Folds-IsTrimmed (t ∷ r ∷ []) f = absurd f.1.1
Folds-IsTrimmed (t ∷ r ∷ u ∷ []) f = absurd f.1.1.1
Folds-IsTrimmed (t ∷ r ∷ u ∷ e ∷ x ∷ rest) f = absurd f.1.1.1.1
Folds-IsTrimmed (t ∷ r ∷ u ∷ e ∷ []) (ft, (fr, (fu, (fe, done)))) = (
  rw (letter-is_space t 116 (omega arith, omega arith) ft) refl,
  rw (letter-is_space e 101 (omega arith, omega arith) fe) refl,
)

-- What trim_left takes off is space.
trim_left-split : (s : List ℕ) → (l : List ℕ) × IsBlank l × (s ≡ l ++ trim_left s)
unfolding trim_left
trim_left-split [] = ([], tt, refl)
trim_left-split (c ∷ s) =
    let (l, blank, e) = trim_left-split s in
    elim (Bool-cases (is_space c)) [
      | inl space ↦ rw space (c ∷ l, (space, blank), ap (λ rest. c ∷ rest) e)
      | inr letter ↦ rw letter ([], tt, refl)
    ]

trim_space-split :
    (s : List ℕ) → (l r : List ℕ) × IsBlank l × IsBlank r × (s ≡ l ++ (trim_space s ++ r))
unfolding trim_space
trim_space-split s =
    let (l, before, e) = trim_left-split s in
    let (m, after, e') = trim_left-split (reverse (trim_left s)) in
    let back : trim_left s ≡ reverse (trim_left (reverse (trim_left s))) ++ reverse m =
      sym (reverse-reverse (trim_left s))
      ∙ ap reverse e'
      ∙ reverse-append m (trim_left (reverse (trim_left s))) in
    (l, reverse m, before, All-reverse m after, e ∙ ap (λ rest. l ++ rest) back)

IsSmall-true : All IsSmall (codes "true")
IsSmall-true = ground arith

read-IsEnabled : (file : File) → (read file ≡ false) ↔ IsEnabled file
unfolding read
read-IsEnabled none = ((λ e. inl refl), (λ f. refl))
read-IsEnabled (some s) = (reads, enables)
  where
    reads : not (equal_fold (trim_space s) (codes "true")) ≡ false → IsEnabled (some s)
    reads e =
        let (l, r, before, after, whole) = trim_space-split s in
        let folds = (equal_fold_iff (trim_space s) (codes "true") IsSmall-true).0 (ground arith) in
        inr (l, trim_space s, r, before, after, folds, ap some whole)

    enables : IsEnabled (some s) → not (equal_fold (trim_space s) (codes "true")) ≡ false
    enables (inl e) = cc
    enables (inr (l, b, r, before, after, folds, e)) =
        let padded : read (some (l ++ (b ++ r))) ≡ not (equal_fold b (codes "true")) =
          read-pad l b r before after (Folds-IsTrimmed b folds) in
        let true_word = (equal_fold_iff b (codes "true") IsSmall-true).1 folds in
        ap read e ∙ padded ∙ ap not true_word

-- A watcher that starts, and receives any events: the publisher is not paused exactly where the file,
-- at its last read before the watcher returned, could not be read, or held the word true, in large or
-- small letters, and nothing but space around it.
pub watch_circuit_break-pauses :
    {E : Type 0} (file : File) (events : List (Event E))
    → ((watch_circuit_break file none none events).0 ≡ false) ↔ IsEnabled (last_file file events)
watch_circuit_break-pauses file events =
    rw (watch_circuit_break-last_file file events) (read-IsEnabled (last_file file events))
