-- ===== src/Obs/Trace/Scheme.antt =====
-- pkg/obs/trace.go: stripScheme, on the bytes of the endpoint.
use reliability_lab.Common.{
  ℕ, zero, suc, ◌<◌, ◌≡◌, refl, subst, ◌≢◌, ◌⊎◌, inl, inr, Bool, true, false, ◌&&◌, Bool-cases,
  List, [], ◌∷◌, ◌++◌, arith, length, ltb, ◌==◌, if◌then◌else◌,
}
use reliability_lab.Common.Text.{codes}

-- ep[:len(p)] == p.
unfoldable pub has_prefix : List ℕ → List ℕ → Bool
has_prefix [] ep = true
has_prefix (c ∷ p) [] = false
has_prefix (c ∷ p) (d ∷ ep) = c == d && has_prefix p ep

-- ep[n:].
abbrev pub drop : ℕ → List ℕ → List ℕ
drop zero xs = xs
drop (suc n) [] = []
drop (suc n) (x ∷ xs) = drop n xs

abbrev pub schemes : List (List ℕ)
schemes = codes "http://" ∷ codes "https://" ∷ codes "grpc://" ∷ []

-- The loop over the prefixes: the first that the endpoint begins with, and is longer than.
unfoldable pub strip_first : List (List ℕ) → List ℕ → List ℕ
strip_first [] ep = ep
strip_first (p ∷ ps) ep =
    if ltb (length p) (length ep) && has_prefix p ep then drop (length p) ep else strip_first ps ep

unfoldable pub strip_scheme : List ℕ → List ℕ
unfolding strip_first has_prefix
strip_scheme ep = strip_first schemes ep

has_prefix-append : (p s : List ℕ) → has_prefix p (p ++ s) ≡ true
unfolding has_prefix
has_prefix-append [] s = refl
has_prefix-append (c ∷ p) s = ground (arith, has_prefix-append p s)

-- Each of the three schemes is taken off a text that goes on after it.
pub strip_scheme-schemes :
    (c : ℕ) (rest : List ℕ)
    → (strip_scheme (codes "http://" ++ c ∷ rest) ≡ c ∷ rest)
      × (strip_scheme (codes "https://" ++ c ∷ rest) ≡ c ∷ rest)
      × (strip_scheme (codes "grpc://" ++ c ∷ rest) ≡ c ∷ rest)
unfolding strip_scheme
strip_scheme-schemes c rest = (ground arith, ground arith, ground arith)

abbrev pub OneOf : List ℕ → List (List ℕ) → Type 0
OneOf p [] = ⊥
OneOf p (q ∷ qs) = (p ≡ q) ⊎ OneOf p qs

has_prefix-drop : (p ep : List ℕ) → has_prefix p ep ≡ true → ep ≡ p ++ drop (length p) ep
unfolding has_prefix
has_prefix-drop [] ep h = refl
has_prefix-drop (c ∷ p) [] h = cc
has_prefix-drop (c ∷ p) (d ∷ ep) h = ground (arith, has_prefix-drop p ep)

drop-ne-nil : (n : ℕ) (ep : List ℕ) → n < length ep → drop n ep ≢ []
drop-ne-nil zero [] h = elim h [ ]
drop-ne-nil zero (c ∷ ep) h = λ e. cc
drop-ne-nil (suc n) [] h = elim h [ ]
drop-ne-nil (suc n) (c ∷ ep) h = drop-ne-nil n ep (omega arith)

-- The endpoint is the prefix and a text after it that is not empty.
abbrev GoesOn : List ℕ → List ℕ → Type 0
GoesOn ep p = (q : List ℕ) × (ep ≡ p ++ q) × (q ≢ [])

-- What is left of an endpoint: all of it where none of the schemes goes on in it, or what follows one
-- of them.
abbrev pub IsStripped : List (List ℕ) → List ℕ → List ℕ → Type 0
IsStripped ps ep rest =
    ((rest ≡ ep) × ((p : List ℕ) → OneOf p ps → ¬ GoesOn ep p))
    ⊎ ((p : List ℕ) × OneOf p ps × (ep ≡ p ++ rest) × (rest ≢ []))

goes_on : (p q : List ℕ) → q ≢ [] → ltb (length p) (length (p ++ q)) && has_prefix p (p ++ q) ≡ true
goes_on p q n = rw (has_prefix-append p q) (longer p q n)
  where
    longer : (p q : List ℕ) → q ≢ [] → ltb (length p) (length (p ++ q)) && true ≡ true
    longer p [] n = absurd (n refl)
    longer [] (c ∷ q) n = ground arith
    longer (d ∷ p) (c ∷ q) n = let shorter = longer p (c ∷ q) n in ground arith

not-GoesOn : (p ep : List ℕ) → ltb (length p) (length ep) && has_prefix p ep ≡ false → ¬ GoesOn ep p
not-GoesOn p ep shut (q, e, n) =
    let yes : ltb (length p) (length ep) && has_prefix p ep ≡ true = rw e (goes_on p q n) in cc

strip_first-IsStripped : (ps : List (List ℕ)) (ep : List ℕ) → IsStripped ps ep (strip_first ps ep)
unfolding strip_first
strip_first-IsStripped [] ep = inl (refl, (λ p o. absurd o))
strip_first-IsStripped (p ∷ ps) ep =
    let rest = strip_first-IsStripped ps ep in
    elim (Bool-cases (ltb (length p) (length ep) && has_prefix p ep)) [
      | inl e ↦ rw e (
          inr (
            p,
            inl refl,
            has_prefix-drop p ep (ground arith),
            drop-ne-nil (length p) ep (ground arith),
          ))
      | inr e ↦ rw e (later e rest)
    ]
  where
    none_of :
        ltb (length p) (length ep) && has_prefix p ep ≡ false
        → ((r : List ℕ) → OneOf r ps → ¬ GoesOn ep r)
        → (r : List ℕ) → OneOf r (p ∷ ps)
        → ¬ GoesOn ep r
    none_of e apart r (inl same) g = not-GoesOn p ep e (subst (GoesOn ep) same g)
    none_of e apart r (inr o) g = apart r o g

    later :
        ltb (length p) (length ep) && has_prefix p ep ≡ false
        → IsStripped ps ep (strip_first ps ep)
        → IsStripped (p ∷ ps) ep (strip_first ps ep)
    later e (inl (same, apart)) = inl (same, none_of e apart)
    later e (inr (q, o, s, n)) = inr (q, inr o, s, n)

-- For every endpoint: what is left is the text, not empty, that follows one of the schemes http://,
-- https:// and grpc:// in it, or the endpoint itself, where it is none of them with a text after it
-- that is not empty.
pub strip_scheme-IsStripped : (ep : List ℕ) → IsStripped schemes ep (strip_scheme ep)
unfolding strip_scheme
strip_scheme-IsStripped ep = strip_first-IsStripped schemes ep
