-- ===== src/Http.antt =====
-- net/http's ServeMux (Go 1.22 and later), for the patterns that the services use: an exact path or
-- "/", which matches every path, with a method or without. A request path is taken as clean, so
-- there is no redirect.
use reliability_lab.Common.{
  Bool, true, false, ◌&&◌, ◌||◌, String, str_eq, List, [], ◌∷◌, Option, none, some, if◌then◌else◌,
}

pub data UrlPath : Type 0 where
  exact : String → UrlPath
  any_path : UrlPath

-- A parsed pattern; `none` is a pattern without a method.
pub record Pattern : Type 0 where
  pub method : Option String
  pub path : UrlPath

-- How the requests of one pattern, or of one part of it, lie to those of another.
pub data Relation : Type 0 where
  equivalent more_general more_specific disjoint overlaps : Relation

abbrev pub compare_methods : Option String → Option String → Relation
compare_methods none none = equivalent
compare_methods none (some m) = more_general
compare_methods (some m) none = more_specific
compare_methods (some m) (some n) =
    if str_eq m n
    then equivalent
    else if str_eq m "GET" && str_eq n "HEAD"
    then more_general
    else if str_eq m "HEAD" && str_eq n "GET"
    then more_specific
    else disjoint

abbrev pub compare_paths : UrlPath → UrlPath → Relation
compare_paths (exact p) (exact q) = if str_eq p q then equivalent else disjoint
compare_paths (exact p) any_path = more_specific
compare_paths any_path (exact q) = more_general
compare_paths any_path any_path = equivalent

-- The relation of two patterns, from those of their methods and of their paths.
abbrev pub combine : Relation → Relation → Relation
combine equivalent r = r
combine disjoint r = disjoint
combine overlaps disjoint = disjoint
combine overlaps r = overlaps
combine more_general equivalent = more_general
combine more_general more_specific = overlaps
combine more_general r = r
combine more_specific equivalent = more_specific
combine more_specific more_general = overlaps
combine more_specific r = r

abbrev pub is_conflict : Relation → Bool
is_conflict equivalent = true
is_conflict overlaps = true
is_conflict _ = false

-- Two patterns of which some request fits both, and neither is the more specific.
unfoldable pub conflicts : Pattern → Pattern → Bool
conflicts p q =
    is_conflict (combine (compare_methods p.method q.method) (compare_paths p.path q.path))

abbrev pub Mux : Type 0 → Type 0
Mux H = List (Pattern × H)

module _ {H : Type 0} where
  unfoldable pub has_conflict : Pattern → Mux H → Bool
  has_conflict p [] = false
  has_conflict p (r ∷ mux) = conflicts p r.0 || has_conflict p mux

  -- Handle and HandleFunc: `none` is a panic.
  unfoldable pub handle : Pattern → H → Option (Mux H) → Option (Mux H)
  handle p h none = none
  handle p h (some mux) = if has_conflict p mux then none else some ((p, h) ∷ mux)

abbrev pub takes_method : Option String → String → Bool
takes_method none method = true
takes_method (some m) method = str_eq m method || (str_eq m "GET" && str_eq "HEAD" method)

abbrev pub takes_path : UrlPath → String → Bool
takes_path (exact p) path = str_eq p path
takes_path any_path path = true

-- The request fits the pattern.
abbrev pub takes : Pattern → String → String → Bool
takes p method path = takes_method p.method method && takes_path p.path path

-- What a mux does with a request: a handler, or one of its own two answers.
pub data Found (H : Type 0) : Type 0 where
  handler : H → Found H
  not_allowed : Found H
  not_found : Found H

module _ {H : Type 0} where
  -- The more specific of the patterns that the request fits; without conflicts there is one.
  abbrev prefer : Pattern → H → Option (Pattern × H) → Option (Pattern × H)
  prefer p h none = some (p, h)
  prefer p h (some (q, g)) =
      elim (combine (compare_methods p.method q.method) (compare_paths p.path q.path)) [
        | more_specific ↦ some (p, h)
        | _ ↦ some (q, g)
      ]

  unfoldable pub best : String → String → Mux H → Option (Pattern × H)
  best method path [] = none
  best method path (r ∷ mux) =
      let rest = best method path mux in if takes r.0 method path then prefer r.0 r.1 rest else rest

  -- Some pattern fits the path, whatever its method.
  unfoldable pub knows_path : String → Mux H → Bool
  knows_path path [] = false
  knows_path path (r ∷ mux) = takes_path r.0.path path || knows_path path mux

  abbrev answer_of : Bool → Option (Pattern × H) → Found H
  answer_of known (some r) = handler r.1
  answer_of true none = not_allowed
  answer_of false none = not_found

  unfoldable pub route : String → String → Mux H → Found H
  unfolding best knows_path
  route method path mux = answer_of (knows_path path mux) (best method path mux)
