-- ===== src/Inventory/Reservations.antt =====
-- The store as a partial function of reservation ids, and what any run of calls does to it.
use reliability_lab.Common.{
  texts, ◌≡◌, refl, ap, ◌≢◌, inl, inr, ◌∙◌, Bool-cases, String, List, [], ◌∷◌, Option, none, some,
  true, false, str_eq, eq_iff, eq_refl, if◌then◌else◌,
}
use reliability_lab.Common.Dict.{lookup, insert, lookup-insert, lookup-delete, lookup-insert_self}
use reliability_lab.Gen.InventoryV1.{
  LineItem, ReserveRequest, ReleaseRequest, get_items, get_release_id,
}
use reliability_lab.Inventory.{Store, reserve, release, is_present}

-- The calls of clients in the order in which they take the mutex: a Reserve with the id that it
-- draws, or a Release.
pub data Call : Type 0 where
  reserves : String → Option ReserveRequest → Call
  releases : Option ReleaseRequest → Call

unfoldable pub step : Store → Call → Store
unfolding reserve release
step s (reserves id req) = (reserve id req s).1
step s (releases req) = (release req s).1

unfoldable pub run : Store → List Call → Store
run s [] = s
run s (c ∷ calls) = run (step s c) calls

-- The specification: what is held under an id after a call.
abbrev pub held : String → Call → Option (List LineItem) → Option (List LineItem)
held k (reserves id req) before = if str_eq id k then some (get_items req) else before
held k (releases req) before = if str_eq (get_release_id req) k then none else before

unfoldable pub held_after : String → List Call → Option (List LineItem) → Option (List LineItem)
held_after k [] before = before
held_after k (c ∷ calls) before = held_after k calls (held k c before)

lookup-step : (k : String) (c : Call) (s : Store) → lookup k (step s c) ≡ held k c (lookup k s)
unfolding step
lookup-step k (reserves id req) s = lookup-insert id k (get_items req) s
lookup-step k (releases req) s = lookup-delete (get_release_id req) k s

-- The store refines the specification: after any calls, what it holds under an id is decided by the
-- calls that name that id, a Reserve setting the items and a Release clearing them.
pub run-held_after :
    (k : String) (calls : List Call) (s : Store)
    → lookup k (run s calls) ≡ held_after k calls (lookup k s)
unfolding run held_after
run-held_after k [] s = refl
run-held_after k (c ∷ calls) s =
    run-held_after k calls (step s c) ∙ ap (held_after k calls) (lookup-step k c s)

-- Release answers whether the id was held.
release-held :
    (id : String) (s : Store)
    → (release (some (record { reservation_id = id })) s).0.released ≡ is_present (lookup id s)
unfolding release get_release_id
release-held id s = refl

-- None of the calls reserves under the id.
abbrev pub NotReserved : String → List Call → Type 0
NotReserved k [] = Unit {0}
NotReserved k (reserves id req ∷ calls) = (id ≢ k) × NotReserved k calls
NotReserved k (releases req ∷ calls) = NotReserved k calls

abbrev pub release_of : String → Option ReleaseRequest
release_of id = some (record { reservation_id = id })

held_after-NotReserved :
    (k : String) (calls : List Call) → NotReserved k calls → held_after k calls none ≡ none
unfolding held_after
held_after-NotReserved k [] h = refl
held_after-NotReserved k (reserves id req ∷ calls) (ne, h) = elim (Bool-cases (str_eq id k)) [
  | inl e ↦ absurd (ne ((eq_iff id k).0 e))
  | inr e ↦ rw e (held_after-NotReserved k calls h)
]
held_after-NotReserved k (releases req ∷ calls) h =
    elim (Bool-cases (str_eq (get_release_id req) k)) [
      | inl e ↦ rw e (held_after-NotReserved k calls h)
      | inr e ↦ rw e (held_after-NotReserved k calls h)
    ]

-- A reservation is released once: after a Release of an id and any further calls of which none
-- reserves under it, another Release of the id answers false.
pub release_once :
    (id : String) (s : Store) (later : List Call)
    → NotReserved id later
    → (release (release_of id) (run (release (release_of id) s).1 later)).0.released ≡ false
release_once id s later h = release-held id _ ∙ ap is_present (run-held_after id later _ ∙ gone)
  where
    released : lookup id (release (release_of id) s).1 ≡ none
    released = unfold release get_release_id in (lookup-delete id id s ∙ rw (eq_refl id))

    gone : held_after id later (lookup id (release (release_of id) s).1) ≡ none
    gone = rw released (held_after-NotReserved id later h)

-- A Release undoes a Reserve under a fresh id: it answers true, and under every id the store holds
-- what it held before.
pub reserve-release :
    (id : String) (req : Option ReserveRequest) (s : Store)
    → lookup id s ≡ none
    → let (answer, s') = release (release_of id) (reserve id req s).1 in
      (answer.released ≡ true) × ((k : String) → lookup k s' ≡ lookup k s)
unfolding reserve release get_release_id
reserve-release id req s fresh = (
  rw (lookup-insert_self id (get_items req) s) refl,
  λ k. grind (
    texts,
    lookup-delete id k (insert id (get_items req) s),
    lookup-insert id k (get_items req) s,
    fresh,
  ),
)
