-- ===== src/Json/Schema.antt =====
-- Which values decode into a struct: a schema gives the test of each of its tags.
use reliability_lab.Common.{
  ◌≡◌, refl, ◌∙◌, inl, inr, Bool-cases, String, List, [], ◌∷◌, Option, none, some, Bool, true,
  false, ◌&&◌, if◌then◌else◌,
}
use reliability_lab.Common.Int.{ℤ}
use reliability_lab.Common.Dict.{Dict, insert}
use reliability_lab.Json.{
  Value, null, integer, text, array, object, Items, nil, cons, Members, end, member, is_key,
  into_text, into_int, ◌>>=◌, into_members, into_struct, put_text, into_map, into_items, into_slice,
}

abbrev pub Test : Type 0
Test = Value → Bool

abbrev pub Schema : Type 0
Schema = List (String × Test)

abbrev pub is_some : {A : Type 0} → Option A → Bool
is_some none = false
is_some (some a) = true

abbrev pub is_text : Test
is_text null = true
is_text (text s) = true
is_text _ = false

abbrev pub is_int : (ℤ → Bool) → Test
is_int fits null = true
is_int fits (integer n) = fits n
is_int fits _ = false

-- A member whose name goes with no tag is passed over.
abbrev pub member_fits : Schema → String → Test
member_fits [] name v = true
member_fits ((tag, test) ∷ schema) name v =
    if is_key name tag then test v else member_fits schema name v

abbrev pub members_fit : (String → Test) → Members → Bool
members_fit fits end = true
members_fit fits (member name v rest) = fits name v && members_fit fits rest

abbrev pub is_struct : Schema → Test
is_struct schema null = true
is_struct schema (object ms) = members_fit (member_fits schema) ms
is_struct schema _ = false

abbrev pub is_map : Test
is_map null = true
is_map (object ms) = members_fit (λ name. is_text) ms
is_map _ = false

abbrev pub all_fit : Test → Items → Bool
all_fit test nil = true
all_fit test (cons v vs) = test v && all_fit test vs

abbrev pub is_slice : Test → Test
is_slice test null = true
is_slice test (array vs) = all_fit test vs
is_slice test _ = false

is_some-then :
    {A B : Type 0} (m : Option A) (k : A → Option B) (b c : Bool)
    → is_some m ≡ b
    → ((a : A) → is_some (k a) ≡ c)
    → is_some (m >>= k) ≡ (b && c)
is_some-then none k b c first next = rw (← first) refl
is_some-then (some a) k b c first next = rw (← first) (next a)

pub is_some-bind :
    {A B : Type 0} (m : Option A) (f : A → B) → is_some (m >>= λ a. some (f a)) ≡ is_some m
is_some-bind none f = refl
is_some-bind (some a) f = refl

pub into_text-is_text : (v : Value) (old : String) → is_some (into_text v old) ≡ is_text v
unfolding into_text
into_text-is_text (text s) old = refl
into_text-is_text null old = refl
into_text-is_text _ old = refl

pub into_int-is_int :
    (fits : ℤ → Bool) (v : Value) (old : ℤ) → is_some (into_int fits v old) ≡ is_int fits v
unfolding into_int
into_int-is_int fits (integer n) old = elim (Bool-cases (fits n)) [
  | inl e ↦ rw e refl
  | inr e ↦ rw e refl
]
into_int-is_int fits null old = refl
into_int-is_int fits _ old = refl

-- A field of each type, and the choice of the field by the member's name.
module _ {A : Type 0} where
  pub text_field :
      (v : Value) (old : String) (f : String → A)
      → is_some (into_text v old >>= λ s. some (f s)) ≡ is_text v
  text_field v old f = is_some-bind (into_text v old) f ∙ into_text-is_text v old

  pub int_field :
      (fits : ℤ → Bool) (v : Value) (old : ℤ) (f : ℤ → A)
      → is_some (into_int fits v old >>= λ n. some (f n)) ≡ is_int fits v
  int_field fits v old f = is_some-bind (into_int fits v old) f ∙ into_int-is_int fits v old

  pub chosen_field :
      (chosen : Bool) (x y : Option A) (p q : Bool)
      → is_some x ≡ p
      → is_some y ≡ q
      → is_some (if chosen then x else y) ≡ (if chosen then p else q)
  chosen_field true x y p q e f = e
  chosen_field false x y p q e f = f

  pub no_field : (a : A) → is_some (some a) ≡ true
  no_field a = refl

pub ruleset fields = (chosen_field, text_field, int_field, no_field)

-- A setter that fails exactly where the test of the name does.
abbrev pub Sets : {A : Type 0} → (String → Value → A → Option A) → (String → Test) → Type 0
Sets {A} set fits = (name : String) (v : Value) (a : A) → is_some (set name v a) ≡ fits name v

pub into_members-fit :
    {A : Type 0} (set : String → Value → A → Option A) (fits : String → Test)
    → Sets set fits
    → (ms : Members) (a : A) → is_some (into_members set ms a) ≡ members_fit fits ms
unfolding into_members
into_members-fit set fits sets end a = refl
into_members-fit set fits sets (member name v rest) a =
    is_some-then (set name v a) (into_members set rest) _ _ (sets name v a)
      (into_members-fit set fits sets rest)

pub into_struct-is_struct :
    {A : Type 0} (set : String → Value → A → Option A) (schema : Schema)
    → Sets set (member_fits schema)
    → (v : Value) (a : A) → is_some (into_struct set v a) ≡ is_struct schema v
unfolding into_struct
into_struct-is_struct set schema sets (object ms) a = into_members-fit set _ sets ms a
into_struct-is_struct set schema sets null a = refl
into_struct-is_struct set schema sets _ a = refl

pub into_map-is_map : (v : Value) (m : Dict String) → is_some (into_map v m) ≡ is_map v
unfolding into_map put_text
into_map-is_map (object ms) m =
    into_members-fit put_text (λ name. is_text)
      (λ name v a. is_some-bind (into_text v "") (λ s. insert name s a) ∙ into_text-is_text v "") ms
      m
into_map-is_map null m = refl
into_map-is_map _ m = refl

module _ {A : Type 0} (into : Value → A → Option A) (start : A) (test : Test)
    (fits : (v : Value) → is_some (into v start) ≡ test v) where
  into_items-fit : (vs : Items) → is_some (into_items into start vs) ≡ all_fit test vs
  unfolding into_items
  into_items-fit nil = refl
  into_items-fit (cons v vs) =
      is_some-then (into v start) _ _ _ (fits v)
        (λ a. is_some-bind (into_items into start vs) (λ rest. a ∷ rest) ∙ into_items-fit vs)

  pub into_slice-is_slice :
      (v : Value) (old : List A) → is_some (into_slice into start v old) ≡ is_slice test v
  unfolding into_slice
  into_slice-is_slice (array vs) old = into_items-fit vs
  into_slice-is_slice null old = refl
  into_slice-is_slice _ old = refl
