-- ===== src/Json.antt =====
-- encoding/json, for the types that the services decode and encode. A value keeps what the decoder
-- looks at: a number that is written as an integer has its value, any other has none.
pub mod Schema
use reliability_lab.Common.{
  ℕ, ◌+◌, String, List, [], ◌∷◌, map, Option, none, some, Bool, true, false, ◌&&◌, ◌==◌, leb,
  if◌then◌else◌,
}
use reliability_lab.Common.Int.{ℤ, pos, negsuc, leb_ℤ}
use reliability_lab.Common.Dict.{Dict, insert}
use reliability_lab.Common.Text.{codes, eq_codes}

mutual
  pub data Value : Type 0 where
    null : Value
    bool : Bool → Value
    integer : ℤ → Value
    fraction : Value
    text : String → Value
    array : Items → Value
    object : Members → Value

  pub data Items : Type 0 where
    nil : Items
    cons : Value → Items → Items

  pub data Members : Type 0 where
    end : Members
    member : String → Value → Members → Members

-- The case folding of a member's name: of the letters that fold to ASCII ones.
unfoldable pub fold_rune : ℕ → ℕ
fold_rune c =
    if leb b'A' c && leb c b'Z'
    then c + 32
    else if c == 0x17f
    then b's'
    else if c == 0x212a
    then b'k'
    else c

-- A member's name goes with the tag of a field.
unfoldable pub is_key : String → String → Bool
unfolding fold_rune eq_codes
is_key name tag = eq_codes (map fold_rune (codes name)) (map fold_rune (codes tag))

-- Decoding into a variable: the value goes over the old one, and `none` is an error. A null leaves
-- the variable as it is.
unfoldable pub into_text : Value → String → Option String
into_text null old = some old
into_text (text s) old = some s
into_text _ old = none

-- An integer type, by the test of its range.
unfoldable pub into_int : (ℤ → Bool) → Value → ℤ → Option ℤ
into_int fits null old = some old
into_int fits (integer n) old = if fits n then some n else none
into_int fits _ old = none

abbrev pub fits_int32 : ℤ → Bool
fits_int32 n = leb_ℤ (negsuc 2147483647) n && leb_ℤ n (pos 2147483647)

abbrev pub fits_int64 : ℤ → Bool
fits_int64 n = leb_ℤ (negsuc 9223372036854775807) n && leb_ℤ n (pos 9223372036854775807)

infixl 5 ◌>>=◌
abbrev pub ◌>>=◌ : {A B : Type 0} → Option A → (A → Option B) → Option B
none >>= k = none
some a >>= k = k a

-- An object into a struct: `set` decodes the member of a name into its field, or passes it over.
unfoldable pub into_members :
    {A : Type 0} → (String → Value → A → Option A) → Members → A → Option A
into_members set end a = some a
into_members set (member name v rest) a = set name v a >>= into_members set rest

unfoldable pub into_struct : {A : Type 0} → (String → Value → A → Option A) → Value → A → Option A
unfolding into_members
into_struct set null a = some a
into_struct set (object ms) a = into_members set ms a
into_struct set _ a = none

-- An object into a map[string]string: each element starts empty, and the map keeps its entries; a
-- null is the nil map.
unfoldable pub put_text : String → Value → Dict String → Option (Dict String)
unfolding into_text
put_text name v m = into_text v "" >>= λ s. some (insert name s m)

unfoldable pub into_map : Value → Dict String → Option (Dict String)
unfolding into_members put_text
into_map null m = some []
into_map (object ms) m = into_members put_text ms m
into_map _ m = none

-- An array into a slice, which is emptied first; each element starts from its zero value.
unfoldable pub into_items : {A : Type 0} → (Value → A → Option A) → A → Items → Option (List A)
into_items into zero_value nil = some []
into_items into zero_value (cons v vs) = do
  a ← into v zero_value
  rest ← into_items into zero_value vs
  some (a ∷ rest)

unfoldable pub into_slice :
    {A : Type 0} → (Value → A → Option A) → A → Value → List A → Option (List A)
unfolding into_items
into_slice into zero_value null old = some []
into_slice into zero_value (array vs) old = into_items into zero_value vs
into_slice into zero_value _ old = none
