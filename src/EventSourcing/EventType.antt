-- ===== src/EventSourcing/EventType.antt =====
-- `baseEventType` of src/event-sourcing.js.
use real_time_spatial_tracki.Base.{
  ℕ, ◌≡◌, refl, Bool, true, false, ◌&&◌, [], ◌∷◌, ◌++◌, Option, none, some, Key, arith, leb, ◌==◌,
  if◌then◌else◌,
}

abbrev pub dot : ℕ
dot = b'.'

abbrev pub letter_v : ℕ
letter_v = b'v'

-- `/^\d+$/.test(text)`.
abbrev pub is_digit : ℕ → Bool
is_digit c = leb b'0' c && leb c b'9'

unfoldable pub all_digits : Key → Bool
all_digits [] = true
all_digits (c ∷ text) = is_digit c && all_digits text

unfoldable pub is_version : Key → Bool
unfolding all_digits
is_version [] = false
is_version (c ∷ text) = is_digit c && all_digits text

-- What stands before and after the last ".v" of a text.
unfoldable pub split_last : Key → Option (Key × Key)
split_last [] = none
split_last (x ∷ text) = elim (split_last text) [
  | some (before, after) ↦ some (x ∷ before, after)
  | none ↦ elim text [
    | [] ↦ none
    | y ∷ rest ↦ if x == dot && y == letter_v then some ([], rest) else none
  ]
]

unfoldable pub base_event_type : Key → Key
unfolding split_last is_version
base_event_type event_type = elim (split_last event_type) [
  | none ↦ event_type
  | some (before, suffix) ↦ if is_version suffix then before else event_type
]

split_last-digits : (text : Key) → all_digits text ≡ true → split_last text ≡ none
unfolding split_last all_digits
split_last-digits [] h = refl
split_last-digits (c ∷ []) h = refl
split_last-digits (c ∷ d ∷ text) h = ground (arith, split_last-digits (d ∷ text))

split_last-version :
    (name version : Key)
    → all_digits version ≡ true
    → split_last (name ++ (dot ∷ (letter_v ∷ version))) ≡ some (name, version)
unfolding split_last
split_last-version [] [] h = refl
split_last-version [] (d ∷ version) h = ground (arith, split_last-digits (d ∷ version))
split_last-version (x ∷ name) version h = rw (split_last-version name version h) refl

-- The base type of a name followed by ".v" and at least one digit, and nothing but digits, is the name,
-- whatever the name.
pub base_event_type-version :
    (name : Key) (digit : ℕ) (version : Key)
    → all_digits (digit ∷ version) ≡ true
    → base_event_type (name ++ (dot ∷ (letter_v ∷ (digit ∷ version)))) ≡ name
unfolding base_event_type all_digits
base_event_type-version name digit version h =
    ground (arith, split_last-version name (digit ∷ version) h)
