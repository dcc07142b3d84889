-- ===== src/Tools/Spammer/Keys.antt =====
-- crates/ro-tools-core/src/spammer/keys.rs: the labels of the keys and their normal form. The
-- children hold the order of the keys, the normal form of a label and what a sorted list promises.
use nndsk_ro_launcher.Base.{
  ℕ, zero, suc, ◌%◌, Bool, true, false, Option, none, some, List, [], ◌∷◌, map, Text, codes,
  to_upper, trim, contains, text_eq, filter, leb, if◌then◌else◌,
}
pub mod Canonical
pub mod Sorting
pub mod Normal

abbrev pub spammer_key_labels : List Text
spammer_key_labels =
    codes "F1"
    ∷ codes "F2"
    ∷ codes "F3"
    ∷ codes "F4"
    ∷ codes "F5"
    ∷ codes "F6"
    ∷ codes "F7"
    ∷ codes "F8"
    ∷ codes "F9"
    ∷ codes "1"
    ∷ codes "2"
    ∷ codes "3"
    ∷ codes "4"
    ∷ codes "5"
    ∷ codes "6"
    ∷ codes "7"
    ∷ codes "8"
    ∷ codes "9"
    ∷ codes "0"
    ∷ codes "Q"
    ∷ codes "W"
    ∷ codes "E"
    ∷ codes "R"
    ∷ codes "T"
    ∷ codes "Y"
    ∷ codes "U"
    ∷ codes "I"
    ∷ codes "O"
    ∷ codes "P"
    ∷ codes "A"
    ∷ codes "S"
    ∷ codes "D"
    ∷ codes "F"
    ∷ codes "G"
    ∷ codes "H"
    ∷ codes "J"
    ∷ codes "K"
    ∷ codes "L"
    ∷ codes "Z"
    ∷ codes "X"
    ∷ codes "C"
    ∷ codes "V"
    ∷ codes "B"
    ∷ codes "N"
    ∷ codes "M"
    ∷ []

-- `label.trim().to_ascii_uppercase()`.
unfoldable pub canonical : Text → Text
canonical label = to_upper (trim label)

unfoldable pub is_valid_spammer_key : Text → Bool
is_valid_spammer_key label = contains spammer_key_labels (canonical label)

-- `Iterator::position` of a label.
unfoldable pub position : Text → List Text → Option ℕ
position label [] = none
position label (x ∷ xs) =
    let rest = position label xs in
    if text_eq x label then some 0 else elim rest [ some i ↦ some (suc i) | none ↦ none ]

unfoldable pub spammer_key_order : Text → ℕ
spammer_key_order label = elim (position label spammer_key_labels) [ some i ↦ i % 256 | none ↦ 255 ]

-- `slice::sort_by_key`, which is stable.
module _ {A : Type 0} (key : A → ℕ) where
  unfoldable pub insert_by_key : A → List A → List A
  insert_by_key x [] = x ∷ []
  insert_by_key x (y ∷ ys) =
      let rest = insert_by_key x ys in if leb (key x) (key y) then x ∷ y ∷ ys else y ∷ rest

  unfoldable pub sort_by_key : List A → List A
  sort_by_key [] = []
  sort_by_key (x ∷ xs) = insert_by_key x (sort_by_key xs)

-- `Vec::dedup`, which drops an element that equals the one kept before it.
unfoldable pub dedup_after : Text → List Text → List Text
dedup_after kept [] = []
dedup_after kept (x ∷ xs) =
    let same = dedup_after kept xs in
    let rest = dedup_after x xs in if text_eq x kept then same else x ∷ rest

unfoldable pub dedup : List Text → List Text
dedup [] = []
dedup (x ∷ xs) = x ∷ dedup_after x xs

unfoldable pub normalize_spammer_keys : List Text → List Text
normalize_spammer_keys keys =
    dedup (sort_by_key spammer_key_order (filter is_valid_spammer_key (map canonical keys)))
