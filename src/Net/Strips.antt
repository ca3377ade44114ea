-- ===== src/Net/Strips.antt =====
-- `build_watch_list` of wing_parser/net/watch/list.py. The schema walk, the keys of the data file and the
-- match of `_STRIP_RE` are parameters, and `show` is Python's `str` of a number.
pub mod Watched
use project008_soundtech_ass.Prelude.{
  ℕ, suc, Bool, true, false, not, Option, none, some, List, [], ◌∷◌, ◌++◌, contains, ltb, eqb,
  length, if◌then◌else◌, filter_by, Result, ok, err,
}
use project008_soundtech_ass.Prelude.Text.{Text, codes, text_eq}
use project008_soundtech_ass.Prelude.Dict.{Dict, keys, lookup, insert}

abbrev pub families : List Text
families = codes "ch" ∷ codes "bus" ∷ codes "main" ∷ codes "mtx" ∷ codes "dca" ∷ []

pub record WatchList : Type 0 where
  pub addresses : List Text
  pub unresolved : List Text
  pub strips : Dict Text ℕ

-- The `ValueError`, with the families that are none; the message sorts them.
pub data WatchError : Type 0 where
  unknown_families : List Text → WatchError

-- `numbers.add(n)`, on a set that is kept sorted
unfoldable pub add_number : ℕ → List ℕ → List ℕ
add_number n [] = n ∷ []
add_number n (m ∷ ms) =
    let later = m ∷ add_number n ms in
    if eqb n m then m ∷ ms else if ltb n m then n ∷ m ∷ ms else later

abbrev pub numbers_of : Text → Dict Text (List ℕ) → List ℕ
numbers_of family present = elim (lookup family present) [ none ↦ [] | some ns ↦ ns ]

module _ (strip_of : Text → Option (Text × ℕ)) where
  -- The loop over `schema.leaves`.
  unfoldable pub present_from : Dict Text (List ℕ) → List Text → Dict Text (List ℕ)
  unfolding add_number
  present_from present [] = present
  present_from present (address ∷ more) =
      let skipped = present_from present more in
      elim (strip_of address) [
        | none ↦ skipped
        | some (family, n) ↦
            present_from (insert family (add_number n (numbers_of family present)) present) more
      ]

  module _ (show : ℕ → Text) where
    abbrev pub address_of : Text → ℕ → Text → Text
    address_of family n key = codes "/" ++ family ++ codes "/" ++ show n ++ codes "/" ++ key

    unfoldable pub key_addresses : Text → ℕ → List Text → List Text
    key_addresses family n [] = []
    key_addresses family n (key ∷ more) = address_of family n key ∷ key_addresses family n more

    unfoldable pub strip_addresses : Text → List ℕ → List Text → List Text
    unfolding key_addresses
    strip_addresses family [] ks = []
    strip_addresses family (n ∷ ns) ks = key_addresses family n ks ++ strip_addresses family ns ks

    -- The loop over `FAMILIES`.
    unfoldable pub family_addresses :
        Dict Text (List Text) → Dict Text (List ℕ) → List Text → List Text × Dict Text ℕ
    unfolding strip_addresses
    family_addresses wanted present [] = ([], [])
    family_addresses wanted present (family ∷ more) =
        let (addresses, strips) = family_addresses wanted present more in
        elim (lookup family wanted) [
          | none ↦ (addresses, strips)
          | some ks ↦ elim (lookup family present) [
            | none ↦ (addresses, strips)
            | some ns ↦ (strip_addresses family ns ks ++ addresses, (family, length ns) ∷ strips)
          ]
        ]

    unfoldable pub unknown_in : Dict Text (List Text) → List Text
    unknown_in wanted = filter_by (λ k. not (contains families k)) (keys wanted)

    unfoldable pub build_watch_list :
        Dict Text (List Text) → List Text → List Text → Result WatchError WatchList
    unfolding present_from family_addresses unknown_in
    build_watch_list wanted leaves unresolved = elim (unknown_in wanted) [
      | (k ∷ ks) ↦ err (unknown_families (k ∷ ks))
      | [] ↦
          let found = family_addresses wanted (present_from [] leaves) families in
          ok (record { addresses = found.0; unresolved = unresolved; strips = found.1 })
    ]
