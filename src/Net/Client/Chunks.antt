-- ===== src/Net/Client/Chunks.antt =====
-- The addresses that the chunks hold, and those that a filter keeps.
use project008_soundtech_ass.Prelude.{
  ℕ, zero, suc, ◌≡◌, refl, Bool, false, ◌&&◌, ◌||◌, not, List, [], ◌∷◌, ◌++◌, contains,
  contains-append, filter_by, arith,
}
use project008_soundtech_ass.Prelude.Text.{Text, text_eq}
use project008_soundtech_ass.Net.Client.{dedup, chunks_from, chunks}

pub contains-dedup :
    (seen xs : List Text) (a : Text)
    → contains (dedup seen xs) a ≡ (contains xs a && not (contains seen a))
unfolding dedup
contains-dedup seen [] a = refl
contains-dedup seen (x ∷ xs) a =
    ground (arith, contains-dedup seen xs a, contains-dedup (x ∷ seen) xs a)

-- somewhere in the chunks
abbrev pub in_chunks : List (List Text) → Text → Bool
in_chunks [] a = false
in_chunks (c ∷ cs) a = contains c a || in_chunks cs a

contains-chunks_from :
    (size room : ℕ) (current xs : List Text) (a : Text)
    → in_chunks (chunks_from size room current xs) a ≡ (contains current a || contains xs a)
unfolding chunks_from
contains-chunks_from size room [] [] a = refl
contains-chunks_from size room (c ∷ cs) [] a = ground arith
contains-chunks_from size zero [] (x ∷ xs) a =
    ground (arith, contains-chunks_from size size (x ∷ []) xs a)
contains-chunks_from size zero (c ∷ cs) (x ∷ xs) a =
    ground (arith, contains-chunks_from size size (x ∷ []) xs a)
contains-chunks_from size (suc room) [] (x ∷ xs) a =
    ground (arith, contains-chunks_from size room (x ∷ []) xs a)
contains-chunks_from size (suc room) (c ∷ cs) (x ∷ xs) a = ground (
  arith,
  contains-chunks_from size room ((c ∷ cs) ++ (x ∷ [])) xs a,
  contains-append cs (x ∷ []) a,
)

pub contains-chunks :
    (size : ℕ) (xs : List Text) (a : Text) → in_chunks (chunks size xs) a ≡ contains xs a
unfolding chunks
contains-chunks size [] a = refl
contains-chunks size (x ∷ xs) a = ground (arith, contains-chunks_from size size (x ∷ []) xs a)

pub contains-filter_by :
    (p : Text → Bool) (xs : List Text) (a : Text)
    → contains (filter_by p xs) a ≡ (contains xs a && p a)
contains-filter_by p [] a = refl
contains-filter_by p (x ∷ xs) a = ground (arith, contains-filter_by p xs a)
