-- ===== src/Console/Queue/Order.antt =====
-- What `_pump` tries, and what it leaves in the queue.
use project008_soundtech_ass.Prelude.{
  ◌≡◌, refl, Option, none, some, List, [], ◌∷◌, ◌++◌, arith, Bool, true, false, ◌||◌,
}
use project008_soundtech_ass.Console.Queue.{
  Started, launched, raised, WriteQueue, Attempts, pump_pending, settle,
}

abbrev pub items {ℓ} : {A : Type ℓ} → Attempts A → List A
items [] = []
items ((x, _) ∷ l) = x ∷ items l

abbrev pub launches {ℓ} : {A : Type ℓ} → Attempts A → List A
launches [] = []
launches ((x, launched) ∷ l) = x ∷ launches l
launches ((x, _) ∷ l) = launches l

abbrev pub to_list {ℓ} : {A : Type ℓ} → Option A → List A
to_list none = []
to_list (some x) = x ∷ []

abbrev pub is_nil {ℓ} : {A : Type ℓ} → List A → Bool
is_nil [] = true
is_nil (x ∷ xs) = false

abbrev pub is_some {ℓ} : {A : Type ℓ} → Option A → Bool
is_some none = false
is_some (some x) = true

-- a call of `start` raised
abbrev pub has_raised {ℓ} : {A : Type ℓ} → Attempts A → Bool
has_raised [] = false
has_raised ((x, raised) ∷ l) = true
has_raised ((x, _) ∷ l) = has_raised l

module _ {ℓ} {A : Type ℓ} (start : A → Started) where
  pump_pending-order :
      (xs : List A) → items (pump_pending start xs).1 ++ (pump_pending start xs).0.pending ≡ xs
  unfolding pump_pending
  pump_pending-order [] = refl
  pump_pending-order (x ∷ xs) = ground (arith, pump_pending-order xs)

  pump_pending-launches :
      (xs : List A)
      → launches (pump_pending start xs).1 ≡ to_list (pump_pending start xs).0.in_flight
  unfolding pump_pending
  pump_pending-launches [] = refl
  pump_pending-launches (x ∷ xs) = ground (arith, pump_pending-launches xs)

  pump_pending-no_stall :
      (xs : List A)
      → (is_nil (pump_pending start xs).0.pending
          || is_some (pump_pending start xs).0.in_flight
          || has_raised (pump_pending start xs).1)
        ≡ true
  unfolding pump_pending
  pump_pending-no_stall [] = refl
  pump_pending-no_stall (x ∷ xs) = ground (arith, pump_pending-no_stall xs)

  -- `settle` frees the slot and tries the pending items in order: those it tried, followed by those still
  -- pending, are the items that were pending. The slot then holds exactly the item it launched, if any, and
  -- not the one of before. So no item is left to wait unless one was launched or `start` raised.
  pub settle-releases :
      (q : WriteQueue A)
      → (items (settle start q).1 ++ (settle start q).0.pending ≡ q.pending)
        × (launches (settle start q).1 ≡ to_list (settle start q).0.in_flight)
        × ((is_nil (settle start q).0.pending
              || is_some (settle start q).0.in_flight
              || has_raised (settle start q).1)
            ≡ true)
  unfolding settle
  settle-releases q = (
    pump_pending-order q.pending,
    pump_pending-launches q.pending,
    pump_pending-no_stall q.pending,
  )
