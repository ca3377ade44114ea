-- ===== src/Advisory/Resolver/Active.antt =====
-- The rules that are active, and the two reports of those that are not.
use project008_soundtech_ass.Prelude.{
  ◌≡◌, refl, sym, ap, ◌∙◌, Bool, true, false, ◌&&◌, ◌||◌, not, Option, none, some, List, [], ◌∷◌,
  ◌++◌, ◌==◌, contains, contains-append, distinct, All, All-append, ==_refl, filter_by, Result, ok,
  err, ◌>>=◌, >>=-eq-ok, arith,
}
use project008_soundtech_ass.Prelude.Text.{Text, text_eq}
use project008_soundtech_ass.Prelude.Dict.{Dict, keys, insert, keys-insert}
use project008_soundtech_ass.Advisory.Evaluator.{Rule}
use project008_soundtech_ass.Advisory.Resolver.{
  ids, superseded, is_wanted, on_event, higher, kept, active_rules, note_superseded, note_all,
  suppressed_ids, note_events, off_event_ids, check_supersedes, check_all, validate_all,
}

keys-note_superseded :
    (id : Text) (ts : List Text) (d : Dict Text Text) (j : Text)
    → contains (keys (note_superseded id ts d)) j ≡ (contains (keys d) j || contains ts j)
unfolding note_superseded
keys-note_superseded id [] d j = ground arith
keys-note_superseded id (t ∷ ts) d j =
    ground (arith, keys-note_superseded id ts (insert t id d) j, keys-insert t id d j)

checks_then :
    {E A : Type 0} (m n : Result E (Unit {0})) {x y : A}
    → (m >>= λ _. n >>= λ _. ok x) ≡ ok y
    → (x ≡ y) × (n ≡ ok tt)
checks_then (ok _) (ok tt) h = (ground arith, refl)
checks_then (ok _) (err e) h = cc
checks_then (err e) n h = cc

-- the loop of `check_supersedes` passes only over base ids
check_supersedes-base :
    (base_ids higher_ids : List Text) (id : Text) (ts : List Text)
    → check_supersedes base_ids higher_ids id ts ≡ ok tt
    → All (λ t. contains base_ids t ≡ true) ts
unfolding check_supersedes
check_supersedes-base base_ids higher_ids id [] h = tt
check_supersedes-base base_ids higher_ids id (t ∷ ts) h =
    (ground arith, check_supersedes-base base_ids higher_ids id ts (ground arith))

module _ {V : Type 0} where
  -- some rule of another event has the id
  abbrev off_id : Text → List (Rule V) → Text → Bool
  off_id event [] j = false
  off_id event (r ∷ rs) j = not (is_wanted event r) && j == r.id || off_id event rs j

  keys-note_all :
      (rules : List (Rule V)) (d : Dict Text Text) (j : Text)
      → contains (keys (note_all rules d)) j
        ≡ (contains (keys d) j || contains (superseded rules) j)
  unfolding note_all superseded
  keys-note_all [] d j = ground arith
  keys-note_all (r ∷ rules) d j = ground (
    arith,
    keys-note_all rules (note_superseded r.id r.supersedes d) j,
    keys-note_superseded r.id r.supersedes d j,
    contains-append r.supersedes (superseded rules) j,
  )

  keys-note_events :
      (event : Text) (rules : List (Rule V)) (d : Dict Text Text) (j : Text)
      → contains (keys (note_events event rules d)) j
        ≡ (contains (keys d) j || off_id event rules j)
  unfolding note_events
  keys-note_events event [] d j = ground arith
  keys-note_events event (r ∷ rules) d j = ground (
    arith,
    keys-note_events event rules d j,
    keys-note_events event rules (insert r.id r.event d) j,
    keys-insert r.id r.event d j,
  )

  -- every rule's id stands in the report exactly if the rule is of another event
  abbrev Reported : Text → List (Rule V) → List (Rule V) → Type 0
  Reported event all rules = All (λ r. off_id event all r.id ≡ not (on_event (some event) r)) rules

  off_id_of_new :
      (event : Text) (rules : List (Rule V)) (j : Text)
      → contains (ids rules) j ≡ false
      → off_id event rules j ≡ false
  off_id_of_new event [] j h = refl
  off_id_of_new event (r ∷ rules) j h = ground (arith, off_id_of_new event rules j)

  Reported-cons :
      (event : Text) (r : Rule V) (all rules : List (Rule V))
      → contains (ids rules) r.id ≡ false
      → Reported event all rules
      → Reported event (r ∷ all) rules
  Reported-cons event r all [] h u = tt
  Reported-cons event r all (s ∷ rules) h u =
      (ground arith, Reported-cons event r all rules (ground arith) u.1)

  reported :
      (event : Text) (rules : List (Rule V))
      → distinct (ids rules) ≡ true
      → Reported event rules rules
  unfolding on_event
  reported event [] h = tt
  reported event (r ∷ rules) h = (
    ground (arith, off_id_of_new event rules r.id, ==_refl r.id),
    Reported-cons event r rules rules (ground arith) (reported event rules (ground arith)),
  )

  filter_by-filter_by :
      (p q s : Rule V → Bool) (rules : List (Rule V))
      → All (λ r. s r ≡ (p r && q r)) rules
      → filter_by p (filter_by q rules) ≡ filter_by s rules
  filter_by-filter_by p q s [] u = refl
  filter_by-filter_by p q s (r ∷ rules) u = ground (arith, filter_by-filter_by p q s rules u.1)

  -- neither report names the rule
  abbrev pub is_unreported : Dict Text Text → Dict Text Text → Rule V → Bool
  is_unreported suppressed off r =
      not (contains (keys suppressed) r.id) && not (contains (keys off) r.id)

  unreported_on :
      (over all rules : List (Rule V)) (event : Text)
      → Reported event all rules
      → All
          (λ r.
            is_unreported (note_all over []) (note_events event all []) r
            ≡ (on_event (some event) r && not (contains (superseded over) r.id)))
          rules
  unreported_on over all [] event u = tt
  unreported_on over all (r ∷ rules) event u = (
    ground (arith, u.0, keys-note_all over [] r.id, keys-note_events event all [] r.id),
    unreported_on over all rules event u.1,
  )

  unreported_always :
      (over rules : List (Rule V))
      → All
          (λ r.
            is_unreported (note_all over []) [] r
            ≡ (on_event none r && not (contains (superseded over) r.id)))
          rules
  unfolding on_event
  unreported_always over [] = tt
  unreported_always over (r ∷ rules) =
      (ground (arith, keys-note_all over [] r.id), unreported_always over rules)

  kept-reports :
      (over base : List (Rule V)) (declared : Option Text)
      → distinct (ids base) ≡ true
      → kept (superseded over) declared base
        ≡ filter_by (is_unreported (note_all over []) (off_event_ids declared base)) base
  unfolding kept off_event_ids
  kept-reports over base none h =
      filter_by-filter_by (on_event none) (λ r. not (contains (superseded over) r.id))
        (is_unreported (note_all over []) []) base (unreported_always over base)
  kept-reports over base (some event) h =
      filter_by-filter_by (on_event (some event)) (λ r. not (contains (superseded over) r.id))
        (is_unreported (note_all over []) (note_events event base [])) base
        (unreported_on over base base event (reported event base h))

  module _ (equal : V → V → Bool) (conditions : Text → Option V) where
    active_rules-kept :
        (candidates base : List (Rule V)) (declared : Option Text) (rules : List (Rule V))
        → active_rules equal conditions candidates base declared ≡ ok rules
        → (kept (superseded (higher equal conditions candidates)) declared base
              ++ higher equal conditions candidates
            ≡ rules)
          × (check_all
                (ids base)
                (ids (higher equal conditions candidates))
                (higher equal conditions candidates)
              ≡ ok tt)
    unfolding active_rules
    active_rules-kept candidates base declared rules k =
        checks_then (validate_all equal conditions candidates)
          (check_all (ids base) (ids (higher equal conditions candidates))
            (higher equal conditions candidates))
          k

    -- With distinct ids in the base rules, the active rules are the base rules that neither report
    -- names, then the active rules of the higher layers.
    pub active_rules-reports :
        (candidates base : List (Rule V)) (declared : Option Text) (rules : List (Rule V))
        → distinct (ids base) ≡ true
        → active_rules equal conditions candidates base declared ≡ ok rules
        → rules
          ≡ filter_by
              (is_unreported
                (suppressed_ids equal conditions candidates)
                (off_event_ids declared base))
              base
            ++ higher equal conditions candidates
    unfolding suppressed_ids
    active_rules-reports candidates base declared rules h k =
        sym (active_rules-kept candidates base declared rules k).0
        ∙ ap (λ rs. rs ++ higher equal conditions candidates)
            (kept-reports (higher equal conditions candidates) base declared h)

    check_all-base :
        (base_ids higher_ids : List Text) (rules : List (Rule V))
        → check_all base_ids higher_ids rules ≡ ok tt
        → All (λ t. contains base_ids t ≡ true) (superseded rules)
    unfolding check_all superseded
    check_all-base base_ids higher_ids [] h = tt
    check_all-base base_ids higher_ids (r ∷ rules) h =
        let (_, later, first) =
          >>=-eq-ok (check_supersedes base_ids higher_ids r.id r.supersedes)
            (λ _. check_all base_ids higher_ids rules) h in
        All-append (λ t. contains base_ids t ≡ true) r.supersedes (superseded rules)
          (check_supersedes-base base_ids higher_ids r.id r.supersedes first)
          (check_all-base base_ids higher_ids rules later)

    -- If the rules resolve, each id that an active rule supersedes is that of a base rule.
    active_rules-superseded :
        (candidates base : List (Rule V)) (declared : Option Text) (rules : List (Rule V))
        → active_rules equal conditions candidates base declared ≡ ok rules
        → All (λ t. contains (ids base) t ≡ true) (superseded (higher equal conditions candidates))
    active_rules-superseded candidates base declared rules k =
        check_all-base (ids base) (ids (higher equal conditions candidates))
          (higher equal conditions candidates)
          (active_rules-kept candidates base declared rules k).1
