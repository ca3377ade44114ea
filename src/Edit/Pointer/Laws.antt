-- ===== src/Edit/Pointer/Laws.antt =====
-- What was written is read back, and nothing else changes.
use project008_soundtech_ass.Prelude.{
  ◌≡◌, refl, Bool, true, false, none, some, List, [], ◌∷◌, ◌++◌, ok, ◌==◌, arith, Option-cases, inl,
  inr, ◌&&◌, >>=-eq-ok, ◌∙◌, sym, ==_of_ne,
}
use project008_soundtech_ass.Prelude.Text.{Text, text_eq, split}
use project008_soundtech_ass.Net.Address.{dot}
use project008_soundtech_ass.Edit.Document.{Document, leaf, dict, Fields, get, put, get-put}
use project008_soundtech_ass.Edit.Pointer.{walk, read, write_at, write}

-- One path leads into the other: the shorter is a prefix of the longer.
abbrev pub overlap : List Text → List Text → Bool
overlap [] q = true
overlap (s ∷ p) [] = true
overlap (s ∷ p) (t ∷ q) = s == t && overlap p q

module _ {V : Type 0} where
  -- A write below a dict is a write in one of its children.
  write_at_inv :
      (s : Text) (p done : List Text) (v d' : Document V) (fs : Fields V)
      → write_at done (s ∷ p) v (dict fs) ≡ ok d'
      → (child : Document V) × (child' : Document V) × (get s fs ≡ some child)
        × (write_at (done ++ (s ∷ [])) p v child ≡ ok child')
        × (d' ≡ dict (put s child' fs))
  unfolding write_at
  write_at_inv s p done v d' fs h = elim (Option-cases (get s fs)) [
    | inl e ↦ absurd (ground arith)
    | inr (child, e) ↦
        let (child', same, w) =
          >>=-eq-ok (write_at (done ++ (s ∷ [])) p v child) (λ c. ok (dict (put s c fs)))
            (rw (e, write_at) at h) in
        (child, child', e, w, cc)
  ]

  write_at_leaf :
      (s : Text) (p done : List Text) (v d' : Document V) (x : V)
      → ¬ (write_at done (s ∷ p) v (leaf x) ≡ ok d')
  unfolding write_at
  write_at_leaf s p done v d' x h = cc

  pub walk-dict :
      (s : Text) (p done : List Text) (fs : Fields V) (child : Document V)
      → get s fs ≡ some child
      → walk done (s ∷ p) (dict fs) ≡ walk (done ++ (s ∷ [])) p child
  unfolding walk
  walk-dict s p done fs child e = ground arith

  walk-write_at_self :
      (p done done' : List Text) (v d d' : Document V)
      → write_at done p v d ≡ ok d'
      → walk done' p d' ≡ ok v
  walk-write_at_self [] done done' v d d' h = unfold walk write_at in ground arith
  walk-write_at_self (s ∷ p) done done' v (leaf x) d' h = absurd (write_at_leaf s p done v d' x h)
  walk-write_at_self (s ∷ p) done done' v (dict fs) d' h =
      let (child, child', e, w, same) = write_at_inv s p done v d' fs h in
      let found : get s (put s child' fs) ≡ some child' = ground (arith, get-put s s child' fs) in
      rw (same, walk-dict s p done' (put s child' fs) child' found)
        (walk-write_at_self p _ (done' ++ (s ∷ [])) v child child' w)

  walk-put_ne :
      (t s : Text) (q done : List Text) (child : Document V) (fs : Fields V)
      → (t == s) ≡ false
      → walk done (t ∷ q) (dict (put s child fs)) ≡ walk done (t ∷ q) (dict fs)
  unfolding walk
  walk-put_ne t s q done child fs n = ground (arith, get-put t s child fs)

  walk-write_at_other :
      (p q done done' : List Text) (v d d' : Document V)
      → write_at done p v d ≡ ok d'
      → overlap p q ≡ false
      → walk done' q d' ≡ walk done' q d
  walk-write_at_other [] q done done' v d d' h n = cc
  walk-write_at_other (s ∷ p) [] done done' v d d' h n = cc
  walk-write_at_other (s ∷ p) (t ∷ q) done done' v (leaf x) d' h n =
      absurd (write_at_leaf s p done v d' x h)
  walk-write_at_other (s ∷ p) (t ∷ q) done done' v (dict fs) d' h n =
      let (child, child', e, w, same) = write_at_inv s p done v d' fs h in
      elim (text_eq.dec s t) [
        | yes eq ↦
            rw (same, ← eq)
              (walk-dict s q done' (put s child' fs) child' (ground (arith, get-put s s child' fs))
                ∙ (walk-write_at_other p q _ (done' ++ (s ∷ [])) v child child' w (ground arith)
                    ∙ sym (walk-dict s q done' fs child e)))
        | no ne ↦ rw same (walk-put_ne t s q done' child' fs (==_of_ne t s (λ k. ne (sym k))))
      ]

  walk_leaf :
      (s : Text) (p done : List Text) (x : V) (c : Document V)
      → ¬ (walk done (s ∷ p) (leaf x) ≡ ok c)
  unfolding walk
  walk_leaf s p done x c h = cc

  walk-none :
      (s : Text) (p done : List Text) (fs : Fields V) (c : Document V)
      → get s fs ≡ none
      → ¬ (walk done (s ∷ p) (dict fs) ≡ ok c)
  unfolding walk
  walk-none s p done fs c e h = ground arith

  -- A write succeeds where a read does.
  write_at-walk :
      (p done : List Text) (v d c : Document V)
      → walk done p d ≡ ok c
      → (d' : Document V) × (write_at done p v d ≡ ok d')
  unfolding write_at
  write_at-walk [] done v d c h = (v, refl)
  write_at-walk (s ∷ p) done v (leaf x) c h = absurd (walk_leaf s p done x c h)
  write_at-walk (s ∷ p) done v (dict fs) c h = elim (Option-cases (get s fs)) [
    | inl e ↦ absurd (walk-none s p done fs c e h)
    | inr (child, e) ↦
        let (child', w) =
          write_at-walk p (done ++ (s ∷ [])) v child c (sym (walk-dict s p done fs child e) ∙ h) in
        (dict (put s child' fs), rw (e, write_at) (rw w))
  ]

  -- A write that succeeds is read back at its path.
  pub read-write :
      (d d' v : Document V) (path : Text) → write d path v ≡ ok d' → read d' path ≡ ok v
  unfolding read write
  read-write d d' v path h = walk-write_at_self (split dot path) [] [] v d d' h

  -- After a write that succeeds, a path of which neither leads into the other reads what it read before.
  pub read-write_apart :
      (d d' v : Document V) (path other : Text)
      → write d path v ≡ ok d'
      → overlap (split dot path) (split dot other) ≡ false
      → read d' other ≡ read d other
  unfolding read write
  read-write_apart d d' v path other h n =
      walk-write_at_other (split dot path) (split dot other) [] [] v d d' h n

  -- A path that reads can be written: `write` raises only where `read` does.
  write-read :
      (d c v : Document V) (path : Text)
      → read d path ≡ ok c
      → (d' : Document V) × (write d path v ≡ ok d')
  unfolding read write
  write-read d c v path h = write_at-walk (split dot path) [] v d c h
