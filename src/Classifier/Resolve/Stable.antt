-- ===== src/Classifier/Resolve/Stable.antt =====
-- An answer that a classifier gave once is the one it gives again.
use project008_soundtech_ass.Prelude.{
  ℕ, ◌≡◌, refl, ap, ◌∙◌, ◌&&◌, some, List, [], ◌∷◌, ◌==◌, ==_refl, ==→eq, if◌then◌else◌, arith,
  Option-cases, inl, inr,
}
use project008_soundtech_ass.Prelude.Text.{Text, text_eq}
use project008_soundtech_ass.Prelude.Dict.{Dict, insert, lookup-insert}
use project008_soundtech_ass.Classifier.Matcher.{Classification}
use project008_soundtech_ass.Classifier.Resolve.{
  Classifier, within, recall, memorise, Sources, cached, ask, first_answer, note, resolve_target,
  resolve, flush, Use, resolving, flushing, use_once, use_all,
}

recall-memorise :
    (d e : Text) (t u : Text) (r : Classification) (memo : Dict Text (Dict Text Classification))
    → recall d t (memorise e u r memo) ≡ (if d == e && t == u then some r else recall d t memo)
unfolding recall memorise
recall-memorise d e t u r memo = ground (
  arith,
  lookup-insert d e (insert u r (within e memo)) memo,
  lookup-insert t u r (within e memo),
)

module _ {W : Type 0} (R : Sources W) where
  first_answer-memo :
      (name domain : Text) (w : W) (c : Classifier)
      → (first_answer R name domain w c).1.memo ≡ c.memo
  unfolding first_answer cached ask
  first_answer-memo name domain w c = ground arith

  note-memo :
      (name domain target : Text) (r : Classification) (c : Classifier)
      → (note R name domain target r c).memo ≡ memorise domain target r c.memo
  unfolding note
  note-memo name domain target r c = ground arith

  recall-note :
      (name domain target : Text) (r : Classification) (c : Classifier) (e u : Text)
      → recall e u (note R name domain target r c).memo
        ≡ (if e == domain && u == target then some r else recall e u c.memo)
  recall-note name domain target r c e u =
      ap (recall e u) (note-memo name domain target r c)
      ∙ recall-memorise e domain u target r c.memo

  resolve_target-keeps :
      (name domain t : Text) (w : W) (c : Classifier) (e u : Text) (r : Classification)
      → recall e u c.memo ≡ some r
      → recall e u (resolve_target R name domain t w c).1.memo ≡ some r
  unfolding resolve_target
  resolve_target-keeps name domain [] w c e u r h = h
  resolve_target-keeps name domain (x ∷ t) w c e u r h =
      let answer = first_answer R name domain w c in
      elim (Option-cases (recall domain (x ∷ t) c.memo)) [
        | inl n ↦ ground (
          arith,
          recall-note name domain (x ∷ t) answer.0 answer.1 e u,
          first_answer-memo name domain w c,
          ==→eq e domain,
          ==→eq u (x ∷ t),
        )
        | inr (a, k) ↦ ground arith
      ]

  resolve_target-recall :
      (name domain : Text) (x : ℕ) (t : Text) (w : W) (c : Classifier)
      → recall domain (x ∷ t) (resolve_target R name domain (x ∷ t) w c).1.memo
        ≡ some (resolve_target R name domain (x ∷ t) w c).0
  unfolding resolve_target
  resolve_target-recall name domain x t w c =
      let answer = first_answer R name domain w c in
      elim (Option-cases (recall domain (x ∷ t) c.memo)) [
        | inl n ↦ ground (
          arith,
          recall-note name domain (x ∷ t) answer.0 answer.1 domain (x ∷ t),
          ==_refl domain,
          ==_refl (x ∷ t),
        )
        | inr (a, k) ↦ ground arith
      ]

  use_all-keeps :
      (us : List Use) (s : W × Classifier) (e u : Text) (r : Classification)
      → recall e u s.1.memo ≡ some r
      → recall e u (use_all R us s).1.memo ≡ some r
  unfolding use_all use_once resolve flush
  use_all-keeps [] s e u r h = h
  use_all-keeps (resolving name domain ∷ us) s e u r h =
      use_all-keeps us (s.0, (resolve R name domain s.0 s.1).1) e u r
        (resolve_target-keeps name domain (R.clean name) s.0 s.1 e u r h)
  use_all-keeps (flushing ∷ us) s e u r h = use_all-keeps us (flush R s.0 s.1) e u r h

  resolve_target-recalled :
      (name domain : Text) (x : ℕ) (t : Text) (w : W) (c : Classifier) (r : Classification)
      → recall domain (x ∷ t) c.memo ≡ some r
      → resolve_target R name domain (x ∷ t) w c ≡ (r, c)
  unfolding resolve_target
  resolve_target-recalled name domain x t w c r h = ground arith

  stable_target :
      (name other domain t : Text) (w : W) (c : Classifier) (us : List Use)
      → (let r = resolve_target R name domain t w c in
          let s = use_all R us (w, r.1) in resolve_target R other domain t s.0 s.1 ≡ (r.0, s.1))
  unfolding resolve_target
  stable_target name other domain [] w c us = refl
  stable_target name other domain (x ∷ t) w c us =
      let r = resolve_target R name domain (x ∷ t) w c in
      let s = use_all R us (w, r.1) in
      resolve_target-recalled other domain x t s.0 s.1 r.0
        (use_all-keeps us (w, r.1) domain (x ∷ t) r.0 (resolve_target-recall name domain x t w c))

  -- Once a name is resolved, every use of the classifier later, another spelling of the name that cleans
  -- to the same gets the same answer, and the classifier stays as it is.
  pub resolve-stable :
      (name other domain : Text) (w : W) (c : Classifier) (us : List Use)
      → R.clean other ≡ R.clean name
      → (let (answer, c') = resolve R name domain w c in
          let (w', c'') = use_all R us (w, c') in resolve R other domain w' c'' ≡ (answer, c''))
  unfolding resolve
  resolve-stable name other domain w c us h =
      ap (λ t. resolve_target R other domain t s.0 s.1) h
      ∙ stable_target name other domain (R.clean name) w c us
    where
      s : W × Classifier
      s = use_all R us (w, (resolve_target R name domain (R.clean name) w c).1)
