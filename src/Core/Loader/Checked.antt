-- ===== src/Core/Loader/Checked.antt =====
-- The documents that are loaded and validated without anomalies.
use project008_soundtech_ass.Prelude.{
  ◌≡◌, sym, ap, ◌∙◌, >>=-eq-ok, Bool-cases, true, false, Option-cases, some, [], ok, arith, inl,
  inr,
}
use project008_soundtech_ass.Prelude.Text.{Text, codes, text_eq}
use project008_soundtech_ass.Prelude.Dict.{Dict, lookup}
use project008_soundtech_ass.Edit.Document.{Document, Fields, leaf, dict, get}
use project008_soundtech_ass.Core.Loader.{
  SceneVersion, RawScene, Values, registered, fallback, resolve, get_or_empty, parse_raw, truth,
  scene_of,
}
use project008_soundtech_ass.Core.Validator.{Types, validate}
use project008_soundtech_ass.Core.Validator.Sound.{IsWhole, whole, validate-IsWhole}

module _ {V : Type 0} (P : Values V) (registry : Dict Text (SceneVersion V)) (newest : Text) where
  get_or_empty-section :
      (key section : Text) (doc block : Fields V) (value : Document V)
      → get_or_empty P registry newest key doc ≡ dict block
      → get section block ≡ some value
      → get key doc ≡ some (dict block)
  unfolding get_or_empty get
  get_or_empty-section key section doc block value e s = elim (Option-cases (get key doc)) [
    | inl n ↦ absurd (ground arith)
    | inr (found, g) ↦ elim (Bool-cases (truth P registry newest found)) [
      | inl t ↦ ground arith
      | inr f ↦ absurd (ground arith)
    ]
  ]

  fallback-unknown :
      (type_id : Document V) (version : SceneVersion V)
      → fallback P registry newest type_id ≡ ok version
      → version.known ≡ false
  unfolding fallback
  fallback-unknown type_id version e = elim (Option-cases (lookup newest registry)) [
    | inl n ↦ absurd (ground arith)
    | inr (entry, l) ↦ ground (arith, e, l)
  ]

  -- The version is the entry of the registry for the text of the type.
  pub data IsRegistered (version : SceneVersion V) : Document V → Type 0 where
    named :
        (v : V) (t : Text)
        → P.as_text v ≡ some t
        → lookup t registry ≡ some version
        → IsRegistered version (leaf v)

  resolve-known :
      (type_id : Document V) (version : SceneVersion V)
      → resolve P registry newest type_id ≡ ok version
      → version.known ≡ true
      → IsRegistered version type_id
  unfolding resolve registered
  resolve-known (dict fields) version e k = absurd (cc)
  resolve-known (leaf v) version e k = elim (Option-cases (P.as_text v)) [
    | inl n ↦ elim (Bool-cases (P.hashable v)) [
      | inl h ↦ absurd (ground (arith, fallback-unknown (leaf v) version))
      | inr h ↦ absurd (ground arith)
    ]
    | inr (t, a) ↦ elim (Option-cases (lookup t registry)) [
      | inl n ↦ absurd (ground (arith, fallback-unknown (leaf v) version))
      | inr (entry, l) ↦ named v t a (ground arith)
    ]
  ]

  module _ (T : Types V) where
    -- The document is an object with a type of the registry, it has both blocks itself, and they are whole.
    pub data IsChecked (raw : RawScene V) : Document V → Type 0 where
      checked :
          (doc : Fields V) (type_id : Document V)
          → get (codes "type") doc ≡ some type_id
          → IsRegistered raw.version type_id
          → get (codes "ae_data") doc ≡ some raw.ae
          → get (codes "ce_data") doc ≡ some raw.ce
          → IsWhole T raw
          → IsChecked raw (dict doc)

    assembled :
        (doc : Fields V) (file_path : Text) (version : SceneVersion V) (type_id : Document V)
        (raw : RawScene V)
        → get (codes "type") doc ≡ some type_id
        → resolve P registry newest type_id ≡ ok version
        → scene_of P registry newest doc file_path version ≡ raw
        → IsWhole T raw
        → IsChecked raw (dict doc)
    assembled doc file_path version type_id raw g r same w =
        elim w as (λ _. IsChecked raw (dict doc)) [
          | whole ae ce k a c ((cfg, in_ae), _) ((cfg', in_ce), _) counts ↦
              let registered =
                resolve-known type_id raw.version (r ∙ ap (λ s. ok s.version) same) k in
              let own_ae =
                get_or_empty-section (codes "ae_data") (codes "cfg") doc ae cfg
                  (ap (λ s. s.ae) same ∙ a) in_ae in
              let own_ce =
                get_or_empty-section (codes "ce_data") (codes "cfg") doc ce cfg'
                  (ap (λ s. s.ce) same ∙ c) in_ce in
              checked doc type_id g registered (own_ae ∙ ap some (sym a)) (own_ce ∙ ap some (sym c))
                w
        ]

    -- A document that is loaded as a scene and validated without anomalies is an object whose type is a
    -- key of the registry, and the version is its entry; the two blocks are the document's own, not an
    -- empty object in place of a missing or empty one; and the scene is whole.
    pub parse_raw-IsChecked :
        (document : Document V) (file_path : Text) (raw : RawScene V)
        → parse_raw P registry newest document file_path ≡ ok raw
        → validate T raw ≡ []
        → IsChecked raw document
    unfolding parse_raw
    parse_raw-IsChecked (leaf v) file_path raw e n = absurd (cc)
    parse_raw-IsChecked (dict doc) file_path raw e n =
        elim (Option-cases (get (codes "type") doc)) [
          | inl m ↦ absurd (ground arith)
          | inr (type_id, g) ↦ elim (Bool-cases (truth P registry newest type_id)) [
            | inr f ↦ absurd (ground arith)
            | inl t ↦
                let (version, last, r) =
                  >>=-eq-ok {last = raw} (resolve P registry newest type_id)
                    (λ version. ok (scene_of P registry newest doc file_path version))
                    (ground arith) in
                assembled doc file_path version type_id raw g r (ground arith)
                  ((validate-IsWhole T raw).0 n)
          ]
        ]
