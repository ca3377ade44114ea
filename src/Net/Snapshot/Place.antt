-- ===== src/Net/Snapshot/Place.antt =====
-- `_place` undoes `osc_address`: what is placed at a path's address is read at the path.
use project008_soundtech_ass.Prelude.{
  ◌≡◌, refl, false, Option, none, some, List, [], ◌∷◌, ◌++◌, ◌==◌, Result, ok, err, ◌>>=◌,
  >>=-eq-ok, All, arith, ap, ◌∙◌, sym, ==_refl,
}
use project008_soundtech_ass.Prelude.Text.{Text, text_eq, split, join}
use project008_soundtech_ass.Prelude.Text.Split.{Lacks, split-join}
use project008_soundtech_ass.Net.Address.{
  dot, slash, root_name, is_empty, check_parts, leaf_parts, join_segments, osc_address,
}
use project008_soundtech_ass.Edit.Document.{
  Document, leaf, dict, Fields, nil, field, get, put, get-put,
}
use project008_soundtech_ass.Edit.Pointer.{walk, read}
use project008_soundtech_ass.Edit.Pointer.Laws.{walk-dict}
use project008_soundtech_ass.Net.Snapshot.{
  ce_root, lstrip, PlaceError, place_at, place_segments, place,
}

-- An accepted path is the root's name and the parts, none of them empty.
leaf_parts-split :
    (path first : Text) (rest : List Text)
    → leaf_parts path ≡ ok (first ∷ rest)
    → (split dot path ≡ root_name ∷ first ∷ rest) × (is_empty first ≡ false)
unfolding leaf_parts
leaf_parts-split path first rest = go (split dot path)
  where
    go :
        (segments : List Text)
        → check_parts path segments ≡ ok (first ∷ rest)
        → (segments ≡ root_name ∷ first ∷ rest) × (is_empty first ≡ false)
    go [] h = absurd (ground arith)
    go (a ∷ []) h = absurd (ground arith)
    go (a ∷ b ∷ more) h = ground arith

lstrip-join :
    (first : Text) (rest : List Text)
    → is_empty first ≡ false
    → Lacks slash first
    → lstrip (slash ∷ join slash (first ∷ rest)) ≡ join slash (first ∷ rest)
unfolding lstrip join
lstrip-join [] rest e l = cc
lstrip-join (c ∷ s) [] e l = ground (arith, l.0)
lstrip-join (c ∷ s) (q ∷ qs) e l = ground (arith, l.0)

address-parts :
    (path address first : Text) (rest : List Text)
    → leaf_parts path ≡ ok (first ∷ rest)
    → osc_address path ≡ ok address
    → address ≡ join_segments (first ∷ rest)
unfolding osc_address
address-parts path address first rest p a = ground arith

module _ {V : Type 0} where
  -- Placing below a segment is placing in the dict there, old or new.
  place_at-inv :
      (s t : Text) (rest : List Text) (v : V) (fs fs' : Fields V)
      → place_at (s ∷ t ∷ rest) v fs ≡ ok fs'
      → (child : Fields V) × (child' : Fields V) × (place_at (t ∷ rest) v child ≡ ok child')
        × (fs' ≡ put s (dict child') fs)
  place_at-inv s t rest v fs fs' h = go (get s fs) (unfold place_at in h)
    where
      go :
          (o : Option (Document V))
          → ◌≡◌ {A = Result PlaceError (Fields V)}
              (elim o [
                | none ↦ place_at (t ∷ rest) v nil >>= λ child. ok (put s (dict child) fs)
                | some (dict child) ↦
                    place_at (t ∷ rest) v child >>= λ child'. ok (put s (dict child') fs)
                | some (leaf w) ↦ err (PlaceError.not_a_dict s)
              ])
              (ok fs')
          → (child : Fields V) × (child' : Fields V) × (place_at (t ∷ rest) v child ≡ ok child')
            × (fs' ≡ put s (dict child') fs)
      go none e =
          let (c, q, p) = >>=-eq-ok (place_at (t ∷ rest) v nil) (λ c. ok (put s (dict c) fs)) e in
          (nil, c, p, cc)
      go (some (dict child)) e =
          let (c, q, p) = >>=-eq-ok (place_at (t ∷ rest) v child) (λ c. ok (put s (dict c) fs)) e in
          (child, c, p, cc)
      go (some (leaf w)) e = cc

  place_at-walk :
      (parts done : List Text) (v : V) (fs fs' : Fields V)
      → place_at parts v fs ≡ ok fs'
      → walk done parts (dict fs') ≡ ok (leaf v)
  place_at-walk [] done v fs fs' h = unfold place_at in cc
  place_at-walk (s ∷ []) done v fs fs' h =
      let same : fs' ≡ put s (leaf v) fs = unfold place_at in ground arith in
      rw same (
        walk-dict s [] done (put s (leaf v) fs) (leaf v) (ground (arith, get-put s s (leaf v) fs))
        ∙ unfold walk in refl)
  place_at-walk (s ∷ t ∷ rest) done v fs fs' h =
      let (child, child', p, same) = place_at-inv s t rest v fs fs' h in
      let found : get s (put s (dict child') fs) ≡ some (dict child') =
        ground (arith, get-put s s (dict child') fs) in
      rw (same, walk-dict s (t ∷ rest) done (put s (dict child') fs) (dict child') found)
        (place_at-walk (t ∷ rest) (done ++ (s ∷ [])) v child child' p)

  -- The document of a `.snap` file, as far as `ae_data` goes.
  abbrev pub snap : Fields V → Document V
  snap ae = dict (field root_name (dict ae) nil)

  place-segments :
      (ae ce : Fields V) (first : Text) (rest : List Text) (v : V)
      → is_empty first ≡ false
      → All (Lacks slash) (first ∷ rest)
      → place ae ce (join_segments (first ∷ rest)) v ≡ place_segments ae ce (first ∷ rest) v
  unfolding place join_segments
  place-segments ae ce first rest v e l =
      ap (λ segments. place_segments ae ce segments v)
        (ap (split slash) (lstrip-join first rest e l.0) ∙ split-join slash first rest l.0 l.1)

  place_segments-ae :
      (ae ce : Fields V) (first : Text) (rest : List Text) (v : V)
      → (first == ce_root) ≡ false
      → place_segments ae ce (first ∷ rest) v
        ≡ (place_at (first ∷ rest) v ae >>= λ ae'. ok (ae', ce))
  unfolding place_segments
  place_segments-ae ae ce first rest v n = rw n

  place-parts :
      (ae ce ae' ce' : Fields V) (first : Text) (rest : List Text) (v : V)
      → is_empty first ≡ false
      → (first == ce_root) ≡ false
      → All (Lacks slash) (first ∷ rest)
      → place ae ce (join_segments (first ∷ rest)) v ≡ ok (ae', ce')
      → (place_at (first ∷ rest) v ae ≡ ok ae') × (ce' ≡ ce)
  place-parts ae ce ae' ce' first rest v e n l h =
      let (ae'', q, p) =
        >>=-eq-ok (place_at (first ∷ rest) v ae) (λ t. ok (t, ce))
          (sym (place_segments-ae ae ce first rest v n)
            ∙ (sym (place-segments ae ce first rest v e l) ∙ h)) in
      (ground arith, ground arith)

  read-snap :
      (ae : Fields V) (path first : Text) (rest : List Text)
      → split dot path ≡ root_name ∷ first ∷ rest
      → read (snap ae) path ≡ walk (root_name ∷ []) (first ∷ rest) (dict ae)
  unfolding read
  read-snap ae path first rest e =
      ap (λ segments. walk [] segments (snap ae)) e
      ∙ walk-dict root_name (first ∷ rest) [] (field root_name (dict ae) nil) (dict ae)
          (unfold get in rw (==_refl root_name))

  -- Let an accepted path have parts without a slash, the first of them not `$ctl`. If the value
  -- placed at the path's OSC address goes in, `ce` is as before, and a document with the new
  -- `ae_data` reads the value at the path.
  pub place-osc_address :
      (ae ce ae' ce' : Fields V) (path address first : Text) (rest : List Text) (v : V)
      → leaf_parts path ≡ ok (first ∷ rest)
      → (first == ce_root) ≡ false
      → All (Lacks slash) (first ∷ rest)
      → osc_address path ≡ ok address
      → place ae ce address v ≡ ok (ae', ce')
      → (read (snap ae') path ≡ ok (leaf v)) × (ce' ≡ ce)
  place-osc_address ae ce ae' ce' path address first rest v p n l a h =
      let (parts, full) = leaf_parts-split path first rest p in
      let placed = rw (address-parts path address first rest p a) at h in
      let (at, same) = place-parts ae ce ae' ce' first rest v full n l placed in
      (read-snap ae' path first rest parts ∙ place_at-walk (first ∷ rest) _ v ae ae' at, same)
