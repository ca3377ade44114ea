-- ===== src/Net/Identity.antt =====
-- wing_parser/net/identity.py: `parse_identity`, the reply to the `WING?` query.
pub mod Reply
use project008_soundtech_ass.Prelude.{
  ℕ, Bool, true, false, ◌&&◌, not, List, [], ◌∷◌, Result, ok, err, ltb, drop, length, if◌then◌else◌,
}
use project008_soundtech_ass.Prelude.Text.{Text, codes, starts_with, split}
use project008_soundtech_ass.Console.Records.{WingIdentity}

abbrev pub comma : ℕ
comma = b','

abbrev pub wing_prefix : Text
wing_prefix = codes "WING,"

-- The three `IdentityError`s.
pub data IdentityError : Type 0 where
  not_ascii : List ℕ → IdentityError
  no_prefix : Text → IdentityError
  wrong_fields : ℕ → IdentityError

unfoldable pub is_ascii : List ℕ → Bool
is_ascii [] = true
is_ascii (b ∷ bs) = ltb b 128 && is_ascii bs

-- `WingIdentity(**dict(zip(_FIELD_NAMES, fields)))`, for five fields
unfoldable pub identity_of : List Text → Result IdentityError WingIdentity
identity_of (ip ∷ name ∷ model ∷ serial ∷ firmware ∷ []) =
    ok (record { ip = ip; name = name; model = model; serial = serial; firmware = firmware })
identity_of fields = err (wrong_fields (length fields))

unfoldable pub parse_identity : List ℕ → Result IdentityError WingIdentity
unfolding is_ascii split identity_of
parse_identity raw =
    if not (is_ascii raw)
    then err (not_ascii raw)
    else if not (starts_with raw wing_prefix)
    then err (no_prefix raw)
    else identity_of (split comma (drop 5 raw))
