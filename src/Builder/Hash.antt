-- ===== src/Builder/Hash.antt =====
-- internal/builder/configmap.go: `contentHash`.
pub mod Injective
pub mod Sorted
pub mod Canonical
use Prim.Native.String.{compare}
use text.Mathlib.Text.{is_le}
use pgpilot_operator.Base.{
  String, ◌<>◌, Option, none, some, List, [], ◌∷◌, string_eq, if◌then◌else◌,
}
use pgpilot_operator.Base.Dict.{Dict, lookup}
use pgpilot_operator.Builder.Library.{Library}

abbrev pub nul : String
nul = "\0"

-- `sort.Strings`
unfoldable pub insert_sorted : String → List String → List String
insert_sorted k [] = k ∷ []
insert_sorted k (j ∷ ks) = if is_le (compare k j) then k ∷ j ∷ ks else j ∷ insert_sorted k ks

unfoldable pub sort_strings : List String → List String
unfolding insert_sorted
sort_strings [] = []
sort_strings (k ∷ ks) = insert_sorted k (sort_strings ks)

unfoldable pub keys {ℓ} : {V : Type ℓ} → Dict String V → List String
keys [] = []
keys ((k, _) ∷ d) = k ∷ keys d

-- `data[k]`
abbrev pub text_at : Option String → String
text_at none = ""
text_at (some s) = s

-- The bytes that the loop over the sorted keys writes.
unfoldable pub encode : Dict String String → List String → String
encode entries [] = ""
encode entries (k ∷ ks) = k <> (nul <> (text_at (lookup k entries) <> (nul <> encode entries ks)))

-- All that is written to the hash.
unfoldable pub hashed : Dict String String → String
unfolding keys sort_strings encode
hashed entries = encode entries (sort_strings (keys entries))

unfoldable pub content_hash : Library → Dict String String → String
content_hash lib entries = lib.hex_digest (hashed entries)
