-- ===== src/Webdav/LockToken.antt =====
-- The lock-token functions of internal/webdav/lock.go; internal/files/lock.go holds the same three
-- under lower-case names.
use nextcloud_go.Prelude.{
  ℕ, zero, suc, Bool, false, ◌||◌, none, some, List, [], ◌∷◌, Bytes, text, ◌=?◌, bytes_equality,
  if◌then◌else◌, length, contains,
}
use nextcloud_go.Text.{has_prefix, trim_prefix, trim_suffix, trim_space, cut}

-- StripLockToken
unfoldable pub strip_lock_token : Bytes → Bytes
unfolding trim_space trim_suffix trim_prefix
strip_lock_token v = trim_space (trim_suffix b'>' (trim_prefix (b'<' ∷ []) (trim_space v)))

abbrev pub opaque_prefix : Bytes
opaque_prefix = text "opaquelocktoken:"

keep_opaque : Bytes → List Bytes → List Bytes
unfolding has_prefix
keep_opaque tok out = if has_prefix opaque_prefix tok then tok ∷ out else out

-- The loop of ExtractLockTokens over what is left of the header.
unfoldable pub extract_from : ℕ → Bytes → List Bytes
unfolding cut trim_space keep_opaque
extract_from zero rest = []
extract_from (suc fuel) rest = elim (cut b'<' rest) [
  | none ↦ []
  | some (before, inside) ↦ elim (cut b'>' inside) [
    | none ↦ []
    | some (tok, rest') ↦ keep_opaque (trim_space tok) (extract_from fuel rest')
  ]
]

-- ExtractLockTokens
unfoldable pub extract_lock_tokens : Bytes → List Bytes
unfolding extract_from
extract_lock_tokens header = extract_from (suc (length header)) header

unfoldable pub header_has : Bytes → Bytes → Bool
unfolding extract_lock_tokens strip_lock_token contains
header_has header token =
    if token =? []
    then false
    else contains (extract_lock_tokens header) token || strip_lock_token header =? token

-- lockHeaderHasToken
unfoldable pub lock_header_has_token : Bytes → Bytes → Bool
unfolding header_has
lock_header_has_token header token = header_has header (strip_lock_token token)
