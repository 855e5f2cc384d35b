-- ===== src/Wopi/Tokens/Expiry.antt =====
-- What the job that deletes expired tokens changes for their users: nothing.
use nextcloud_go.Prelude.{
  ℕ, ◌≤◌, Bool, false, [], ◌∷◌, Bytes, ltb, leb, ◌=?◌, bytes_equality, ◌≡◌, refl, keep, arith,
  Bool-cases, inl, inr,
}
use nextcloud_go.Wopi.Tokens.{
  TokenTable, Backend, valid_row, get_by_token, delete_expired, gc, authenticate,
}

valid_row-delete_expired :
    (now later : ℕ) (token : Bytes) (rows : TokenTable)
    → now ≤ later
    → valid_row later token (delete_expired now rows) ≡ valid_row later token rows
unfolding valid_row delete_expired keep
valid_row-delete_expired now later token [] h = refl
valid_row-delete_expired now later token (r ∷ rows) h =
    let rest = valid_row-delete_expired now later token rows h in
    elim (Bool-cases (leb r.expires_at now)) [
      | inl e ↦
          let late : ltb later r.expires_at ≡ false = ground arith in
          elim (Bool-cases (r.token =? token)) [
            | inl t ↦ rw (e, late, t) rest
            | inr t ↦ rw (e, late, t) rest
          ]
      | inr e ↦ rw e (rw rest refl)
    ]

-- The job that deletes expired tokens changes no answer of Authenticate from its time on, and
-- without keys it deletes no key wrap.
pub authenticate-gc :
    (b : Backend) (keys : Bool) (now later : ℕ) (token : Bytes) (rows : TokenTable)
    → now ≤ later
    → (authenticate b later token (gc keys now rows).0 ≡ authenticate b later token rows)
      × (keys ≡ false → (gc keys now rows).1 ≡ [])
unfolding authenticate get_by_token gc
authenticate-gc b keys now later token rows h =
    (rw (valid_row-delete_expired now later token rows h) refl, λ k. rw k refl)
