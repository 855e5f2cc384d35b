-- ===== src/Wopi/Tokens/Mint.antt =====
-- An access token between Mint and Authenticate.
use nextcloud_go.Prelude.{
  ℕ, ◌+◌, Bool, true, false, ◌&&◌, Option, none, some, [], ◌∷◌, ◌++◌, Bytes, ltb, ◌=?◌,
  bytes_equality, beq_refl, ◌≡◌, refl, ap, subst, sym, ◌∙◌, if◌then◌else◌, any, arith, Bool-cases,
  inl, inr,
}
use nextcloud_go.Errors.{Result, ok, err}
use nextcloud_go.Wopi.Tokens.{
  WopiError, Token, TokenTable, Account, Backend, Resolved, insert, valid_row, get_by_token,
  resolve, may_update, authenticate, wrapped, minted, mint,
}

insert-ok :
    (rows rows' : TokenTable) (t : Token)
    → insert rows t ≡ (rows', ok tt)
    → ((t.token =? []) ≡ false)
      × (any (λ r. r.token =? t.token) rows ≡ false)
      × (rows' ≡ rows ++ (t ∷ []))
unfolding insert
insert-ok rows rows' t h = ground arith

valid_row-append :
    (now : ℕ) (token : Bytes) (rows : TokenTable) (t : Token)
    → any (λ r. r.token =? token) rows ≡ false
    → valid_row now token (rows ++ (t ∷ [])) ≡ valid_row now token (t ∷ [])
unfolding valid_row any
valid_row-append now token [] t h = refl
valid_row-append now token (r ∷ rows) t h = ground (arith, valid_row-append now token rows t)

wrapped-ok :
    (t t' : Token) (wrap : Option Bool) (o : TokenTable × Result WopiError (Unit {0}))
    (rows' : TokenTable)
    → wrapped t wrap o ≡ (rows', ok t')
    → (t ≡ t') × (o ≡ (rows', ok tt))
wrapped-ok t t' wrap (rows, err e) rows' h = ground arith
wrapped-ok t t' none (rows, ok u) rows' h = ground arith
wrapped-ok t t' (some true) (rows, ok u) rows' h = ground arith
wrapped-ok t t' (some false) (rows, ok u) rows' h = ground arith

-- Behind an Insert, GetByToken answers the row exactly before its expiry.
get_by_token-insert :
    (now : ℕ) (rows rows' : TokenTable) (t : Token)
    → insert rows t ≡ (rows', ok tt)
    → get_by_token now t.token rows'
      ≡ (if ltb now t.expires_at then ok t else err WopiError.token_not_found)
unfolding get_by_token valid_row
get_by_token-insert now rows rows' t h =
    let (nonempty, unused, stored) = insert-ok rows rows' t h in
    let row = valid_row-append now t.token rows t unused in
    let own : (t.token =? t.token) ≡ true = beq_refl t.token in
    rw (stored, nonempty, row, own)
      (elim (Bool-cases (ltb now t.expires_at)) [ inl e ↦ rw e refl | inr e ↦ rw e refl ])

-- What is known of a token that Mint answers
record IsMinted (uid : Bytes) (file_id expiry : ℕ) (r : Result WopiError Resolved)
    (rows rows' : TokenTable) (t : Token) : Type 0 where
  at : Resolved
  resolved : r ≡ ok at
  token_uid : t.uid ≡ uid
  token_file : t.file_id ≡ file_id
  token_write : t.can_write ≡ may_update at.perms
  token_expiry : t.expires_at ≡ expiry
  inserted : insert rows t ≡ (rows', ok tt)

minted-IsMinted :
    (b : Backend) (now : ℕ) (uid : Bytes) (file_id : ℕ) (new : Result WopiError Bytes)
    (rows rows' : TokenTable) (t : Token) (r : Result WopiError Resolved)
    → minted b now uid file_id new rows r ≡ (rows', ok t)
    → IsMinted uid file_id (now + b.ttl) r rows rows' t
minted-IsMinted b now uid file_id new rows rows' t (err e) h = absurd (ground arith)
minted-IsMinted b now uid file_id (err e) rows rows' t (ok at) h = absurd (ground arith)
minted-IsMinted b now uid file_id (ok token) rows rows' t (ok at) h =
    let made : Token = record {
      token = token;
      uid = uid;
      file_id = file_id;
      can_write = may_update at.perms;
      expires_at = now + b.ttl;
    } in
    let (same, stored) = wrapped-ok made t b.key_wrap (insert rows made) rows' h in
    record {
      at = at;
      resolved = refl;
      token_uid = ap (λ x. x.uid) (sym same);
      token_file = ap (λ x. x.file_id) (sym same);
      token_write = ap (λ x. x.can_write) (sym same);
      token_expiry = ap (λ x. x.expires_at) (sym same);
      inserted = subst (λ (x : Token). insert rows x ≡ (rows', ok tt)) same stored;
    }

-- A minted token that no other row has: until it expires Authenticate answers it as it was minted,
-- for the user and the file of the call and with write access exactly if the file could be updated
-- then, as long as its user is enabled; from then on it answers ErrTokenNotFound.
pub authenticate-mint :
    (b b' : Backend) (now later : ℕ) (uid : Bytes) (file_id : ℕ) (new : Result WopiError Bytes)
    (rows rows' : TokenTable) (t : Token) (u : Account)
    → mint b now uid file_id new rows ≡ (rows', ok t)
    → b'.user_by_uid uid ≡ ok u
    → (t.uid ≡ uid)
      × (t.file_id ≡ file_id)
      × ((at : Resolved) × (resolve b uid file_id ≡ ok at) × (t.can_write ≡ may_update at.perms))
      × (authenticate b' later t.token rows'
          ≡ (if ltb later (now + b.ttl) && u.enabled then ok t else err WopiError.token_not_found))
unfolding mint authenticate
authenticate-mint b b' now later uid file_id new rows rows' t u h k =
    let m = minted-IsMinted b now uid file_id new rows rows' t (resolve b uid file_id) h in
    let due : ltb later t.expires_at ≡ ltb later (now + b.ttl) = ap (ltb later) m.token_expiry in
    let account : b'.user_by_uid t.uid ≡ ok u = rw m.token_uid k in
    (
      m.token_uid,
      m.token_file,
      (m.at, m.resolved, m.token_write),
      elim (Bool-cases (ltb later t.expires_at)) [
        | inl e ↦
            rw (get_by_token-insert later rows rows' t m.inserted, e)
              (rw (account, sym due ∙ e) refl)
        | inr e ↦ rw (get_by_token-insert later rows rows' t m.inserted, e) (rw (sym due ∙ e) refl)
      ],
    )
