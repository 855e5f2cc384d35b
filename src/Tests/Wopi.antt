-- ===== src/Tests/Wopi.antt =====
-- An office server with a token for one file that another editor has locked.
use nextcloud_go.Prelude.{
  ◌+◌, nat_equality, true, false, none, some, [], ◌∷◌, text, ◌≡◌, refl, sym, bytes_equality,
  contains, if◌then◌else◌, bytes_eq, any, ltb, ◌&&◌,
}
use nextcloud_go.Text.{has_prefix, to_lower}
use nextcloud_go.Errors.{ok, err}
use nextcloud_go.Files.LockStore.{select, get_by_path}
use nextcloud_go.Files.Lock.{second, resolve_user, expire_lock}
use nextcloud_go.Files.WopiLock.{Incoming, lock_token_at, lock_token_of, wopi_lock_target}
use nextcloud_go.Wopi.Names.{
  join_sibling, sanitize_wopi_name, parse_id, parse_file_tail, digits_from,
}
use nextcloud_go.Wopi.Tokens.{
  WopiError, Token, Backend, Resolved, insert, resolve, may_update, authenticate, get_by_token,
  valid_row, mint,
}
use nextcloud_go.Wopi.Tokens.Mint.{authenticate-mint}
use nextcloud_go.Wopi.Handler.{
  post, Request, State, Drive, answer, token_now, put_file, put_relative_file, wrote, rename_file,
  route,
}
use nextcloud_go.Wopi.Handler.Gate.{held_by_other_kept, rename_refused}
use nextcloud_go.Wopi.Handler.Overwrite.{put_relative_file_overwrites}
use nextcloud_go.Wopi.Serve.{Server, serve_http}
use nextcloud_go.Wopi.Serve.Gate.{ReadOnly, serve_http-ReadOnly}
use nextcloud_go.Wopi.Handler.Place.{Placed, route-Placed}
use nextcloud_go.Tests.Locks.{doc, doc_normal, services, wopi_table}

abbrev token : Token
token = record {
  token = text "t1";
  uid = text "alice";
  file_id = 5;
  can_write = true;
  expires_at = 9000;
}

abbrev backend : Backend
backend = record {
  file_by_id = λ id. ok (record { user_id = 7; path = doc; is_dir = false });
  user_by_id = λ id. ok (record { uid = text "alice"; enabled = true });
  user_by_uid = λ uid. ok (record { uid = uid; enabled = true });
  list_incoming = none;
  key_wrap = none;
  ttl = 8000;
}

abbrev drive : Drive
drive = record {
  services = services;
  incoming = Incoming.no_mount;
  stat = λ s p. (s.locks, ok 5);
  read = λ contents s p. (s.locks, ok 5);
  write = λ s p. (s.locks, none);
  move = λ s p q. (s.locks, none);
}

abbrev server : Server
server = record { backend = backend; drive = λ user. drive; unlock_error = λ t. none }

abbrev state : State
state = record { locks = wopi_table; ops = [] }

abbrev rename_request : Request
rename_request = record {
  method = post;
  tail = text "5";
  access_token = text "t1";
  lock_id = text "mine";
  override_verb = text "RENAME_FILE";
  relative_target = [];
  suggested_target = [];
  overwrite_relative = [];
  requested_name = text "b.txt";
  body = [];
}

held_now :
    (token_now drive second second (text "alice") doc rename_request state).1
    ≡ ok (some (text "wopi"))
unfolding token_now lock_token_at wopi_lock_target lock_token_of get_by_path select expire_lock
    resolve_user contains bytes_eq
held_now = rw doc_normal (rw doc_normal refl)

held_by_other_kept_example :
    ((put_file drive second second (text "alice") doc rename_request true state).0.ops ≡ [])
    × ((put_file drive second second (text "alice") doc rename_request true state).1 ≡ answer 409)
    × ((rename_file drive second second (text "alice") doc rename_request 5 true state).0.ops ≡ [])
    × ((rename_file drive second second (text "alice") doc rename_request 5 true state).1
        ≡ answer (rename_refused true (sanitize_wopi_name (text "b.txt"))))
unfolding bytes_eq
held_by_other_kept_example =
    held_by_other_kept drive second second (text "alice") doc rename_request 5 true state
      (text "wopi") held_now refl

-- The same request as a PutRelativeFile onto the locked file
abbrev overwrite_request : Request
overwrite_request = record rename_request {
  override_verb = text "PUT_RELATIVE";
  relative_target = text "a.txt";
  overwrite_relative = text "True";
}

own_name : sanitize_wopi_name (text "a.txt") ≡ some (text "a.txt")
unfolding sanitize_wopi_name contains bytes_eq
own_name = refl

docs_absolute : has_prefix (text "/") (text "/docs") ≡ true
unfolding has_prefix
docs_absolute = refl

folded_true : to_lower (text "True") ≡ text "true"
unfolding to_lower
folded_true = refl

put_relative_file_overwrites_example :
    (put_relative_file drive second second
      (text "alice")
      (join_sibling (text "/docs") (text "a.txt"))
      overwrite_request
      true
      state).0.ops
    ≡ wrote (join_sibling (text "/docs") (text "a.txt")) [] ∷ []
put_relative_file_overwrites_example =
    put_relative_file_overwrites drive second second (text "alice") (text "/docs") (text "a.txt")
      overwrite_request state docs_absolute own_name refl folded_true refl

absolute : has_prefix (text "/") doc ≡ true
unfolding has_prefix
absolute = refl

route-Placed_example :
    Placed doc [] []
      (route drive second second (text "alice") doc rename_request post 5 false true state).0.ops
route-Placed_example =
    route-Placed drive second second (text "alice") doc rename_request post 5 false true state
      absolute

abbrev read_token : Token
read_token = record token { can_write = false }

reading-ReadOnly : ReadOnly server second rename_request (read_token ∷ [])
unfolding authenticate get_by_token valid_row bytes_eq
reading-ReadOnly t f a r = let same : read_token.can_write ≡ t.can_write = cc in rw (sym same) refl

serve_http-ReadOnly_example :
    (((serve_http server second second rename_request (read_token ∷ []) state).0).ops ≡ [])
    × (post ≡ post
        → (serve_http server second second rename_request (read_token ∷ []) state).0 ≡ state)
serve_http-ReadOnly_example =
    serve_http-ReadOnly server second second rename_request (read_token ∷ []) state reading-ReadOnly

mint_t1 : mint backend 1000 (text "alice") 5 (ok (text "t1")) [] ≡ (token ∷ [], ok token)
unfolding mint resolve insert any bytes_eq
mint_t1 = refl

authenticate-mint_example :
    (token.uid ≡ text "alice")
    × (token.file_id ≡ 5)
    × ((at : Resolved) × (resolve backend (text "alice") 5 ≡ ok at)
        × (token.can_write ≡ may_update at.perms))
    × (authenticate backend 8999 token.token (token ∷ []) ≡ (
        if ltb 8999 (1000 + backend.ttl) && true then ok token else err WopiError.token_not_found))
authenticate-mint_example =
    authenticate-mint backend backend 1000 8999 (text "alice") 5 (ok (text "t1")) [] (token ∷ [])
      token (record { uid = text "alice"; enabled = true }) mint_t1 refl

sanitize_good : sanitize_wopi_name (text "b.txt") ≡ some (text "b.txt")
unfolding sanitize_wopi_name contains bytes_eq
sanitize_good = refl

parsed : parse_file_tail (text "5/contents") ≡ some (5, true)
unfolding parse_file_tail parse_id digits_from contains bytes_eq
parsed = refl
