-- ===== src/Wopi/Serve.antt =====
-- ServeHTTP of FilesHandler in internal/wopi/handler.go: the tail of the path, the access token and the
-- file in front of the routes.
pub mod Gate
use nextcloud_go.Prelude.{ℕ, Bool, false, not, ◌&&◌, Option, none, some, Bytes, ◌==◌, if◌then◌else◌}
use nextcloud_go.Errors.{Result, ok, err}
use nextcloud_go.Wopi.Names.{parse_file_tail}
use nextcloud_go.Wopi.Tokens.{
  WopiError, Token, TokenTable, Backend, Resolved, resolve, may_update, authenticate,
}
use nextcloud_go.Wopi.Handler.{State, Drive, Request, Served, answer, map_wopi_error, route}

abbrev pub contents_of : Option (ℕ × Bool) → Bool
contents_of none = false
contents_of (some (id, contents)) = contents

-- What serves the requests: the drive of each user, and an error of the key's unlock.
pub record Server : Type 0 where
  pub backend : Backend
  pub drive : Bytes → Drive
  pub unlock_error : Token → Option WopiError

module _ (srv : Server) (now_stat now : ℕ) (req : Request) where
  abbrev pub on_file : Token → State → Result WopiError Resolved → Served
  on_file t s (err e) = (s, answer (map_wopi_error e))
  on_file t s (ok f) =
      route (srv.drive f.user) now_stat now f.user f.path req req.method t.file_id
        (contents_of (parse_file_tail req.tail)) (t.can_write && may_update f.perms) s

  abbrev pub with_key : Token → State → Option WopiError → Served
  with_key t s (some e) = (s, answer (map_wopi_error e))
  with_key t s none = on_file t s (resolve srv.backend t.uid t.file_id)

  abbrev pub with_token : ℕ → State → Result WopiError Token → Served
  with_token id s (err e) = (s, answer 401)
  with_token id s (ok t) =
      let go = with_key t s (srv.unlock_error t) in
      if not (t.file_id == id) then (s, answer 401) else go

  abbrev pub at_tail : TokenTable → State → Option (ℕ × Bool) → Served
  at_tail rows s none = (s, answer 404)
  at_tail rows s (some (id, contents)) =
      with_token id s (authenticate srv.backend now req.access_token rows)

  -- ServeHTTP
  unfoldable pub serve_http : TokenTable → State → Served
  serve_http rows s = at_tail rows s (parse_file_tail req.tail)
