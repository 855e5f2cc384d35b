-- ===== src/Wopi/Serve/Gate.antt =====
-- Who may change a file or its lock through the callbacks.
use nextcloud_go.Prelude.{
  ℕ, false, ◌&&◌, ◌≡◌, refl, ◌==◌, bytes_equality, Bool-cases, Option-cases, inl, inr,
}
use nextcloud_go.Errors.{ok, Result-cases}
use nextcloud_go.Wopi.Names.{parse_file_tail}
use nextcloud_go.Wopi.Tokens.{Token, TokenTable, Resolved, resolve, may_update, authenticate}
use nextcloud_go.Wopi.Handler.{post, Request, State}
use nextcloud_go.Wopi.Serve.{contents_of, Server, serve_http}
use nextcloud_go.Wopi.Handler.Gate.{read_only_route}

-- Whatever the access token and the file allow, nothing may be written.
abbrev pub ReadOnly : Server → ℕ → Request → TokenTable → Type 0
ReadOnly srv now req rows =
    (t : Token) (f : Resolved)
    → authenticate srv.backend now req.access_token rows ≡ ok t
    → resolve srv.backend t.uid t.file_id ≡ ok f
    → (t.can_write && may_update f.perms) ≡ false

-- A request whose access token or whose file gives no write access: no file is written or moved,
-- and of a POST the table of locks stays as it is as well, whatever the request asks for.
pub serve_http-ReadOnly :
    (srv : Server) (now_stat now : ℕ) (req : Request) (rows : TokenTable) (s : State)
    → ReadOnly srv now req rows
    → ((serve_http srv now_stat now req rows s).0.ops ≡ s.ops)
      × (req.method ≡ post → (serve_http srv now_stat now req rows s).0 ≡ s)
unfolding serve_http
serve_http-ReadOnly srv now_stat now req rows s ro =
    elim (Option-cases (parse_file_tail req.tail)) [
      | inl e ↦ rw e (refl, λ m. refl)
      | inr (tail, e) ↦
          rw e (elim (Result-cases (authenticate srv.backend now req.access_token rows)) [
            | inl (x, a) ↦ rw a (refl, λ m. refl)
            | inr (t, a) ↦ elim (Bool-cases (t.file_id == tail.0)) [
              | inr i ↦ rw (a, i) (refl, λ m. refl)
              | inl i ↦ elim (Option-cases (srv.unlock_error t)) [
                | inr (x, k) ↦ rw (a, i, k) (refl, λ m. refl)
                | inl k ↦ elim (Result-cases (resolve srv.backend t.uid t.file_id)) [
                  | inl (x, r) ↦ rw (a, i, k, r) (refl, λ m. refl)
                  | inr (f, r) ↦
                      rw (a, i, k, r, ro t f a r)
                        (read_only_route (srv.drive f.user) now_stat now f.user f.path req
                          req.method t.file_id (contents_of (parse_file_tail req.tail)) s)
                ]
              ]
            ]
          ])
    ]
