-- ===== src/Tests/Login.antt =====
-- One client's flow through the SQL store: Init, BeginGrant, Grant, Poll, and a second Poll.
use nextcloud_go.Prelude.{false, [], ◌∷◌, ◌++◌, text, ◌≡◌, refl, sym, ap, ◌∙◌, bytes_eq, any}
use nextcloud_go.Text.{has_prefix}
use nextcloud_go.Errors.{Result, ok, err}
use nextcloud_go.Login.Flow.{FlowError, granted, consumed, Flow}
use nextcloud_go.Login.Service.{
  new_flow, init, poll, begin_grant, lookup_state, grant, take_letters,
}
use nextcloud_go.Login.Service.Once.{Step, Steps, poll_once, poll-grant}
use nextcloud_go.Login.Sql.{
  FlowTable, first_flow, get_by_poll, get_by_login, get_by_state, insert, rewrite, update,
  sql_store, delete_expired, pending_state_prefix,
}
use nextcloud_go.Login.Sql.Lawful.{Unique, sql_store-IsFlowStore, lookup_state-init}

letters : take_letters 3 (250 ∷ 0 ∷ 61 ∷ 255 ∷ 62 ∷ []) ≡ text "A9A"
unfolding take_letters
letters = refl

abbrev row : Flow
row = record (new_flow 10 1000 (text "pt") (text "lt") (text "desktop")) {
  state_token = text "pending:pt";
}

abbrev begun : Flow
begun = record row { state_token = text "st" }

abbrev granted_row : Flow
granted_row = record row {
  state = granted;
  server = text "https://c";
  login_name = text "alice";
  app_password = text "secret";
}

abbrev consumed_row : Flow
consumed_row = record granted_row { state = consumed }

started :
    init sql_store 10 1000 (ok (text "pt")) (ok (text "lt")) (text "desktop") []
    ≡ (row ∷ [], ok (record row { state_token = [] }))
unfolding init insert any bytes_eq
started = refl

granting : begin_grant sql_store 20 (ok (text "st")) (text "lt") (row ∷ []) ≡ (begun ∷ [], ok begun)
unfolding begin_grant get_by_login first_flow update rewrite any bytes_eq has_prefix
granting = refl

granted_now :
    grant sql_store 30 (text "st") (text "https://c") (text "alice") (text "secret") (begun ∷ [])
    ≡ (granted_row ∷ [], ok (record granted_row { state_token = [] }))
unfolding grant lookup_state get_by_state first_flow update rewrite any bytes_eq has_prefix
granted_now = refl

polled_now :
    poll sql_store 40 (text "pt") (granted_row ∷ [])
    ≡ (consumed_row ∷ [], ok (record consumed_row { state_token = [] }))
unfolding poll get_by_poll first_flow update rewrite any bytes_eq has_prefix
polled_now = refl

other_token : bytes_eq (text "pu") (text "pt") ≡ false
unfolding bytes_eq
other_token = refl

-- Between two Polls another client starts a flow and the sweep runs.
between : Steps sql_store (text "pt") (poll sql_store 40 (text "pt") (granted_row ∷ [])).0 (
    delete_expired
      (init sql_store 41 1000
        (ok (text "pu"))
        (ok (text "lu"))
        []
        (poll sql_store 40 (text "pt") (granted_row ∷ [])).0).0
      42)
between =
    Steps.next
      (Steps.next Steps.here (Step.inits 41 1000 (text "pu") (ok (text "lu")) [] _ other_token))
      (Step.sweeps 42 _)

poll_once_example :
    (e : FlowError) × ((poll sql_store 50 (text "pt") (
        delete_expired
          (init sql_store 41 1000
            (ok (text "pu"))
            (ok (text "lu"))
            []
            (poll sql_store 40 (text "pt") (granted_row ∷ [])).0).0
          42)).1
      ≡ err e)
poll_once_example =
    poll_once sql_store Unique sql_store-IsFlowStore 40 50 (text "pt") (granted_row ∷ [])
      (delete_expired
        (init sql_store 41 1000 (ok (text "pu")) (ok (text "lu")) []
          (poll sql_store 40 (text "pt") (granted_row ∷ [])).0).0
        42)
      (record consumed_row { state_token = [] }) (tt, tt) (ap (λ x. x.1) polled_now) between

abbrev after_grant : FlowTable
after_grant =
    (grant sql_store 30 (text "st") (text "https://c") (text "alice") (text "secret")
      (begun ∷ [])).0

abbrev shown : Flow
shown = record granted_row { state_token = [] }

shown_read : get_by_poll (granted_row ∷ []) (text "pt") ≡ ok shown
unfolding get_by_poll first_flow bytes_eq has_prefix
shown_read = refl

shown_write : (update (granted_row ∷ []) (record shown { state = consumed })).1 ≡ ok tt
unfolding update rewrite any bytes_eq
shown_write = refl

same_flow : (a b : Flow) → ◌≡◌ {A = Result FlowError Flow} (ok a) (ok b) → a ≡ b
same_flow a b e = cc

accepted :
    (g : Flow)
    → get_by_poll after_grant (text "pt") ≡ ok g
    → (update after_grant (record g { state = consumed })).1 ≡ ok tt
accepted g h =
    let here : get_by_poll (granted_row ∷ []) (text "pt") ≡ ok g =
      ap (λ x. get_by_poll x.0 (text "pt")) (sym granted_now) ∙ h in
    let same : shown ≡ g = same_flow shown g (sym shown_read ∙ here) in
    ap (λ x. (update x.0 (record g { state = consumed })).1) granted_now
    ∙ ap (λ x. (update (granted_row ∷ []) (record x { state = consumed })).1) (sym same)
    ∙ shown_write

poll-grant_example :
    (g : Flow) × ((poll sql_store 40 (text "pt") after_grant).1 ≡ ok g)
    × (g.server ≡ text "https://c")
    × (g.login_name ≡ text "alice")
    × (g.app_password ≡ text "secret")
poll-grant_example =
    poll-grant sql_store Unique sql_store-IsFlowStore 30 40 (text "st") (text "https://c")
      (text "alice") (text "secret") (begun ∷ []) (record granted_row { state_token = [] }) (tt, tt)
      (ap (λ x. x.1) granted_now) refl accepted

lookup_state-init_example :
    lookup_state sql_store 20
      (pending_state_prefix ++ text "pt")
      (init sql_store 10 1000 (ok (text "pt")) (ok (text "lt")) (text "desktop") []).0
    ≡ ok (record row { state_token = [] })
lookup_state-init_example =
    lookup_state-init 10 1000 20 (text "pt") (text "lt") (text "desktop") []
      (record row { state_token = [] }) (ap (λ x. x.1) started) refl
