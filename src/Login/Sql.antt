-- ===== src/Login/Sql.antt =====
-- SQLStore of internal/login/sqlstore.go on the table login_flows, whose poll, login and state tokens
-- are unique. A row is a flow whose state token is the column's: "pending:" and the poll token where
-- the flow has none.
pub mod Lawful
use nextcloud_go.Prelude.{
  ℕ, Bool, true, false, not, ◌&&◌, ◌||◌, Option, none, some, List, [], ◌∷◌, ◌++◌, Bytes, text, ltb,
  ◌=?◌, bytes_equality, if◌then◌else◌, keep, any,
}
use nextcloud_go.Text.{has_prefix}
use nextcloud_go.Errors.{Result, ok, err}
use nextcloud_go.Login.Flow.{FlowError, Flow, FlowStore}

abbrev pub FlowTable : Type 0
FlowTable = List Flow

abbrev pub pending_state_prefix : Bytes
pending_state_prefix = text "pending:"

-- pendingState, where the flow has no state token
abbrev pub state_column : Flow → Bytes
state_column f = if f.state_token =? [] then pending_state_prefix ++ f.poll_token else f.state_token

-- scanFlow
abbrev pub scan_flow : Flow → Flow
scan_flow r = record r {
  state_token = if has_prefix pending_state_prefix r.state_token then [] else r.state_token;
}

abbrev pub scanned : Option Flow → Result FlowError Flow
scanned none = err FlowError.flow_not_found
scanned (some r) = ok (scan_flow r)

unfoldable pub first_flow : (Flow → Bool) → FlowTable → Option Flow
first_flow p [] = none
first_flow p (r ∷ rows) = let rest = first_flow p rows in if p r then some r else rest

abbrev pub polled : Bytes → Flow → Bool
polled token r = r.poll_token =? token

-- GetByPoll, GetByLogin and GetByState
unfoldable pub get_by_poll : FlowTable → Bytes → Result FlowError Flow
get_by_poll rows token = scanned (first_flow (polled token) rows)

unfoldable pub get_by_login : FlowTable → Bytes → Result FlowError Flow
get_by_login rows token = scanned (first_flow (λ r. r.login_token =? token) rows)

unfoldable pub get_by_state : FlowTable → Bytes → Result FlowError Flow
get_by_state rows token = scanned (first_flow (λ r. r.state_token =? token) rows)

-- Insert
unfoldable pub insert : FlowTable → Flow → FlowTable × Result FlowError (Unit {0})
insert rows f =
    if f.poll_token =? [] || f.login_token =? []
    then (rows, err FlowError.invalid_flow)
    else if any
        (λ r.
          r.poll_token =? f.poll_token
          || (r.login_token =? f.login_token || r.state_token =? state_column f))
        rows
    then (rows, err (FlowError.failure 0))
    else (rows ++ (record f { state_token = state_column f } ∷ []), ok tt)

-- The row that UPDATE writes; created_at stays the row's.
abbrev pub rewritten : Flow → Flow → Flow
rewritten f r = record f { state_token = state_column f; created_at = r.created_at }

unfoldable pub rewrite : Flow → FlowTable → FlowTable
rewrite f [] = []
rewrite f (r ∷ rows) = (if polled f.poll_token r then rewritten f r else r) ∷ rewrite f rows

-- Update
unfoldable pub update : FlowTable → Flow → FlowTable × Result FlowError (Unit {0})
update rows f =
    if f.poll_token =? []
    then (rows, err FlowError.invalid_flow)
    else if not (any (polled f.poll_token) rows)
    then (rows, err FlowError.flow_not_found)
    else if any
        (λ r.
          not (polled f.poll_token r)
          && (r.login_token =? f.login_token || r.state_token =? state_column f))
        rows
    then (rows, err (FlowError.failure 1))
    else (rewrite f rows, ok tt)

-- WHERE expires_at > 0 AND expires_at < ?
abbrev pub is_swept : ℕ → Option ℕ → Bool
is_swept now none = false
is_swept now (some t) = ltb 0 t && ltb t now

-- DeleteExpired
unfoldable pub delete_expired : FlowTable → ℕ → FlowTable
delete_expired rows now = keep (λ r. not (is_swept now r.expires_at)) rows

abbrev pub sql_store : FlowStore FlowTable
sql_store = record {
  insert = insert;
  get_by_poll = get_by_poll;
  get_by_login = get_by_login;
  get_by_state = get_by_state;
  update = update;
  delete_expired = delete_expired;
}
