-- ===== src/Login/Service.antt =====
-- Service of internal/login/v2.go over any store: Init, Poll, BeginGrant, LookupState, Grant, and the
-- generator of tokens.
pub mod Once
use nextcloud_go.Prelude.{
  ℕ, zero, suc, ◌+◌, ◌-◌, ◌%◌, Bool, true, false, Option, none, some, List, [], ◌∷◌, ◌++◌, Bytes,
  text, ltb, leb, ◌==◌, ◌=?◌, bytes_equality, if◌then◌else◌, length, drop,
}
use nextcloud_go.Errors.{Result, ok, err, ◌>>=◌}
use nextcloud_go.Login.Flow.{
  FlowError, FlowState, pending, granted, consumed, Flow, is_past, FlowStore,
}

abbrev pub token_alphabet : Bytes
token_alphabet = text "ABCDEFGHIJKLMNOPQRSTUVWXYZabcdefghijklmnopqrstuvwxyz0123456789"

abbrev nth : ℕ → Bytes → ℕ
nth n [] = 0
nth zero (c ∷ s) = c
nth (suc n) (c ∷ s) = nth n s

-- One round of generateAlphaToken over the bytes that it read: what it takes of them. Bytes of 248
-- and more are passed over, so that each letter has the same chance.
unfoldable pub take_letters : ℕ → Bytes → Bytes
take_letters zero buf = []
take_letters (suc n) [] = []
take_letters (suc n) (b ∷ buf) =
    let hit = nth (b % 62) token_alphabet ∷ take_letters n buf in
    let miss = take_letters (suc n) buf in if leb 248 b then miss else hit

-- &Flow{…} of Init
abbrev pub new_flow : ℕ → ℕ → Bytes → Bytes → Bytes → Flow
new_flow now ttl poll login client = record {
  poll_token = poll;
  login_token = login;
  client_name = client;
  state = pending;
  state_token = [];
  server = [];
  login_name = [];
  app_password = [];
  created_at = now;
  expires_at = some (now + ttl);
}

module _ {S : Type 0} (st : FlowStore S) where
  abbrev pub stored : Flow → S × Result FlowError (Unit {0}) → S × Result FlowError Flow
  stored f (s, err e) = (s, err e)
  stored f (s, ok u) = (s, ok f)

  -- Init. The two tokens are the generator's answers.
  unfoldable pub init :
      ℕ
      → ℕ
      → Result FlowError Bytes
      → Result FlowError Bytes
      → Bytes
      → S
      → S × Result FlowError Flow
  init now ttl (err e) login client s = (s, err e)
  init now ttl (ok poll) (err e) client s = (s, err e)
  init now ttl (ok poll) (ok login) client s =
      let f = new_flow now ttl poll login client in stored f (st.insert s f)

  abbrev pub update_to : Flow → S → S × Result FlowError Flow
  update_to f s = stored f (st.update s f)

  abbrev pub poll_state : Flow → FlowState → S → S × Result FlowError Flow
  poll_state f pending s = (s, err FlowError.flow_pending)
  poll_state f consumed s = (s, err FlowError.flow_consumed)
  poll_state f granted s = update_to (record f { state = consumed }) s

  abbrev pub poll_found : ℕ → S → Result FlowError Flow → S × Result FlowError Flow
  poll_found now s (err e) = (s, err e)
  poll_found now s (ok f) =
      let go = poll_state f f.state s in
      if is_past now f.expires_at then (s, err FlowError.flow_expired) else go

  -- Poll
  unfoldable pub poll : ℕ → Bytes → S → S × Result FlowError Flow
  poll now token s = poll_found now s (st.get_by_poll s token)

  abbrev pub if_pending : Flow → FlowState → Result FlowError Flow
  if_pending f pending = ok f
  if_pending f granted = err FlowError.flow_consumed
  if_pending f consumed = err FlowError.flow_consumed

  -- The checks of BeginGrant and LookupState on the flow that they found
  abbrev pub open_flow : ℕ → Result FlowError Flow → Result FlowError Flow
  open_flow now (err e) = err e
  open_flow now (ok f) =
      if is_past now f.expires_at then err FlowError.flow_expired else if_pending f f.state

  abbrev pub begin_with :
      Result FlowError Bytes → S → Result FlowError Flow → S × Result FlowError Flow
  begin_with state_token s (err e) = (s, err e)
  begin_with (err e) s (ok f) = (s, err e)
  begin_with (ok t) s (ok f) = update_to (record f { state_token = t }) s

  -- BeginGrant. The state token is the generator's answer.
  unfoldable pub begin_grant : ℕ → Result FlowError Bytes → Bytes → S → S × Result FlowError Flow
  begin_grant now state_token login s =
      begin_with state_token s (open_flow now (st.get_by_login s login))

  -- LookupState
  unfoldable pub lookup_state : ℕ → Bytes → S → Result FlowError Flow
  lookup_state now state_token s =
      if state_token =? []
      then err FlowError.invalid_state
      else open_flow now (st.get_by_state s state_token)

  abbrev pub grant_flow : Bytes → Bytes → Bytes → Flow → Flow
  grant_flow server login_name app_password f = record f {
    state = granted;
    server = server;
    login_name = login_name;
    app_password = app_password;
    state_token = [];
  }

  abbrev pub grant_with :
      Bytes → Bytes → Bytes → S → Result FlowError Flow → S × Result FlowError Flow
  grant_with server login_name app_password s (err e) = (s, err e)
  grant_with server login_name app_password s (ok f) =
      update_to (grant_flow server login_name app_password f) s

  -- Grant
  unfoldable pub grant : ℕ → Bytes → Bytes → Bytes → Bytes → S → S × Result FlowError Flow
  grant now state_token server login_name app_password s =
      grant_with server login_name app_password s (lookup_state now state_token s)
