-- ===== src/Login/Flow.antt =====
-- Flow, its states and errors, and the interface Store of internal/login/v2.go, with what the service
-- relies on in a store.
use nextcloud_go.Prelude.{ℕ, Bool, false, Option, none, some, Bytes, ◌≡◌, ltb, ◌=?◌, bytes_equality}
use nextcloud_go.Errors.{Result, ok, err}

pub data FlowError : Type 0 where
  flow_not_found flow_expired flow_pending flow_consumed invalid_state invalid_flow : FlowError
  failure : ℕ → FlowError

pub data FlowState : Type 0 where
  pending granted consumed : FlowState

-- Times are milliseconds; `none` is Go's zero time.
pub record Flow : Type 0 where
  pub poll_token : Bytes
  pub login_token : Bytes
  pub client_name : Bytes
  pub state : FlowState
  pub state_token : Bytes
  pub server : Bytes
  pub login_name : Bytes
  pub app_password : Bytes
  pub created_at : ℕ
  pub expires_at : Option ℕ

-- !f.ExpiresAt.IsZero() && now.After(f.ExpiresAt)
abbrev pub is_past : ℕ → Option ℕ → Bool
is_past now none = false
is_past now (some t) = ltb t now

-- The interface Store
pub record FlowStore (S : Type 0) : Type 0 where
  pub insert : S → Flow → S × Result FlowError (Unit {0})
  pub get_by_poll : S → Bytes → Result FlowError Flow
  pub get_by_login : S → Bytes → Result FlowError Flow
  pub get_by_state : S → Bytes → Result FlowError Flow
  pub update : S → Flow → S × Result FlowError (Unit {0})
  pub delete_expired : S → ℕ → S

-- What a poll sees of two flows
pub record SameGrant (f g : Flow) : Type 0 where
  pub state : f.state ≡ g.state
  pub server : f.server ≡ g.server
  pub login_name : f.login_name ≡ g.login_name
  pub app_password : f.app_password ≡ g.app_password
  pub expires_at : f.expires_at ≡ g.expires_at

-- What the service relies on: the three lookups see one flow, Update writes the flow of its poll
-- token and no other, Insert adds one flow or nothing, and the sweep only deletes. `Good` is an invariant of the store.
pub record IsFlowStore {S : Type 0} (st : FlowStore S) (Good : S → Type 0) : Type 1 where
  pub poll_own : (s : S) (p : Bytes) (f : Flow) → st.get_by_poll s p ≡ ok f → f.poll_token ≡ p
  pub login_coherent :
      (s : S) (l : Bytes) (f : Flow)
      → Good s
      → st.get_by_login s l ≡ ok f
      → st.get_by_poll s f.poll_token ≡ ok f
  pub state_coherent :
      (s : S) (t : Bytes) (f : Flow)
      → Good s
      → st.get_by_state s t ≡ ok f
      → st.get_by_poll s f.poll_token ≡ ok f
  pub update_good : (s : S) (f : Flow) → Good s → Good (st.update s f).0
  pub update_own :
      (s : S) (f : Flow)
      → Good s
      → (st.update s f).1 ≡ ok tt
      → (g : Flow) × (st.get_by_poll (st.update s f).0 f.poll_token ≡ ok g) × SameGrant g f
  pub update_other :
      (s : S) (f : Flow) (p : Bytes)
      → (f.poll_token =? p) ≡ false
      → st.get_by_poll (st.update s f).0 p ≡ st.get_by_poll s p
  pub update_refused :
      (s : S) (f : Flow) (e : FlowError) → (st.update s f).1 ≡ err e → (st.update s f).0 ≡ s
  pub insert_good : (s : S) (f : Flow) → Good s → Good (st.insert s f).0
  pub insert_own :
      (s : S) (f : Flow)
      → Good s
      → (st.insert s f).1 ≡ ok tt
      → (g : Flow) × (st.get_by_poll (st.insert s f).0 f.poll_token ≡ ok g) × SameGrant g f
  pub insert_refused :
      (s : S) (f : Flow) (e : FlowError) → (st.insert s f).1 ≡ err e → (st.insert s f).0 ≡ s
  pub insert_other :
      (s : S) (f : Flow) (p : Bytes)
      → (f.poll_token =? p) ≡ false
      → st.get_by_poll (st.insert s f).0 p ≡ st.get_by_poll s p
  pub delete_good : (s : S) (now : ℕ) → Good s → Good (st.delete_expired s now)
  pub delete_only :
      (s : S) (now : ℕ) (p : Bytes) (f : Flow)
      → Good s
      → st.get_by_poll (st.delete_expired s now) p ≡ ok f
      → st.get_by_poll s p ≡ ok f
