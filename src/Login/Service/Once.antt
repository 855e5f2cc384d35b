-- ===== src/Login/Service/Once.antt =====
-- A flow hands out its credentials once, over any store that keeps the interface's promises.
use nextcloud_go.Prelude.{
  ℕ, true, false, [], Bytes, ◌≡◌, ◌≢◌, refl, sym, ap, subst, ◌∙◌, ◌=?◌, bytes_equality,
  bytes_eq_iff, arith, Bool-cases, inl, inr,
}
use nextcloud_go.Errors.{Result, ok, err, Result-cases}
use nextcloud_go.Login.Flow.{
  FlowError, FlowState, pending, granted, consumed, Flow, is_past, FlowStore, SameGrant,
  IsFlowStore,
}
use nextcloud_go.Login.Service.{
  stored, init, update_to, poll_state, poll, if_pending, open_flow, begin_with, begin_grant,
  lookup_state, grant_flow, grant_with, grant,
}

-- The flow of a token has handed out its credentials, or is gone.
abbrev pub Spent : {S : Type 0} → FlowStore S → Bytes → S → Type 0
Spent st p s = (f : Flow) → st.get_by_poll s p ≡ ok f → f.state ≡ consumed

-- One call of the service, or one run of the sweep; Init draws a poll token other than `p`.
pub data Step {S : Type 0} (st : FlowStore S) (p : Bytes) : S → S → Type 0 where
  inits :
      (now ttl : ℕ) (q : Bytes) (login : Result FlowError Bytes) (client : Bytes) (s : S)
      → (q =? p) ≡ false
      → Step st p s (init st now ttl (ok q) login client s).0
  polls : (now : ℕ) (token : Bytes) (s : S) → Step st p s (poll st now token s).0
  begins :
      (now : ℕ) (state_token : Result FlowError Bytes) (login : Bytes) (s : S)
      → Step st p s (begin_grant st now state_token login s).0
  grants :
      (now : ℕ) (state_token server login_name app_password : Bytes) (s : S)
      → Step st p s (grant st now state_token server login_name app_password s).0
  sweeps : (now : ℕ) (s : S) → Step st p s (st.delete_expired s now)

pub data Steps {S : Type 0} (st : FlowStore S) (p : Bytes) (s : S) : S → Type 0 where
  here : Steps st p s s
  next : {t u : S} → Steps st p s t → Step st p t u → Steps st p s u

module _ {S : Type 0} (st : FlowStore S) (Good : S → Type 0) (laws : IsFlowStore st Good) where
  pub state-stored : (f : Flow) (o : S × Result FlowError (Unit {0})) → (stored st f o).0 ≡ o.0
  state-stored f (s, err e) = refl
  state-stored f (s, ok u) = refl

  pub stored-eq_ok :
      (f g : Flow) (o : S × Result FlowError (Unit {0}))
      → (stored st f o).1 ≡ ok g
      → (o.1 ≡ ok tt) × (f ≡ g)
  stored-eq_ok f g (s, err e) h = cc
  stored-eq_ok f g (s, ok u) h = (refl, cc)

  -- Writing a flow that was read and is not consumed keeps what is spent spent.
  Spent-update :
      (p : Bytes) (s : S) (f0 f : Flow)
      → st.get_by_poll s f0.poll_token ≡ ok f0
      → f.poll_token ≡ f0.poll_token
      → f0.state ≢ consumed
      → Spent st p s
      → Spent st p (update_to st f s).0
  Spent-update p s f0 f read same unspent spent =
      subst (Spent st p) (sym (state-stored f (st.update s f)))
        (elim (Bool-cases (f.poll_token =? p)) [
          | inl e ↦
              let eq : f0.poll_token ≡ p = sym same ∙ (bytes_eq_iff f.poll_token p).0 e in
              absurd (unspent (spent f0 (subst (λ x. st.get_by_poll s x ≡ ok f0) eq read)))
          | inr e ↦ λ g h. spent g (sym (laws.update_other s f p e) ∙ h)
        ])

  Good-update : (s : S) (f : Flow) → Good s → Good (update_to st f s).0
  Good-update s f g = subst Good (sym (state-stored f (st.update s f))) (laws.update_good s f g)

  abbrev Kept : Bytes → S → Type 0
  Kept p s = Good s × Spent st p s

  pending_open : (f : Flow) → f.state ≡ pending → f.state ≢ consumed
  pending_open f e h = absurd (cc)

  open_flow-eq_ok :
      (now : ℕ) (r : Result FlowError Flow) (f : Flow)
      → open_flow st now r ≡ ok f
      → (r ≡ ok f) × (f.state ≡ pending) × (is_past now f.expires_at ≡ false)
  open_flow-eq_ok now (err e) f h = cc
  open_flow-eq_ok now (ok f0) f h = elim (Bool-cases (is_past now f0.expires_at)) [
    | inl e ↦ absurd (ground (arith, e))
    | inr alive ↦ opened f0.state alive refl (ground (arith, alive))
  ]
    where
      opened :
          (x : FlowState)
          → is_past now f0.expires_at ≡ false
          → f0.state ≡ x
          → if_pending st f0 x ≡ ok f
          → (◌≡◌ {A = Result FlowError Flow} (ok f0) (ok f))
            × (f.state ≡ pending)
            × (is_past now f.expires_at ≡ false)
      opened pending alive e k =
          let same : f0 ≡ f = cc in
          (
            k,
            ap (λ x. x.state) (sym same) ∙ e,
            subst (λ x. is_past now x.expires_at ≡ false) same alive,
          )
      opened granted alive e k = cc
      opened consumed alive e k = cc

  -- Poll

  poll_read :
      (now : ℕ) (token : Bytes) (s : S) (f : Flow)
      → st.get_by_poll s token ≡ ok f
      → is_past now f.expires_at ≡ false
      → poll st now token s ≡ poll_state st f f.state s
  unfolding poll
  poll_read now token s f read alive = rw read (rw alive refl)

  poll_past :
      (now : ℕ) (token : Bytes) (s : S) (f : Flow)
      → st.get_by_poll s token ≡ ok f
      → is_past now f.expires_at ≡ true
      → poll st now token s ≡ (s, err FlowError.flow_expired)
  unfolding poll
  poll_past now token s f read past = rw read (rw past refl)

  poll_nothing :
      (now : ℕ) (token : Bytes) (s : S) (e : FlowError)
      → st.get_by_poll s token ≡ err e
      → poll st now token s ≡ (s, err e)
  unfolding poll
  poll_nothing now token s e read = rw read refl

  granted_open : (f : Flow) → f.state ≡ granted → f.state ≢ consumed
  granted_open f e h = absurd (cc)

  Kept-poll_state :
      (p : Bytes) (s : S) (f : Flow) (x : FlowState)
      → st.get_by_poll s f.poll_token ≡ ok f
      → f.state ≡ x
      → Kept p s
      → Kept p (poll_state st f x s).0
  Kept-poll_state p s f pending read e k = k
  Kept-poll_state p s f consumed read e k = k
  Kept-poll_state p s f granted read e k = (
    Good-update s (record f { state = consumed }) k.0,
    Spent-update p s f (record f { state = consumed }) read refl (granted_open f e) k.1,
  )

  Kept-poll :
      (p : Bytes) (now : ℕ) (token : Bytes) (s : S) → Kept p s → Kept p (poll st now token s).0
  Kept-poll p now token s k = elim (Result-cases (st.get_by_poll s token)) [
    | inl (e, n) ↦ rw (poll_nothing now token s e n) k
    | inr (f, n) ↦ elim (Bool-cases (is_past now f.expires_at)) [
      | inl past ↦ rw (poll_past now token s f n past) k
      | inr alive ↦ rw (poll_read now token s f n alive) (
          Kept-poll_state p s f f.state
            (subst (λ x. st.get_by_poll s x ≡ ok f) (sym (laws.poll_own s token f n)) n) refl k)
    ]
  ]

  Kept-begin_with :
      (p : Bytes) (state_token : Result FlowError Bytes) (s : S) (r : Result FlowError Flow)
      → ((f : Flow) → r ≡ ok f → (st.get_by_poll s f.poll_token ≡ ok f) × (f.state ≡ pending))
      → Kept p s
      → Kept p (begin_with st state_token s r).0
  Kept-begin_with p state_token s (err e) read k = k
  Kept-begin_with p (err e) s (ok f) read k = k
  Kept-begin_with p (ok t) s (ok f) read k =
      let (found, e) = read f refl in
      (
        Good-update s (record f { state_token = t }) k.0,
        Spent-update p s f (record f { state_token = t }) found refl (pending_open f e) k.1,
      )

  Kept-grant_with :
      (p server login_name app_password : Bytes) (s : S) (r : Result FlowError Flow)
      → ((f : Flow) → r ≡ ok f → (st.get_by_poll s f.poll_token ≡ ok f) × (f.state ≡ pending))
      → Kept p s
      → Kept p (grant_with st server login_name app_password s r).0
  Kept-grant_with p server login_name app_password s (err e) read k = k
  Kept-grant_with p server login_name app_password s (ok f) read k =
      let (found, e) = read f refl in
      let g : Flow = grant_flow st server login_name app_password f in
      (Good-update s g k.0, Spent-update p s f g found refl (pending_open f e) k.1)

  lookup_state-eq_ok :
      (now : ℕ) (t : Bytes) (s : S) (f : Flow)
      → Good s
      → lookup_state st now t s ≡ ok f
      → (st.get_by_poll s f.poll_token ≡ ok f)
        × (f.state ≡ pending)
        × (is_past now f.expires_at ≡ false)
  unfolding lookup_state
  lookup_state-eq_ok now t s f g h = elim (Bool-cases (t =? [])) [
    | inl e ↦ absurd (ground (arith, e))
    | inr e ↦
        let (read, p, alive) = open_flow-eq_ok now (st.get_by_state s t) f (ground (arith, e)) in
        (laws.state_coherent s t f g read, p, alive)
  ]

  Kept-insert :
      (p : Bytes) (s : S) (f : Flow)
      → (f.poll_token =? p) ≡ false
      → Kept p s
      → Kept p (stored st f (st.insert s f)).0
  Kept-insert p s f other k =
      subst (Kept p) (sym (state-stored f (st.insert s f)))
        (laws.insert_good s f k.0, λ g h. k.1 g (sym (laws.insert_other s f p other) ∙ h))

  Kept-Step : (p : Bytes) (s t : S) → Step st p s t → Kept p s → Kept p t
  unfolding init begin_grant grant
  Kept-Step p _ _ (Step.inits now ttl q (err e) client s other) k = k
  Kept-Step p _ _ (Step.inits now ttl q (ok login) client s other) k = Kept-insert p s _ other k
  Kept-Step p _ _ (Step.polls now token s) k = Kept-poll p now token s k
  Kept-Step p _ _ (Step.begins now state_token login s) k =
      Kept-begin_with p state_token s (open_flow st now (st.get_by_login s login))
        (λ f h.
          let (read, e, alive) = open_flow-eq_ok now (st.get_by_login s login) f h in
          (laws.login_coherent s login f k.0 read, e))
        k
  Kept-Step p _ _ (Step.grants now state_token server login_name app_password s) k =
      Kept-grant_with p server login_name app_password s (lookup_state st now state_token s)
        (λ f h. let (read, e, alive) = lookup_state-eq_ok now state_token s f k.0 h in (read, e)) k
  Kept-Step p _ _ (Step.sweeps now s) k =
      (laws.delete_good s now k.0, λ f h. k.1 f (laws.delete_only s now p f k.0 h))

  Kept-Steps : (p : Bytes) (s t : S) → Steps st p s t → Kept p s → Kept p t
  Kept-Steps p s _ Steps.here k = k
  Kept-Steps p s _ (Steps.next steps step) k = Kept-Step p _ _ step (Kept-Steps p s _ steps k)

  ok_same : {a b : Flow} → ◌≡◌ {A = Result FlowError Flow} (ok a) (ok b) → a ≡ b
  ok_same e = cc

  -- A Poll that answers leaves its flow spent.
  poll_spends :
      (now : ℕ) (p : Bytes) (s : S) (f : Flow)
      → Good s
      → (poll st now p s).1 ≡ ok f
      → Kept p (poll st now p s).0
  poll_spends now p s f good h = elim (Result-cases (st.get_by_poll s p)) [
    | inl (e, n) ↦ absurd (ground (arith, poll_nothing now p s e n))
    | inr (g, n) ↦ elim (Bool-cases (is_past now g.expires_at)) [
      | inl past ↦ absurd (ground (arith, poll_past now p s g n past))
      | inr alive ↦
          let read = poll_read now p s g n alive in
          rw read
            (state_spent g g.state n (subst (λ (x : S × Result FlowError Flow). x.1 ≡ ok f) read h))
    ]
  ]
    where
      state_spent :
          (g : Flow) (x : FlowState)
          → st.get_by_poll s p ≡ ok g
          → (poll_state st g x s).1 ≡ ok f
          → Kept p (poll_state st g x s).0
      state_spent g pending n k = absurd (cc)
      state_spent g consumed n k = absurd (cc)
      state_spent g granted n k =
          let g' : Flow = record g { state = consumed } in
          let (wrote, same) = stored-eq_ok g' f (st.update s g') k in
          let (kept, read, seen) = laws.update_own s g' good wrote in
          let own : g.poll_token ≡ p = laws.poll_own s p g n in
          subst (Kept p) (sym (state-stored g' (st.update s g'))) (
            laws.update_good s g' good,
            λ x m.
                let now_read : st.get_by_poll (st.update s g').0 p ≡ ok kept =
                  subst (λ q. st.get_by_poll (st.update s g').0 q ≡ ok kept) own read in
                let same_flow : kept ≡ x = ok_same (sym now_read ∙ m) in
                ap (λ y. y.state) (sym same_flow) ∙ seen.state,
          )

  poll_refused :
      (now : ℕ) (p : Bytes) (s : S) → Spent st p s → (e : FlowError) × ((poll st now p s).1 ≡ err e)
  poll_refused now p s spent = elim (Result-cases (st.get_by_poll s p)) [
    | inl (e, n) ↦ (e, ap (λ x. x.1) (poll_nothing now p s e n))
    | inr (g, n) ↦ elim (Bool-cases (is_past now g.expires_at)) [
      | inl past ↦ (FlowError.flow_expired, ap (λ x. x.1) (poll_past now p s g n past))
      | inr alive ↦ (
        FlowError.flow_consumed,
        ap (λ x. x.1) (poll_read now p s g n alive) ∙ rw (spent g n) refl,
      )
    ]
  ]

  -- Over a store that keeps the interface's promises: once a Poll answers a flow, every later Poll
  -- of its token is refused, whatever calls of the service and runs of the sweep lie between, unless
  -- Init draws the same token again.
  pub poll_once :
      (now later : ℕ) (p : Bytes) (s t : S) (f : Flow)
      → Good s
      → (poll st now p s).1 ≡ ok f
      → Steps st p (poll st now p s).0 t
      → (e : FlowError) × ((poll st later p t).1 ≡ err e)
  poll_once now later p s t f good h steps =
      poll_refused later p t (Kept-Steps p _ t steps (poll_spends now p s f good h)).1

  answers :
      (f : Flow) (o : S × Result FlowError (Unit {0})) → o.1 ≡ ok tt → (stored st f o).1 ≡ ok f
  answers f (s, err e) h = cc
  answers f (s, ok u) h = refl

  poll_granted :
      (later : ℕ) (p : Bytes) (s : S) (g f : Flow)
      → st.get_by_poll s p ≡ ok g
      → SameGrant g f
      → f.state ≡ granted
      → is_past later f.expires_at ≡ false
      → (st.update s (record g { state = consumed })).1 ≡ ok tt
      → (poll st later p s).1 ≡ ok (record g { state = consumed })
  poll_granted later p s g f read same e alive wrote =
      let still : is_past later g.expires_at ≡ false = rw same.expires_at alive in
      ap (λ x. x.1) (poll_read later p s g read still)
      ∙ rw (same.state ∙ e) (
          answers (record g { state = consumed }) (st.update s (record g { state = consumed }))
            wrote)

  grant_with-eq_ok :
      (server login_name app_password : Bytes) (s : S) (r : Result FlowError Flow) (f : Flow)
      → (grant_with st server login_name app_password s r).1 ≡ ok f
      → (f0 : Flow) × (grant_flow st server login_name app_password f0 ≡ f)
        × ((st.update s f).1 ≡ ok tt)
        × ((grant_with st server login_name app_password s r).0 ≡ (st.update s f).0)
  grant_with-eq_ok server login_name app_password s (err e) f h = cc
  grant_with-eq_ok server login_name app_password s (ok f0) f h =
      let g : Flow = grant_flow st server login_name app_password f0 in
      let (wrote, same) = stored-eq_ok g f (st.update s g) h in
      (
        f0,
        same,
        subst (λ x. (st.update s x).1 ≡ ok tt) same wrote,
        state-stored g (st.update s g) ∙ ap (λ x. (st.update s x).0) same,
      )

  -- Over a store that keeps the interface's promises: behind a Grant that succeeds, and until the
  -- flow expires, a Poll of its poll token answers the server, the login name and the app password
  -- that were granted, if the store accepts the write of the Poll.
  pub poll-grant :
      (now later : ℕ) (t server login_name app_password : Bytes) (s : S) (f : Flow)
      → Good s
      → (grant st now t server login_name app_password s).1 ≡ ok f
      → is_past later f.expires_at ≡ false
      → ((g : Flow)
          → st.get_by_poll (grant st now t server login_name app_password s).0 f.poll_token ≡ ok g
          → (st.update
              (grant st now t server login_name app_password s).0
              (record g { state = consumed })).1
            ≡ ok tt)
      → (g : Flow) × ((poll st later f.poll_token
            (grant st now t server login_name app_password s).0).1
          ≡ ok g)
        × (g.server ≡ server)
        × (g.login_name ≡ login_name)
        × (g.app_password ≡ app_password)
  unfolding grant
  poll-grant now later t server login_name app_password s f good made alive accepts =
      let (f0, same, wrote, after) =
        grant_with-eq_ok server login_name app_password s (lookup_state st now t s) f made in
      let (g, read, seen) = laws.update_own s f good wrote in
      let there = subst (λ x. st.get_by_poll x f.poll_token ≡ ok g) (sym after) read in
      (
        record g { state = consumed },
        poll_granted later f.poll_token _ g f there seen (ap (λ x. x.state) (sym same)) alive
            (accepts g there),
        seen.server ∙ ap (λ x. x.server) (sym same),
        seen.login_name ∙ ap (λ x. x.login_name) (sym same),
        seen.app_password ∙ ap (λ x. x.app_password) (sym same),
      )
