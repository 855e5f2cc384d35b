-- ===== src/Login/Sql/Lawful.antt =====
-- SQLStore keeps the promises of the interface, and what its placeholder for the state token does.
use nextcloud_go.Prelude.{
  ℕ, Bool, true, false, not, ◌&&◌, ◌||◌, Option, none, some, List, [], ◌∷◌, ◌++◌, Bytes, text, ◌≡◌,
  ◌⊎◌, refl, sym, ap, subst, ◌∙◌, ◌=?◌, bytes_equality, bytes_eq_iff, beq_refl, if◌then◌else◌, keep,
  any, All, All-keep, All-append, arith, Bool-cases, Option-cases, inl, inr, ◌+◌,
}
use nextcloud_go.Text.{has_prefix}
use nextcloud_go.Errors.{ok, err}
use nextcloud_go.Login.Flow.{FlowError, Flow, is_past, SameGrant, IsFlowStore}
use nextcloud_go.Login.Service.{new_flow, init, lookup_state}
use nextcloud_go.Login.Service.Once.{state-stored, stored-eq_ok}
use nextcloud_go.Login.Sql.{
  FlowTable, pending_state_prefix, state_column, scan_flow, scanned, first_flow, polled,
  get_by_poll, get_by_login, get_by_state, insert, rewritten, rewrite, update, is_swept,
  delete_expired, sql_store,
}

-- Poll tokens are the rows' own.
abbrev Apart : Flow → Flow → Type 0
Apart l m = (m.poll_token =? l.poll_token) ≡ false

abbrev pub Unique : FlowTable → Type 0
Unique [] = Unit
Unique (r ∷ rows) = All (Apart r) rows × Unique rows

first_flow-passes :
    (p : Flow → Bool) (rows : FlowTable) (r : Flow) → first_flow p rows ≡ some r → p r ≡ true
unfolding first_flow
first_flow-passes p [] r h = cc
first_flow-passes p (m ∷ rows) r h = elim (Bool-cases (p m)) [
  | inl e ↦ ground arith
  | inr e ↦ first_flow-passes p rows r (ground arith)
]

All-first_flow {ℓ} :
    (P : Flow → Type ℓ) (p : Flow → Bool) (rows : FlowTable) (r : Flow)
    → All P rows
    → first_flow p rows ≡ some r
    → P r
unfolding first_flow
All-first_flow P p [] r a h = absurd (cc)
All-first_flow P p (m ∷ rows) r a h = elim (Bool-cases (p m)) [
  | inl e ↦ subst P (ground arith) a.0
  | inr e ↦ All-first_flow P p rows r a.1 (ground arith)
]

-- A row that any key finds is found by its poll token.
first_flow-polled :
    (p : Flow → Bool) (rows : FlowTable) (r : Flow)
    → Unique rows
    → first_flow p rows ≡ some r
    → first_flow (polled r.poll_token) rows ≡ some r
unfolding first_flow
first_flow-polled p [] r u h = absurd (cc)
first_flow-polled p (m ∷ rows) r u h = elim (Bool-cases (p m)) [
  | inl e ↦
      let same : m ≡ r = ground arith in
      subst (λ x. first_flow (polled x.poll_token) (m ∷ rows) ≡ some x) same
        (rw (beq_refl m.poll_token) refl)
  | inr e ↦
      let found : first_flow p rows ≡ some r = ground arith in
      let apart = All-first_flow (Apart m) p rows r u.0 found in
      let other : (m.poll_token =? r.poll_token) ≡ false = ground (
        arith,
        apart,
        bytes_eq_iff m.poll_token r.poll_token,
        bytes_eq_iff r.poll_token m.poll_token,
      ) in
      rw other (first_flow-polled p rows r u.1 found)
]

scanned-eq_ok :
    (o : Option Flow) (f : Flow) → scanned o ≡ ok f → (r : Flow) × (o ≡ some r) × (scan_flow r ≡ f)
scanned-eq_ok none f h = cc
scanned-eq_ok (some r) f h = (r, refl, cc)

coherent :
    (p : Flow → Bool) (rows : FlowTable) (f : Flow)
    → Unique rows
    → scanned (first_flow p rows) ≡ ok f
    → get_by_poll rows f.poll_token ≡ ok f
unfolding get_by_poll
coherent p rows f u h =
    let (r, found, same) = scanned-eq_ok (first_flow p rows) f h in
    subst (λ x. scanned (first_flow (polled x.poll_token) rows) ≡ ok x) same
      (rw (first_flow-polled p rows r u found) refl)

poll_own : (rows : FlowTable) (p : Bytes) (f : Flow) → get_by_poll rows p ≡ ok f → f.poll_token ≡ p
unfolding get_by_poll
poll_own rows p f h =
    let (r, found, same) = scanned-eq_ok (first_flow (polled p) rows) f h in
    ap (λ x. x.poll_token) (sym same)
    ∙ (bytes_eq_iff r.poll_token p).0 (first_flow-passes (polled p) rows r found)

first_flow-rewrite_other :
    (f : Flow) (p : Bytes) (rows : FlowTable)
    → (f.poll_token =? p) ≡ false
    → first_flow (polled p) (rewrite f rows) ≡ first_flow (polled p) rows
unfolding first_flow rewrite
first_flow-rewrite_other f p [] h = refl
first_flow-rewrite_other f p (r ∷ rows) h = elim (Bool-cases (polled f.poll_token r)) [
  | inl e ↦
      let other : (r.poll_token =? p) ≡ false = ground (
        arith,
        bytes_eq_iff r.poll_token f.poll_token,
        bytes_eq_iff r.poll_token p,
        bytes_eq_iff f.poll_token p,
      ) in
      rw (e, h, other) (first_flow-rewrite_other f p rows h)
  | inr e ↦ rw e (ap (λ o. if polled p r then some r else o) (first_flow-rewrite_other f p rows h))
]

first_flow-rewrite_own :
    (f : Flow) (rows : FlowTable)
    → any (polled f.poll_token) rows ≡ true
    → (r : Flow) × (first_flow (polled f.poll_token) (rewrite f rows) ≡ some (rewritten f r))
unfolding first_flow rewrite any
first_flow-rewrite_own f [] h = cc
first_flow-rewrite_own f (r ∷ rows) h = elim (Bool-cases (polled f.poll_token r)) [
  | inl e ↦ (r, rw e (rw (beq_refl f.poll_token) refl))
  | inr e ↦
      let (m, found) = first_flow-rewrite_own f rows (ground (arith, e)) in (m, rw (e, e) found)
]

abbrev clash : Flow → Flow → Bool
clash f r =
    r.poll_token =? f.poll_token
    || (r.login_token =? f.login_token || r.state_token =? state_column f)

abbrev other_clash : Flow → Flow → Bool
other_clash f r =
    not (polled f.poll_token r)
    && (r.login_token =? f.login_token || r.state_token =? state_column f)

update-cases :
    (rows : FlowTable) (f : Flow)
    → ((any (polled f.poll_token) rows ≡ true) × (update rows f ≡ (rewrite f rows, ok tt)))
      ⊎ ((e : FlowError) × (update rows f ≡ (rows, err e)))
unfolding update
update-cases rows f = elim (Bool-cases (f.poll_token =? [])) [
  | inl a ↦ inr (FlowError.invalid_flow, rw a refl)
  | inr a ↦ elim (Bool-cases (any (polled f.poll_token) rows)) [
    | inr b ↦ inr (FlowError.flow_not_found, rw (a, b) refl)
    | inl b ↦ elim (Bool-cases (any (other_clash f) rows)) [
      | inl c ↦ inr (FlowError.failure 1, rw (a, b, c) refl)
      | inr c ↦ inl (b, rw (a, b, c) refl)
    ]
  ]
]

insert-cases :
    (rows : FlowTable) (f : Flow)
    → ((any (clash f) rows ≡ false)
        × (insert rows f ≡ (rows ++ (record f { state_token = state_column f } ∷ []), ok tt)))
      ⊎ ((e : FlowError) × (insert rows f ≡ (rows, err e)))
unfolding insert
insert-cases rows f = elim (Bool-cases (f.poll_token =? [] || f.login_token =? [])) [
  | inl a ↦ inr (FlowError.invalid_flow, rw a refl)
  | inr a ↦ elim (Bool-cases (any (clash f) rows)) [
    | inl b ↦ inr (FlowError.failure 0, rw (a, b) refl)
    | inr b ↦ inl (b, rw (a, b) refl)
  ]
]

All-Apart-rewrite :
    (f l : Flow) (rows : FlowTable) → All (Apart l) rows → All (Apart l) (rewrite f rows)
unfolding rewrite
All-Apart-rewrite f l [] h = tt
All-Apart-rewrite f l (m ∷ rows) h = (
  ground (
    arith,
    h.0,
    bytes_eq_iff m.poll_token f.poll_token,
    bytes_eq_iff f.poll_token l.poll_token,
    bytes_eq_iff m.poll_token l.poll_token,
  ),
  All-Apart-rewrite f l rows h.1,
)

Unique-rewrite : (f : Flow) (rows : FlowTable) → Unique rows → Unique (rewrite f rows)
unfolding rewrite
Unique-rewrite f [] u = tt
Unique-rewrite f (r ∷ rows) u =
    (first (polled f.poll_token r) refl (All-Apart-rewrite f r rows u.0), Unique-rewrite f rows u.1)
  where
    first :
        (b : Bool)
        → polled f.poll_token r ≡ b
        → All (Apart r) (rewrite f rows)
        → All (Apart (if b then rewritten f r else r)) (rewrite f rows)
    first true e a =
        subst (λ x. All (λ m. (m.poll_token =? x) ≡ false) (rewrite f rows))
          ((bytes_eq_iff r.poll_token f.poll_token).0 e) a
    first false e a = a

Unique-append :
    (rows : FlowTable) (new : Flow)
    → Unique rows
    → any (polled new.poll_token) rows ≡ false
    → Unique (rows ++ (new ∷ []))
unfolding any
Unique-append [] new u h = (tt, tt)
Unique-append (r ∷ rows) new u h = (
  All-append (Apart r) rows (new ∷ []) u.0 (
    ground
        (arith, bytes_eq_iff r.poll_token new.poll_token, bytes_eq_iff new.poll_token r.poll_token),
    tt,
  ),
  Unique-append rows new u.1 (ground arith),
)

no_poll_clash :
    (f : Flow) (rows : FlowTable)
    → any (clash f) rows ≡ false
    → any (polled f.poll_token) rows ≡ false
unfolding any
no_poll_clash f [] h = refl
no_poll_clash f (r ∷ rows) h = ground (arith, no_poll_clash f rows (ground arith))

Unique-keep : (p : Flow → Bool) (rows : FlowTable) → Unique rows → Unique (keep p rows)
unfolding keep
Unique-keep p [] h = tt
Unique-keep p (r ∷ rows) h = go (p r) (All-keep (Apart r) p rows h.0) (Unique-keep p rows h.1)
  where
    go :
        (b : Bool)
        → All (Apart r) (keep p rows)
        → Unique (keep p rows)
        → Unique (if b then r ∷ keep p rows else keep p rows)
    go true a u = (a, u)
    go false a u = u

first_flow-append :
    (p : Flow → Bool) (rows : FlowTable) (new : Flow)
    → p new ≡ false
    → first_flow p (rows ++ (new ∷ [])) ≡ first_flow p rows
unfolding first_flow
first_flow-append p [] new h = rw h refl
first_flow-append p (r ∷ rows) new h =
    ap (λ o. if p r then some r else o) (first_flow-append p rows new h)

first_flow-append_new :
    (p : Flow → Bool) (rows : FlowTable) (new : Flow)
    → any p rows ≡ false
    → p new ≡ true
    → first_flow p (rows ++ (new ∷ [])) ≡ some new
unfolding first_flow any
first_flow-append_new p [] new h e = rw e refl
first_flow-append_new p (r ∷ rows) new h e = elim (Bool-cases (p r)) [
  | inl b ↦ absurd (ground (arith, h, b))
  | inr b ↦ rw b (first_flow-append_new p rows new (ground arith) e)
]

-- What a poll token finds among the rows that are kept, it finds among all.
first_flow-keep :
    (q : Flow → Bool) (t : Bytes) (rows : FlowTable) (r : Flow)
    → Unique rows
    → first_flow (polled t) (keep q rows) ≡ some r
    → first_flow (polled t) rows ≡ some r
unfolding first_flow keep
first_flow-keep q t [] r u h = absurd (cc)
first_flow-keep q t (m ∷ rows) r u h = elim (Bool-cases (polled t m)) [
  | inr e ↦ elim (Bool-cases (q m)) [
    | inl k ↦ rw e (first_flow-keep q t rows r u.1 (ground (arith, e, k, h)))
    | inr k ↦ rw e (first_flow-keep q t rows r u.1 (ground (arith, k, h)))
  ]
  | inl e ↦ elim (Bool-cases (q m)) [
    | inl k ↦ rw e (ground (arith, e, k, h))
    | inr k ↦
        let found : first_flow (polled t) (keep q rows) ≡ some r = ground (arith, k, h) in
        absurd (
          ground (
            arith,
            All-first_flow (Apart m) (polled t) (keep q rows) r (All-keep (Apart m) q rows u.0)
                found,
            first_flow-passes (polled t) (keep q rows) r found,
            bytes_eq_iff m.poll_token t,
            bytes_eq_iff r.poll_token t,
            bytes_eq_iff r.poll_token m.poll_token,
            e,
          ))
  ]
]

update_own :
    (rows : FlowTable) (f : Flow)
    → (update rows f).1 ≡ ok tt
    → (g : Flow) × (get_by_poll (update rows f).0 f.poll_token ≡ ok g) × SameGrant g f
unfolding get_by_poll
update_own rows f h = elim (update-cases rows f) [
  | inl (there, e) ↦
      let (r, found) = first_flow-rewrite_own f rows there in
      (
        scan_flow (rewritten f r),
        rw (e, found) refl,
        record {
          state = refl;
          server = refl;
          login_name = refl;
          app_password = refl;
          expires_at = refl;
        },
      )
  | inr (x, e) ↦ absurd (ground (arith, e, h))
]

update_other :
    (rows : FlowTable) (f : Flow) (p : Bytes)
    → (f.poll_token =? p) ≡ false
    → get_by_poll (update rows f).0 p ≡ get_by_poll rows p
unfolding get_by_poll
update_other rows f p h = elim (update-cases rows f) [
  | inl (there, e) ↦ rw (e, first_flow-rewrite_other f p rows h) refl
  | inr (x, e) ↦ rw e refl
]

update_refused :
    (rows : FlowTable) (f : Flow) (x : FlowError)
    → (update rows f).1 ≡ err x
    → (update rows f).0 ≡ rows
update_refused rows f x h = elim (update-cases rows f) [
  | inl (there, e) ↦ absurd (ground (arith, e, h))
  | inr (y, e) ↦ rw e refl
]

update_good : (rows : FlowTable) (f : Flow) → Unique rows → Unique (update rows f).0
update_good rows f u = elim (update-cases rows f) [
  | inl (there, e) ↦ rw e (Unique-rewrite f rows u)
  | inr (y, e) ↦ rw e u
]

insert_good : (rows : FlowTable) (f : Flow) → Unique rows → Unique (insert rows f).0
insert_good rows f u = elim (insert-cases rows f) [
  | inl (new, e) ↦
      rw e (
        Unique-append rows (record f { state_token = state_column f }) u (no_poll_clash f rows new))
  | inr (y, e) ↦ rw e u
]

insert_own :
    (rows : FlowTable) (f : Flow)
    → (insert rows f).1 ≡ ok tt
    → (g : Flow) × (get_by_poll (insert rows f).0 f.poll_token ≡ ok g) × SameGrant g f
unfolding get_by_poll
insert_own rows f h = elim (insert-cases rows f) [
  | inr (y, e) ↦ absurd (ground (arith, e, h))
  | inl (new, e) ↦
      let row : Flow = record f { state_token = state_column f } in
      let found =
        first_flow-append_new (polled f.poll_token) rows row (no_poll_clash f rows new)
          (beq_refl f.poll_token) in
      (
        scan_flow row,
        rw (e, found) refl,
        record {
          state = refl;
          server = refl;
          login_name = refl;
          app_password = refl;
          expires_at = refl;
        },
      )
]

insert_refused :
    (rows : FlowTable) (f : Flow) (x : FlowError)
    → (insert rows f).1 ≡ err x
    → (insert rows f).0 ≡ rows
insert_refused rows f x h = elim (insert-cases rows f) [
  | inl (new, e) ↦ absurd (ground (arith, e, h))
  | inr (y, e) ↦ rw e refl
]

insert_other :
    (rows : FlowTable) (f : Flow) (p : Bytes)
    → (f.poll_token =? p) ≡ false
    → get_by_poll (insert rows f).0 p ≡ get_by_poll rows p
unfolding get_by_poll
insert_other rows f p h = elim (insert-cases rows f) [
  | inl (new, e) ↦
      rw (e, first_flow-append (polled p) rows (record f { state_token = state_column f }) h) refl
  | inr (y, e) ↦ rw e refl
]

delete_only :
    (rows : FlowTable) (now : ℕ) (p : Bytes) (f : Flow)
    → Unique rows
    → get_by_poll (delete_expired rows now) p ≡ ok f
    → get_by_poll rows p ≡ ok f
unfolding get_by_poll delete_expired
delete_only rows now p f u h =
    let q = λ (r : Flow). not (is_swept now r.expires_at) in
    let (r, found, same) = scanned-eq_ok (first_flow (polled p) (keep q rows)) f h in
    rw (first_flow-keep q p rows r u found) (ap ok same)

delete_good : (rows : FlowTable) (now : ℕ) → Unique rows → Unique (delete_expired rows now)
unfolding delete_expired
delete_good rows now u = Unique-keep (λ r. not (is_swept now r.expires_at)) rows u

login_coherent :
    (rows : FlowTable) (l : Bytes) (f : Flow)
    → Unique rows
    → get_by_login rows l ≡ ok f
    → get_by_poll rows f.poll_token ≡ ok f
unfolding get_by_login
login_coherent rows l f u h = coherent (λ r. r.login_token =? l) rows f u h

state_coherent :
    (rows : FlowTable) (t : Bytes) (f : Flow)
    → Unique rows
    → get_by_state rows t ≡ ok f
    → get_by_poll rows f.poll_token ≡ ok f
unfolding get_by_state
state_coherent rows t f u h = coherent (λ r. r.state_token =? t) rows f u h

-- On a table whose poll tokens are unique, SQLStore keeps every promise that the service relies on:
-- the three lookups see one flow; Update writes the flow of its poll token, or changes nothing and
-- answers an error; Insert adds a flow that its poll token finds, or changes nothing and answers an
-- error; neither touches the flow of another poll token; and the sweep only deletes.
pub sql_store-IsFlowStore : IsFlowStore sql_store Unique
sql_store-IsFlowStore = record {
  poll_own = poll_own;
  login_coherent = login_coherent;
  state_coherent = state_coherent;
  update_good = update_good;
  update_own = λ s f u h. update_own s f h;
  update_other = update_other;
  update_refused = update_refused;
  insert_good = insert_good;
  insert_own = λ s f u h. insert_own s f h;
  insert_refused = insert_refused;
  insert_other = insert_other;
  delete_good = delete_good;
  delete_only = delete_only;
}

no_state_clash :
    (f : Flow) (rows : FlowTable)
    → any (clash f) rows ≡ false
    → any (λ r. r.state_token =? state_column f) rows ≡ false
unfolding any
no_state_clash f [] h = refl
no_state_clash f (r ∷ rows) h = ground (arith, no_state_clash f rows (ground arith))

-- A flow without a state token, as Init makes it, is found under the placeholder of its column.
get_by_state-insert :
    (rows : FlowTable) (f : Flow)
    → f.state_token ≡ []
    → (insert rows f).1 ≡ ok tt
    → get_by_state (insert rows f).0 (pending_state_prefix ++ f.poll_token) ≡ ok f
unfolding get_by_state has_prefix
get_by_state-insert rows f none_yet h = elim (insert-cases rows f) [
  | inr (x, e) ↦ absurd (ground (arith, e, h))
  | inl (new, e) ↦
      let column : state_column f ≡ pending_state_prefix ++ f.poll_token =
        rw (none_yet, beq_refl {A = Bytes} []) refl in
      let row : Flow = record f { state_token = state_column f } in
      let found =
        first_flow-append_new (λ r. r.state_token =? state_column f) rows row
          (no_state_clash f rows new) (beq_refl (state_column f)) in
      let read : scan_flow row ≡ f =
        ap (λ t. scan_flow (record f { state_token = t })) column
        ∙ ap (λ t. record f { state_token = t }) (sym none_yet) in
      rw e (
        subst (λ t. scanned (first_flow (λ r. r.state_token =? t) (rows ++ (row ∷ []))) ≡ ok f)
          column (ap scanned found ∙ ap ok read))
]

-- Behind an Init on the SQL store and until the flow expires, LookupState answers the flow for the
-- word "pending:" with the poll token behind it, although no BeginGrant gave out a state token.
pub lookup_state-init :
    (now ttl later : ℕ) (p l client : Bytes) (rows : FlowTable) (f : Flow)
    → (init sql_store now ttl (ok p) (ok l) client rows).1 ≡ ok f
    → is_past later (some (now + ttl)) ≡ false
    → lookup_state sql_store later
        (pending_state_prefix ++ p)
        (init sql_store now ttl (ok p) (ok l) client rows).0
      ≡ ok f
unfolding init lookup_state nextcloud_go.Prelude.bytes_eq
lookup_state-init now ttl later p l client rows f h alive =
    let nf : Flow = new_flow now ttl p l client in
    let (wrote, same) =
      stored-eq_ok sql_store Unique sql_store-IsFlowStore nf f (insert rows nf) h in
    let after = state-stored sql_store Unique sql_store-IsFlowStore nf (insert rows nf) in
    rw (after, get_by_state-insert rows nf refl wrote) (rw alive (ap ok same))
