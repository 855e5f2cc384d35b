-- ===== src/Sharing/Live/Lists.antt =====
-- The lists and the sweep against the shares in force.
use nextcloud_go.Prelude.{
  ℕ, zero, suc, Bool, true, false, not, ◌&&◌, Option, none, some, List, [], ◌∷◌, Bytes, ◌≡◌, refl,
  sym, ap, subst, ◌∙◌, ◌==◌, ◌=?◌, bytes_equality, if◌then◌else◌, keep, any, All, All-keep, arith,
  Bool-cases, inl, inr, ◌⊎◌, ◌||◌, leb, ℤ, pos, negsuc, contains, nat_equality, map,
}
use nextcloud_go.Errors.{ok, ◌>>=◌}
use nextcloud_go.Sharing.Store.{
  Share, delete, delete_expired, list_expired, reaped, list_by_owner, of_owner,
}
use nextcloud_go.Sharing.Store.Rows.{Apart, All-map, Unique, keep-keep, every_row}
use nextcloud_go.Sharing.Service.{
  owner_of, User, Services, State, Call, log_if, expired, expire_if_needed,
}
use nextcloud_go.Files.Path.{normalize_path}
use nextcloud_go.Sharing.Access.{
  drop_expired, filtered_rows, stored_filter, live_rows, list_for_owner,
}
use nextcloud_go.Sharing.Public.{dismiss_all, unwrap_all, sweep}
use nextcloud_go.Sharing.Live.{
  fresh, live, Agree, live-expire_if_needed, gone-expire_if_needed, table-forget, table-log_if,
}

-- What expireIfNeeded leaves of a property of all rows.
pub All-expire_if_needed {ℓ} :
    (P : Share → Type ℓ) (env : Services) (now : ℕ) (sh : Share) (s : State)
    → All P s.table.rows
    → All P (expire_if_needed env now sh s).0.table.rows
unfolding expire_if_needed delete
All-expire_if_needed P env now sh s h = elim (Bool-cases (expired now sh.expire_ms)) [
  | inl e ↦ rw (e, table-forget env sh s) (gone (sh.id == 0))
  | inr e ↦ rw e h
]
  where
    gone :
        (b : Bool)
        → All P
            (if b
              then s.table
              else record s.table { rows = keep (λ r. not (r.id == sh.id)) s.table.rows }).rows
    gone true = h
    gone false = All-keep P (λ r. not (r.id == sh.id)) s.table.rows h

-- Of a list of rows of the table, the loop hands on the shares in force, and leaves the shares in
-- force of the table as they were.
pub drop_expired-live :
    (env : Services) (now : ℕ) (items : List Share) (s : State)
    → All (λ sh. Agree now sh s.table.rows) items
    → ((drop_expired env now items s).1 ≡ keep (fresh now) items)
      × (live now (drop_expired env now items s).0 ≡ live now s)
unfolding drop_expired keep
drop_expired-live env now [] s h = (refl, refl)
drop_expired-live env now (sh ∷ items) s h =
    let s1 = (expire_if_needed env now sh s).0 in
    let (rest, same) = drop_expired-live env now items s1 (
      All-map items
        (λ r a.
          All-expire_if_needed (λ m. (m.id == r.id) ≡ true → fresh now m ≡ fresh now r) env now sh s
            a)
        h.1) in
    (
      elim (Bool-cases (expired now sh.expire_ms)) [
        | inl e ↦ rw (gone-expire_if_needed env now sh s, e) rest
        | inr e ↦ rw (gone-expire_if_needed env now sh s, e) (ap (λ l. sh ∷ l) rest)
      ],
      same ∙ live-expire_if_needed env now sh s h.0,
    )

keep_comm : (p q : Share → Bool) (rows : List Share) → keep p (keep q rows) ≡ keep q (keep p rows)
unfolding keep
keep_comm p q [] = refl
keep_comm p q (r ∷ rows) = ground (arith, keep_comm p q rows)

Agree-rows : (now : ℕ) (rows : List Share) → Unique rows → All (λ sh. Agree now sh rows) rows
Agree-rows now [] u = tt
Agree-rows now (r ∷ rows) u = (
  (λ i. refl, All-map rows (λ m a i. absurd (ground (arith, a))) u.0),
  both rows (Agree-rows now rows u.1) u.0,
)
  where
    both :
        (items : List Share)
        → All (λ sh. Agree now sh rows) items
        → All (Apart r) items
        → All (λ sh. Agree now sh (r ∷ rows)) items
    both [] a b = tt
    both (sh ∷ items) a b = ((λ i. absurd (ground (arith, b.0)), a.0), both items a.1 b.1)

live_rows-keep :
    (env : Services) (now : ℕ) (s : State) (p : Share → Bool)
    → Unique s.table.rows
    → ((live_rows env now s (ok (keep p s.table.rows))).1 ≡ ok (keep p (live now s)))
      × (live now (live_rows env now s (ok (keep p s.table.rows))).0 ≡ live now s)
unfolding live
live_rows-keep env now s p u =
    let (answer, same) =
      drop_expired-live env now (keep p s.table.rows) s (
        All-keep (λ sh. Agree now sh s.table.rows) p s.table.rows
          (Agree-rows now s.table.rows u)) in
    (ap ok (answer ∙ keep_comm (fresh now) p s.table.rows), same)

-- The path that a filter asks for: `[]` for none.
abbrev pub AsksFor : Bytes → Bytes → Type 0
AsksFor f np = ((f ≡ []) × (np ≡ [])) ⊎ (((f =? []) ≡ false) × (normalize_path f ≡ some np))

asked_rows :
    (env : Services) (uid f np : Bytes) (u : User) (s : State)
    → env.name_codec ≡ none
    → env.user_by_uid uid ≡ ok u
    → (u.id == 0) ≡ false
    → AsksFor f np
    → (owner_of env uid >>= λ v. filtered_rows s v.id (stored_filter v.id f env.name_codec))
      ≡ ok (keep (of_owner u.id np) s.table.rows)
unfolding owner_of list_by_owner nextcloud_go.Prelude.bytes_eq
asked_rows env uid f np u s plain user real (inl (nothing, e)) =
    rw (user, plain, real, nothing, e) refl
asked_rows env uid f np u s plain user real (inr (asked, e)) = rw (user, plain, real, asked, e) refl

-- Without a name codec, for a user who is there, on a table with unique ids and tokens:
-- ListForOwner answers the user's shares in force, in the order of the table, those at the path of
-- the filter if there is one; and the shares in force are as they were.
pub list_for_owner-live :
    (env : Services) (now : ℕ) (uid f np : Bytes) (u : User) (s : State)
    → Unique s.table.rows
    → env.name_codec ≡ none
    → env.user_by_uid uid ≡ ok u
    → (u.id == 0) ≡ false
    → AsksFor f np
    → ((list_for_owner env now uid f s).1 ≡ ok (keep (of_owner u.id np) (live now s)))
      × (live now (list_for_owner env now uid f s).0 ≡ live now s)
unfolding list_for_owner
list_for_owner-live env now uid f np u s unique plain user real asks =
    let rows = asked_rows env uid f np u s plain user real asks in
    let (answer, same) = live_rows-keep env now s (of_owner u.id np) unique in
    (
      ap (λ r. (live_rows env now s r).1) rows ∙ answer,
      ap (λ r. live now (live_rows env now s r).0) rows ∙ same,
    )

-- Whether the bells of a share were dismissed
unfoldable pub dismisses : ℕ → List Call → Bool
dismisses id [] = false
dismisses id (Call.notification_dismissed j ∷ calls) = j == id || dismisses id calls
dismisses id (Call.share_created _ ∷ calls) = dismisses id calls
dismisses id (Call.key_wrapped _ ∷ calls) = dismisses id calls
dismisses id (Call.key_unwrapped _ ∷ calls) = dismisses id calls
dismisses id (Call.remote_noticed _ ∷ calls) = dismisses id calls
dismisses id (Call.remote_unshared _ ∷ calls) = dismisses id calls

dismisses-dismiss_all :
    (env : Services) (id : ℕ) (ids : List ℕ) (s : State)
    → env.has_notifs ≡ true
    → dismisses id (dismiss_all env ids s).calls ≡ contains ids id || dismisses id s.calls
unfolding dismiss_all dismisses contains
dismisses-dismiss_all env id [] s h = refl
dismisses-dismiss_all env id (j ∷ ids) s h = rw h (
    ground (
      arith,
      dismisses-dismiss_all env id ids
          (record s { calls = Call.notification_dismissed j ∷ s.calls }) h,
    ))

table-dismiss_all :
    (env : Services) (ids : List ℕ) (s : State) → (dismiss_all env ids s).table ≡ s.table
unfolding dismiss_all
table-dismiss_all env [] s = refl
table-dismiss_all env (j ∷ ids) s =
    table-dismiss_all env ids (log_if env.has_notifs (Call.notification_dismissed j) s)
    ∙ table-log_if env.has_notifs (Call.notification_dismissed j) s

table-unwrap_all :
    (env : Services) (ids : List ℕ) (doomed : List Share) (s : State)
    → (unwrap_all env ids doomed s).table ≡ s.table
unfolding unwrap_all
table-unwrap_all env ids [] s = refl
table-unwrap_all env ids (sh ∷ doomed) s =
    table-unwrap_all env ids doomed (log_if (contains ids sh.id) (Call.key_unwrapped sh) s)
    ∙ table-log_if (contains ids sh.id) (Call.key_unwrapped sh) s

dismisses-unwrap_all :
    (env : Services) (id : ℕ) (ids : List ℕ) (doomed : List Share) (s : State)
    → dismisses id (unwrap_all env ids doomed s).calls ≡ dismisses id s.calls
unfolding unwrap_all dismisses
dismisses-unwrap_all env id ids [] s = refl
dismisses-unwrap_all env id ids (sh ∷ doomed) s =
    dismisses-unwrap_all env id ids doomed (log_if (contains ids sh.id) (Call.key_unwrapped sh) s)
    ∙ unwrapped (contains ids sh.id)
  where
    unwrapped :
        (b : Bool) → dismisses id (log_if b (Call.key_unwrapped sh) s).calls ≡ dismisses id s.calls
    unwrapped true = refl
    unwrapped false = refl

abbrev doomed_rows : Services → ℕ → State → List Share
doomed_rows env now s = if env.has_keys then list_expired s.table now else []

abbrev reaped_ids : ℕ → State → List ℕ
reaped_ids now s = (delete_expired s.table now).1

abbrev swept : ℕ → State → State
swept now s = record s { table = (delete_expired s.table now).0 }

pub table-sweep :
    (env : Services) (now : ℕ) (s : State)
    → (sweep env now s).table ≡ (delete_expired s.table now).0
unfolding sweep
table-sweep env now s =
    table-unwrap_all env (reaped_ids now s) (doomed_rows env now s)
      (dismiss_all env (reaped_ids now s) (swept now s))
    ∙ table-dismiss_all env (reaped_ids now s) (swept now s)

-- A row that the sweep reaps has expired.
reaped-expired : (now : ℕ) (r : Share) → not (reaped now r.expire_ms) ≡ false → fresh now r ≡ false
reaped-expired now r h = go r.expire_ms h
  where
    go : (e : ℤ) → not (reaped now e) ≡ false → not (expired now e) ≡ false
    go (pos zero) h = h
    go (pos (suc n)) h = h
    go (negsuc n) h = refl

abbrev pub has_share : ℕ → List Share → Bool
unfolding any
has_share id rows = any (λ r. r.id == id) rows

has_share-Apart : (r : Share) (rows : List Share) → All (Apart r) rows → has_share r.id rows ≡ false
unfolding any
has_share-Apart r [] h = refl
has_share-Apart r (m ∷ rows) h = rw (h.0.0, has_share-Apart r rows h.1) refl

has_share-keep :
    (p : Share → Bool) (id : ℕ) (rows : List Share)
    → has_share id rows ≡ false
    → has_share id (keep p rows) ≡ false
unfolding any keep
has_share-keep p id [] h = refl
has_share-keep p id (r ∷ rows) h = ground (arith, has_share-keep p id rows (ground arith))

-- With unique ids, the kept rows lost the ids of exactly the others.
contains-reaped :
    (p : Share → Bool) (id : ℕ) (rows : List Share)
    → Unique rows
    → contains (map (λ r. r.id) (keep p rows)) id
      ≡ (has_share id rows && not (has_share id (keep (λ r. not (p r)) rows)))
unfolding any keep contains
contains-reaped p id [] u = refl
contains-reaped p id (r ∷ rows) u = elim (Bool-cases (r.id == id)) [
  | inr e ↦ elim (Bool-cases (p r)) [
    | inl k ↦ rw k (ground (arith, e, contains-reaped p id rows u.1))
    | inr k ↦ rw k (ground (arith, e, contains-reaped p id rows u.1))
  ]
  | inl e ↦
      let absent : has_share id rows ≡ false =
        subst (λ (i : ℕ). has_share i rows ≡ false) (ground arith) (has_share-Apart r rows u.0) in
      let none_left = has_share-keep (λ m. not (p m)) id rows absent in
      elim (Bool-cases (p r)) [
        | inl k ↦ rw k (ground (arith, e, none_left))
        | inr k ↦ rw k (ground (arith, e, absent, contains-reaped p id rows u.1))
      ]
]

-- A share that the sweep deletes
abbrev pub deletes_share : Services → ℕ → State → ℕ → Bool
unfolding sweep
deletes_share env now s id =
    has_share id s.table.rows && not (has_share id (sweep env now s).table.rows)

deletes_share-list_expired :
    (env : Services) (now : ℕ) (s : State) (id : ℕ)
    → Unique s.table.rows
    → deletes_share env now s id ≡ contains (map (λ r. r.id) (list_expired s.table now)) id
unfolding list_expired delete_expired deletes_share
deletes_share-list_expired env now s id u =
    rw (table-sweep env now s)
      (sym (contains-reaped (λ r. reaped now r.expire_ms) id s.table.rows u))

-- On a table with unique ids and tokens, where there is a notification sink: the sweep deletes no
-- share in force; the shares that it deletes, in the table before it and not behind it, are those
-- whose expiry lies in the past and behind 1970; and it dismisses the bells of exactly these, beside
-- those that were dismissed before.
pub sweep-live :
    (env : Services) (now : ℕ) (s : State)
    → env.has_notifs ≡ true
    → Unique s.table.rows
    → (live now (sweep env now s) ≡ live now s)
      × ((id : ℕ)
          → deletes_share env now s id ≡ contains (map (λ r. r.id) (list_expired s.table now)) id)
      × ((id : ℕ)
          → dismisses id (sweep env now s).calls
            ≡ deletes_share env now s id || dismisses id s.calls)
unfolding live sweep delete_expired
sweep-live env now s h u = (
  ap (λ t. keep (fresh now) t.rows) (table-sweep env now s)
      ∙ keep-keep (λ r. not (reaped now r.expire_ms)) (fresh now) s.table.rows
          (every_row _ s.table.rows (reaped-expired now)),
  λ id. deletes_share-list_expired env now s id u,
  λ id.
      dismisses-unwrap_all env id (reaped_ids now s) (doomed_rows env now s)
        (dismiss_all env (reaped_ids now s) (swept now s))
      ∙ dismisses-dismiss_all env id (reaped_ids now s) (swept now s) h
      ∙ ap (λ b. b || dismisses id s.calls) (sym (deletes_share-list_expired env now s id u)),
)
