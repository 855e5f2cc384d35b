-- ===== src/Sharing/Invariant/Steps.antt =====
-- Every operation of the service keeps the invariant of the table shares.
use nextcloud_go.Prelude.{
  ℕ, Bool, true, Option, none, some, List, [], ◌∷◌, Bytes, ◌≡◌, refl, sym, ap, subst, ◌∙◌, ◌=?◌,
  bytes_equality, arith, Bool-cases, inl, inr,
}
use nextcloud_go.Errors.{Result, ok, err, >>=-eq_ok, Result-cases}
use nextcloud_go.Sharing.ExpireDate.{parse_expire_date}
use nextcloud_go.Sharing.Store.{ShareError, Share, get_by_token, list_by_sharee}
use nextcloud_go.Sharing.Store.Rows.{All-map}
use nextcloud_go.Sharing.Store.Valid.{IsTable, IsTable-delete_expired, update-IsTable}
use nextcloud_go.Sharing.Service.{
  User, Services, Call, State, CreateRequest, log_if, expire_if_needed, valid_share_perms, create,
  hash_password, or_error,
}
use nextcloud_go.Sharing.Access.{
  get_for_owner, drop_expired, live_rows, list_for_owner, Changes, changed, set_label,
  set_permissions, set_password, set_expire, written, change_found, update_share, deleted,
  delete_share, unshare_sent,
}
use nextcloud_go.Sharing.Public.{
  Opened, opened, lookup_valid_share, of_type, is_link, is_link_or_remote, lookup_valid,
  lookup_valid_public_dav, resolve_with_password, resolve_public, resolve_public_dav, IncomingMount,
  mount_one, gather, mounts, for_groups, for_sharee_user, list_incoming, sweep,
}
use nextcloud_go.Sharing.Live.Lists.{table-sweep}
use nextcloud_go.Sharing.Invariant.{
  Stored, Seen, Seen-get_for_owner, IsTable-create, IsTable-log_if, IsTable-forget,
  IsTable-expire_if_needed,
}

-- A changed share is still the row's, with valid permissions.
abbrev Kept : Share → Share → Type 0
Kept sh r =
    (r.id ≡ sh.id)
    × (r.item_type ≡ sh.item_type)
    × (valid_share_perms r.item_type r.permissions ≡ true)

set_permissions-Kept :
    (o : Option ℕ) (sh r : Share)
    → valid_share_perms sh.item_type sh.permissions ≡ true
    → set_permissions o sh ≡ ok r
    → Kept sh r
set_permissions-Kept none sh r v h = let same : sh ≡ r = cc in subst (Kept sh) same (refl, refl, v)
set_permissions-Kept (some perms) sh r v h =
    elim (Bool-cases (valid_share_perms sh.item_type perms)) [
      | inl e ↦
          let same : record sh { permissions = perms } ≡ r = ground (arith, e) in
          subst (Kept sh) same (refl, refl, e)
      | inr e ↦ absurd (ground (arith, e))
    ]

set_password-Kept :
    (env : Services) (o : Option Bytes) (sh r : Share)
    → valid_share_perms sh.item_type sh.permissions ≡ true
    → set_password env o sh ≡ ok r
    → Kept sh r
set_password-Kept env none sh r v h = let same : sh ≡ r = cc in subst (Kept sh) same (refl, refl, v)
set_password-Kept env (some password) sh r v h =
    let (hash, e, f) = >>=-eq_ok (hash_password env password) _ r h in
    let same : record sh { password_hash = hash } ≡ r = cc in subst (Kept sh) same (refl, refl, v)

set_expire-Kept :
    (o : Option Bytes) (sh r : Share)
    → valid_share_perms sh.item_type sh.permissions ≡ true
    → set_expire o sh ≡ ok r
    → Kept sh r
set_expire-Kept none sh r v h = let same : sh ≡ r = cc in subst (Kept sh) same (refl, refl, v)
set_expire-Kept (some raw) sh r v h =
    let (ms, e, f) = >>=-eq_ok (or_error ShareError.bad_expire (parse_expire_date raw)) _ r h in
    let same : record sh { expire_ms = ms } ≡ r = cc in subst (Kept sh) same (refl, refl, v)

set_label-Kept :
    (o : Option Bytes) (sh r : Share)
    → valid_share_perms sh.item_type sh.permissions ≡ true
    → ◌≡◌ {A = Result ShareError Share} (ok (set_label o sh)) (ok r)
    → Kept sh r
set_label-Kept none sh r v h = let same : sh ≡ r = cc in subst (Kept sh) same (refl, refl, v)
set_label-Kept (some label) sh r v h =
    let same : record sh { label = label } ≡ r = cc in subst (Kept sh) same (refl, refl, v)

Kept-trans : (a b c : Share) → Kept a b → Kept b c → Kept a c
Kept-trans a b c h k = (k.0 ∙ h.0, k.1 ∙ h.1, k.2)

changed-Kept :
    (env : Services) (c : Changes) (sh r : Share)
    → valid_share_perms sh.item_type sh.permissions ≡ true
    → changed env c sh ≡ ok r
    → Kept sh r
unfolding changed
changed-Kept env c sh r v h =
    let (a, e1, h1) = >>=-eq_ok (set_permissions c.permissions sh) _ r h in
    let k1 = set_permissions-Kept c.permissions sh a v e1 in
    let (b, e2, h2) = >>=-eq_ok (set_password env c.password a) _ r h1 in
    let k2 = set_password-Kept env c.password a b k1.2 e2 in
    let (d, e3, h3) = >>=-eq_ok (set_expire c.expire_date b) _ r h2 in
    let k3 = set_expire-Kept c.expire_date b d k2.2 e3 in
    Kept-trans sh a r k1
      (Kept-trans a b r k2 (Kept-trans b d r k3 (set_label-Kept c.label d r k3.2 h3)))

IsTable-written :
    (env : Services) (c : Changes) (s : State) (sh r : Share)
    → IsTable s.table
    → Stored s sh
    → changed env c sh ≡ ok r
    → IsTable (written s (ok r)).0.table
IsTable-written env c s sh r h st e =
    let (same_id, same_type, valid) = changed-Kept env c sh r st.1 e in
    update-IsTable s.table r valid
      (All-map s.table.rows
        (λ m f i. ap (λ x. x.item_type) (f (ground (arith, i, same_id))) ∙ sym same_type) st.0)
      h

IsTable-change_found :
    (env : Services) (c : Changes) (o : State × Result ShareError Share)
    → Seen o
    → IsTable (change_found env c o).0.table
IsTable-change_found env c (s, err e) h = h
IsTable-change_found env c (s, ok sh) h = elim (Result-cases (changed env c sh)) [
  | inl (e, n) ↦ rw n h.0
  | inr (r, n) ↦ rw n (IsTable-written env c s sh r h.0 h.1 n)
]

IsTable-seen : (o : State × Result ShareError Share) → Seen o → IsTable o.0.table
IsTable-seen (s, err e) h = h
IsTable-seen (s, ok sh) h = h.0

IsTable-deleted :
    (env : Services) (o : State × Result ShareError Share)
    → Seen o
    → IsTable (deleted env o).0.table
IsTable-deleted env (s, err e) h = h
IsTable-deleted env (s, ok sh) h =
    IsTable-forget env sh (log_if (unshare_sent env sh) (Call.remote_unshared sh) s)
      (IsTable-log_if (unshare_sent env sh) (Call.remote_unshared sh) s h.0)

IsTable-drop_expired :
    (env : Services) (now : ℕ) (items : List Share) (s : State)
    → IsTable s.table
    → IsTable (drop_expired env now items s).0.table
unfolding drop_expired
IsTable-drop_expired env now [] s h = h
IsTable-drop_expired env now (sh ∷ items) s h =
    IsTable-drop_expired env now items (expire_if_needed env now sh s).0
      (IsTable-expire_if_needed env now sh s h)

IsTable-live_rows :
    (env : Services) (now : ℕ) (s : State) (r : Result ShareError (List Share))
    → IsTable s.table
    → IsTable (live_rows env now s r).0.table
IsTable-live_rows env now s (err e) h = h
IsTable-live_rows env now s (ok items) h = IsTable-drop_expired env now items s h

IsTable-opened :
    (env : Services) (now : ℕ) (s : State) (r : Result ShareError Share)
    → IsTable s.table
    → IsTable (opened env now s r).0.table
IsTable-opened env now s (err e) h = h
IsTable-opened env now s (ok sh) h = IsTable-expire_if_needed env now sh s h

state-of_type : (p : ℕ → Bool) (o : Opened) → (of_type p o).0 ≡ o.0
state-of_type p (s, err e) = refl
state-of_type p (s, ok (sh, u)) = refl

state-resolve_with_password :
    (env : Services) (password : Bytes) (o : Opened)
    → (resolve_with_password env password o).0 ≡ o.0
state-resolve_with_password env password (s, err e) = refl
state-resolve_with_password env password (s, ok (sh, u)) = refl

IsTable-resolved :
    (env : Services) (now : ℕ) (p : ℕ → Bool) (token password : Bytes) (s : State)
    → IsTable s.table
    → IsTable
        (resolve_with_password env password
          (of_type p (lookup_valid_share env now token s))).0.table
unfolding lookup_valid_share
IsTable-resolved env now p token password s h =
    let looked = opened env now s (get_by_token s.table token) in
    subst (λ x. IsTable x.table)
      (sym (state-resolve_with_password env password (of_type p looked) ∙ state-of_type p looked))
      (IsTable-opened env now s (get_by_token s.table token) h)

state-gather :
    (r : Result ShareError (Option IncomingMount))
    (rest : State × Result ShareError (List IncomingMount)) (s : State)
    → IsTable rest.0.table
    → IsTable s.table
    → IsTable (gather r rest s).0.table
state-gather (err e) rest s h k = k
state-gather (ok m) (s1, err e) s h k = h
state-gather (ok m) (s1, ok ms) s h k = h

IsTable-mounts :
    (env : Services) (now : ℕ) (items : List Share) (s : State)
    → IsTable s.table
    → IsTable (mounts env now items s).0.table
unfolding mounts
IsTable-mounts env now [] s h = h
IsTable-mounts env now (sh ∷ items) s h =
    let s1 = (expire_if_needed env now sh s).0 in
    let h1 = IsTable-expire_if_needed env now sh s h in
    let rest = IsTable-mounts env now items s1 h1 in
    elim (Bool-cases (expire_if_needed env now sh s).1) [
      | inl e ↦ rw e rest
      | inr e ↦ rw e (state-gather (mount_one env sh) (mounts env now items s1) s1 rest h1)
    ]

IsTable-for_groups :
    (env : Services) (now : ℕ) (uid : Bytes) (s : State) (r : Result ShareError (List Bytes))
    → IsTable s.table
    → IsTable (for_groups env now uid s r).0.table
IsTable-for_groups env now uid s (err e) h = h
IsTable-for_groups env now uid s (ok gids) h =
    IsTable-mounts env now (list_by_sharee s.table uid gids) s h

IsTable-for_sharee_user :
    (env : Services) (now : ℕ) (uid : Bytes) (s : State) (r : Result ShareError User)
    → IsTable s.table
    → IsTable (for_sharee_user env now uid s r).0.table
IsTable-for_sharee_user env now uid s (ok u) h =
    IsTable-for_groups env now uid s (env.groups_of uid) h
IsTable-for_sharee_user env now uid s (err ShareError.user_not_found) h = h
IsTable-for_sharee_user env now uid s (err _) h = h

IsTable-list_incoming :
    (env : Services) (now : ℕ) (uid : Bytes) (s : State)
    → IsTable s.table
    → IsTable (list_incoming env now uid s).0.table
unfolding list_incoming
IsTable-list_incoming env now uid s h = elim (Bool-cases (uid =? [])) [
  | inl e ↦ rw e h
  | inr e ↦ rw e (IsTable-for_sharee_user env now uid s (env.user_by_uid uid) h)
]

-- One call of the service, or one run of the sweep
pub data Step (env : Services) : State → State → Type 0 where
  creates :
      (now : ℕ) (new_token : Result ShareError Bytes) (req : CreateRequest) (s : State)
      → Step env s (create env now new_token req s).0
  gets :
      (now : ℕ) (uid : Bytes) (id : ℕ) (s : State) → Step env s (get_for_owner env now uid id s).0
  lists :
      (now : ℕ) (uid filter : Bytes) (s : State)
      → Step env s (list_for_owner env now uid filter s).0
  updates :
      (now : ℕ) (uid : Bytes) (id : ℕ) (c : Changes) (s : State)
      → Step env s (update_share env now uid id c s).0
  deletes :
      (now : ℕ) (uid : Bytes) (id : ℕ) (s : State) → Step env s (delete_share env now uid id s).0
  resolves :
      (now : ℕ) (token password : Bytes) (s : State)
      → Step env s (resolve_public env now token password s).0
  resolves_dav :
      (now : ℕ) (token password : Bytes) (s : State)
      → Step env s (resolve_public_dav env now token password s).0
  mounts_incoming : (now : ℕ) (uid : Bytes) (s : State) → Step env s (list_incoming env now uid s).0
  sweeps : (now : ℕ) (s : State) → Step env s (sweep env now s)

pub data Steps (env : Services) (s : State) : State → Type 0 where
  here : Steps env s s
  next : {t u : State} → Steps env s t → Step env t u → Steps env s u

IsTable-Step : (env : Services) (s t : State) → Step env s t → IsTable s.table → IsTable t.table
unfolding list_for_owner update_share delete_share resolve_public lookup_valid resolve_public_dav
    lookup_valid_public_dav
IsTable-Step env _ _ (Step.creates now new_token req s) h = IsTable-create env now new_token req s h
IsTable-Step env _ _ (Step.gets now uid id s) h =
    IsTable-seen (get_for_owner env now uid id s) (Seen-get_for_owner env now uid id s h)
IsTable-Step env _ _ (Step.lists now uid f s) h = IsTable-live_rows env now s _ h
IsTable-Step env _ _ (Step.updates now uid id c s) h =
    IsTable-change_found env c (get_for_owner env now uid id s)
      (Seen-get_for_owner env now uid id s h)
IsTable-Step env _ _ (Step.deletes now uid id s) h =
    IsTable-deleted env (get_for_owner env now uid id s) (Seen-get_for_owner env now uid id s h)
IsTable-Step env _ _ (Step.resolves now token password s) h =
    IsTable-resolved env now is_link token password s h
IsTable-Step env _ _ (Step.resolves_dav now token password s) h =
    IsTable-resolved env now is_link_or_remote token password s h
IsTable-Step env _ _ (Step.mounts_incoming now uid s) h = IsTable-list_incoming env now uid s h
IsTable-Step env _ _ (Step.sweeps now s) h =
    subst IsTable (sym (table-sweep env now s)) (IsTable-delete_expired s.table now h)

-- Whatever calls of the service and runs of the sweep follow one another: ids and tokens of the
-- table stay unique, every share has an owner, a token, and permissions that its type allows.
pub IsTable-Steps :
    (env : Services) (s t : State) → Steps env s t → IsTable s.table → IsTable t.table
IsTable-Steps env s _ Steps.here h = h
IsTable-Steps env s _ (Steps.next steps step) h =
    IsTable-Step env _ _ step (IsTable-Steps env s _ steps h)
