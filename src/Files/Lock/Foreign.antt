-- ===== src/Files/Lock/Foreign.antt =====
-- A lock in force outlasts the requests of those who do not have its token.
use nextcloud_go.Prelude.{
  ℕ, zero, suc, ◌≤◌, Bool, true, false, not, ◌&&◌, Option, none, some, [], ◌∷◌, Bytes, ◌≡◌, refl,
  ap, subst, ◌∙◌, ◌==◌, ◌=?◌, bytes_equality, bytes_eq_iff, if◌then◌else◌, length, arith,
  Bool-cases, Option-cases, inl, inr,
}
use nextcloud_go.Errors.{Error, FileError, Result, ok, err, map_meta, Result-cases}
use nextcloud_go.Webdav.LockToken.{lock_header_has_token, strip_lock_token}
use nextcloud_go.Files.Path.{normalize_path, parent_file_path}
use nextcloud_go.Files.Path.Idempotent.{normalize_path_idem}
use nextcloud_go.Files.LockStore.{
  FileLock, LockTable, select, get_by_path, insert, add, update_timeout, delete,
}
use nextcloud_go.Files.LockStore.Unique.{IsTable, delete-IsTable}
use nextcloud_go.Files.Lock.{
  Services, LockRequest, expire_lock, live_or_next, apply_lock, stat, resolve_user, with_stat,
  with_path, with_user, on_own_file, held, new_row, fresh, inserted, lock_at, lock, token_matches,
  unlock_found, unlock_at, unlock,
}
use nextcloud_go.Files.Lock.View.{in_force, live, SameLive, SameLive-delete, live-delete}
use nextcloud_go.Files.Lock.Exclusion.{
  IsTarget, lock_at_excluded, lock_at-Granted, lock_at-none, lock_at_live, lock_at_expired,
}

-- The row of a path that GetByPath answers
get_by_path-eq_ok :
    (t : LockTable) (uid : ℕ) (p : Bytes) (l : FileLock)
    → get_by_path t uid p ≡ ok l
    → (np : Bytes) × (select uid np t.rows ≡ some l)
unfolding get_by_path
get_by_path-eq_ok t uid p l h = elim (Bool-cases (uid == 0)) [
  | inl z ↦ absurd (ground (arith, z, h))
  | inr z ↦ elim (Option-cases (normalize_path p)) [
    | inl n ↦ absurd (ground (arith, z, n, h))
    | inr (np, n) ↦ elim (Option-cases (select uid np t.rows)) [
      | inl s ↦ absurd (ground (arith, z, n, s, h))
      | inr (m, s) ↦ (np, ground (arith, z, n, s, h))
    ]
  ]
]

-- The table keeps its constraints, and its locks in force at a time.
record Purged (now : ℕ) (t t' : LockTable) : Type 0 where
  same : SameLive now t t'
  table : IsTable t'

Purged-refl : (now : ℕ) (t : LockTable) → IsTable t → Purged now t t
Purged-refl now t h = record { same = λ u p. refl; table = h }

Purged-trans :
    (now : ℕ) (t t1 t2 : LockTable) → Purged now t t1 → Purged now t1 t2 → Purged now t t2
Purged-trans now t t1 t2 a b = record { same = λ u p. b.same u p ∙ a.same u p; table = b.table }

module _ (now_stat now : ℕ) (early : now_stat ≤ now) where
  -- What was expired for Stat is expired for the operation behind it.
  expired_later : (l : FileLock) → in_force now_stat l ≡ false → in_force now l ≡ false
  expired_later l h = ground (arith, early)

  Purged-expire_lock :
      (t : LockTable) (uid : ℕ) (p : Bytes) (l : FileLock)
      → IsTable t
      → select uid p t.rows ≡ some l
      → Purged now t (expire_lock t l now_stat).0
  unfolding expire_lock
  Purged-expire_lock t uid p l h s = elim (Bool-cases (in_force now_stat l)) [
    | inl f ↦ rw f (Purged-refl now t h)
    | inr f ↦ rw f (record {
      same = SameLive-delete now t uid p l h s (expired_later l f);
      table = delete-IsTable t l.id h;
    })
  ]

  Purged-live_or_next :
      (t : LockTable) (uid : ℕ) (p : Bytes)
      → IsTable t
      → Purged now t (live_or_next t (get_by_path t uid p) now_stat).0
  Purged-live_or_next t uid p h = elim (Result-cases (get_by_path t uid p)) [
    | inl (e, r) ↦ rw r (Purged-refl now t h)
    | inr (l, r) ↦
        let (np, s) = get_by_path-eq_ok t uid p l r in
        let purged = Purged-expire_lock t uid np l h s in
        elim (Bool-cases (expire_lock t l now_stat).1) [
          | inl x ↦ rw (r, x) purged
          | inr x ↦ rw (r, x) purged
        ]
  ]

  Purged-apply_lock :
      (fuel uid : ℕ) (cur : Bytes) (t : LockTable)
      → IsTable t
      → Purged now t (apply_lock fuel now_stat uid cur t).0
  unfolding apply_lock
  Purged-apply_lock zero uid cur t h = Purged-refl now t h
  Purged-apply_lock (suc fuel) uid cur t h =
      let o = live_or_next t (get_by_path t uid cur) now_stat in
      go o.0 o.1 (cur =? (b'/' ∷ [])) (Purged-live_or_next t uid cur h)
        (Purged-apply_lock fuel uid (parent_file_path cur))
    where
      go :
          (t' : LockTable) (l : Option FileLock) (top : Bool)
          → Purged now t t'
          → ((t1 : LockTable)
              → IsTable t1
              → Purged now t1 (apply_lock fuel now_stat uid (parent_file_path cur) t1).0)
          → (let r : LockTable × Option FileLock = elim l [
            | some l ↦ (t', some l)
            | none ↦ elim top [
              | true ↦ (t', none)
              | false ↦ apply_lock fuel now_stat uid (parent_file_path cur) t'
            ]
          ] in
              Purged now t r.0)
      go t' (some l) top s rec = s
      go t' none true s rec = s
      go t' none false s rec =
          Purged-trans now t t' (apply_lock fuel now_stat uid (parent_file_path cur) t').0 s
            (rec t' s.table)

  Purged-stat :
      (env : Services) (uid : ℕ) (np : Bytes) (t : LockTable)
      → IsTable t
      → Purged now t (stat env now_stat uid np t).0
  unfolding stat
  Purged-stat env uid np t h = go (env.file_at uid np)
    where
      go :
          (r : Result FileError (Unit {0}))
          → (let s : LockTable × Result Error (Unit {0}) = elim r [
            | err e ↦ (t, err (map_meta e))
            | ok u ↦ ((apply_lock (suc (length np)) now_stat uid np t).0, ok tt)
          ] in
              Purged now t s.0)
      go (err e) = Purged-refl now t h
      go (ok u) = Purged-apply_lock (suc (length np)) uid np t h

  -- A lock that the operation keeps behind the tests, it keeps with them.
  module _ {A : Type 0} (act : ℕ → Bytes → LockTable → LockTable × Result Error A) (u : ℕ)
      (q : Bytes) (l : FileLock)
      (keeps : (uid : ℕ) (np : Bytes) (t : LockTable)
        → normalize_path np ≡ some np
        → IsTable t
        → live now t u q ≡ some l
        → live now (act uid np t).0 u q ≡ some l) where
    with_stat-keeps :
        (t : LockTable) (uid : ℕ) (np : Bytes) (o : LockTable × Result Error (Unit {0}))
        → normalize_path np ≡ some np
        → Purged now t o.0
        → live now t u q ≡ some l
        → live now (with_stat act uid np o).0 u q ≡ some l
    with_stat-keeps t uid np (t1, err e) n purged h = purged.same u q ∙ h
    with_stat-keeps t uid np (t1, ok x) n purged h =
        keeps uid np t1 n purged.table (purged.same u q ∙ h)

    with_path-keeps :
        (env : Services) (t : LockTable) (uid : ℕ) (p : Bytes) (o : Option Bytes)
        → normalize_path p ≡ o
        → IsTable t
        → live now t u q ≡ some l
        → live now (with_path act env now_stat t uid o).0 u q ≡ some l
    with_path-keeps env t uid p none n table h = h
    with_path-keeps env t uid p (some np) n table h =
        with_stat-keeps t uid np (stat env now_stat uid np t) (normalize_path_idem p np n)
          (Purged-stat env uid np t table) h

    with_user-keeps :
        (env : Services) (p : Bytes) (t : LockTable) (r : Result Error ℕ)
        → IsTable t
        → live now t u q ≡ some l
        → live now (with_user act env now_stat p t r).0 u q ≡ some l
    with_user-keeps env p t (err e) table h = h
    with_user-keeps env p t (ok uid) table h =
        with_path-keeps env t uid p (normalize_path p) refl table h

    on_own_file-keeps :
        (env : Services) (user p : Bytes) (t : LockTable)
        → IsTable t
        → live now t u q ≡ some l
        → live now (on_own_file act env now_stat user p t).0 u q ≡ some l
    unfolding on_own_file
    on_own_file-keeps env user p t table h = go env.has_locks
      where
        go :
            (b : Bool)
            → live now
                (if not b
                  then (t, err Error.forbidden)
                  else with_user act env now_stat p t (resolve_user env user)).0
                u
                q
              ≡ some l
        go false = h
        go true = with_user-keeps env p t (resolve_user env user) table h

insert-err :
    (t : LockTable) (l : FileLock) (e : FileError) → (insert t l).1 ≡ err e → (insert t l).0 ≡ t
unfolding insert add
insert-err t l e h = elim (Option-cases (normalize_path l.path)) [
  | inl n ↦ ground (arith, n, h)
  | inr (np, n) ↦ ground (arith, n, h)
]

inserted-err :
    (now : ℕ) (req : LockRequest) (t : LockTable) (o : LockTable × Result FileError FileLock)
    (e : Error)
    → ((x : FileError) → o.1 ≡ err x → o.0 ≡ t)
    → (inserted now req o).1 ≡ err e
    → (inserted now req o).0 ≡ t
inserted-err now req t (t1, err FileError.exists) e k h = k FileError.exists refl
inserted-err now req t (t1, err x) e k h = k x refl
inserted-err now req t (t1, ok row) e k h = cc

fresh-err :
    (now : ℕ) (new_token : Result Error Bytes) (uid : ℕ) (np : Bytes) (req : LockRequest)
    (t : LockTable) (e : Error)
    → (fresh now new_token uid np req t).1 ≡ err e
    → (fresh now new_token uid np req t).0 ≡ t
unfolding fresh
fresh-err now (err x) uid np req t e h = ground arith
fresh-err now (ok token) uid np req t e h =
    let row = new_row now uid np req token in
    let o = insert t row in
    elim (Bool-cases req.refresh) [
      | inl r ↦ rw r refl
      | inr r ↦ rw r (inserted-err now req t o e (insert-err t row) (rw r at h))
    ]

held-err :
    (now : ℕ) (req : LockRequest) (l : FileLock) (t : LockTable) (e : Error)
    → (held now req l t).1 ≡ err e
    → (held now req l t).0 ≡ t
unfolding held update_timeout
held-err now req l t e h = ground arith

-- A table where nothing came of the operation, or another path got a lock
abbrev Elsewhere : ℕ → ℕ → Bytes → LockTable → LockTable → Type 0
Elsewhere now uid np t t' =
    (u : ℕ) (p : Bytes) → (uid == u && np =? p) ≡ false → live now t' u p ≡ live now t u p

module _ (now : ℕ) (new_token : Result Error Bytes) (uid : ℕ) (np : Bytes) (req : LockRequest)
    (t : LockTable) (table : IsTable t) where
  lock_at-Elsewhere :
      IsTarget uid np → Elsewhere now uid np t (lock_at now new_token uid np req t).0
  lock_at-Elsewhere target u p ne =
      let o = lock_at now new_token uid np req t in
      let look : LockTable → Option FileLock = λ t'. live now t' u p in
      elim (Result-cases o.1) [
        | inr (info, r) ↦
            (lock_at-Granted now new_token uid np req t o.0 info table target
                (ap (λ x. (o.0, x)) r)).others
              u p ne
        | inl (e, r) ↦ elim (Option-cases (select uid np t.rows)) [
          | inl n ↦
              let same = lock_at-none now new_token uid np req t target n in
              rw same (ap look (fresh-err now new_token uid np req t e (rw same at r)))
          | inr (l, s) ↦ elim (Bool-cases (in_force now l)) [
            | inl f ↦
                let same = lock_at_live now new_token uid np req t target l s f in
                rw same (ap look (held-err now req l t e (rw same at r)))
            | inr f ↦
                let same = lock_at_expired now new_token uid np req t target l s f in
                let kept = fresh-err now new_token uid np req (delete t l.id) e (rw same at r) in
                rw same (ap look kept ∙ SameLive-delete now t uid np l table s f u p)
          ]
        ]
      ]

  -- For the user id that no user has, GetByPath finds nothing and Insert refuses.
  lock_at_nobody : (uid == 0) ≡ true → (lock_at now new_token uid np req t).0 ≡ t
  unfolding lock_at fresh get_by_path insert
  lock_at_nobody z = elim (Result-cases new_token) [
    | inl (e, n) ↦ rw (z, n) (ground arith)
    | inr (token, n) ↦ rw (z, n) (ground (arith, z))
  ]

  lock_at-keeps :
      (u : ℕ) (q : Bytes) (l : FileLock)
      → lock_header_has_token req.token l.token ≡ false
      → normalize_path np ≡ some np
      → live now t u q ≡ some l
      → live now (lock_at now new_token uid np req t).0 u q ≡ some l
  lock_at-keeps u q l lacks n h = elim (Bool-cases (uid == 0)) [
    | inl z ↦ rw (lock_at_nobody z) h
    | inr z ↦ elim (Bool-cases (uid == u && np =? q)) [
      | inr ne ↦ lock_at-Elsewhere (z, n) u q ne ∙ h
      | inl eq ↦
          let here : live now t uid np ≡ some l =
            let who : uid ≡ u = ground (arith, eq) in
            let where_to : np ≡ q = (bytes_eq_iff np q).0 (ground (arith, eq)) in
            rw (who, where_to) h in
          rw (lock_at_excluded now new_token uid np req t l (z, n) here lacks) h
    ]
  ]

module _ (now : ℕ) (uid : ℕ) (np token : Bytes) (t : LockTable) (table : IsTable t) where
  other_lock :
      (u : ℕ) (q : Bytes) (l m : FileLock)
      → token_matches l.token token ≡ false
      → live now t u q ≡ some l
      → select u q t.rows ≡ some m
      → in_force now m ≡ true
      → token_matches m.token token ≡ true
      → ⊥
  unfolding live
  other_lock u q l m lacks h s f matches =
      let same : m ≡ l = ground (arith, s, f, h) in
      let ours : token_matches l.token token ≡ true =
        subst (λ (x : FileLock). token_matches x.token token ≡ true) same matches in
      ground (arith, lacks, ours)

  unlock_held-keeps :
      (u : ℕ) (q : Bytes) (l m : FileLock) (path : Bytes)
      → token_matches l.token token ≡ false
      → live now t u q ≡ some l
      → select uid path t.rows ≡ some m
      → in_force now m ≡ true
      → token_matches m.token token ≡ true
      → live now (delete t m.id) u q ≡ some l
  unlock_held-keeps u q l m path lacks h s f matches =
      live-delete now t uid path m u q table s ∙ elim (Bool-cases (uid == u && path =? q)) [
        | inr ne ↦ rw ne h
        | inl eq ↦
            let who : uid ≡ u = ground (arith, eq) in
            let at : path ≡ q = (bytes_eq_iff path q).0 (ground (arith, eq)) in
            let there : select u q t.rows ≡ some m = rw⁻¹ (who, at) s in
            absurd (other_lock u q l m lacks h there f matches)
      ]

  unlock_found-keeps :
      (u : ℕ) (q : Bytes) (l : FileLock)
      → token_matches l.token token ≡ false
      → live now t u q ≡ some l
      → (r : Result FileError FileLock) → get_by_path t uid np ≡ r
      → live now (unlock_found now token t r).0 u q ≡ some l
  unfolding expire_lock
  unlock_found-keeps u q l lacks h (err FileError.not_found) r = h
  unlock_found-keeps u q l lacks h (err e) r = h
  unlock_found-keeps u q l lacks h (ok m) r =
      let (path, s) = get_by_path-eq_ok t uid np m r in
      elim (Bool-cases (in_force now m)) [
        | inr f ↦ rw f (SameLive-delete now t uid path m table s f u q ∙ h)
        | inl f ↦ elim (Bool-cases (token_matches m.token token)) [
          | inr k ↦ rw (f, k) h
          | inl k ↦ rw (f, k) (unlock_held-keeps u q l m path lacks h s f k)
        ]
      ]

  unlock_at-keeps :
      (u : ℕ) (q : Bytes) (l : FileLock)
      → token_matches l.token token ≡ false
      → normalize_path np ≡ some np
      → live now t u q ≡ some l
      → live now (unlock_at now token uid np t).0 u q ≡ some l
  unfolding unlock_at
  unlock_at-keeps u q l lacks n h = elim (Bool-cases (token =? [])) [
    | inl e ↦ rw e h
    | inr e ↦ rw e (unlock_found-keeps u q l lacks h (get_by_path t uid np) refl)
  ]

-- On a table that meets its constraints, a lock in force on any path outlasts, with its token and
-- expiry, each Lock whose header does not have its token and each Unlock under another token, whatever
-- user and path they name and whatever they answer, with what their Stat and they drop of expired
-- locks; the clock may go on between the two.
pub foreign_lock_kept :
    (env : Services) (now_stat now : ℕ) (new_token : Result Error Bytes) (user p : Bytes)
    (req : LockRequest) (unlock_token : Bytes) (t : LockTable) (u : ℕ) (q : Bytes) (l : FileLock)
    → now_stat ≤ now
    → IsTable t
    → live now t u q ≡ some l
    → lock_header_has_token req.token l.token ≡ false
    → token_matches l.token (strip_lock_token unlock_token) ≡ false
    → (live now (lock env now_stat now new_token user p req t).0 u q ≡ some l)
      × (live now (unlock env now_stat now user p unlock_token t).0 u q ≡ some l)
unfolding lock unlock
foreign_lock_kept env now_stat now new_token user p req unlock_token t u q l early table h lacks
      other =
    (
      on_own_file-keeps now_stat now early (λ uid np t'. lock_at now new_token uid np req t') u q l
          (λ uid np t' n table' h'.
            lock_at-keeps now new_token uid np req t' table' u q l lacks n h')
          env user p t table h,
      on_own_file-keeps now_stat now early
          (λ uid np t'. unlock_at now (strip_lock_token unlock_token) uid np t') u q l
          (λ uid np t' n table' h'.
            unlock_at-keeps now uid np (strip_lock_token unlock_token) t' table' u q l other n h')
          env user p t table h,
    )
