-- ===== src/Tests/Sharing.antt =====
-- A server with two users, a hasher and a notification sink, and what the service does with a link,
-- a federated share and the folders of a rename.
use nextcloud_go.Prelude.{
  ℕ, true, false, ◌&&◌, ◌||◌, none, some, [], ◌∷◌, Bytes, text, ◌≡◌, refl, ap, subst, ◌↔◌, inl,
  ◌==◌, ◌=?◌, bytes_equality, bytes_eq, beq_refl, nat_equality, if◌then◌else◌, keep, map, any, all,
  contains, arith, pos, negsuc,
}
use nextcloud_go.Text.{has_prefix, trim_right, trim_left, trim_space, split, join}
use nextcloud_go.Text.Like.{NoWildcard, sqlite, at_or_below, resettled}
use nextcloud_go.Errors.{Result, ok, err}
use nextcloud_go.Files.Path.{
  normalize_path, valid_utf8, slashes, rooted, untrailed, by_segments, rejoin, good_segment,
}
use nextcloud_go.Sharing.ExpireDate.{
  parse_expire_date, parse_date, parse_date_time, parse_day, parse_clock, get_num, get_year,
  fraction, span_digits, days_in, days_of_months, leap, unix_milli,
}
use nextcloud_go.Sharing.Store.{
  ShareError, Share, first_row, get_by_token, add_row, insert, list_expired, of_owner,
  share_type_remote,
}
use nextcloud_go.Sharing.Store.Rows.{has_id}
use nextcloud_go.Sharing.Store.Valid.{IsShare, IsTable}
use nextcloud_go.Sharing.Service.{
  User, PasswordHasher, Services, State, CreateRequest, owner_of, good_sharee, hash_password,
  valid_share_perms, prepare, announce, create,
}
use nextcloud_go.Sharing.Access.{update_share, delete_share, list_for_owner}
use nextcloud_go.Sharing.Public.{is_link, resolve_public, resolve_public_dav, sweep}
use nextcloud_go.Sharing.Live.{live, CanOpen, resolve_public-CanOpen}
use nextcloud_go.Sharing.Live.Lists.{dismisses, deletes_share, list_for_owner-live, sweep-live}
use nextcloud_go.Sharing.Invariant.Steps.{Step, Steps, IsTable-Steps}
use nextcloud_go.Sharing.Contract.{Verifies, resolve_public-create}
use nextcloud_go.Sharing.Ownership.{
  foreign_share_kept, only_password, resolve_public_dav-update_share,
}
use nextcloud_go.Sharing.Subtree.{rename_path, with_path}
use nextcloud_go.Sharing.Subtree.Exact.{rename_path-at_or_below, rename_path_wildcard}

end_of_january : parse_expire_date (text "2026-01-31") ≡ some (pos 1769903999000)
unfolding parse_expire_date parse_date parse_date_time parse_day parse_clock get_num get_year
    fraction span_digits days_in days_of_months leap unix_milli trim_space trim_left trim_right
end_of_january = refl

with_clock : parse_expire_date (text " 2026-01-31 23:59:59.5 ") ≡ some (pos 1769903999500)
unfolding parse_expire_date parse_date parse_date_time parse_day parse_clock get_num get_year
    fraction span_digits days_in days_of_months leap unix_milli trim_space trim_left trim_right
with_clock = refl

no_leap_day : parse_expire_date (text "2026-02-29") ≡ none
unfolding parse_expire_date parse_date parse_date_time parse_day parse_clock get_num get_year
    fraction span_digits days_in days_of_months leap unix_milli trim_space trim_left trim_right
no_leap_day = refl

before_epoch : parse_expire_date (text "1969-12-31") ≡ some (negsuc 999)
unfolding parse_expire_date parse_date parse_date_time parse_day parse_clock get_num get_year
    fraction span_digits days_in days_of_months leap unix_milli trim_space trim_left trim_right
before_epoch = refl

abbrev alice : User
alice = record { id = 1; uid = text "alice"; display_name = [] }

abbrev bob : User
bob = record { id = 2; uid = text "bob"; display_name = text "Bob" }

abbrev by_uid : Bytes → Result ShareError User
by_uid uid =
    if uid =? text "alice"
    then ok alice
    else if uid =? text "bob"
    then ok bob
    else err ShareError.user_not_found

abbrev by_id : ℕ → Result ShareError User
by_id id = if id == 1 then ok alice else if id == 2 then ok bob else err ShareError.user_not_found

abbrev plain_hasher : PasswordHasher
plain_hasher = record { hash = λ p. some (104 ∷ p); verify = λ h p. some (h =? (104 ∷ p)) }

abbrev server : Services
server = record {
  user_by_uid = by_uid;
  user_by_id = by_id;
  has_group = λ g. false;
  groups_of = λ u. ok [];
  stat = λ u p. ok true;
  hasher = some plain_hasher;
  has_ocm = false;
  discover = λ o. false;
  notify_outgoing = λ n. false;
  has_notifs = true;
  has_keys = false;
  name_codec = none;
  url_host = λ u. none;
}

verified_own :
    (password hash : Bytes)
    → some (104 ∷ password) ≡ some hash
    → some (hash =? (104 ∷ password)) ≡ some true
verified_own password hash m =
    let same : 104 ∷ password ≡ hash = cc in
    subst (λ z. some (z =? (104 ∷ password)) ≡ some true) same (rw (beq_refl (104 ∷ password)) refl)

server-Verifies : Verifies server
server-Verifies h e password hash made =
    let same : plain_hasher ≡ h = cc in
    subst (λ (x : PasswordHasher). x.hash password ≡ some hash → x.verify hash password ≡ some true)
      same (verified_own password hash) made

abbrev request : CreateRequest
request = record {
  uid = text "alice";
  path = text "/docs";
  share_type = 3;
  permissions = 0;
  share_with = [];
  password = text "pw";
  expire_date = text "2026-01-31";
  label = [];
  origin = [];
}

abbrev empty : State
empty = record { table = record { rows = []; next_id = 1 }; calls = [] }

abbrev link : Share
link = record {
  id = 1;
  owner_user_id = 1;
  share_type = 3;
  path = text "/docs";
  item_type = text "folder";
  token = text "tok";
  password_hash = text "hpw";
  permissions = 1;
  label = [];
  expire_ms = pos 1769903999000;
  stime_ms = 5;
  share_with = [];
  accepted = 1;
  mount_name_enc = [];
  abs_path_enc = [];
}

abbrev with_link : State
with_link = record { table = record { rows = link ∷ []; next_id = 2 }; calls = [] }

link_made : create server 5 (ok (text "tok")) request empty ≡ (with_link, ok link)
unfolding create prepare owner_of good_sharee hash_password announce insert add_row get_by_token
    first_row any valid_share_perms bytes_eq normalize_path valid_utf8 slashes rooted untrailed
    by_segments rejoin contains all split join has_prefix trim_right good_segment parse_expire_date
    parse_date parse_date_time parse_day parse_clock get_num get_year fraction span_digits days_in
    days_of_months leap unix_milli trim_space trim_left
link_made = refl

folder_valid : valid_share_perms (text "folder") 1 ≡ true
unfolding valid_share_perms bytes_eq
folder_valid = refl

tok_there : (text "tok" =? []) ≡ false
unfolding bytes_eq
tok_there = refl

link-IsShare : IsShare 2 link
link-IsShare = record {
  id_given = omega arith;
  id_old = omega arith;
  has_owner = refl;
  has_token = tok_there;
  permissions_valid = folder_valid;
}

with_link-IsTable : IsTable with_link.table
with_link-IsTable = record {
  next_given = omega arith;
  shares = (link-IsShare, tt);
  unique = (tt, tt);
}

empty-IsTable : IsTable empty.table
empty-IsTable = record { next_given = omega arith; shares = tt; unique = tt }

resolve_public-CanOpen_example :
    (((resolve_public server 10 (text "tok") (text "pw") with_link).1 ≡ ok (link, alice))
      ↔ CanOpen server 10 is_link (text "tok") (text "pw") with_link link alice)
    × (live 10 (resolve_public server 10 (text "tok") (text "pw") with_link).0 ≡ live 10 with_link)
resolve_public-CanOpen_example =
    resolve_public-CanOpen server 10 (text "tok") (text "pw") with_link link alice (tt, tt)

alice_there : server.user_by_uid (text "alice") ≡ ok alice
unfolding bytes_eq
alice_there = refl

list_for_owner-live_example :
    ((list_for_owner server 10 (text "alice") [] with_link).1
      ≡ ok (keep (of_owner 1 []) (live 10 with_link)))
    × (live 10 (list_for_owner server 10 (text "alice") [] with_link).0 ≡ live 10 with_link)
list_for_owner-live_example =
    list_for_owner-live server 10 (text "alice") [] [] alice with_link (tt, tt) refl alice_there
      refl (inl (refl, refl))

sweep-live_example :
    (live 1769903999000 (sweep server 1769903999000 with_link) ≡ live 1769903999000 with_link)
    × ((id : ℕ)
        → deletes_share server 1769903999000 with_link id
          ≡ contains (map (λ r. r.id) (list_expired with_link.table 1769903999000)) id)
    × ((id : ℕ)
        → dismisses id (sweep server 1769903999000 with_link).calls
          ≡ deletes_share server 1769903999000 with_link id || dismisses id with_link.calls)
sweep-live_example = sweep-live server 1769903999000 with_link refl (tt, tt)

IsTable-Steps_example :
    IsTable (sweep server 9 (create server 5 (ok (text "tok")) request empty).0).table
IsTable-Steps_example =
    IsTable-Steps server empty (sweep server 9 (create server 5 (ok (text "tok")) request empty).0)
      (Steps.next (Steps.next Steps.here (Step.creates 5 (ok (text "tok")) request empty))
        (Step.sweeps 9 _))
      empty-IsTable

resolve_public-create_example :
    (resolve_public server 10
      (text "tok")
      (text "pw")
      (create server 5 (ok (text "tok")) request empty).0).1
    ≡ ok (link, alice)
resolve_public-create_example =
    resolve_public-create server 5 10 (ok (text "tok")) request empty link alice empty-IsTable
      server-Verifies refl (ap (λ x. x.1) link_made) refl refl

bob_there : owner_of server (text "bob") ≡ ok bob
unfolding owner_of bytes_eq
bob_there = refl

alice_owner : owner_of server (text "alice") ≡ ok alice
unfolding owner_of bytes_eq
alice_owner = refl

link_row : first_row (has_id 1) with_link.table.rows ≡ some link
unfolding first_row
link_row = refl

foreign_share_kept_example :
    ((update_share server 10 (text "bob") 1 (only_password []) with_link).1
      ≡ err ShareError.not_found)
    × ((delete_share server 10 (text "bob") 1 with_link).1 ≡ err ShareError.not_found)
    × (live 10 (update_share server 10 (text "bob") 1 (only_password []) with_link).0
        ≡ live 10 with_link)
    × (live 10 (delete_share server 10 (text "bob") 1 with_link).0 ≡ live 10 with_link)
foreign_share_kept_example =
    foreign_share_kept server 10 (text "bob") bob 1 (only_password []) with_link link bob_there refl
      (tt, tt) link_row refl

abbrev federated : Share
federated = record link {
  share_type = share_type_remote;
  share_with = text "carol@cloud.example";
  password_hash = [];
}

abbrev with_federated : State
with_federated = record { table = record { rows = federated ∷ []; next_id = 2 }; calls = [] }

federated_row : first_row (has_id 1) with_federated.table.rows ≡ some federated
unfolding first_row
federated_row = refl

pw_given : (text "pw" =? []) ≡ false
unfolding bytes_eq
pw_given = refl

hpw_given : (text "hpw" =? []) ≡ false
unfolding bytes_eq
hpw_given = refl

empty_wrong : plain_hasher.verify (text "hpw") [] ≡ some false
unfolding bytes_eq
empty_wrong = refl

-- The remote server sends the empty password.
resolve_public_dav-update_share_example :
    (resolve_public_dav server 10
      (text "tok")
      []
      (update_share server 6 (text "alice") 1 (only_password (text "pw")) with_federated).0).1
    ≡ err ShareError.unauthorized
resolve_public_dav-update_share_example =
    resolve_public_dav-update_share server 6 10 (text "alice") (text "pw") [] (text "hpw") alice 1
      with_federated federated plain_hasher (tt, tt) alice_owner refl refl federated_row tok_there
      refl refl refl refl refl pw_given refl hpw_given empty_wrong

docs_normal : normalize_path (text "/docs") ≡ some (text "/docs")
unfolding normalize_path valid_utf8 slashes rooted untrailed by_segments rejoin contains all split
    join has_prefix trim_right good_segment bytes_eq
docs_normal = refl

new_normal : normalize_path (text "/new") ≡ some (text "/new")
unfolding normalize_path valid_utf8 slashes rooted untrailed by_segments rejoin contains all split
    join has_prefix trim_right good_segment bytes_eq
new_normal = refl

docs_below : (text "/docs" =? text "/") ≡ false
unfolding bytes_eq
docs_below = refl

docs-NoWildcard : NoWildcard (text "/docs")
docs-NoWildcard = ((refl, refl), ((refl, refl), ((refl, refl), ((refl, refl), ((refl, refl), tt)))))

rename_path-at_or_below_example :
    (rename_path sqlite with_link.table 1 (text "/docs") (text "/new")).0.rows
    ≡ map
        (λ r.
          if r.owner_user_id == 1 && at_or_below sqlite (text "/docs") r.path
          then with_path (resettled (text "/docs") (text "/new") r.path) r
          else r)
        with_link.table.rows
rename_path-at_or_below_example =
    rename_path-at_or_below sqlite with_link.table 1 (text "/docs") (text "/new") (text "/docs")
      (text "/new") (tt, tt) docs_normal new_normal docs_below docs-NoWildcard

abbrev elsewhere : Share
elsewhere = record link { path = text "/axb/c" }

rename_path_wildcard_example :
    (rename_path sqlite
      (record { rows = elsewhere ∷ []; next_id = 2 })
      1
      (text "/a_b")
      (text "/new")).0.rows
    ≡ with_path (text "/new/axb/c") elsewhere ∷ []
rename_path_wildcard_example =
    rename_path_wildcard sqlite 1 b'x' 2 elsewhere (text "/new") refl refl refl new_normal
