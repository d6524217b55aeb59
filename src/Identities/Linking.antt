-- ===== src/Identities/Linking.antt =====
-- Linking GitHub accounts: a reachable directory has at most one wallet for each account.
use meterkit.Prelude.{
  String, ◌≡◌, refl, true, false, not, ◌&&◌, some, List, [], ◌∷◌, ◌==◌, ◌=/=◌, eq_iff, any, find,
  modify_where, modify_where-absent, map-modify_where, any-mem, same_row, and_then-some, find-mem,
  mem, Distinct, ◌⊎◌, arith, Bool-cases, inl, inr, ok, err, Result, Result-cases, reject_if-ok,
  bind-ok, or-false, leb,
}
use meterkit.Identities.{
  UserWallet, GitHubIdentity, LinkedIdentity, Directory, IdentityError, unique_violation,
  github_identity_invalid, write_identity, is_identity, get_github_identity, ensure_user_for_wallet,
  create_oauth_link_state, is_subject_taken, upsert_identity, link_github_identity, rethrow,
  clean_link_states, TableCall, create_state, consume_state, link_identity, clean_up, call, run,
}
use meterkit.Identities.Keeping.{
  subjects, linked_users, IsDirectory, empty, ensure_user-IsDirectory, identities-IsDirectory,
  create-IsDirectory, consume-IsDirectory, filter-IsDirectory,
}

abbrev pub with_identity : GitHubIdentity → LinkedIdentity → LinkedIdentity
with_identity identity r = record r { identity = identity }

abbrev pub relinked : String → GitHubIdentity → List LinkedIdentity → List LinkedIdentity
relinked user identity rows = modify_where (λ r. r.user_id == user) (with_identity identity) rows

-- A subject that no other user has is in no row of the others.
free_subject :
    (user subject : String) (rows : List LinkedIdentity)
    → any (λ r. r.identity.subject == subject && r.user_id =/= user) rows ≡ false
    → mem user (linked_users rows) ≡ false
    → mem subject (subjects rows) ≡ false
free_subject user subject [] h m = refl
free_subject user subject (r ∷ rows) h m = ground (
  arith,
  eq_iff subject r.identity.subject,
  eq_iff r.identity.subject subject,
  eq_iff r.user_id user,
  eq_iff user r.user_id,
  free_subject user subject rows,
)

mem-relinked :
    (k user : String) (identity : GitHubIdentity) (rows : List LinkedIdentity)
    → (k == identity.subject) ≡ false
    → mem k (subjects rows) ≡ false
    → mem k (subjects (relinked user identity rows)) ≡ false
mem-relinked k user identity [] ne h = refl
mem-relinked k user identity (r ∷ rows) ne h = ground (arith, mem-relinked k user identity rows ne)

Distinct-relinked :
    (user : String) (identity : GitHubIdentity) (rows : List LinkedIdentity)
    → is_subject_taken user identity rows ≡ false
    → Distinct (linked_users rows)
    → Distinct (subjects rows)
    → Distinct (subjects (relinked user identity rows))
unfolding is_subject_taken
Distinct-relinked user identity [] free u d = tt
Distinct-relinked user identity (r ∷ rows) free u d =
    let (head, rest) =
      or-false {a = r.identity.subject == identity.subject && r.user_id =/= user} free in
    elim (Bool-cases (r.user_id == user)) [
      | inl e ↦
          let absent : mem user (linked_users rows) ≡ false =
            rw ((eq_iff r.user_id user).0 e) at (u.0) in
          rw (e, modify_where-absent (λ x. x.user_id) user (with_identity identity) rows absent)
            (free_subject user identity.subject rows rest absent, d.1)
      | inr e ↦ rw e (
        mem-relinked r.identity.subject user identity rows (ground (arith, e, head)) d.0,
        Distinct-relinked user identity rows rest u.1 d.1,
      )
    ]

-- What a row is written to, and what it leaves.
pub upsert-cases :
    (user : String) (identity : GitHubIdentity) (rows rows' : List LinkedIdentity)
    → upsert_identity user identity rows ≡ ok rows'
    → (is_subject_taken user identity rows ≡ false)
      × (((mem user (linked_users rows) ≡ true) × (rows' ≡ relinked user identity rows))
          ⊎ ((mem user (linked_users rows) ≡ false)
              × (rows' ≡ record { user_id = user; identity = identity } ∷ rows)))
unfolding upsert_identity
upsert-cases user identity rows rows' h =
    let (free, h1) = reject_if-ok (is_subject_taken user identity rows) unique_violation h in
    (
      free,
      elim (Bool-cases (any (λ r. r.user_id == user) rows)) [
        | inl e ↦ inl (rw (any-mem (λ r. r.user_id) user rows) at e, cc (rw e at h1))
        | inr e ↦ inr (rw (any-mem (λ r. r.user_id) user rows) at e, cc (rw e at h1))
      ],
    )

rethrow-ok : (r : Result IdentityError Directory) {db : Directory} → rethrow r ≡ ok db → r ≡ ok db
rethrow-ok (ok a) h = h
rethrow-ok (err e) h = cc

-- What a link that succeeds has passed.
pub link-cases :
    (fresh owner : String) (identity : GitHubIdentity) (db db' : Directory)
    → link_github_identity fresh owner identity db ≡ ok db'
    → (between : Directory) × (user : String) × (rows : List LinkedIdentity)
      × (ensure_user_for_wallet fresh owner db ≡ ok (between, user))
      × (upsert_identity user identity between.linked_identities ≡ ok rows)
      × (db' ≡ record between { linked_identities = rows })
unfolding link_github_identity write_identity
link-cases fresh owner identity db db' h =
    let (_, h1) = reject_if-ok (not (is_identity identity)) github_identity_invalid h in
    let (user, e, h2) =
      bind-ok (ensure_user_for_wallet fresh owner db)
        (rethrow-ok (write_identity fresh owner identity db) h1) in
    let (rows, f, h3) = bind-ok (upsert_identity user.1 identity user.0.linked_identities) h2 in
    (user.0, user.1, rows, e, f, cc)

upsert-Distinct :
    (user : String) (identity : GitHubIdentity) (rows rows' : List LinkedIdentity)
    → upsert_identity user identity rows ≡ ok rows'
    → Distinct (linked_users rows)
    → Distinct (subjects rows)
    → Distinct (linked_users rows') × Distinct (subjects rows')
unfolding is_subject_taken
upsert-Distinct user identity rows rows' h u d =
    let (free, written) = upsert-cases user identity rows rows' h in
    elim written [
      | inl (e, same) ↦
          rw
            (
              same,
              map-modify_where (λ r. r.user_id) (λ r. r.user_id == user) (with_identity identity)
                  rows (λ r. refl),
            )
            (u, Distinct-relinked user identity rows free u d)
      | inr (e, same) ↦ rw same ((e, u), (free_subject user identity.subject rows free e, d))
    ]

link-IsDirectory :
    (fresh owner : String) (identity : GitHubIdentity) (db db' : Directory)
    → IsDirectory db
    → link_github_identity fresh owner identity db ≡ ok db'
    → IsDirectory db'
link-IsDirectory fresh owner identity db db' d h =
    let (between, user, rows, e, f, same) = link-cases fresh owner identity db db' h in
    let b = ensure_user-IsDirectory fresh owner db between user d e in
    let (u, s) =
      upsert-Distinct user identity between.linked_identities rows f b.linked_distinct
        b.subjects_distinct in
    rw same (identities-IsDirectory rows between s u b)

pub call-IsDirectory : (c : TableCall) (db : Directory) → IsDirectory db → IsDirectory (call c db)
unfolding call clean_link_states
call-IsDirectory (create_state now db_now fresh owner hash expires_at) db d =
    elim (Result-cases (create_oauth_link_state now db_now fresh owner hash expires_at db)) [
      | inl (db', e) ↦ rw e (create-IsDirectory now db_now fresh owner hash expires_at db db' d e)
      | inr (e, f) ↦ rw f d
    ]
call-IsDirectory (consume_state now hash) db d = consume-IsDirectory now hash db d
call-IsDirectory (link_identity fresh owner identity) db d =
    elim (Result-cases (link_github_identity fresh owner identity db)) [
      | inl (db', e) ↦ rw e (link-IsDirectory fresh owner identity db db' d e)
      | inr (e, f) ↦ rw f d
    ]
call-IsDirectory (clean_up now) db d = filter-IsDirectory (λ s. not (leb s.expires_at now)) db d

pub run-IsDirectory :
    (cs : List TableCall) (db : Directory) → IsDirectory db → IsDirectory (run cs db)
unfolding run
run-IsDirectory [] db d = d
run-IsDirectory (c ∷ cs) db d = run-IsDirectory cs (call c db) (call-IsDirectory c db d)

pub empty-IsDirectory : IsDirectory empty
empty-IsDirectory = record {
  wallets_distinct = tt;
  owners_distinct = tt;
  owners_known = tt;
  subjects_distinct = tt;
  linked_distinct = tt;
  hashes_distinct = tt;
}

-- The row that a linked identity comes from.
get-cases :
    (owner : String) (db : Directory) (i : GitHubIdentity)
    → get_github_identity owner db ≡ some i
    → (w : UserWallet) × (r : LinkedIdentity) × (find (λ w. w.wallet == owner) db.user_wallets
        ≡ some w)
      × (find (λ r. r.user_id == w.user_id) db.linked_identities ≡ some r)
      × (r.identity ≡ i)
unfolding get_github_identity
get-cases owner db i h =
    let (w, e, h1) = and_then-some (find (λ w. w.wallet == owner) db.user_wallets) h in
    let (r, f, h2) = and_then-some (find (λ r. r.user_id == w.user_id) db.linked_identities) h1 in
    (w, r, e, f, cc)

-- Whatever calls were made, in whatever order and with whatever clocks and ids: two wallets that have the same
-- GitHub account linked are one wallet.
pub subject-owner :
    (cs : List TableCall) (owner other : String) (i j : GitHubIdentity)
    → get_github_identity owner (run cs empty) ≡ some i
    → get_github_identity other (run cs empty) ≡ some j
    → i.subject ≡ j.subject
    → owner ≡ other
subject-owner cs owner other i j h k same =
    let db = run cs empty in
    let d = run-IsDirectory cs empty empty-IsDirectory in
    let (w, r, e, f, a) = get-cases owner db i h in
    let (v, q, e', f', a') = get-cases other db j k in
    let one_row : r ≡ q =
      same_row (λ r. r.identity.subject) (λ r. r.user_id == w.user_id) (λ r. r.user_id == v.user_id)
        db.linked_identities d.subjects_distinct f f' cc in
    let of_w = (find-mem (λ r. r.user_id) w.user_id db.linked_identities f).0 in
    let of_v = (find-mem (λ r. r.user_id) v.user_id db.linked_identities f').0 in
    let one_wallet : w ≡ v =
      same_row (λ w. w.user_id) (λ w. w.wallet == owner) (λ w. w.wallet == other) db.user_wallets
        d.owners_distinct e e' cc in
    let owned = (find-mem (λ w. w.wallet) owner db.user_wallets e).0 in
    let owned' = (find-mem (λ w. w.wallet) other db.user_wallets e').0 in cc
