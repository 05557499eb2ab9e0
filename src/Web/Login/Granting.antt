-- ===== src/Web/Login/Granting.antt =====
-- Who gets in, and who does not.
use diskless.Base.{
  ℕ, ◌≡◌, refl, true, false, some, List, [], ◌∷◌, ◌++◌, arith, Text, Bytes, codes, decode,
  decode_same, ok, ◌==◌, list_eq, nat_eq, eq_refl, same_if_equal, if◌then◌else◌, inl, inr,
  Bool-cases, Option-cases, Result-cases,
}
use diskless.Base.Action.{Action}
use diskless.Database.{Database, AdminUser, is_user, fetch_one, exists_row, update}
use diskless.Web.{Args, WebSession, Response, redirect, arg, require_auth}
use diskless.Web.Cookie.{
  Signer, session_max_age, salt, new_session_payload, session_cookie, read_session, authorized,
  forgiven, load_cookie,
}
use diskless.Web.Login.{
  Bcrypt, LoginReply, upsert_admin, create_admin, checked_password, login_submit,
}

-- The account that is updated.
fetch-update :
    (u : AdminUser) (users : List AdminUser)
    → exists_row (is_user u.username) users ≡ true
    → fetch_one
        (is_user u.username)
        (update (is_user u.username) (λ r. record r { password_hash = u.password_hash }) users)
      ≡ some u
unfolding fetch_one exists_row update
fetch-update u [] h = cc
fetch-update u (r ∷ users) h = ground (arith, fetch-update u users)

-- The account that is new.
fetch-append :
    (u : AdminUser) (users : List AdminUser)
    → exists_row (is_user u.username) users ≡ false
    → fetch_one (is_user u.username) (users ++ u ∷ []) ≡ some u
unfolding fetch_one exists_row
fetch-append u [] h = rw (eq_refl u.username) refl
fetch-append u (r ∷ users) h = ground (arith, fetch-append u users)

fetch-upsert :
    (u : AdminUser) (users : List AdminUser)
    → fetch_one (is_user u.username) (upsert_admin u users) ≡ some u
unfolding upsert_admin
fetch-upsert u users = ground (arith, fetch-update u users, fetch-append u users)

fetch-update_ne :
    (u : AdminUser) (other : Text) (users : List AdminUser)
    → (other == u.username) ≡ false
    → fetch_one
        (is_user other)
        (update (is_user u.username) (λ r. record r { password_hash = u.password_hash }) users)
      ≡ fetch_one (is_user other) users
unfolding fetch_one update
fetch-update_ne u other [] ne = refl
fetch-update_ne u other (r ∷ users) ne = ground (arith, fetch-update_ne u other users)

fetch-append_ne :
    (u : AdminUser) (other : Text) (users : List AdminUser)
    → (other == u.username) ≡ false
    → fetch_one (is_user other) (users ++ u ∷ []) ≡ fetch_one (is_user other) users
unfolding fetch_one
fetch-append_ne u other [] ne = ground (arith, ne)
fetch-append_ne u other (r ∷ users) ne = ground (arith, fetch-append_ne u other users)

fetch-upsert_ne :
    (u : AdminUser) (other : Text) (users : List AdminUser)
    → (other == u.username) ≡ false
    → fetch_one (is_user other) (upsert_admin u users) ≡ fetch_one (is_user other) users
unfolding upsert_admin
fetch-upsert_ne u other users ne =
    ground (arith, fetch-update_ne u other users ne, fetch-append_ne u other users ne)

fetch-upsert_other :
    (u : AdminUser) (other : Text) (users : List AdminUser)
    → fetch_one (is_user other) (upsert_admin u users)
      ≡ (if other == u.username then some u else fetch_one (is_user other) users)
fetch-upsert_other u other users = elim (Bool-cases (other == u.username)) [
  | inl own ↦ rw (own, same_if_equal other u.username own) (fetch-upsert u users)
  | inr ne ↦ rw ne (fetch-upsert_ne u other users ne)
]

-- That a token is read back later, as itsdangerous does within the maximal age.
pub record IsRead (signer : Signer) (cookie_secret : Text) (made now : ℕ) (payload : WebSession)
    : Type 0 where
  pub ascii :
      decode (session_cookie signer cookie_secret made payload)
      ≡ ok (session_cookie signer cookie_secret made payload)
  pub loads :
      signer.loads cookie_secret salt session_max_age now
        (session_cookie signer cookie_secret made payload)
      ≡ ok payload

-- That a hash is made of a password and is its own, as bcrypt's are, and is ASCII.
pub record IsHash (bcrypt : Bcrypt) (password hash_salt hash : Text) : Type 0 where
  pub made : bcrypt.hashpw password hash_salt ≡ ok hash
  pub ascii : decode hash ≡ ok hash
  pub checked : bcrypt.checkpw password hash ≡ ok true

-- The fields of the login form.
pub record IsForm (args : Args) (username password : Text) : Type 0 where
  pub username_given : arg (codes "username") args ≡ ok username
  pub username_text : decode username ≡ ok username
  pub password_given : arg (codes "password") args ≡ ok password

module _ (bcrypt : Bcrypt) (signer : Signer) (cookie_secret : Text) where
  authorized_lem :
      {S : Type 0} (made now : ℕ) (payload : WebSession) (handler : WebSession → Action S Response)
      (w : S)
      → IsRead signer cookie_secret made now payload
      → authorized signer cookie_secret now
          (some (session_cookie signer cookie_secret made payload))
          handler
          w
        ≡ handler payload w
  unfolding authorized read_session load_cookie require_auth forgiven
  authorized_lem made now payload handler w read =
      rw (authorized, read_session, load_cookie, read.ascii, read.loads, forgiven) refl

  login_lem :
      (made : ℕ) (csrf username password : Text) (args : Args) (row : AdminUser) (db : Database)
      → IsForm args username password
      → fetch_one (is_user username) db.admin_user ≡ some row
      → bcrypt.checkpw password row.password_hash ≡ ok true
      → login_submit bcrypt signer cookie_secret made csrf args db
        ≡ ok (record {
          set_cookie =
              some (session_cookie signer cookie_secret made (new_session_payload csrf username));
          response = redirect (codes "/");
        })
  unfolding login_submit checked_password
  login_lem made csrf username password args row db h found checked =
      rw (h.username_given, h.username_text, h.password_given, found, checked) refl

-- An account that `create_admin` has made or given a new password can log in with it, and the
-- cookie of that login lets the later requests through to their handlers, as that user, while the
-- token is read; every other account is as it was. (The form has the name and the password, and bcrypt
-- makes of the password an ASCII hash that it takes for the password's own.)
pub create_admin-login :
    {S : Type 0} (bcrypt : Bcrypt) (signer : Signer)
    (cookie_secret hash_salt hash username password csrf : Text) (made now : ℕ) (args : Args)
    (db : Database) (handler : WebSession → Action S Response) (w : S)
    → IsHash bcrypt password hash_salt hash
    → IsForm args username password
    → IsRead signer cookie_secret made now (new_session_payload csrf username)
    → (db' : Database) × (cookie : Text) × (create_admin bcrypt hash_salt username password db
        ≡ ok db')
      × (login_submit bcrypt signer cookie_secret made csrf args db'
          ≡ ok (record { set_cookie = some cookie; response = redirect (codes "/") }))
      × (authorized signer cookie_secret now (some cookie) handler w
          ≡ handler (new_session_payload csrf username) w)
      × ((other : Text)
          → fetch_one (is_user other) db'.admin_user ≡ (
              if other == username
              then some (record { username = username; password_hash = hash })
              else fetch_one (is_user other) db.admin_user))
unfolding create_admin
create_admin-login bcrypt signer cookie_secret hash_salt hash username password csrf made now args
      db handler w h f read =
    let user : AdminUser = record { username = username; password_hash = hash } in
    let db' : Database = record db { admin_user = upsert_admin user db.admin_user } in
    (
      db',
      session_cookie signer cookie_secret made (new_session_payload csrf username),
      rw (h.made, h.ascii) refl,
      login_lem bcrypt signer cookie_secret made csrf username password args user db' f
          (fetch-upsert user db.admin_user) h.checked,
      authorized_lem bcrypt signer cookie_secret made now (new_session_payload csrf username)
          handler w read,
      λ other. fetch-upsert_other user other db.admin_user,
    )

-- A login that sets a cookie has found the account of the name that was given, with a hash that is the
-- password's own, and the cookie is a token for that name.
pub login_grants :
    (bcrypt : Bcrypt) (signer : Signer) (cookie_secret csrf cookie : Text) (made : ℕ) (args : Args)
    (db : Database) (reply : LoginReply)
    → login_submit bcrypt signer cookie_secret made csrf args db ≡ ok reply
    → reply.set_cookie ≡ some cookie
    → (username : Text) × (password : Bytes) × (row : AdminUser) × IsForm args username password
      × (fetch_one (is_user username) db.admin_user ≡ some row)
      × (bcrypt.checkpw password row.password_hash ≡ ok true)
      × (cookie ≡ session_cookie signer cookie_secret made (new_session_payload csrf username))
unfolding login_submit checked_password
login_grants bcrypt signer cookie_secret csrf cookie made args db reply done set =
    elim (Result-cases (arg (codes "username") args)) [
      | inl (x, e) ↦ ground (arith, e, done)
      | inr (username, named) ↦ elim (Result-cases (decode username)) [
        | inl (x, e) ↦ ground (arith, named, e, done)
        | inr (text, read) ↦ elim (Result-cases (arg (codes "password") args)) [
          | inl (x, e) ↦ ground (arith, named, read, e, done)
          | inr (password, given) ↦
              let same : text ≡ username = decode_same username text read in
              elim (Option-cases (fetch_one (is_user username) db.admin_user)) [
                | inl nobody ↦ ground (arith, named, read, same, given, nobody, done, set)
                | inr (row, found) ↦
                    elim (Result-cases (bcrypt.checkpw password row.password_hash)) [
                      | inl (x, e) ↦ ground (arith, named, read, same, given, found, e, done)
                      | inr (good, compared) ↦ elim (Bool-cases good) [
                        | inr wrong ↦
                            ground
                              (arith, named, read, same, given, found, compared, wrong, done, set)
                        | inl right ↦ (
                          username,
                          password,
                          row,
                          record {
                            username_given = named;
                            username_text = rw same at read;
                            password_given = given;
                          },
                          found,
                          rw right at compared,
                          ground
                              (arith, named, read, same, given, found, compared, right, done, set),
                        )
                      ]
                    ]
              ]
        ]
      ]
    ]
