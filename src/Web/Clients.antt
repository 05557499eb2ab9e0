-- ===== src/Web/Clients.antt =====
-- Registration of clients and assignment of versions: src/diskless/bootd/web/client_bindings.py.
pub mod Booting
use diskless.Base.{
  ℕ, suc, Bool, false, Option, none, some, eqb, List, Bytes, [], ◌∷◌, ◌++◌, Text, codes, decode,
  int, ℤ, pos, negsuc, Result, ok, raise, integrity_error, ◌>>=◌, ◌==◌, list_eq, nat_eq,
  if◌then◌else◌,
}
use diskless.Base.Dict.{lookup}
use diskless.Database.{sqlite_integer, Database, ClientBinding, exists_row, has_id, update}
use diskless.Web.{
  Args, WebSession, Response, redirect, refuse, World, Handler, arg, verify_csrf, checked,
}

-- `INSERT INTO client_binding`: MACs are unique, and the profile exists.
unfoldable pub insert_binding : Text → ℤ → ℤ → Database → Result Database
insert_binding client_mac (negsuc n) assigned_version db = raise integrity_error
insert_binding client_mac (pos image_profile_id) assigned_version db =
    if exists_row (λ (b : ClientBinding). b.client_mac == client_mac) db.client_binding
    then raise integrity_error
    else if exists_row (has_id image_profile_id) db.image_profile
    then ok (record db {
      client_binding =
          db.client_binding
          ++ record {
            id = db.next_binding;
            client_mac = client_mac;
            initiator_iqn = none;
            image_profile_id = image_profile_id;
            assigned_version = assigned_version;
          }
            ∷ [];
      next_binding = suc db.next_binding;
    })
    else raise integrity_error

registered : World → Result Database → Result Response × World
registered w (raise x) = (ok (refuse 409), w)
registered w (ok db) = (ok (redirect (codes "/clients")), record w { db = db })

record Registration : Type 0 where
  client_mac : Text
  image_profile_id : ℤ
  assigned_version : ℤ

registration : Args → Result Registration
unfolding sqlite_integer
registration args = do
  raw_mac ← arg (codes "client_mac") args
  client_mac ← decode raw_mac
  raw_profile ← arg (codes "image_profile_id") args
  image_profile_id ← int raw_profile
  raw_version ← arg (codes "assigned_version") args
  assigned_version ← int raw_version
  fits_profile ← sqlite_integer image_profile_id
  fits_version ← sqlite_integer assigned_version
  ok (record {
    client_mac = client_mac;
    image_profile_id = image_profile_id;
    assigned_version = assigned_version;
  })

unfoldable pub register_client : Args → WebSession → Handler
unfolding registered registration
register_client args session = checked (verify_csrf args session) λ w. elim (registration args) [
  | raise x ↦ (raise x, w)
  | ok r ↦ registered w (insert_binding r.client_mac r.image_profile_id r.assigned_version w.db)
]

-- `v.decode()` of each
decode_all : List Bytes → Result (List Text)
decode_all [] = ok []
decode_all (v ∷ vs) = do s ← decode v; rest ← decode_all vs; ok (s ∷ rest)

pub record Assignment : Type 0 where
  pub client_ids : List Text
  pub version_number : ℤ

unfoldable pub assignment : Args → Result Assignment
unfolding decode_all
assignment args = do
  client_ids ← decode_all (elim (lookup (codes "client_id") args) [ none ↦ [] | some vs ↦ vs ])
  raw ← arg (codes "version_number") args
  version_number ← int raw
  ok (record { client_ids = client_ids; version_number = version_number })

-- Whether a row has the id that SQLite reads in a text.
unfoldable pub has_row_id : Option ℕ → ClientBinding → Bool
has_row_id none b = false
has_row_id (some i) b = eqb b.id i

-- `executemany` of `UPDATE client_binding SET assigned_version = ? WHERE id = ?`
unfoldable pub assign_rows :
    (Text → Option ℕ) → ℤ → List Text → List ClientBinding → List ClientBinding
unfolding has_row_id
assign_rows row_id version [] rows = rows
assign_rows row_id version (cid ∷ cids) rows =
    assign_rows row_id version cids
      (update (has_row_id (row_id cid)) (λ b. record b { assigned_version = version }) rows)

-- A number that SQLite cannot hold is noticed at the first row.
unfoldable pub assign : (Text → Option ℕ) → Assignment → Database → Result Database
unfolding sqlite_integer assign_rows
assign row_id a db = elim a.client_ids [
  | [] ↦ ok db
  | _ ∷ _ ↦ do
    version ← sqlite_integer a.version_number
    ok (record db { client_binding = assign_rows row_id version a.client_ids db.client_binding })
]

unfoldable pub assigned : (Text → Option ℕ) → Result Assignment → World → Result Response × World
unfolding assign
assigned row_id (raise x) w = (raise x, w)
assigned row_id (ok a) w = elim (assign row_id a w.db) [
  | raise x ↦ (raise x, w)
  | ok db ↦ (ok (redirect (codes "/clients")), record w { db = db })
]

-- `row_id` is SQLite's reading of a text that is compared with an integer key.
unfoldable pub assign_version : (Text → Option ℕ) → Args → WebSession → Handler
unfolding assigned assignment
assign_version row_id args session =
    checked (verify_csrf args session) (assigned row_id (assignment args))
