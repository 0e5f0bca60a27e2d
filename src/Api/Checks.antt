-- ===== src/Api/Checks.antt =====
-- What the checks of a handler establish: an answer of theirs is an error, and what they pass on has
-- the property. One rule for each way to build checks.
use watchkeeper.Prelude.{
  ℕ, ◌≤◌, ◌<◌, ◌≡◌, refl, arith, String, Bool, true, false, Option, none, some, length,
}
use watchkeeper.Api.Http.{
  Body, Response, Checked, answered, passed, ◌>>=◌, unless, or_answer, invalid, Decoded, malformed,
  followed, single, decode_json, finished, checked, write_json, write_error, operations_body,
  events_body, claims_body,
}
use watchkeeper.Store.Rows.{Db}
use watchkeeper.Domain.Types.{
  Error, Result, ok, err, new_error, validation, domain_error, library_error,
}
use watchkeeper.Api.Http.{error_status}

-- The items that a body has.
unfoldable pub listed : Body → ℕ
listed (operations_body page) = length page.items
listed (events_body page) = length page.items
listed (claims_body claims) = length claims
listed _ = 0

pub record IsError (r : Response) : Type 0 where
  pub status_from : 400 ≤ r.status
  pub nothing_listed : listed r.body ≡ 0

abbrev pub Established : {A : Type 0} → Checked A → (A → Type 0) → Type 0
Established (answered r) P = IsError r
Established (passed a) P = P a

pub record Establish {A : Type 0} (k : Checked A) (P : A → Type 0) : Type 0 where
  pub holds : Established k P

Established-bind :
    {A B : Type 0} (k : Checked A) (f : A → Checked B) (P : B → Type 0)
    → Established k (λ a. Establish (f a) P)
    → Established (k >>= f) P
unfolding ◌>>=◌
Established-bind (answered r) f P h = h
Established-bind (passed a) f P h = h.holds

pub Establish-passed : {A : Type 0} (a : A) (P : A → Type 0) → P a → Establish (passed a) P
Establish-passed a P h = record { holds = h }

pub Establish-bind :
    {A B : Type 0} (k : Checked A) (f : A → Checked B) (P : B → Type 0)
    → Establish k (λ a. Establish (f a) P)
    → Establish (k >>= f) P
Establish-bind k f P h = record { holds = Established-bind k f P h.holds }

write_error-IsError : (request_id : String) (e : Error) → IsError (write_error request_id e)
unfolding write_error write_json error_status listed
write_error-IsError request_id (library_error m) = record {
  status_from = omega arith;
  nothing_listed = refl;
}
write_error-IsError request_id (domain_error e) = record {
  status_from = ground arith;
  nothing_listed = refl;
}

invalid-IsError : (request_id code message : String) → IsError (invalid request_id code message)
unfolding invalid
invalid-IsError request_id code message =
    write_error-IsError request_id (new_error validation code message)

pub Establish-unless :
    (bad : Bool) (request_id code message : String) (P : Unit {0} → Type 0)
    → (bad ≡ false → P tt)
    → Establish (unless bad (invalid request_id code message)) P
unfolding unless
Establish-unless true request_id code message P h = record {
  holds = invalid-IsError request_id code message;
}
Establish-unless false request_id code message P h = record { holds = h refl }

pub Establish-or_answer :
    {A : Type 0} (o : Option A) (request_id code message : String) (P : A → Type 0)
    → ((a : A) → o ≡ some a → P a)
    → Establish (or_answer (invalid request_id code message) o) P
unfolding or_answer
Establish-or_answer none request_id code message P h = record {
  holds = invalid-IsError request_id code message;
}
Establish-or_answer (some a) request_id code message P h = record { holds = h a refl }

pub Establish-decode_json :
    {A : Type 0} (request_id : String) (d : Decoded A) (P : A → Type 0)
    → ((a : A) → d ≡ single a → P a)
    → Establish (decode_json request_id d) P
unfolding decode_json write_json listed
Establish-decode_json request_id (malformed m) P h = record {
  holds = record { status_from = omega arith; nothing_listed = refl };
}
Establish-decode_json request_id (followed a) P h = record {
  holds = record { status_from = omega arith; nothing_listed = refl };
}
Establish-decode_json request_id (single a) P h = record { holds = h a refl }

pub Establish-error :
    {B : Type 0} (request_id : String) (e : Error) (P : B → Type 0)
    → Establish (answered (write_error request_id e)) P
Establish-error request_id e P = record { holds = write_error-IsError request_id e }

finished-success :
    {B : Type 0} (request_id : String) (f : B → Response) (x : Result B × Db)
    → (finished request_id f x).0.status < 400
    → (b : B) × (x.0 ≡ ok b) × (finished request_id f x ≡ (f b, x.1))
finished-success request_id f (ok b, db) low = (b, refl, refl)
finished-success request_id f (err e, db) low =
    ground (arith, (write_error-IsError request_id e).status_from)

-- A success of a handler is one of the store's call.
pub checked-success :
    {A B : Type 0} (k : Checked A) (P : A → Type 0) (db : Db) (request_id : String)
    (f : B → Response) (call : A → Result B × Db)
    → Establish k P
    → (checked k db (λ a. finished request_id f (call a))).0.status < 400
    → (a : A) × (b : B) × P a
      × ((call a).0 ≡ ok b)
      × (checked k db (λ a. finished request_id f (call a)) ≡ (f b, (call a).1))
checked-success (answered r) P db request_id f call h low = ground (arith, h.holds.status_from)
checked-success (passed a) P db request_id f call h low =
    let (b, is_ok, same) = finished-success request_id f (call a) low in
    (a, b, h.holds, is_ok, same)

finished-listed :
    {B : Type 0} (request_id : String) (f : B → Response) (x : Result B × Db) (n : ℕ)
    → ((b : B) → x.0 ≡ ok b → listed (f b).body ≤ n)
    → listed (finished request_id f x).0.body ≤ n
finished-listed request_id f (ok b, db) n h = h b refl
finished-listed request_id f (err e, db) n h =
    omega (arith, (write_error-IsError request_id e).nothing_listed)

-- What a handler lists, where its checks pass.
pub checked-listed :
    {A B : Type 0} (k : Checked A) (P : A → Type 0) (db : Db) (request_id : String)
    (f : B → Response) (call : A → Result B × Db) (n : ℕ)
    → Establish k P
    → ((a : A) (b : B) → P a → (call a).0 ≡ ok b → listed (f b).body ≤ n)
    → listed (checked k db (λ a. finished request_id f (call a))).0.body ≤ n
checked-listed (answered r) P db request_id f call n h g = omega (arith, h.holds.nothing_listed)
checked-listed (passed a) P db request_id f call n h g =
    finished-listed request_id f (call a) n λ b is_ok. g a b h.holds is_ok
