-- ===== src/Truenas/Storage.antt =====
-- internal/truenas/truenas.go: the calls for snapshots over `Call`, the text of an error of the
-- middleware, and the numbers in a reply. `encoding/json` is given.
use Prim.Native.Char.{code}
use Prim.Native.String.{◌++◌}
use pademelon.Base.{
  ℕ, ◌+◌, ◌-◌, ◌*◌, ◌^◌, String, Bool, true, false, Option, none, some, List, Result, ok, err,
  Table, lookup, ◌&&◌, not, leb, ltb, ◌==◌, if◌then◌else◌, contains, map,
}
use pademelon.Model.{ZfsSnapshot}
use pademelon.Truenas.{is_not_found_err}
use pademelon.Truenas.Client.{CallError, error_text}

-- The methods that the package calls, with their parameters.
pub data Method : Type 0 where
  query : String → Method
  create : (dataset name : String) → Method
  rollback : (id : String) → (recursive : Bool) → Method
  delete : (id : String) → Method

-- The result of `Call`.
abbrev pub Caller : Type 0
Caller = Method → Result CallError String

-- An item of a query's reply, its properties as the raw values by name.
pub record Item : Type 0 where
  pub id : String
  pub dataset : String
  pub snapshot_name : String
  pub properties : Table String

-- The loop of `strconv.ParseUint(s, 10, 64)`, from the digits read so far.
unfoldable pub parse_digits : ℕ → String → ℕ
parse_digits n String.[] = n
parse_digits n (String.◌∷◌ c s) =
    let more = n * 10 + (code c - b'0') in
    let rest = parse_digits more s in
    if not (leb b'0' (code c) && leb (code c) b'9')
    then 0
    else if ltb more (2 ^ 64)
    then rest
    else 2 ^ 64 - 1

-- The value that `strconv.ParseUint` returns, whatever its error: 0 for a text that is no number, the
-- largest value for a number too large.
unfoldable pub parse_uint : String → ℕ
parse_uint s = parse_digits 0 s

-- That of `strconv.ParseInt`, for a text with no sign.
unfoldable pub parse_int : String → ℕ
parse_int s = if ltb (parse_uint s) (2 ^ 63) then parse_uint s else 2 ^ 63 - 1

property : (String → ℕ) → Option String → ℕ
property parse none = 0
property parse (some raw) = parse raw

unfoldable pub to_snapshot : Item → ZfsSnapshot
unfolding property
to_snapshot it = record {
  id = it.id;
  dataset = it.dataset;
  name = it.snapshot_name;
  created = property parse_int (lookup "creation" it.properties);
  used = property parse_uint (lookup "used" it.properties);
  referenced = property parse_uint (lookup "referenced" it.properties);
}

items_of : String → Result String (List Item) → Result String (List ZfsSnapshot)
items_of dataset (err e) = err ("decode snapshot query for " ++ dataset ++ ": " ++ e)
items_of dataset (ok items) = ok (map to_snapshot items)

queried :
    (String → Result String (List Item))
    → String
    → Result CallError String
    → Result String (List ZfsSnapshot)
unfolding items_of
queried decode dataset (err e) = err (error_text e)
queried decode dataset (ok reply) = items_of dataset (decode reply)

-- `Snapshots`.
unfoldable pub snapshots :
    (String → Result String (List Item)) → Caller → String → Result String (List ZfsSnapshot)
unfolding queried
snapshots decode call dataset = queried decode dataset (call (Method.query dataset))

id_of : Result String String → Result String String
id_of (err e) = err ("decode create result: " ++ e)
id_of (ok id) =
    if id == "" then err "create succeeded but the middleware sent no snapshot id" else ok id

created : (String → Result String String) → Result CallError String → Result String String
unfolding id_of
created decode (err e) = err (error_text e)
created decode (ok reply) = id_of (decode reply)

-- `CreateSnapshot`.
unfoldable pub create_snapshot :
    (String → Result String String) → Caller → String → String → Result String String
unfolding created
create_snapshot decode call dataset name = created decode (call (Method.create dataset name))

rolled_back : String → Result CallError String → Result String (Unit {0})
rolled_back id (err e) = err ("rollback " ++ id ++ ": " ++ error_text e)
rolled_back id (ok reply) = ok tt

-- `RollbackSnapshot`.
unfoldable pub rollback_snapshot : Caller → String → String → Bool → Result String (Unit {0})
unfolding rolled_back
rollback_snapshot call dataset name recursive =
    rolled_back (dataset ++ "@" ++ name) (call (Method.rollback (dataset ++ "@" ++ name) recursive))

deleted : String → Result CallError String → Result String Bool
deleted id (ok reply) = ok true
deleted id (err e) =
    if is_not_found_err (error_text e)
    then ok false
    else err ("delete " ++ id ++ ": " ++ error_text e)

-- `DeleteSnapshot`.
unfoldable pub delete_snapshot : Caller → String → String → Result String Bool
unfolding deleted
delete_snapshot call dataset name =
    deleted (dataset ++ "@" ++ name) (call (Method.delete (dataset ++ "@" ++ name)))

-- An error of the middleware: its code as printed, its message, and its data, raw and as the error's
-- name and the reason if they decode.
pub record RpcError : Type 0 where
  pub code : String
  pub message : String
  pub raw : String
  pub details : Option (String × String)

plain_text : RpcError → String
plain_text e =
    if e.raw == "" then e.code ++ " " ++ e.message else e.code ++ " " ++ e.message ++ " | " ++ e.raw

reason_text : RpcError → Option (String × String) → String
unfolding plain_text
reason_text e none = plain_text e
reason_text e (some (errname, reason)) =
    if reason == ""
    then plain_text e
    else if not (errname == "") && not (contains reason errname)
    then errname ++ " " ++ reason
    else reason

-- `rpcError.Error`; the cut of raw data after 200 characters is left out.
unfoldable pub rpc_error_text : RpcError → String
unfolding reason_text
rpc_error_text e = reason_text e e.details
