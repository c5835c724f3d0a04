-- ===== src/Hawkbit.antt =====
-- app/hawkbit.py: the client of the Hawkbit server, which answers by what it has been asked so far.
-- The base URL, the credentials and the timeout are not modelled, nor an exception of `httpx` that
-- is neither an `HTTPError` nor the `InvalidURL` of a URL that it cannot read.
use embediq_cloud.Prelude.{
  ℕ, String, ◌==◌, ◌+++◌, ◌++◌, Option, none, some, List, [], ◌∷◌, leb, if◌then◌else◌,
}
use embediq_cloud.Prelude.Int.{pos}
use embediq_cloud.Outcome.{
  hawkbit_error, invalid_url, value_error, attribute_error, type_error, key_error, Outcome,
  returned, raised, or_raise, index_error, ◌>>=◌ as bind,
}
use embediq_cloud.Json.{
  Value, null, int, str, arr, obj, Items, no_items, item, no_entries, fields, Object, object, list,
  lookup, Codec,
}

-- What is sent: a JSON body, an uploaded file, or neither.
pub data Body : Type 0 where
  empty : Body
  json : Value → Body
  file : (filename content : String) → Body

pub record Request : Type 0 where
  pub method : String
  pub path : String
  pub body : Body

-- What `httpx.request` gives: an `httpx.HTTPError` with its text; an `httpx.InvalidURL`, as for a
-- path with a control character or one that is too long; or a status and a body, which may be no
-- JSON.
pub data Reply : Type 0 where
  unreachable : String → Reply
  unreadable_url : Reply
  response : ℕ → Option Value → Reply

-- The calls of `httpx.request` so far, the newest first.
abbrev pub Log : Type 0
Log = List Request

abbrev pub Server : Type 0
Server = Request → Log → Reply

-- A call of the client: its result, and the requests after it.
abbrev pub Call : Type 0 → Type 0
Call A = Log → Outcome A × Log

module _ {A : Type 0} where
  abbrev pub pure : A → Call A
  pure a log = (returned a, log)

  abbrev pub lift : Outcome A → Call A
  lift r log = (r, log)

infixl 10 ◌>>=◌
abbrev pub ◌>>=◌ : {A B : Type 0} → Call A → (A → Call B) → Call B
◌>>=◌ m f log =
    let (r, log') = m log in elim r [ returned a ↦ f a log' | raised e ↦ (raised e, log') ]

-- `v[key]`
abbrev pub index : String → Value → Outcome Value
index key (obj fs) = or_raise (lookup key (fields fs)) key_error
index key _ = raised type_error

-- `v.get(key, default)`
abbrev pub get_default : String → Value → Value → Outcome Value
get_default key default (obj fs) =
    returned (elim (lookup key (fields fs)) [ none ↦ default | some w ↦ w ])
get_default key default _ = raised attribute_error

abbrev pub items : Items → List Value
items no_items = []
items (item v vs) = v ∷ items vs

-- The values that `for m in v` runs over, where the loop reads `m["id"]`: a dict runs over its
-- keys and a text over its characters, on which that raises.
abbrev pub elements : Value → Outcome (List Value)
elements (arr xs) = returned (items xs)
elements (obj no_entries) = returned []
elements (str s) = if s == "" then returned [] else raised type_error
elements _ = raised type_error

-- `module = created[0] if isinstance(created, list) else created`
abbrev pub first_of_list : Value → Outcome Value
first_of_list (arr no_items) = raised index_error
first_of_list (arr (item v vs)) = returned v
first_of_list v = returned v

module _ (C : Codec) (server : Server) where
  checked : Reply → Outcome (Option Value)
  checked (unreachable why) = raised (hawkbit_error 502 ("hawkbit unreachable: " +++ why))
  checked unreadable_url = raised invalid_url
  checked (response status body) =
      if leb 400 status
      then raised (hawkbit_error status ("hawkbit returned " +++ C.py_str (int (pos status))))
      else returned body

  -- The response, of which the callers read the JSON body or nothing.
  unfoldable pub request : String → String → Body → Call (Option Value)
  unfolding checked
  request method path body log =
      let r : Request = record { method = method; path = path; body = body } in
      (checked (server r log), r ∷ log)

  -- `response.json()`
  unfoldable pub request_json : String → String → Body → Call Value
  request_json method path body = do
    found ← request method path body
    lift (or_raise found value_error)

  -- one element of the list comprehension
  summary : Value → Outcome Value
  summary m = bind (index "id" m) λ id. bind (index "name" m) λ name.
      bind (index "version" m) λ version. bind (get_default "size" (int (pos 0)) m) λ size.
        bind (get_default "createdAt" null m) λ created. returned (
          object (
            ("id", id)
            ∷ ("name", name)
            ∷ ("version", version)
            ∷ ("size_bytes", size)
            ∷ ("created_at", created)
            ∷ []))

  summaries : List Value → Outcome (List Value)
  summaries [] = returned []
  summaries (m ∷ ms) =
      let rest = summaries ms in bind (summary m) λ v. bind rest λ vs. returned (v ∷ vs)

  pub list_software_modules : Call Value
  list_software_modules = do
    answer ← request_json "GET" "/rest/v1/softwaremodules" empty
    content ← lift (get_default "content" (list []) answer)
    modules ← lift (elements content)
    found ← lift (summaries modules)
    pure (list found)

  unfoldable pub create_software_module : String → String → Call Value
  create_software_module name version = do
    created ← request_json "POST" "/rest/v1/softwaremodules" (
        json (
          list (
            object (("name", str name) ∷ ("version", str version) ∷ ("type", str "os") ∷ []) ∷ [])))
    lift (first_of_list created)

  unfoldable pub upload_artifact : Value → String → String → Call (Unit {0})
  upload_artifact module_id filename content = do
    _ ←
        request "POST" ("/rest/v1/softwaremodules/" +++ C.py_str module_id +++ "/artifacts")
          (file filename content)
    pure tt

  unfoldable pub delete_software_module : Value → Call (Unit {0})
  delete_software_module module_id = do
    _ ← request "DELETE" ("/rest/v1/softwaremodules/" +++ C.py_str module_id) empty
    pure tt

  abbrev optional_entry : String → Option String → Object
  optional_entry key none = []
  optional_entry key (some s) = (key, str s) ∷ []

  unfoldable pub create_deployment : Value → Option String → Option String → Call Value
  create_deployment firmware_id device_id group_id = request_json "POST" "/rest/v1/deployments" (
      json (
        object (
          ("firmware_id", firmware_id) ∷ optional_entry "device_id" device_id
          ++ optional_entry "group_id" group_id)))

  unfoldable pub deployment_status : String → Call Value
  deployment_status device_id = do
    answer ← request_json "GET" ("/rest/v1/targets/" +++ device_id) empty
    status ← lift (get_default "updateStatus" (str "unknown") answer)
    progress ← lift (get_default "progress" (int (pos 0)) answer)
    version ← lift (get_default "installedVersion" null answer)
    updated ← lift (get_default "lastModifiedAt" null answer)
    pure (
        object (
          ("status", status)
          ∷ ("progress_pct", progress)
          ∷ ("version", version)
          ∷ ("updated_at", updated)
          ∷ []))

  -- `except HawkbitError`
  abbrev best_effort : Outcome (Option Value) → Outcome (Unit {0})
  best_effort (returned _) = returned tt
  best_effort (raised (hawkbit_error status message)) = returned tt
  best_effort (raised e) = raised e

  feedback : String → Object → Call (Unit {0})
  feedback device_id status log =
      let (r, log') =
        request "POST" ("/rest/v1/targets/" +++ device_id +++ "/actions/feedback")
          (json (object (("status", object status) ∷ []))) log in
      (best_effort r, log')

  unfoldable pub mark_finished : String → Call (Unit {0})
  unfolding feedback
  mark_finished device_id =
      feedback device_id
        (("execution", str "closed") ∷ ("result", object (("finished", str "success") ∷ [])) ∷ [])

  unfoldable pub mark_failed : String → String → Call (Unit {0})
  unfolding feedback
  mark_failed device_id reason = feedback device_id (
      ("execution", str "closed")
      ∷ ("result", object (("finished", str "failure") ∷ []))
      ∷ ("details", list (str reason ∷ []))
      ∷ [])
