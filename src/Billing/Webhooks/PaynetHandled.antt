-- ===== src/Billing/Webhooks/PaynetHandled.antt =====
-- Whom Paynet's webhook (billing/providers/paynet/paynet.provider.ts) lets in, and what it does then.
use Prim.Native.String.{◌++◌}
use qayoda_backend.Base.{
  ℕ, ◌≡◌, refl, Bool, true, false, ◌||◌, not, Option, none, some, String, List, [], ◌∷◌, any,
  Bool-cases, Option-cases, inl, inr, arith, str_eq, eq_iff, or_default,
}
use qayoda_backend.Base.Text.{codes, after_prefix, same_bytes, trim}
use qayoda_backend.Billing.Types.{paynet}
use qayoda_backend.Billing.Store.{Db, Result}
use qayoda_backend.Billing.Payments.{log_webhook}
use qayoda_backend.Billing.Paynet.{
  PaynetConfig, PaynetParams, PaynetRpc, PaynetReply, Net, statement, dispatch, handle_body,
  is_version, method_of, or_system, handle, ip_allowed, authorized, ipv4_to_int, without_prefix,
  in_net,
}
use qayoda_backend.Billing.Webhooks.PaynetRuns.{
  PaynetEffect, quiet, cancel-Effect, check-Effect, perform-Effect, get_information-Effect,
}

statement-still : (c : PaynetConfig) (p : PaynetParams) (db : Db) → (statement c p db).1 ≡ db
unfolding statement
statement-still c p db = ground arith

dispatch-Effect :
    (c : PaynetConfig) (method : String) (p : PaynetParams) (db : Db)
    → PaynetEffect c method p db (dispatch c method p db).1
unfolding dispatch
dispatch-Effect c method p db = elim (Bool-cases (str_eq method "GetInformation")) [
  | inl m ↦ rw m (get_information-Effect c method p db ((eq_iff method "GetInformation").0 m))
  | inr m1 ↦ elim (Bool-cases (str_eq method "PerformTransaction")) [
    | inl m ↦ rw (m1, m) (perform-Effect c method p db ((eq_iff method "PerformTransaction").0 m))
    | inr m2 ↦ elim (Bool-cases (str_eq method "CheckTransaction")) [
      | inl m ↦ rw (m1, m2, m) (check-Effect c method p db)
      | inr m3 ↦ elim (Bool-cases (str_eq method "CancelTransaction")) [
        | inl m ↦
            rw (m1, m2, m3, m)
              (cancel-Effect c method p db ((eq_iff method "CancelTransaction").0 m))
        | inr m4 ↦ elim (Bool-cases (str_eq method "GetStatement")) [
          | inl m ↦ rw (m1, m2, m3, m4, m, statement-still c p db) quiet
          | inr m5 ↦ rw (m1, m2, m3, m4, m5) quiet
        ]
      ]
    ]
  ]
]

-- What the body of a call may leave.
pub data PaynetBody (c : PaynetConfig) (rpc : PaynetRpc) (db : Db) : Db → Type 0 where
  empty_body : PaynetBody c rpc db db
  called :
      (p : PaynetParams) (t : Db)
      → rpc.params ≡ some p
      → PaynetEffect c (method_of rpc.method) p db t
      → PaynetBody c rpc db t

handle_body-Body :
    (c : PaynetConfig) (rpc : PaynetRpc) (db : Db) → PaynetBody c rpc db (handle_body c rpc db).1
unfolding handle_body
handle_body-Body c rpc db =
    elim (Bool-cases (not (is_version rpc.jsonrpc) || str_eq (method_of rpc.method) "")) [
      | inl bad ↦ rw bad empty_body
      | inr good ↦ elim (Option-cases rpc.params) [
        | inl absent ↦ rw (good, absent) empty_body
        | inr (p, filled) ↦
            let same : handle_body c rpc db ≡ dispatch c (method_of rpc.method) p db =
              rw (good, filled) refl in
            rw same (called p _ filled (dispatch-Effect c (method_of rpc.method) p db))
      ]
    ]

or_system-still : (r : Result PaynetReply × Db) → (or_system r).1 ≡ r.1
or_system-still r = ground arith

-- The caller's address is in one of the networks, if there are any.
pub data IsNear : List Net → Option String → Type 0 where
  anywhere : (ip : Option String) → IsNear [] ip
  inside :
      (net : Net) (nets : List Net) (address : String) (n : ℕ)
      → ipv4_to_int (without_prefix (codes address)) ≡ some n
      → any (in_net n) (net ∷ nets) ≡ true
      → IsNear (net ∷ nets) (some address)

ip_allowed-IsNear :
    (nets : List Net) (ip : Option String) → ip_allowed nets ip ≡ true → IsNear nets ip
unfolding ip_allowed
ip_allowed-IsNear [] ip h = anywhere ip
ip_allowed-IsNear (net ∷ nets) none h = absurd (cc h)
ip_allowed-IsNear (net ∷ nets) (some ip) h =
    elim (Option-cases (ipv4_to_int (without_prefix (codes ip)))) [
      | inl other ↦ absurd (cc (rw (other, ip_allowed) at h))
      | inr (n, read) ↦ inside net nets ip n read (rw (read, ip_allowed) at h)
    ]

-- The header has the configured name and password, neither of which is blank.
pub record HasLogin (base64 : List ℕ → List ℕ) (c : PaynetConfig) (header : Option String)
    : Type 0 where
  text : String
  given : List ℕ
  sent : header ≡ some text
  name_filled : str_eq (or_default c.username "") "" ≡ false
  password_filled : str_eq (or_default c.password "") "" ≡ false
  basic : after_prefix (codes "Basic ") (codes text) ≡ some given
  same :
      same_bytes
        (codes (or_default c.username "" ++ ":" ++ or_default c.password ""))
        (base64 (trim given))
      ≡ true

authorized-HasLogin :
    (base64 : List ℕ → List ℕ) (c : PaynetConfig) (header : Option String)
    → authorized base64 c header ≡ true
    → HasLogin base64 c header
unfolding authorized
authorized-HasLogin base64 c none h = absurd (ground (arith, h))
authorized-HasLogin base64 c (some text) h =
    elim (Bool-cases (str_eq (or_default c.username "") "")) [
      | inl no_name ↦ absurd (cc (rw (no_name, authorized) at h))
      | inr name ↦ elim (Bool-cases (str_eq (or_default c.password "") "")) [
        | inl no_password ↦ absurd (cc (rw (name, no_password, authorized) at h))
        | inr password ↦ elim (Option-cases (after_prefix (codes "Basic ") (codes text))) [
          | inl other ↦ absurd (cc (rw (name, password, other, authorized) at h))
          | inr (given, basic) ↦ record {
            text = text;
            given = given;
            sent = refl;
            name_filled = name;
            password_filled = password;
            basic = basic;
            same = rw (name, password, basic, authorized) at h;
          }
        ]
      ]
    ]

-- The status of the answer, and what the webhook leaves.
pub data PaynetHandled (c : PaynetConfig) (base64 : List ℕ → List ℕ) (nets : List Net)
    (http_method : String) (ip header : Option String) (rpc : PaynetRpc) (db : Db)
    : ℕ → Db → Type 0 where
  turned_away :
      (valid : Bool)
      → PaynetHandled c base64 nets http_method ip header rpc db 403 (log_webhook paynet valid db)
  no_login :
      PaynetHandled c base64 nets http_method ip header rpc db 401 (log_webhook paynet false db)
  not_post :
      IsNear nets ip
      → HasLogin base64 c header
      → PaynetHandled c base64 nets http_method ip header rpc db 200 (log_webhook paynet true db)
  let_in :
      (t : Db)
      → IsNear nets ip
      → HasLogin base64 c header
      → http_method ≡ "POST"
      → PaynetBody c rpc db t
      → PaynetHandled c base64 nets http_method ip header rpc db 200 (log_webhook paynet true t)

-- Whatever Paynet sends, from wherever: with a status 403 or 401 only the audit row is written. A
-- status 200 goes to a caller in one of the allowed networks with the configured name and password,
-- neither of which is blank, and besides the audit row it leaves nothing if the call is no POST, and
-- otherwise at most what its method may: GetInformation opens the wallet of the user it names,
-- PerformTransaction makes one push for the user it names, of the amount it names, within the bounds
-- and under a transaction that was not known, and CancelTransaction reverses the payment it names,
-- unless that was read as cancelled; each only for a service that is ours.
pub paynet_handle-Handled :
    (c : PaynetConfig) (base64 : List ℕ → List ℕ) (nets : List Net) (http_method : String)
    (ip header : Option String) (rpc : PaynetRpc) (db : Db)
    → PaynetHandled c base64 nets http_method ip header rpc db
        (handle c base64 nets http_method ip header rpc db).0.http_status
        (handle c base64 nets http_method ip header rpc db).1
unfolding handle
paynet_handle-Handled c base64 nets http_method ip header rpc db =
    elim (Bool-cases (ip_allowed nets ip)) [
      | inr stranger ↦ rw stranger (turned_away (authorized base64 c header))
      | inl known ↦ elim (Bool-cases (authorized base64 c header)) [
        | inr refused ↦ rw (known, refused) no_login
        | inl good ↦
            let near = ip_allowed-IsNear nets ip known in
            let login = authorized-HasLogin base64 c header good in
            elim (Bool-cases (str_eq http_method "POST")) [
              | inr other ↦ rw (known, good, other) (not_post near login)
              | inl posted ↦
                  rw (known, good, posted, or_system-still)
                    (let_in (handle_body c rpc db).1 near login
                      ((eq_iff http_method "POST").0 posted) (handle_body-Body c rpc db))
            ]
      ]
    ]
