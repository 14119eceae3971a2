-- ===== src/Billing/Paynet/Guards.antt =====
-- Who may call, and whom a call is about (billing/providers/paynet/paynet.provider.ts).
use Prim.Native.String.{◌++◌}
use qayoda_backend.Base.{
  ℕ, ◌+◌, ◌-◌, ◌*◌, ◌/◌, ◌^◌, Bool, true, false, not, ◌&&◌, ◌||◌, Option, none, some, String, List,
  [], ◌∷◌, map, ltb, leb, ◌==◌, if◌then◌else◌, is_some, or_default, str_eq, any, select, find?,
  length, pos, ◌⊎◌, inl, inr,
}
use qayoda_backend.Base.Text.{
  codes, trim, trim_text, uuid_of_codes, digits_from, number_of_codes, nonzero_number, after_prefix,
  same_bytes, split_at, is_blank,
}
use qayoda_backend.Billing.Types.{User, UserStatus, FiscalStatus, by_provider, max_safe_integer}
use qayoda_backend.Billing.Store.{Db}
use qayoda_backend.Billing.Wallet.{find_user}
use qayoda_backend.Billing.Json.{Value, undefined, number, text, string_of, show_ℕ, is_undefined}
use qayoda_backend.Billing.Paynet.Protocol.{
  PaynetCode, client_not_found, missing_fields, payer_forbidden, PaynetFields, PaynetConfig,
}

-- `s.split(',').map(trim).filter(Boolean)`
abbrev pub entries : String → List (List ℕ)
entries s = select (λ e. not (is_blank e)) (map trim (split_at b',' (codes s)))

unfoldable pub service_ok : PaynetConfig → Value → Bool
service_ok c v =
    any (λ e. same_bytes e (codes (string_of v))) (entries (or_default c.service_id ""))

-- `base64` is Node's decoder of the header's credentials.
unfoldable pub authorized : (List ℕ → List ℕ) → PaynetConfig → Option String → Bool
authorized base64 c header =
    let user = or_default c.username "" in
    let pass = or_default c.password "" in
    if str_eq user "" || str_eq pass "" then false else elim header [
      | none ↦ false
      | some h ↦ elim (after_prefix (codes "Basic ") (codes h)) [
        | none ↦ false
        | some given ↦ same_bytes (codes (user ++ ":" ++ pass)) (base64 (trim given))
      ]
    ]

-- `/^\d{1,3}$/` and at most 255.
abbrev octet : List ℕ → Option ℕ
octet cs =
    if is_blank cs || ltb 3 (length cs)
    then none
    else elim (digits_from 0 cs) [ none ↦ none | some o ↦ if leb o 255 then some o else none ]

-- The octets, read on from a value.
abbrev octets : ℕ → List (List ℕ) → Option ℕ
octets acc [] = some acc
octets acc (p ∷ ps) = elim (octet p) [ none ↦ none | some o ↦ octets (acc * 256 + o) ps ]

unfoldable pub ipv4_to_int : List ℕ → Option ℕ
ipv4_to_int cs = let parts = split_at b'.' cs in if length parts == 4 then octets 0 parts else none

-- A network: its first address, and the number of bits below the mask.
pub record Net : Type 0 where
  pub base : ℕ
  pub low_bits : ℕ

-- `(n & mask) >>> 0`, where the mask clears the low bits.
abbrev pub masked : ℕ → ℕ → ℕ
masked n low = n / 2 ^ low * 2 ^ low

abbrev net_of : Option ℕ → Option ℕ → Option Net
net_of (some n) (some b) =
    if leb b 32 then some (record { base = masked n (32 - b); low_bits = 32 - b }) else none
net_of _ _ = none

-- `none` is a throw.
unfoldable pub parse_cidr : List ℕ → Option Net
unfolding ipv4_to_int number_of_codes
parse_cidr cs = elim (split_at b'/' cs) [
  | [] ↦ none
  | base ∷ [] ↦ net_of (ipv4_to_int base) (some 32)
  | base ∷ bits ∷ _ ↦ net_of (ipv4_to_int base) (number_of_codes bits)
]

abbrev all_nets : List (List ℕ) → Option (List Net)
all_nets [] = some []
all_nets (e ∷ es) = elim (parse_cidr (trim e)) [
  | none ↦ none
  | some n ↦ elim (all_nets es) [ none ↦ none | some ns ↦ some (n ∷ ns) ]
]

-- `DEFAULT_ALLOWED_IPS`
abbrev pub default_allowed_ips : String
default_allowed_ips =
    "109.207.244.62,62.209.139.94,109.207.244.94,89.236.220.222,91.196.76.52,94.158.63.240"

-- The constructor's `allowedNets`; `none` is a throw.
unfoldable pub allowed_nets : PaynetConfig → Option (List Net)
unfolding parse_cidr
allowed_nets c =
    let list = or_default c.allowed_ips default_allowed_ips in
    if str_eq (trim_text list) "*" then some [] else all_nets (split_at b',' (codes list))

-- `ip.replace(/^::ffff:/, '')`
abbrev pub without_prefix : List ℕ → List ℕ
without_prefix cs = or_default (after_prefix (codes "::ffff:") cs) cs

abbrev pub in_net : ℕ → Net → Bool
in_net n net = masked n net.low_bits == net.base

unfoldable pub ip_allowed : List Net → Option String → Bool
unfolding ipv4_to_int
ip_allowed [] ip = true
ip_allowed (net ∷ nets) none = false
ip_allowed (net ∷ nets) (some ip) = elim (ipv4_to_int (without_prefix (codes ip))) [
  | none ↦ false
  | some n ↦ any (in_net n) (net ∷ nets)
]

-- The reference of a transaction, if it is one.
abbrev txn_text : String → Option String
txn_text s = if is_some (nonzero_number 18 (codes s)) then some s else none

unfoldable pub txn_id_of : Value → Option String
unfolding nonzero_number show_ℕ
txn_id_of (text s) = txn_text (trim_text s)
txn_id_of (number (pos n)) = if leb n max_safe_integer then txn_text (show_ℕ n) else none
txn_id_of _ = none

-- The name of a field as its code points, which `fields[name]` compares.
abbrev field_by_codes : PaynetFields → List ℕ → Value
field_by_codes [] name = undefined
field_by_codes ((key, v) ∷ rest) name =
    let later = field_by_codes rest name in if same_bytes (codes key) name then v else later

-- The first of the configured fields that is present.
abbrev account_value : List (List ℕ) → PaynetFields → Value
account_value [] fields = undefined
account_value (n ∷ ns) fields =
    let v = field_by_codes fields n in
    let later = account_value ns fields in if is_undefined v then later else v

-- A text or a number, without the spaces around it.
abbrev account_ref : Value → List ℕ
account_ref (text s) = trim (codes s)
account_ref (number n) = trim (codes (string_of (number n)))
account_ref _ = []

-- The user of an account number or of an id, among those that are not deleted.
abbrev user_of_ref : List ℕ → Db → Option User
user_of_ref ref db = elim (nonzero_number 9 ref) [
  | some k ↦ find? (λ u. u.account_no == k && not (is_some u.deleted_at)) db.users
  | none ↦ elim (uuid_of_codes ref) [ none ↦ none | some id ↦ find_user id db ]
]

abbrev not_banned : Option User → PaynetCode ⊎ User
not_banned none = inl client_not_found
not_banned (some u) = elim u.status [
  | UserStatus.banned ↦ inl payer_forbidden
  | UserStatus.active ↦ inr u
]

unfoldable pub find_payer : PaynetConfig → PaynetFields → Db → PaynetCode ⊎ User
unfolding nonzero_number uuid_of_codes string_of
find_payer c fields db =
    let ref =
      account_ref
        (account_value (entries (or_default c.account_field "client_id,user_id")) fields) in
    if is_blank ref then inl missing_fields else not_banned (user_of_ref ref db)

-- The receipts are Paynet's where it is configured so.
unfoldable pub fiscal_status : PaynetConfig → FiscalStatus
fiscal_status c =
    if str_eq (or_default c.fiscal "") "BY_PROVIDER" then by_provider else FiscalStatus.none

abbrev initial : String → String
initial String.[] = ""
initial (String.◌∷◌ c s) = String.◌∷◌ c "."

-- Enough of a name to confirm it: the first name and the initial of the last.
unfoldable pub mask_name : User → String
mask_name u =
    let first = trim_text (or_default u.name "") in
    let last = trim_text (or_default u.surname "") in
    if str_eq first "" && str_eq last ""
    then "-"
    else if str_eq last ""
    then first
    else if str_eq first ""
    then initial last
    else first ++ " " ++ initial last
