-- ===== src/Inventory/DnsPlan.antt =====
-- internal/accountinventory/dnsplan.go: the plan of the DNS records that the destination is to get.
-- A Go map is the list of its entries. The keys of the map of addresses are not empty: the flag
-- that fills it takes addresses only.
pub mod Txt
pub mod Translate
pub mod Classify
pub mod Findings
pub mod Zone
pub mod Writable
pub mod Gated
pub mod Writes
use c_panel_self_migration.Prelude.{
  ℕ, zero, suc, ◌+◌, ◌-◌, Bool, true, false, not, ◌||◌, ◌&&◌, List, [], ◌∷◌, ◌++◌, any, map, filter,
  length, take, drop, Bytes, lit, eqb, is_empty, has_prefix, ltb, ◌==◌, if◌then◌else◌, Option, none,
  some,
}
use c_panel_self_migration.Strconv.{ℤ, pos, negsuc, format_int}
use c_panel_self_migration.Events.Redact.{Unicode}
use c_panel_self_migration.Sorting.{sort_texts}
use c_panel_self_migration.Inventory.{DnsRecordEntry}

-- `strings.ToUpper`, the text of the address that `netip.ParseAddr` reads, and `utf8.ValidString`.
pub record Net : Type 0 where
  pub to_upper : Bytes → Bytes
  pub parse_addr : Bytes → Option Bytes
  pub valid_utf8 : Bytes → Bool

pub data DnsAction : Type 0 where
  add replace manual skip : DnsAction

pub record PlanRecord : Type 0 where
  pub name : Bytes
  pub kind : Bytes
  pub ttl : ℤ
  pub data_texts : List Bytes

pub record PlanOp : Type 0 where
  pub action : DnsAction
  pub kind : Bytes
  pub name : Bytes
  pub reason : Bytes
  pub records : List PlanRecord
  pub source_values : List Bytes
  pub destination_values : List Bytes
  pub ttl_capped : Bool

pub record PlanRrsetInfo : Type 0 where
  pub kind : Bytes
  pub name : Bytes
  pub values : List Bytes

-- `map[string]string` from addresses to addresses.
abbrev pub IpMap : Type 0
IpMap = List (Bytes × Bytes)

unfoldable pub address_at : Bytes → IpMap → Option Bytes
address_at a [] = none
address_at a ((k, v) ∷ m) = if eqb k a then some v else address_at a m

unfoldable pub plan_write_ttl_cap : ℕ
plan_write_ttl_cap = 3600

unfoldable pub host_validation_prefixes : List Bytes
host_validation_prefixes = lit "_acme-challenge" ∷ lit "_cpanel-dcv-test-record" ∷ []

unfoldable pub actionable_types : List Bytes
actionable_types = lit "A" ∷ lit "AAAA" ∷ lit "CNAME" ∷ lit "MX" ∷ lit "TXT" ∷ []

-- The last byte is a dot.
abbrev pub ends_dotted : Bytes → Bool
ends_dotted [] = false
ends_dotted (b ∷ []) = b == b'.'
ends_dotted (b ∷ c ∷ s) = ends_dotted (c ∷ s)

-- `strings.TrimSuffix(s, ".")`
abbrev pub trim_dot : Bytes → Bytes
trim_dot s = if ends_dotted s then take (length s - 1) s else s

module _ (u : Unicode) where
  unfoldable pub canon_dns_name : (name zone : Bytes) → Bytes
  canon_dns_name name zone =
      let n = u.to_lower (u.trim_space name) in
      let z = trim_dot (u.to_lower (u.trim_space zone)) ++ lit "." in
      if is_empty n || eqb n (lit "@")
      then z
      else if ends_dotted n
      then n
      else if eqb n (trim_dot z)
      then z
      else n ++ (lit "." ++ z)

  abbrev or_lower : Bytes → Option Bytes → Bytes
  or_lower s (some a) = a
  or_lower s none = s

  unfoldable pub canon_ip_string : Net → Bytes → Bytes
  canon_ip_string net s = or_lower (u.to_lower (u.trim_space s)) (net.parse_addr (u.trim_space s))

unfoldable pub leftmost_label : Bytes → Bytes
leftmost_label [] = []
leftmost_label (b ∷ s) = let rest = leftmost_label s in if b == b'.' then [] else b ∷ rest

unfoldable pub is_host_validation_name : Bytes → Bool
unfolding leftmost_label host_validation_prefixes
is_host_validation_name canonical = any (eqb (leftmost_label canonical)) host_validation_prefixes

unfoldable pub cap_ttl : ℤ → ℤ × Bool
unfolding plan_write_ttl_cap
cap_ttl (negsuc n) = (pos plan_write_ttl_cap, true)
cap_ttl (pos n) =
    if (n == 0) || ltb plan_write_ttl_cap n then (pos plan_write_ttl_cap, true) else (pos n, false)

-- `rrsetKey` with the records of the set.
pub record Rrset : Type 0 where
  pub kind : Bytes
  pub name : Bytes
  pub records : List DnsRecordEntry

abbrev pub is_rrset : (kind name : Bytes) → Rrset → Bool
is_rrset kind name set = eqb set.kind kind && eqb set.name name

unfoldable pub rrset_at : (kind name : Bytes) → List Rrset → Option Rrset
rrset_at kind name [] = none
rrset_at kind name (set ∷ sets) =
    if is_rrset kind name set then some set else rrset_at kind name sets

unfoldable pub add_record : (kind name : Bytes) → DnsRecordEntry → List Rrset → List Rrset
add_record kind name r [] = record { kind = kind; name = name; records = r ∷ [] } ∷ []
add_record kind name r (set ∷ sets) =
    let rest = add_record kind name r sets in
    if is_rrset kind name set
    then record set { records = set.records ++ r ∷ [] } ∷ sets
    else set ∷ rest

-- `valuesEqual`
unfoldable pub values_equal : (a b : List Bytes) → Bool
values_equal [] [] = true
values_equal (a ∷ vs) (b ∷ ws) = eqb a b && values_equal vs ws
values_equal _ _ = false

module _ (u : Unicode) (net : Net) (zone : Bytes) where
  unfoldable pub plan_value : DnsRecordEntry → Bytes
  unfolding canon_ip_string canon_dns_name
  plan_value r =
      if eqb r.kind (lit "A") || eqb r.kind (lit "AAAA")
      then canon_ip_string u net r.address
      else if eqb r.kind (lit "CNAME") || eqb r.kind (lit "NS")
      then canon_dns_name u r.target zone
      else if eqb r.kind (lit "MX")
      then format_int r.priority ++ 0 ∷ canon_dns_name u r.exchange zone
      else if eqb r.kind (lit "TXT")
      then r.txt_data
      else r.value

  unfoldable pub group_rrsets : List Rrset → List DnsRecordEntry → List Rrset
  unfolding add_record canon_dns_name
  group_rrsets g [] = g
  group_rrsets g (r ∷ records) =
      group_rrsets (add_record (net.to_upper r.kind) (canon_dns_name u r.name zone) r g) records

  unfoldable pub sorted_values : List DnsRecordEntry → List Bytes
  unfolding plan_value
  sorted_values records = sort_texts (map plan_value records)
