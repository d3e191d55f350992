-- ===== src/Inventory/DnsPlan/Translate.antt =====
-- internal/accountinventory/dnsplan.go: the records to be written, with the addresses translated.
use c_panel_self_migration.Prelude.{
  ℕ, zero, suc, ◌-◌, Bool, not, ◌||◌, List, [], ◌∷◌, ◌++◌, any, map, length, Bytes, lit, eqb,
  has_prefix, ltb, ◌==◌, if◌then◌else◌, Option, none, some,
}
use c_panel_self_migration.Strconv.{format_int}
use c_panel_self_migration.Events.Redact.{Unicode}
use c_panel_self_migration.Sorting.{text_less, sort_by, sort_texts}
use c_panel_self_migration.Inventory.{DnsRecordEntry}
use c_panel_self_migration.Inventory.DnsPlan.{
  Net, PlanRecord, IpMap, address_at, canon_dns_name, canon_ip_string, cap_ttl,
}
use c_panel_self_migration.Inventory.DnsPlan.Txt.{split_txt_segments}

pub record TranslatedRecord : Type 0 where
  pub plan_record : PlanRecord
  pub value : Bytes
  pub capped : Bool

-- The address of an A or AAAA record that the map lacks, or the translated record.
pub data Translation : Type 0 where
  unmapped : (address : Bytes) → Translation
  translated : TranslatedRecord → Translation

-- A set of texts is a list that has each once.
unfoldable pub add_text : Bytes → List Bytes → List Bytes
add_text s texts = if any (eqb s) texts then texts else s ∷ texts

abbrev pub is_address_type : Bytes → Bool
is_address_type kind = eqb kind (lit "A") || eqb kind (lit "AAAA")

module _ (u : Unicode) (net : Net) (zone : Bytes) (kind : Bytes) (m : IpMap) where
  abbrev pub translated_to :
      DnsRecordEntry → (data_texts : List Bytes) → (value : Bytes) → Translation
  translated_to r data_texts value = translated (record {
    plan_record = record {
      name = canon_dns_name u r.name zone;
      kind = kind;
      ttl = (cap_ttl r.ttl).0;
      data_texts = data_texts;
    };
    value = value;
    capped = (cap_ttl r.ttl).1;
  })

  abbrev pub mapped_to : DnsRecordEntry → (address : Bytes) → Option Bytes → Translation
  mapped_to r address none = unmapped address
  mapped_to r address (some to) =
      translated_to r (canon_ip_string u net to ∷ []) (canon_ip_string u net to)

  -- The body of the loop of `translateRecords`.
  unfoldable pub translate_one : DnsRecordEntry → Translation
  unfolding address_at canon_dns_name canon_ip_string cap_ttl split_txt_segments
  translate_one r =
      if is_address_type kind
      then mapped_to r (canon_ip_string u net r.address)
          (address_at (canon_ip_string u net r.address) m)
      else if eqb kind (lit "CNAME")
      then translated_to r (canon_dns_name u r.target zone ∷ []) (canon_dns_name u r.target zone)
      else if eqb kind (lit "MX")
      then translated_to r (format_int r.priority ∷ canon_dns_name u r.exchange zone ∷ [])
          (format_int r.priority ++ 0 ∷ canon_dns_name u r.exchange zone)
      else if eqb kind (lit "TXT")
      then translated_to r (split_txt_segments r.txt_data) r.txt_data
      else translated_to r [] []

  unfoldable pub translated_records : List DnsRecordEntry → List TranslatedRecord
  unfolding translate_one
  translated_records [] = []
  translated_records (r ∷ records) =
      let out = translated_records records in
      elim (translate_one r) [ unmapped _ ↦ out | translated t ↦ t ∷ out ]

  unfoldable pub unmapped_addresses : List DnsRecordEntry → List Bytes
  unfolding translate_one add_text
  unmapped_addresses [] = []
  unmapped_addresses (r ∷ records) =
      let out = unmapped_addresses records in
      elim (translate_one r) [ unmapped address ↦ add_text address out | translated _ ↦ out ]

-- The first address that stands in front.
unfoldable pub first_prefix : Bytes → List Bytes → Option Bytes
first_prefix s [] = none
first_prefix s (from ∷ froms) =
    let later = first_prefix s froms in if has_prefix s from then some from else later

abbrev or_text : Option Bytes → Bytes
or_text none = []
or_text (some s) = s

-- The loop over the text, with the number of bytes that are still to be passed over.
unfoldable pub substitute_from : (froms : List Bytes) → IpMap → ℕ → Bytes → Bytes
unfolding first_prefix address_at
substitute_from froms m n [] = []
substitute_from froms m (suc n) (b ∷ s) = substitute_from froms m n s
substitute_from froms m zero (b ∷ s) = elim (first_prefix (b ∷ s) froms) [
  | none ↦ b ∷ substitute_from froms m 0 s
  | some from ↦ or_text (address_at from m) ++ substitute_from froms m (length from - 1) s
]

-- Longer addresses first.
abbrev from_before : Bytes → Bytes → Bool
from_before a b = if not (length a == length b) then ltb (length b) (length a) else text_less a b

abbrev pub keys_of : IpMap → List Bytes
keys_of [] = []
keys_of ((k, v) ∷ m) = k ∷ keys_of m

unfoldable pub translate_txt_values : List DnsRecordEntry → IpMap → List Bytes
unfolding substitute_from
translate_txt_values records m =
    let froms = sort_by from_before (keys_of m) in
    sort_texts (map (λ r. substitute_from froms m 0 r.txt_data) records)
