-- ===== src/Inventory/Policy/Rules.antt =====
-- internal/accountinventory/policy.go: the rules of each section.
use c_panel_self_migration.Prelude.{
  Bool, false, not, ◌||◌, ◌&&◌, List, [], ◌∷◌, ◌++◌, map, any, all, Bytes, lit, eqb, is_empty,
  has_prefix, contains, drop, length, split, if◌then◌else◌,
}
use c_panel_self_migration.Events.Redact.{Unicode}
use c_panel_self_migration.Inventory.Diff.{DiffEntry, DiffFieldChange, SectionDiff}
use c_panel_self_migration.Inventory.Diff.Items.{arrow}
use c_panel_self_migration.Inventory.Policy.{
  Severity, info, warning, review, blocker, PolicyFinding, on_removed, on_changed, on_added,
  on_section, from_to, field_from_to,
}

-- The rules for the entries of one side, the changes and the entries of the other, in that order.
abbrev pub findings_of :
    (DiffEntry → PolicyFinding)
    → (DiffFieldChange → PolicyFinding)
    → (DiffEntry → PolicyFinding)
    → SectionDiff
    → List PolicyFinding
findings_of removed changed added sec =
    map removed sec.removed ++ (map changed sec.changed ++ map added sec.added)

unfoldable pub eval_simple :
    (section id_prefix : Bytes) → Severity → SectionDiff → List PolicyFinding
eval_simple section id_prefix removed_severity =
    findings_of (λ e. on_removed section (id_prefix ++ lit "-REMOVED") removed_severity e.detail e)
      (λ c. on_changed section (id_prefix ++ lit "-CHANGED") review (field_from_to c) c)
      (λ e. on_added section (id_prefix ++ lit "-ADDED") info e.detail e)

unfoldable pub removed_domain : DiffEntry → PolicyFinding
removed_domain e =
    if eqb e.detail (lit "main")
    then on_removed (lit "domains") (lit "POL-DOMAIN-MAIN-REMOVED") blocker (lit "type: main") e
    else on_removed (lit "domains") (lit "POL-DOMAIN-REMOVED") review (lit "type: " ++ e.detail) e

unfoldable pub changed_domain : DiffFieldChange → PolicyFinding
changed_domain c =
    if eqb c.field (lit "document_root")
    then on_changed (lit "domains") (lit "POL-DOMAIN-DOCROOT-CHANGED") info (from_to c) c
    else on_changed (lit "domains") (lit "POL-DOMAIN-TYPE-CHANGED") review (field_from_to c) c

unfoldable pub eval_domains : SectionDiff → List PolicyFinding
unfolding removed_domain changed_domain
eval_domains =
    findings_of removed_domain changed_domain
      (λ e. on_added (lit "domains") (lit "POL-DOMAIN-ADDED") info (lit "type: " ++ e.detail) e)

unfoldable pub eval_databases : SectionDiff → List PolicyFinding
eval_databases =
    findings_of (λ e. on_removed (lit "databases") (lit "POL-DB-REMOVED") blocker e.detail e)
      (λ c. on_changed (lit "databases") (lit "POL-DB-USERS-CHANGED") review (field_from_to c) c)
      (λ e. on_added (lit "databases") (lit "POL-DB-ADDED") info e.detail e)

unfoldable pub eval_php : SectionDiff → List PolicyFinding
eval_php =
    findings_of (λ e. on_removed (lit "php") (lit "POL-PHP-REMOVED") review e.detail e)
      (λ c. on_changed (lit "php") (lit "POL-PHP-CHANGED") review (from_to c) c)
      (λ e. on_added (lit "php") (lit "POL-PHP-ADDED") info e.detail e)

unfoldable pub is_mail_routing_type : Bytes → Bool
is_mail_routing_type t = eqb t (lit "MX") || eqb t (lit "NS")

-- The third word of a key, if the first is `zone`.
abbrev pub third_word : List Bytes → Bytes
third_word (zone ∷ name ∷ kind ∷ rest) = if eqb zone (lit "zone") then kind else []
third_word _ = []

unfoldable pub removed_record : (kind : Bytes) → DiffEntry → PolicyFinding
unfolding is_mail_routing_type
removed_record kind e =
    if is_empty kind
    then on_removed (lit "dns") (lit "POL-DNS-ZONE-REMOVED") blocker e.detail e
    else if is_mail_routing_type kind
    then on_removed (lit "dns") (lit "POL-DNS-" ++ (kind ++ lit "-REMOVED")) blocker e.detail e
    else on_removed (lit "dns") (lit "POL-DNS-RECORD-REMOVED") review e.detail e

unfoldable pub changed_record : (kind : Bytes) → DiffFieldChange → PolicyFinding
unfolding is_mail_routing_type
changed_record kind c =
    if is_mail_routing_type kind
    then on_changed (lit "dns") (lit "POL-DNS-" ++ (kind ++ lit "-CHANGED")) blocker (from_to c) c
    else if eqb kind (lit "SOA")
    then on_changed (lit "dns") (lit "POL-DNS-SOA-CHANGED") info (from_to c) c
    else on_changed (lit "dns") (lit "POL-DNS-RECORD-CHANGED") review (from_to c) c

unfoldable pub added_record : (kind : Bytes) → DiffEntry → PolicyFinding
unfolding is_mail_routing_type
added_record kind e =
    if is_empty kind
    then on_added (lit "dns") (lit "POL-DNS-ZONE-ADDED") info e.detail e
    else if is_mail_routing_type kind
    then on_added (lit "dns") (lit "POL-DNS-MAIL-RECORD-ADDED") review e.detail e
    else on_added (lit "dns") (lit "POL-DNS-RECORD-ADDED") info e.detail e

unfoldable pub removed_cron : DiffEntry → PolicyFinding
removed_cron e =
    if contains e.detail (lit "enabled=false")
    then on_removed (lit "cron") (lit "POL-CRON-DISABLED-REMOVED") info e.detail e
    else on_removed (lit "cron") (lit "POL-CRON-ENABLED-REMOVED") blocker e.detail e

unfoldable pub changed_cron : DiffFieldChange → PolicyFinding
changed_cron c =
    on_changed (lit "cron")
      (if eqb c.field (lit "enabled")
        then lit "POL-CRON-ENABLED-CHANGED"
        else lit "POL-CRON-SCHEDULE-CHANGED")
      review (field_from_to c) c

unfoldable pub eval_cron : SectionDiff → List PolicyFinding
unfolding removed_cron changed_cron
eval_cron =
    findings_of removed_cron changed_cron
      (λ e. on_added (lit "cron") (lit "POL-CRON-ADDED") info e.detail e)

abbrev cms_prefix : Bytes
cms_prefix = lit "rewrite/temporary/- "

-- `strings.TrimPrefix`
unfoldable pub trim_prefix : Bytes → Bytes → Bytes
trim_prefix s prefix = if has_prefix s prefix then drop (length prefix) s else s

unfoldable pub is_cms_rewrite_detail : Bytes → Bool
unfolding trim_prefix
is_cms_rewrite_detail detail =
    let dest = trim_prefix detail (cms_prefix ++ (arrow ++ lit " ")) in
    if not (has_prefix detail cms_prefix)
    then false
    else not (has_prefix dest (lit "http://"))
      && not (has_prefix dest (lit "https://"))
      && not (has_prefix dest (lit "//"))

unfoldable pub removed_redirect : DiffEntry → PolicyFinding
unfolding is_cms_rewrite_detail
removed_redirect e =
    if is_cms_rewrite_detail e.detail
    then on_removed (lit "redirects") (lit "POL-REDIRECT-CMS-REMOVED") info e.detail e
    else on_removed (lit "redirects") (lit "POL-REDIRECT-REMOVED") review e.detail e

unfoldable pub eval_redirects : SectionDiff → List PolicyFinding
unfolding removed_redirect
eval_redirects =
    findings_of removed_redirect
      (λ c. on_changed (lit "redirects") (lit "POL-REDIRECT-CHANGED") review (field_from_to c) c)
      (λ e. on_added (lit "redirects") (lit "POL-REDIRECT-ADDED") info e.detail e)

unfoldable pub eval_section_warnings : Bytes → SectionDiff → List PolicyFinding
eval_section_warnings section sec =
    map (on_section section (lit "POL-SECTION-UNAVAILABLE") review) sec.skipped
    ++ map (on_section section (lit "POL-DIFF-WARNING") warning) sec.warnings

-- `words` is `strings.Fields`.
module _ (u : Unicode) (words : Bytes → List Bytes) where
  unfoldable pub dns_key_type : Bytes → Bytes
  dns_key_type key = third_word (words key)

  unfoldable pub eval_dns : SectionDiff → List PolicyFinding
  unfolding dns_key_type removed_record changed_record added_record
  eval_dns =
      findings_of (λ e. removed_record (dns_key_type e.key) e)
        (λ c. changed_record (dns_key_type c.key) c) (λ e. added_record (dns_key_type e.key) e)

  -- Every domain that a certificate lists is gone.
  unfoldable pub all_gone : List DiffEntry → Bytes → Bool
  all_gone removed_domains key =
      all (λ dom. any (λ e. eqb e.key (u.trim_space dom)) removed_domains) (split b',' key)

  unfoldable pub removed_ssl : List DiffEntry → DiffEntry → PolicyFinding
  unfolding all_gone
  removed_ssl removed_domains e =
      if is_empty e.key
      then record (on_removed (lit "ssl") (lit "POL-SSL-REMOVED") blocker
          (lit "certificate entry carries no domain list "
            ++ (226 ∷ 128 ∷ 148 ∷ lit " verify manually"))
          e) { source_ref = lit "(no domain list)" }
      else if all_gone removed_domains e.key
      then on_removed (lit "ssl") (lit "POL-SSL-REMOVED-WITH-DOMAIN") info e.detail e
      else on_removed (lit "ssl") (lit "POL-SSL-REMOVED") blocker e.detail e

  unfoldable pub eval_ssl : List DiffEntry → SectionDiff → List PolicyFinding
  unfolding removed_ssl
  eval_ssl removed_domains =
      findings_of (removed_ssl removed_domains)
        (λ c. on_changed (lit "ssl") (lit "POL-SSL-CHANGED") review (field_from_to c) c)
        (λ e. on_added (lit "ssl") (lit "POL-SSL-ADDED") info e.detail e)
