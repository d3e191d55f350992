-- ===== src/Tests/Inventories.antt =====
-- Tests of the comparison of inventories, of its policy and of the plan of cron jobs of
-- internal/accountinventory.
use c_panel_self_migration.Strconv.{pos}
use c_panel_self_migration.Prelude.{
  some, none, joined, replicate, true, List, [], ◌∷◌, lit, eqb, contains, any, All, ◌≡◌, refl, not,
  ◌&&◌,
}
use c_panel_self_migration.Sorting.{text_less, sort_by}
use c_panel_self_migration.Inventory.{
  ConfigSection, CronJobEntry, CronEnvEntry, NormalizedInventory,
}
use c_panel_self_migration.Inventory.Diff.{KeyedItem, diff_keyed, has_key}
use c_panel_self_migration.Inventory.Diff.Inventories.{diff_inventories}
use c_panel_self_migration.Inventory.Diff.Exact.{
  last_at, is_named, is_change, is_changed_between, diff_keyed_iff,
}
use c_panel_self_migration.Inventory.Policy.{ready}
use c_panel_self_migration.Inventory.Policy.Evaluate.{evaluate_policy}
use c_panel_self_migration.Inventory.Policy.Ready.{worst, evaluate_policy-overall_status}
use c_panel_self_migration.Inventory.Policy.Quiet.{IsCarried, IsKept, IsListed}
use c_panel_self_migration.Inventory.Policy.Carried.{
  status_of, IsCopied, ready-IsCarried, ready-IsCopied,
}
use c_panel_self_migration.Inventory.CronPlan.{build_cron_plan, adapt_cron_path, cron_job_line}
use c_panel_self_migration.Inventory.CronPlan.Justified.{is_justified}
use c_panel_self_migration.Inventory.CronPlan.Creates.{build_cron_plan-is_justified}
use c_panel_self_migration.Inventory.CronPlan.Coverage.{
  with_jobs, creates_line, build_cron_plan-repeated_job, build_cron_plan-creates_line,
}
use c_panel_self_migration.Inventory.Diff.{
  field_at, item_at, put_item, index_items, entry_before, change_before, sort_section_diff, only_in,
  changed_fields, changes, duplicates, skip_unavailable, diff_config_keyed,
}
use c_panel_self_migration.Inventory.Diff.Items.{
  join_with, domain_items, mailbox_items, database_items, forwarder_items, trim_newlines,
  normalize_autoresponder_body, autoresponder_charset, autoresponder_items, ftp_items, ssl_items,
  php_items, email_routing_items, default_address_items, email_filter_items, redirect_items,
}
use c_panel_self_migration.Inventory.Diff.Dns.{
  canonical_dns_value, put_zone, index_zones, zone_at, add_value, collect_sets, group_records,
  set_at, compare_set, display_set, sets_only_in, changed_sets, diff_zone_records, zone_entry,
  added_zones, compare_zone, compared_zones, diff_dns,
}
use c_panel_self_migration.Inventory.Diff.Cron.{
  cron_schedule, add_job, group_jobs, group_at, slot_detail, groups_only_in, add_slot, count_slots,
  slot_count, missing_slots, compare_jobs, compare_slots, compare_groups, compared_groups,
  diff_cron,
}
use c_panel_self_migration.Inventory.Diff.Inventories.{section_at, add_sections, diff_sections}
use c_panel_self_migration.Inventory.Policy.Rules.{
  eval_simple, removed_domain, changed_domain, eval_domains, eval_databases, eval_php,
  is_mail_routing_type, removed_record, changed_record, added_record, removed_cron, changed_cron,
  eval_cron, trim_prefix, is_cms_rewrite_detail, removed_redirect, eval_redirects,
  eval_section_warnings, dns_key_type, eval_dns, all_gone, removed_ssl, eval_ssl,
}
use c_panel_self_migration.Inventory.Policy.Evaluate.{summarize, overall, eval_sections}
use c_panel_self_migration.Inventory.{DnsRecordEntry}
use c_panel_self_migration.Inventory.DnsPlan.{Net, IpMap}
use c_panel_self_migration.Inventory.DnsPlan.Zone.{build_dns_plan}
use c_panel_self_migration.Inventory.DnsPlan.Writes.{IsSafeResult, build_dns_plan-IsSafeResult}
use c_panel_self_migration.Inventory.DnsPlan.Txt.{
  split_txt_segments, AreShort, split_txt_segments-joined,
}
use c_panel_self_migration.Tests.Library.{plain_unicode, plain_quote, space_words}

abbrev unlisted : {Item : Type 0} → ConfigSection Item
unlisted = record { available = true; items = [] }

abbrev nightly : CronJobEntry
nightly = record {
  kind = lit "schedule";
  minute = lit "0";
  hour = lit "3";
  day_of_month = lit "*";
  month = lit "*";
  day_of_week = lit "*";
  macro = [];
  command_redacted = lit "/home/a/run";
  command_clear = lit "/home/a/run";
  command_sha256 = lit "s1";
  raw_line = [];
  enabled = true;
  command_collected = true;
}

abbrev hourly : CronJobEntry
hourly = record nightly { hour = lit "*" }

abbrev mail_to : CronEnvEntry
mail_to = record {
  name = lit "MAILTO";
  value_redacted = lit "x";
  value_clear = lit "me";
  value_collected = true;
}

abbrev site : NormalizedInventory
site = record {
  user = lit "a";
  domains = record { name = lit "a.it"; kind = lit "main"; document_root = lit "/home/a/w" } ∷ [];
  mailboxes = record { email = lit "m@a.it" } ∷ [];
  databases = record { name = lit "a_wp"; users = lit "a_u" ∷ [] } ∷ [];
  forwarders = [];
  autoresponders = [];
  ftp = record {
    available = true;
    items = record { login = lit "f"; kind = lit "sub"; dir = lit "d" } ∷ [];
  };
  ssl = unlisted;
  php = unlisted;
  dns = unlisted;
  cron = record { available = true; jobs = nightly ∷ []; environment = mail_to ∷ [] };
  email_routing = unlisted;
  default_addresses = unlisted;
  email_filters = unlisted;
  redirects = unlisted;
}

abbrev empty_host : NormalizedInventory
empty_host = record site {
  user = lit "b";
  cron = record { available = true; jobs = []; environment = [] };
}

abbrev left : List KeyedItem
left =
    record { key = lit "k"; detail = []; fields = (lit "f", lit "1") ∷ [] }
    ∷ record { key = lit "g"; detail = []; fields = [] }
    ∷ []

abbrev right : List KeyedItem
right = record { key = lit "k"; detail = []; fields = (lit "f", lit "2") ∷ [] } ∷ []

diff_keyed_iff_example :
    let sec = diff_keyed plain_quote left right in
    (any (is_named (lit "k")) sec.removed
      ≡ (has_key (lit "k") left && not (has_key (lit "k") right)))
    × (any (is_named (lit "k")) sec.added
        ≡ (has_key (lit "k") right && not (has_key (lit "k") left)))
    × (any (is_change (lit "k") (lit "f")) sec.changed
        ≡ is_changed_between (lit "k") (lit "f") (last_at (lit "k") left) (last_at (lit "k") right))
    × (sec.skipped ≡ [])
diff_keyed_iff_example = diff_keyed_iff plain_quote left right (lit "k") (lit "f")

evaluate_policy-overall_status_example :
    let report =
      evaluate_policy plain_unicode space_words
        (diff_inventories plain_quote plain_unicode site empty_host).sections in
    report.overall_status ≡ worst report.findings
evaluate_policy-overall_status_example =
    evaluate_policy-overall_status plain_unicode space_words
      (diff_inventories plain_quote plain_unicode site empty_host).sections

site-ready : status_of plain_quote plain_unicode space_words site site ≡ ready
unfolding field_at has_key item_at put_item index_items entry_before change_before sort_section_diff
    only_in changed_fields changes duplicates diff_keyed skip_unavailable diff_config_keyed
    join_with domain_items mailbox_items database_items forwarder_items trim_newlines
    normalize_autoresponder_body autoresponder_charset autoresponder_items ftp_items ssl_items
    php_items email_routing_items default_address_items email_filter_items redirect_items
    canonical_dns_value put_zone index_zones zone_at add_value collect_sets group_records set_at
    compare_set display_set sets_only_in changed_sets diff_zone_records zone_entry added_zones
    compare_zone compared_zones diff_dns cron_schedule add_job group_jobs group_at slot_detail
    groups_only_in add_slot count_slots slot_count missing_slots compare_jobs compare_slots
    compare_groups compared_groups diff_cron section_at add_sections diff_sections diff_inventories
    eval_simple removed_domain changed_domain eval_domains eval_databases eval_php
    is_mail_routing_type removed_record changed_record added_record removed_cron changed_cron
    eval_cron trim_prefix is_cms_rewrite_detail removed_redirect eval_redirects
    eval_section_warnings dns_key_type eval_dns all_gone removed_ssl eval_ssl summarize overall
    eval_sections evaluate_policy lit eqb sort_by text_less
site-ready = refl

ready-IsCarried_example :
    let key = lit "m@a.it" in
    let f = lit "users" in
    IsCarried key (domain_items site.domains) (domain_items site.domains)
    × IsCarried key (mailbox_items site.mailboxes) (mailbox_items site.mailboxes)
    × IsKept key f (mailbox_items site.mailboxes) (mailbox_items site.mailboxes)
    × IsCarried key (database_items site.databases) (database_items site.databases)
    × IsKept key f (database_items site.databases) (database_items site.databases)
    × IsCarried key (forwarder_items site.forwarders) (forwarder_items site.forwarders)
    × IsCarried key
        (autoresponder_items plain_unicode site.autoresponders)
        (autoresponder_items plain_unicode site.autoresponders)
    × IsKept key f
        (autoresponder_items plain_unicode site.autoresponders)
        (autoresponder_items plain_unicode site.autoresponders)
ready-IsCarried_example =
    ready-IsCarried plain_quote plain_unicode space_words site site (lit "m@a.it") (lit "users")
      site-ready

ready-IsCopied_example :
    let key = lit "f" in
    let f = lit "dir" in
    IsCopied key f ftp_items site.ftp site.ftp
    × IsCopied key f email_routing_items site.email_routing site.email_routing
    × IsCopied key f default_address_items site.default_addresses site.default_addresses
    × IsCopied key f email_filter_items site.email_filters site.email_filters
    × IsListed site.ssl site.ssl
    × IsListed site.php site.php
    × IsListed site.dns site.dns
    × ((site.cron.available && site.cron.available) ≡ true)
    × IsListed site.redirects site.redirects
ready-IsCopied_example =
    ready-IsCopied plain_quote plain_unicode space_words site site (lit "f") (lit "dir") site-ready

build_cron_plan-is_justified_example :
    All (λ op. is_justified site empty_host op ≡ true) (build_cron_plan site empty_host).ops
build_cron_plan-is_justified_example = build_cron_plan-is_justified site empty_host

build_cron_plan-creates_line_example :
    any (creates_line (lit "0 3 * * * /home/b/run")) (build_cron_plan site empty_host).ops ≡ true
unfolding lit adapt_cron_path contains cron_job_line eqb
build_cron_plan-creates_line_example =
    build_cron_plan-creates_line site empty_host [] nightly [] refl refl refl refl refl refl

-- The second schedule of the command is lost.
build_cron_plan-repeated_job_example :
    build_cron_plan (with_jobs site (nightly ∷ hourly ∷ [])) empty_host
    ≡ build_cron_plan (with_jobs site (nightly ∷ [])) empty_host
unfolding lit eqb
build_cron_plan-repeated_job_example =
    build_cron_plan-repeated_job site empty_host (nightly ∷ []) hourly [] refl

-- Every text is an address, and is valid.
abbrev plain_net : Net
plain_net = record { to_upper = λ s. s; parse_addr = λ s. some s; valid_utf8 = λ s. true }

abbrev www : DnsRecordEntry
www = record {
  kind = lit "A";
  name = lit "www";
  ttl = pos 14400;
  value = [];
  priority = pos 0;
  exchange = [];
  address = lit "1.2.3.4";
  target = [];
  txt_data = [];
}

abbrev with_zone : List DnsRecordEntry → NormalizedInventory
with_zone records = record site {
  dns = record {
    available = true;
    items = record { available = true; zone = lit "a.it"; records = records } ∷ [];
  };
}

abbrev moved : IpMap
moved = (lit "1.2.3.4", lit "5.6.7.8") ∷ []

build_dns_plan-IsSafeResult_example :
    IsSafeResult plain_unicode plain_net
      (with_zone (www ∷ []))
      (with_zone [])
      moved
      (build_dns_plan plain_unicode plain_net (with_zone (www ∷ [])) (with_zone []) none moved)
build_dns_plan-IsSafeResult_example =
    build_dns_plan-IsSafeResult plain_unicode plain_net (with_zone (www ∷ [])) (with_zone []) moved
      none

split_txt_segments-joined_example :
    (joined (split_txt_segments (replicate 300 b'a')) ≡ replicate 300 b'a')
    × AreShort 255 (split_txt_segments (replicate 300 b'a'))
split_txt_segments-joined_example = split_txt_segments-joined (replicate 300 b'a')
