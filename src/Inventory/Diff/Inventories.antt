-- ===== src/Inventory/Diff/Inventories.antt =====
-- internal/accountinventory/diff.go: `DiffInventories`. The names of the files, their digests and the
-- time are the caller's.
use c_panel_self_migration.Prelude.{
  ℕ, ◌+◌, List, [], ◌∷◌, length, Bytes, lit, eqb, if◌then◌else◌, Option, none, some,
}
use c_panel_self_migration.Events.Redact.{Unicode}
use c_panel_self_migration.Inventory.{ConfigSection, NormalizedInventory}
use c_panel_self_migration.Inventory.Diff.{KeyedItem, SectionDiff, diff_keyed, diff_config_keyed}
use c_panel_self_migration.Inventory.Diff.Items.{
  domain_items, mailbox_items, database_items, forwarder_items, autoresponder_items, ftp_items,
  ssl_items, php_items, email_routing_items, default_address_items, email_filter_items,
  redirect_items,
}
use c_panel_self_migration.Inventory.Diff.Dns.{diff_dns}
use c_panel_self_migration.Inventory.Diff.Cron.{diff_cron}

-- `map[string]SectionDiff`
abbrev pub Sections : Type 0
Sections = List (Bytes × SectionDiff)

-- `sec, ok := d.Sections[name]`
unfoldable pub section_at : Bytes → Sections → Option SectionDiff
section_at name [] = none
section_at name ((k, sec) ∷ sections) = if eqb k name then some sec else section_at name sections

pub record DiffSummary : Type 0 where
  pub sections_compared : ℕ
  pub added : ℕ
  pub removed : ℕ
  pub changed : ℕ
  pub warnings : ℕ

abbrev pub no_summary : DiffSummary
no_summary = record { sections_compared = 0; added = 0; removed = 0; changed = 0; warnings = 0 }

-- The loop over the sections.
unfoldable pub add_sections : DiffSummary → Sections → DiffSummary
add_sections sum [] = sum
add_sections sum ((k, sec) ∷ sections) =
    add_sections
      (record sum {
        sections_compared = sum.sections_compared + 1;
        added = sum.added + length sec.added;
        removed = sum.removed + length sec.removed;
        changed = sum.changed + length sec.changed;
        warnings = sum.warnings + (length sec.warnings + length sec.skipped);
      })
      sections

pub record InventoryDiff : Type 0 where
  pub sections : Sections
  pub summary : DiffSummary

module _ (quote : Bytes → Bytes) (u : Unicode) where
  -- A section that embeds a `ConfigSection`.
  abbrev pub config_diff :
      {Item : Type 0}
      → Bytes
      → (List Item → List KeyedItem)
      → ConfigSection Item
      → ConfigSection Item
      → SectionDiff
  config_diff name items src dest =
      diff_config_keyed quote name src.available dest.available (items src.items) (items dest.items)

  unfoldable pub diff_sections : NormalizedInventory → NormalizedInventory → Sections
  diff_sections src dest =
      (lit "domains", diff_keyed quote (domain_items src.domains) (domain_items dest.domains))
      ∷ (
        lit "mailboxes",
        diff_keyed quote (mailbox_items src.mailboxes) (mailbox_items dest.mailboxes),
      )
      ∷ (
        lit "databases",
        diff_keyed quote (database_items src.databases) (database_items dest.databases),
      )
      ∷ (
        lit "forwarders",
        diff_keyed quote (forwarder_items src.forwarders) (forwarder_items dest.forwarders),
      )
      ∷ (
        lit "autoresponders",
        diff_keyed quote (autoresponder_items u src.autoresponders)
            (autoresponder_items u dest.autoresponders),
      )
      ∷ (lit "ftp", config_diff (lit "ftp") ftp_items src.ftp dest.ftp)
      ∷ (lit "ssl", config_diff (lit "ssl") ssl_items src.ssl dest.ssl)
      ∷ (lit "php", config_diff (lit "php") php_items src.php dest.php)
      ∷ (lit "dns", diff_dns src.dns dest.dns)
      ∷ (lit "cron", diff_cron src.cron dest.cron)
      ∷ (
        lit "email_routing",
        config_diff (lit "email_routing") email_routing_items src.email_routing dest.email_routing,
      )
      ∷ (
        lit "default_address",
        config_diff (lit "default_address") default_address_items src.default_addresses
            dest.default_addresses,
      )
      ∷ (
        lit "email_filters",
        config_diff (lit "email_filters") email_filter_items src.email_filters dest.email_filters,
      )
      ∷ (lit "redirects", config_diff (lit "redirects") redirect_items src.redirects dest.redirects)
      ∷ []

  unfoldable pub diff_inventories : NormalizedInventory → NormalizedInventory → InventoryDiff
  unfolding diff_sections add_sections
  diff_inventories src dest =
      let sections = diff_sections src dest in
      record { sections = sections; summary = add_sections no_summary sections }
