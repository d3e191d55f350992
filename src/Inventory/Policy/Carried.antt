-- ===== src/Inventory/Policy/Carried.antt =====
-- internal/accountinventory/diff.go and policy.go: what a ready status says of the two inventories.
use c_panel_self_migration.Prelude.{true, ◌&&◌, List, [], ◌++◌, Bytes, lit, eqb, ◌≡◌, refl}
use c_panel_self_migration.Events.Redact.{Unicode}
use c_panel_self_migration.Inventory.{ConfigSection, NormalizedInventory}
use c_panel_self_migration.Inventory.Diff.{KeyedItem, diff_keyed}
use c_panel_self_migration.Inventory.Diff.Items.{
  domain_items, mailbox_items, database_items, forwarder_items, autoresponder_items, ftp_items,
  ssl_items, redirect_items, php_items, email_routing_items, default_address_items,
  email_filter_items,
}
use c_panel_self_migration.Inventory.Diff.Inventories.{section_at, diff_sections, diff_inventories}
use c_panel_self_migration.Inventory.Policy.{PolicyStatus, review, blocker, ready, on_added, info}
use c_panel_self_migration.Inventory.Policy.Rules.{
  eval_databases, eval_domains, eval_php, eval_dns, eval_cron, eval_ssl, eval_redirects,
  removed_domain, changed_domain,
}
use c_panel_self_migration.Inventory.Policy.Evaluate.{evaluate_policy}
use c_panel_self_migration.Inventory.Policy.Ready.{removed_domain-needs_action, ready-IsQuietAt}
use c_panel_self_migration.Inventory.Policy.Quiet.{
  IsCarried, IsKept, IsListed, keyed-IsCarried, databases-IsCarried, simple-IsCarried,
  config-IsListed, config-IsCarried, diff_dns-IsListed, diff_cron-IsListed,
}

-- A section is listed on both sides, with the same keys and fields where the source has them.
abbrev pub IsCopied :
    {Item : Type 0}
    → (key field : Bytes) → (List Item → List KeyedItem)
    → (src dest : ConfigSection Item) → Type 0
IsCopied key f items s d =
    IsListed s d
    × IsCarried key (items s.items) (items d.items)
    × IsKept key f (items s.items) (items d.items)

module _ (quote : Bytes → Bytes) (u : Unicode) (words : Bytes → List Bytes)
    (src dest : NormalizedInventory) where
  -- The status of the comparison of the two inventories.
  abbrev pub status_of : PolicyStatus
  status_of = (evaluate_policy u words (diff_inventories quote u src dest).sections).overall_status

  -- If the policy of the difference of two inventories is ready, the destination has every domain,
  -- mailbox, database, forwarder and autoresponder that the source has, by its key, and agrees with
  -- it on every compared field of a mailbox, a database or an autoresponder that both have.
  pub ready-IsCarried :
      (key f : Bytes)
      → status_of ≡ ready
      → IsCarried key (domain_items src.domains) (domain_items dest.domains)
        × IsCarried key (mailbox_items src.mailboxes) (mailbox_items dest.mailboxes)
        × IsKept key f (mailbox_items src.mailboxes) (mailbox_items dest.mailboxes)
        × IsCarried key (database_items src.databases) (database_items dest.databases)
        × IsKept key f (database_items src.databases) (database_items dest.databases)
        × IsCarried key (forwarder_items src.forwarders) (forwarder_items dest.forwarders)
        × IsCarried key
            (autoresponder_items u src.autoresponders)
            (autoresponder_items u dest.autoresponders)
        × IsKept key f
            (autoresponder_items u src.autoresponders)
            (autoresponder_items u dest.autoresponders)
  unfolding diff_inventories diff_sections section_at eqb lit eval_domains eval_databases
  ready-IsCarried key f h =
      let quiet = ready-IsQuietAt u words (diff_sections quote u src dest) h in
      let mailboxes =
        simple-IsCarried quote key f (lit "mailboxes") (lit "POL-MAILBOX") blocker
          (mailbox_items src.mailboxes) (mailbox_items dest.mailboxes) refl quiet.1.0 in
      let databases =
        databases-IsCarried quote key f (lit "databases") (database_items src.databases)
          (database_items dest.databases) quiet.1.1.0 in
      let forwarders =
        simple-IsCarried quote key f (lit "forwarders") (lit "POL-FORWARDER") review
          (forwarder_items src.forwarders) (forwarder_items dest.forwarders) refl quiet.1.1.1.0 in
      let autoresponders =
        simple-IsCarried quote key f (lit "autoresponders") (lit "POL-AUTORESPONDER") review
          (autoresponder_items u src.autoresponders) (autoresponder_items u dest.autoresponders)
          refl quiet.1.1.1.1.0 in
      (
        keyed-IsCarried quote key f (lit "domains") removed_domain changed_domain
            (λ e.
              on_added (lit "domains") (lit "POL-DOMAIN-ADDED") info (lit "type: " ++ e.detail) e)
            (domain_items src.domains) (domain_items dest.domains) removed_domain-needs_action
            quiet.0,
        mailboxes.0,
        mailboxes.1,
        databases.0,
        databases.1,
        forwarders.0,
        autoresponders.0,
        autoresponders.1,
      )

  ready-IsListed :
      status_of ≡ ready
      → IsListed src.ssl dest.ssl
        × IsListed src.php dest.php
        × IsListed src.dns dest.dns
        × ((src.cron.available && dest.cron.available) ≡ true)
        × IsListed src.redirects dest.redirects
  unfolding diff_inventories diff_sections section_at eqb lit
  ready-IsListed h =
      let quiet = ready-IsQuietAt u words (diff_sections quote u src dest) h in
      (
        config-IsListed quote [] [] (lit "ssl")
            (eval_ssl u words
              (diff_keyed quote (domain_items src.domains) (domain_items dest.domains)).removed)
            src.ssl.available dest.ssl.available (ssl_items src.ssl.items)
            (ssl_items dest.ssl.items) quiet.1.1.1.1.1.1.0,
        config-IsListed quote [] [] (lit "php") eval_php src.php.available dest.php.available
            (php_items src.php.items) (php_items dest.php.items) quiet.1.1.1.1.1.1.1.0,
        diff_dns-IsListed src.dns dest.dns (eval_dns u words) quiet.1.1.1.1.1.1.1.1.0,
        diff_cron-IsListed src.cron dest.cron eval_cron quiet.1.1.1.1.1.1.1.1.1.0,
        config-IsListed quote [] [] (lit "redirects") eval_redirects src.redirects.available
            dest.redirects.available (redirect_items src.redirects.items)
            (redirect_items dest.redirects.items) quiet.1.1.1.1.1.1.1.1.1.1.1.1.1.0,
      )

  -- If the policy of the difference of two inventories is ready, both sides listed every
  -- configuration section, and for FTP accounts, mail routing, default addresses and mail filters
  -- the destination has every key of the source and agrees with it on every compared field.
  pub ready-IsCopied :
      (key f : Bytes)
      → status_of ≡ ready
      → IsCopied key f ftp_items src.ftp dest.ftp
        × IsCopied key f email_routing_items src.email_routing dest.email_routing
        × IsCopied key f default_address_items src.default_addresses dest.default_addresses
        × IsCopied key f email_filter_items src.email_filters dest.email_filters
        × IsListed src.ssl dest.ssl
        × IsListed src.php dest.php
        × IsListed src.dns dest.dns
        × ((src.cron.available && dest.cron.available) ≡ true)
        × IsListed src.redirects dest.redirects
  unfolding diff_inventories diff_sections section_at eqb lit
  ready-IsCopied key f h =
      let quiet = ready-IsQuietAt u words (diff_sections quote u src dest) h in
      let listed = ready-IsListed h in
      (
        config-IsCarried quote key f (lit "ftp") (lit "POL-FTP") src.ftp.available
            dest.ftp.available (ftp_items src.ftp.items) (ftp_items dest.ftp.items)
            quiet.1.1.1.1.1.0,
        config-IsCarried quote key f (lit "email_routing") (lit "POL-MAILROUTE")
            src.email_routing.available dest.email_routing.available
            (email_routing_items src.email_routing.items)
            (email_routing_items dest.email_routing.items) quiet.1.1.1.1.1.1.1.1.1.1.0,
        config-IsCarried quote key f (lit "default_address") (lit "POL-DEFAULTADDR")
            src.default_addresses.available dest.default_addresses.available
            (default_address_items src.default_addresses.items)
            (default_address_items dest.default_addresses.items) quiet.1.1.1.1.1.1.1.1.1.1.1.0,
        config-IsCarried quote key f (lit "email_filters") (lit "POL-EMAILFILTER")
            src.email_filters.available dest.email_filters.available
            (email_filter_items src.email_filters.items)
            (email_filter_items dest.email_filters.items) quiet.1.1.1.1.1.1.1.1.1.1.1.1.0,
        listed.0,
        listed.1,
        listed.2,
        listed.3,
        listed.4,
      )
