-- ===== src/Tests/Plans.antt =====
-- Tests of the renaming of internal/dbmig and of the scope and the actions of internal/migrate.
use c_panel_self_migration.Prelude.{
  true, false, not, [], ◌∷◌, ◌++◌, Bytes, lit, eqb, is_empty, contains_byte, has_prefix, some, ok,
  ◌≡◌, ◌↔◌, refl,
}
use c_panel_self_migration.DomainName.{key, equal, has, strip_dots}
use c_panel_self_migration.Dbmig.{NameMapping, remap_name}
use c_panel_self_migration.Dbmig.Names.{opposite, remap_name-remap_name}
use c_panel_self_migration.Migrate.Compare.{main, sub}
use c_panel_self_migration.Migrate.Scope.{
  Mailbox, MigrationData, Options, around_last_at, split_mailbox, mailbox_present,
  filter_mailboxes_to_one, filter_mailboxes_to_domain, filter_docroots_to_domain, source_domain_set,
  apply_scope_filter,
}
use c_panel_self_migration.Migrate.Scope.Narrowed.{
  split_mailbox_iff, IsMailboxRun, IsDomainRun, apply_scope_filter-IsMailboxRun,
  apply_scope_filter-IsDomainRun,
}

abbrev renaming : NameMapping
renaming = record {
  source = record { enabled = true; text = lit "old_" };
  destination = record { enabled = true; text = lit "new_" };
}

carried : has_prefix (lit "old_wp694") (lit "old_") ≡ true
unfolding has_prefix lit
carried = refl

remap_name-remap_name_example :
    remap_name (remap_name (lit "old_wp694") renaming) (opposite renaming) ≡ lit "old_wp694"
remap_name-remap_name_example = remap_name-remap_name renaming (lit "old_wp694") carried

joined : remap_name (lit "old_" ++ lit "wp694") renaming ≡ remap_name (lit "old_wp694") renaming
unfolding lit
joined = refl

joined_carried : has_prefix (lit "old_" ++ lit "wp694") (lit "old_") ≡ true
unfolding has_prefix lit
joined_carried = refl

enabled_old : true ≡ not (is_empty (lit "old_"))
unfolding lit
enabled_old = refl

enabled_new : true ≡ not (is_empty (lit "new_"))
unfolding lit
enabled_new = refl

old_not_empty : is_empty (lit "old_") ≡ false
unfolding lit
old_not_empty = refl

remapped : remap_name (lit "old_wp694") renaming ≡ lit "new_wp694"
unfolding remap_name has_prefix lit
remapped = refl

split_mailbox_iff_example :
    (split_mailbox (lit "info@example.com") ≡ some (lit "info", lit "example.com")) ↔ (
      (lit "info@example.com" ≡ lit "info" ++ b'@' ∷ lit "example.com")
      × (contains_byte b'@' (lit "example.com") ≡ false)
      × (is_empty (lit "info") ≡ false)
      × (is_empty (lit "example.com") ≡ false))
split_mailbox_iff_example =
    split_mailbox_iff (lit "info@example.com") (lit "info") (lit "example.com")

abbrev box : Bytes → Bytes → Mailbox
box user domain = record { domain = domain; user = user; hash = []; scheme = []; active = true }

abbrev scanned : MigrationData
scanned = record {
  src_domains =
      record { name = lit "example.com"; kind = main }
      ∷ record { name = lit "b.org"; kind = sub }
      ∷ [];
  mailboxes = box (lit "info") (lit "Example.com") ∷ box (lit "sales") (lit "b.org") ∷ [];
  src_docroots =
      record { domain = lit "b.org"; document_root = lit "/home/b" }
      ∷ record { domain = lit "example.com"; document_root = lit "/home/a" }
      ∷ [];
}

abbrev one_box : Options
one_box = record { only_domain = []; only_mailbox = lit "info@example.com" }

abbrev one_domain : Options
one_domain = record { only_domain = lit "example.com."; only_mailbox = [] }

abbrev box_kept : MigrationData
box_kept = record scanned { mailboxes = box (lit "info") (lit "Example.com") ∷ [] }

abbrev domain_kept : MigrationData
domain_kept = record box_kept {
  src_docroots = record { domain = lit "example.com"; document_root = lit "/home/a" } ∷ [];
}

box_named : is_empty one_box.only_mailbox ≡ false
unfolding lit
box_named = refl

box_run : apply_scope_filter scanned one_box true true ≡ ok box_kept
unfolding apply_scope_filter split_mailbox around_last_at mailbox_present filter_mailboxes_to_one
    equal key strip_dots eqb lit
box_run = refl

apply_scope_filter-IsMailboxRun_example : IsMailboxRun (lit "info@example.com") scanned box_kept
apply_scope_filter-IsMailboxRun_example =
    apply_scope_filter-IsMailboxRun scanned box_kept one_box true true box_named box_run

domain_named : is_empty one_domain.only_domain ≡ false
unfolding lit
domain_named = refl

domain_run : apply_scope_filter scanned one_domain true true ≡ ok domain_kept
unfolding apply_scope_filter source_domain_set has filter_mailboxes_to_domain
    filter_docroots_to_domain equal key strip_dots eqb lit
domain_run = refl

apply_scope_filter-IsDomainRun_example :
    IsDomainRun (lit "example.com.") true true scanned domain_kept
apply_scope_filter-IsDomainRun_example =
    apply_scope_filter-IsDomainRun scanned domain_kept one_domain true true refl domain_named
      domain_run
