-- ===== src/Migrate/Scope.antt =====
-- internal/migrate/scope_filter.go: the narrowing of a run to one domain or one mailbox. The texts
-- that list what is available are left out of the errors.
pub mod Narrowed
use c_panel_self_migration.Prelude.{
  ℕ, Bool, true, false, not, ◌&&◌, List, [], ◌∷◌, ◌++◌, map, any, filter, Bytes, lit, is_empty, eqb,
  contains_byte, ◌==◌, if◌then◌else◌, Option, none, some, Result, ok, err,
}
use c_panel_self_migration.DomainName.{key, has, equal}
use c_panel_self_migration.Migrate.Compare.{DomainType}

pub record Domain : Type 0 where
  pub name : Bytes
  pub kind : DomainType

pub record Mailbox : Type 0 where
  pub domain : Bytes
  pub user : Bytes
  pub hash : Bytes
  pub scheme : Bytes
  pub active : Bool

-- `cpanel.DomainDataEntry`, as far as the filter reads it.
pub record Docroot : Type 0 where
  pub domain : Bytes
  pub document_root : Bytes

-- The part of `migrationData` that the filter reads or changes.
pub record MigrationData : Type 0 where
  pub src_domains : List Domain
  pub mailboxes : List Mailbox
  pub src_docroots : List Docroot

pub record Options : Type 0 where
  pub only_domain : Bytes
  pub only_mailbox : Bytes

-- The parts of a text around its last `@`.
unfoldable pub around_last_at : Bytes → Option (Bytes × Bytes)
around_last_at [] = none
around_last_at (c ∷ s) =
    let rest = around_last_at s in
    elim rest [ some (a, b) ↦ some (c ∷ a, b) | none ↦ if c == b'@' then some ([], s) else none ]

-- Neither part may be empty.
abbrev pub two_parts : Option (Bytes × Bytes) → Option (Bytes × Bytes)
two_parts none = none
two_parts (some (local, domain)) =
    if is_empty local then none else if is_empty domain then none else some (local, domain)

unfoldable pub split_mailbox : Bytes → Option (Bytes × Bytes)
unfolding around_last_at
split_mailbox addr = two_parts (around_last_at addr)

abbrev pub is_mailbox : (local domain : Bytes) → Mailbox → Bool
is_mailbox local domain m = eqb m.user local && equal m.domain domain

unfoldable pub mailbox_present : List Mailbox → (local domain : Bytes) → Bool
mailbox_present boxes local domain = any (is_mailbox local domain) boxes

unfoldable pub filter_mailboxes_to_one : List Mailbox → (local domain : Bytes) → List Mailbox
filter_mailboxes_to_one boxes local domain = filter (is_mailbox local domain) boxes

unfoldable pub filter_mailboxes_to_domain : List Mailbox → Bytes → List Mailbox
filter_mailboxes_to_domain boxes domain = filter (λ m. equal m.domain domain) boxes

unfoldable pub filter_docroots_to_domain : List Docroot → Bytes → List Docroot
filter_docroots_to_domain roots domain = filter (λ e. equal e.domain domain) roots

unfoldable pub source_domain_set : MigrationData → List Bytes
source_domain_set pd = map (λ d. key d.name) pd.src_domains

pub data ScopeError : Type 0 where
  invalid_mailbox mailbox_not_found domain_not_found : Bytes → ScopeError

-- The branch of a mailbox, behind the split of its address.
abbrev pub to_mailbox :
    MigrationData → Bytes → Option (Bytes × Bytes) → Result ScopeError MigrationData
to_mailbox pd addr none = err (invalid_mailbox addr)
to_mailbox pd addr (some (local, domain)) =
    if not (mailbox_present pd.mailboxes local domain)
    then err (mailbox_not_found addr)
    else ok (record pd { mailboxes = filter_mailboxes_to_one pd.mailboxes local domain })

-- The branch of a domain.
abbrev pub to_domain :
    MigrationData → Bytes → (do_mail do_file : Bool) → Result ScopeError MigrationData
to_domain pd domain do_mail do_file =
    if not (has (source_domain_set pd) domain)
    then err (domain_not_found domain)
    else ok (record pd {
      mailboxes = if do_mail then filter_mailboxes_to_domain pd.mailboxes domain else pd.mailboxes;
      src_docroots =
          if do_file then filter_docroots_to_domain pd.src_docroots domain else pd.src_docroots;
    })

unfoldable pub apply_scope_filter :
    MigrationData → Options → (do_mail do_file : Bool) → Result ScopeError MigrationData
unfolding split_mailbox mailbox_present filter_mailboxes_to_one filter_mailboxes_to_domain
    filter_docroots_to_domain source_domain_set
apply_scope_filter pd opts do_mail do_file =
    if not (is_empty opts.only_mailbox)
    then to_mailbox pd opts.only_mailbox (split_mailbox opts.only_mailbox)
    else if not (is_empty opts.only_domain)
    then to_domain pd opts.only_domain do_mail do_file
    else ok pd
