-- ===== src/Migrate/Scope/Narrowed.antt =====
-- internal/migrate/scope_filter.go: what a narrowed run keeps.
use c_panel_self_migration.Prelude.{
  subst, ok-injective, ◌≤◌, Bool, true, false, not, ◌||◌, List, [], ◌∷◌, ◌++◌, any, all, filter,
  count_p, Bytes, is_empty, contains_byte, if◌then◌else◌, none, some, Result, ok, ◌≡◌, refl, ap,
  ◌∙◌, arith, ◌↔◌, inl, inr, Option-cases, Bool-cases,
}
use c_panel_self_migration.DomainName.{has, equal}
use c_panel_self_migration.Migrate.Scope.{
  MigrationData, Options, ScopeError, filter_mailboxes_to_domain, filter_docroots_to_domain,
  source_domain_set, around_last_at, two_parts, split_mailbox, is_mailbox, mailbox_present,
  filter_mailboxes_to_one, to_mailbox, apply_scope_filter,
}

around_last_at-none : (s : Bytes) → contains_byte b'@' s ≡ false → around_last_at s ≡ none
unfolding around_last_at
around_last_at-none [] h = refl
around_last_at-none (c ∷ s) h = ground (arith, around_last_at-none s)

around_last_at-append :
    (a b : Bytes) → contains_byte b'@' b ≡ false → around_last_at (a ++ b'@' ∷ b) ≡ some (a, b)
unfolding around_last_at
around_last_at-append [] b h = ground (arith, around_last_at-none b)
around_last_at-append (c ∷ a) b h = ground (arith, around_last_at-append a b)

none-around_last_at : (s : Bytes) → around_last_at s ≡ none → contains_byte b'@' s ≡ false
unfolding around_last_at
none-around_last_at [] h = refl
none-around_last_at (c ∷ s) h = ground (arith, none-around_last_at s)

around_last_at-some :
    (s a b : Bytes)
    → around_last_at s ≡ some (a, b)
    → (s ≡ a ++ b'@' ∷ b) × (contains_byte b'@' b ≡ false)
unfolding around_last_at
around_last_at-some [] a b h = ground arith
around_last_at-some (c ∷ s) a b h = elim (Option-cases (around_last_at s)) [
  | inl no_at ↦ ground (arith, none-around_last_at s no_at, h)
  | inr ((a1, b1), found) ↦ ground (arith, around_last_at-some s a1 b1 found, h)
]

-- SplitMailbox answers with a local part and a domain exactly when the address is the two around an
-- @, neither is empty and the domain has no @.
pub split_mailbox_iff :
    (addr local domain : Bytes)
    → (split_mailbox addr ≡ some (local, domain)) ↔ (
        (addr ≡ local ++ b'@' ∷ domain)
        × (contains_byte b'@' domain ≡ false)
        × (is_empty local ≡ false)
        × (is_empty domain ≡ false))
unfolding split_mailbox
split_mailbox_iff addr local domain = (
  parts,
  λ h.
      ap split_mailbox h.0
      ∙ ap two_parts (around_last_at-append local domain h.1)
      ∙ ground (arith, h.2, h.3),
)
  where
    parts :
        split_mailbox addr ≡ some (local, domain)
        → (addr ≡ local ++ b'@' ∷ domain)
          × (contains_byte b'@' domain ≡ false)
          × (is_empty local ≡ false)
          × (is_empty domain ≡ false)
    parts e = ground (arith, e, around_last_at-some addr local domain)

module _ {A : Type 0} where
  all-filter : (p : A → Bool) (xs : List A) → all p (filter p xs) ≡ true
  all-filter p [] = refl
  all-filter p (x ∷ xs) = ground (arith, all-filter p xs)

  count_p-filter : (p : A → Bool) (xs : List A) → count_p p (filter p xs) ≡ count_p p xs
  count_p-filter p [] = refl
  count_p-filter p (x ∷ xs) = ground (arith, count_p-filter p xs)

  any-count_p : (p : A → Bool) (xs : List A) → any p xs ≡ true → 1 ≤ count_p p xs
  any-count_p p [] h = absurd (ground arith)
  any-count_p p (x ∷ xs) h = ground (arith, any-count_p p xs)

-- What a run that is narrowed to the mailbox `addr` keeps.
pub record IsMailboxRun (addr : Bytes) (before after : MigrationData) : Type 0 where
  pub local : Bytes
  pub domain : Bytes
  pub parts : addr ≡ local ++ b'@' ∷ domain
  pub no_other : all (is_mailbox local domain) after.mailboxes ≡ true
  pub none_lost :
      count_p (is_mailbox local domain) after.mailboxes
      ≡ count_p (is_mailbox local domain) before.mailboxes
  pub not_empty : 1 ≤ count_p (is_mailbox local domain) after.mailboxes
  pub same_domains : after.src_domains ≡ before.src_domains
  pub same_docroots : after.src_docroots ≡ before.src_docroots

-- The branch of a mailbox whose address has been split.
to_mailbox-IsMailboxRun :
    (pd pd' : MigrationData) (addr local domain : Bytes)
    → addr ≡ local ++ b'@' ∷ domain
    → to_mailbox pd addr (some (local, domain)) ≡ ok pd'
    → IsMailboxRun addr pd pd'
unfolding mailbox_present filter_mailboxes_to_one
to_mailbox-IsMailboxRun pd pd' addr local domain parts e =
    elim (Bool-cases (mailbox_present pd.mailboxes local domain)) [
      | inr absent ↦ absurd (ground (arith, e, absent))
      | inl present ↦
          subst (λ after. IsMailboxRun addr pd after) (ground (arith, e, present))
            (record {
              local = local;
              domain = domain;
              parts = parts;
              no_other = all-filter (is_mailbox local domain) pd.mailboxes;
              none_lost = count_p-filter (is_mailbox local domain) pd.mailboxes;
              not_empty = ground (
                arith,
                any-count_p (is_mailbox local domain) pd.mailboxes present,
                count_p-filter (is_mailbox local domain) pd.mailboxes,
              );
              same_domains = refl;
              same_docroots = refl;
            })
    ]

-- If a run named one mailbox and the scope filter succeeds, the address is a local part and a
-- domain around an @, at least one mailbox is left, all that are left are that mailbox, none of its
-- entries is lost, and the domains and docroots are unchanged.
pub apply_scope_filter-IsMailboxRun :
    (pd pd' : MigrationData) (opts : Options) (do_mail do_file : Bool)
    → is_empty opts.only_mailbox ≡ false
    → apply_scope_filter pd opts do_mail do_file ≡ ok pd'
    → IsMailboxRun opts.only_mailbox pd pd'
unfolding apply_scope_filter
apply_scope_filter-IsMailboxRun pd pd' opts do_mail do_file named e =
    elim (Option-cases (split_mailbox opts.only_mailbox)) [
      | inl bad ↦ absurd (ground (arith, e, bad))
      | inr ((local, domain), good) ↦
          to_mailbox-IsMailboxRun pd pd' opts.only_mailbox local domain
            ((split_mailbox_iff opts.only_mailbox local domain).0 good).0 (ground (arith, e, good))
    ]

-- What a run that is narrowed to a domain keeps.
pub record IsDomainRun (domain : Bytes) (do_mail do_file : Bool) (before after : MigrationData)
    : Type 0 where
  pub known : has (source_domain_set before) domain ≡ true
  pub only_boxes : (not do_mail || all (λ m. equal m.domain domain) after.mailboxes) ≡ true
  pub only_roots : (not do_file || all (λ e. equal e.domain domain) after.src_docroots) ≡ true
  pub no_box_lost :
      count_p (λ m. equal m.domain domain) after.mailboxes
      ≡ count_p (λ m. equal m.domain domain) before.mailboxes
  pub no_root_lost :
      count_p (λ e. equal e.domain domain) after.src_docroots
      ≡ count_p (λ e. equal e.domain domain) before.src_docroots
  pub same_domains : after.src_domains ≡ before.src_domains

to_domain-IsDomainRun :
    (pd : MigrationData) (domain : Bytes) (do_mail do_file : Bool)
    → has (source_domain_set pd) domain ≡ true
    → IsDomainRun domain do_mail do_file pd (record pd {
      mailboxes = if do_mail then filter_mailboxes_to_domain pd.mailboxes domain else pd.mailboxes;
      src_docroots =
          if do_file then filter_docroots_to_domain pd.src_docroots domain else pd.src_docroots;
    })
unfolding filter_mailboxes_to_domain filter_docroots_to_domain
to_domain-IsDomainRun pd domain do_mail do_file h = record {
  known = h;
  only_boxes = ground (arith, all-filter (λ m. equal m.domain domain) pd.mailboxes);
  only_roots = ground (arith, all-filter (λ e. equal e.domain domain) pd.src_docroots);
  no_box_lost = ground (arith, count_p-filter (λ m. equal m.domain domain) pd.mailboxes);
  no_root_lost = ground (arith, count_p-filter (λ e. equal e.domain domain) pd.src_docroots);
  same_domains = refl;
}

-- If a run named a domain and no mailbox and the scope filter succeeds, the domain is one of the
-- source, the mailboxes left are all of that domain if mail is selected and the docroots if files
-- are, none of that domain is lost from either, and the domains are unchanged.
pub apply_scope_filter-IsDomainRun :
    (pd pd' : MigrationData) (opts : Options) (do_mail do_file : Bool)
    → is_empty opts.only_mailbox ≡ true
    → is_empty opts.only_domain ≡ false
    → apply_scope_filter pd opts do_mail do_file ≡ ok pd'
    → IsDomainRun opts.only_domain do_mail do_file pd pd'
unfolding apply_scope_filter
apply_scope_filter-IsDomainRun pd pd' opts do_mail do_file no_box named e =
    elim (Bool-cases (has (source_domain_set pd) opts.only_domain)) [
      | inr absent ↦ absurd (ground (arith, e, absent))
      | inl known ↦
          subst (λ after. IsDomainRun opts.only_domain do_mail do_file pd after)
            (ok-injective (reached known ∙ e))
            (to_domain-IsDomainRun pd opts.only_domain do_mail do_file known)
    ]
  where
    reached :
        has (source_domain_set pd) opts.only_domain ≡ true
        → ◌≡◌ {A = Result ScopeError MigrationData}
            (ok (record pd {
              mailboxes =
                  if do_mail
                  then filter_mailboxes_to_domain pd.mailboxes opts.only_domain
                  else pd.mailboxes;
              src_docroots =
                  if do_file
                  then filter_docroots_to_domain pd.src_docroots opts.only_domain
                  else pd.src_docroots;
            }))
            (apply_scope_filter pd opts do_mail do_file)
    reached known = rw (no_box, named, known) refl
