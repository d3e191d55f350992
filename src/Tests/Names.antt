-- ===== src/Tests/Names.antt =====
-- Tests of the names and paths of internal/validate, internal/domainname and of the artifact paths.
use c_panel_self_migration.Prelude.{
  ◌↔◌, some, has_prefix, eqb, true, List, [], ◌∷◌, ◌++◌, Bytes, lit, split, ok, ◌≡◌, refl, map,
  lower_byte, ℕ,
}
use c_panel_self_migration.Paths.{walk, resolve_unix}
use c_panel_self_migration.DomainName.{key, equal, strip_dots}
use c_panel_self_migration.DomainName.Identity.{equal_iff, dots}
use c_panel_self_migration.Validate.{
  domain, mailbox_user, rel_path, no_control, no_control_or_space,
}
use c_panel_self_migration.Validate.Directory.{mailbox_directory, rel_path-resolve_unix}
use c_panel_self_migration.Contract.Artifact.{to_slash, check_artifact_path}
use c_panel_self_migration.Contract.Artifact.Confined.{IsConfined, check_artifact_path-IsConfined}

abbrev site : Bytes
site = lit "public_html/blog"

site_accepted : rel_path site ≡ ok tt
unfolding rel_path no_control lit has_prefix split eqb
site_accepted = refl

abbrev account_home : List Bytes
account_home = lit "panel" ∷ lit "home" ∷ []

rel_path-resolve_unix_example :
    (inner : List Bytes) × (resolve_unix account_home site ≡ some (inner ++ account_home))
rel_path-resolve_unix_example = rel_path-resolve_unix account_home site site_accepted

domain_accepted : domain (lit "example.com") ≡ ok tt
unfolding domain no_control_or_space lit has_prefix split
domain_accepted = refl

user_accepted : mailbox_user (lit "info") ≡ ok tt
unfolding mailbox_user no_control_or_space lit has_prefix split eqb
user_accepted = refl

mailbox_directory_example :
    walk (lit "mail" ∷ []) (split b'/' (lit "example.com" ++ b'/' ∷ lit "info"))
    ≡ lit "info" ∷ lit "example.com" ∷ lit "mail" ∷ []
mailbox_directory_example =
    mailbox_directory (lit "mail" ∷ []) (lit "example.com") (lit "info") domain_accepted
      user_accepted

equal_iff_example : (equal (lit "Example.com.") (lit "example.COM") ≡ true) ↔ (
    (n : ℕ) × (m : ℕ) × (map lower_byte (lit "Example.com." ++ dots n)
      ≡ map lower_byte (lit "example.COM" ++ dots m)))
equal_iff_example = equal_iff (lit "Example.com.") (lit "example.COM")

equal_test : equal (lit "Example.com.") (lit "example.COM") ≡ true
unfolding equal key strip_dots eqb lit
equal_test = refl

abbrev artifact : Bytes
artifact = lit "reports\\run..1/plan.json"

artifact_accepted : check_artifact_path artifact ≡ ok tt
unfolding check_artifact_path lit has_prefix split to_slash eqb
artifact_accepted = refl

check_artifact_path-IsConfined_example : IsConfined account_home artifact
check_artifact_path-IsConfined_example =
    check_artifact_path-IsConfined account_home artifact artifact_accepted

-- An absolute path is read from the root.
absolute_test : resolve_unix account_home (lit "/etc/passwd") ≡ some (lit "passwd" ∷ lit "etc" ∷ [])
unfolding resolve_unix lit has_prefix split eqb
absolute_test = refl
