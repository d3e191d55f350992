-- ===== src/Inventory/Diff/Items.antt =====
-- internal/accountinventory/diff.go: the items of each section. `normalizeAutoresponderBody` and
-- `autoresponderCharset` are in emailplan.go.
use c_panel_self_migration.Prelude.{
  Bool, true, false, ◌&&◌, List, [], ◌∷◌, ◌++◌, map, Bytes, lit, is_empty, ◌==◌, if◌then◌else◌,
}
use c_panel_self_migration.Strconv.{ℤ, pos, negsuc, format_int}
use c_panel_self_migration.Sorting.{sort_texts}
use c_panel_self_migration.Events.Redact.{Unicode}
use c_panel_self_migration.Inventory.{
  DomainEntry, MailboxEntry, DatabaseEntry, ForwarderEntry, AutoresponderEntry, FtpEntry, SslEntry,
  PhpEntry, MxRecordEntry, EmailRoutingEntry, DefaultAddressEntry, EmailFilterEntry, RedirectEntry,
}
use c_panel_self_migration.Inventory.Diff.{KeyedItem}

-- `strconv.FormatBool`
abbrev pub format_bool : Bool → Bytes
format_bool true = lit "true"
format_bool false = lit "false"

-- `strings.Join`
unfoldable pub join_with : Bytes → List Bytes → Bytes
join_with sep [] = []
join_with sep (a ∷ []) = a
join_with sep (a ∷ b ∷ rest) = a ++ (sep ++ join_with sep (b ∷ rest))

unfoldable pub domain_items : List DomainEntry → List KeyedItem
domain_items = map λ e. record {
  key = e.name;
  detail = e.kind;
  fields = (lit "type", e.kind) ∷ (lit "document_root", e.document_root) ∷ [];
}

unfoldable pub mailbox_items : List MailboxEntry → List KeyedItem
mailbox_items = map λ e. record { key = e.email; detail = []; fields = [] }

unfoldable pub database_items : List DatabaseEntry → List KeyedItem
unfolding join_with
database_items = map λ e. record {
  key = e.name;
  detail = [];
  fields = (lit "users", join_with (lit ",") (sort_texts e.users)) ∷ [];
}

unfoldable pub forwarder_items : List ForwarderEntry → List KeyedItem
forwarder_items = map λ e. record {
  key = e.domain ++ (lit " | " ++ (e.source ++ (lit " -> " ++ e.destination)));
  detail = [];
  fields = [];
}

-- `strings.TrimRight(b, "\n")`
unfoldable pub trim_newlines : Bytes → Bytes
trim_newlines [] = []
trim_newlines (c ∷ s) =
    let rest = trim_newlines s in if is_empty rest && c == b'\n' then [] else c ∷ rest

unfoldable pub normalize_autoresponder_body : Bytes → Bytes
unfolding trim_newlines
normalize_autoresponder_body b = trim_newlines b ++ b'\n' ∷ []

abbrev default_charset : Bytes → Bytes
default_charset [] = lit "utf-8"
default_charset (c ∷ s) = c ∷ s

unfoldable pub autoresponder_charset : Unicode → Bytes → Bytes
autoresponder_charset u c = default_charset (u.to_lower (u.trim_space c))

unfoldable pub autoresponder_items : Unicode → List AutoresponderEntry → List KeyedItem
unfolding normalize_autoresponder_body autoresponder_charset
autoresponder_items u = map λ e. record {
  key = e.domain ++ (lit " | " ++ e.email);
  detail = [];
  fields =
      (lit "subject", e.subject)
      ∷ (lit "interval", format_int e.interval)
      ∷ (lit "from", e.from)
      ∷ (lit "body", (if e.body_collected then normalize_autoresponder_body e.body else e.body))
      ∷ (lit "is_html", format_int e.is_html)
      ∷ (lit "start", format_int e.start)
      ∷ (lit "stop", format_int e.stop)
      ∷ (lit "charset", autoresponder_charset u e.charset)
      ∷ (lit "body_collected", format_bool e.body_collected)
      ∷ [];
}

unfoldable pub ftp_items : List FtpEntry → List KeyedItem
ftp_items = map λ e. record {
  key = e.login;
  detail = [];
  fields = (lit "type", e.kind) ∷ (lit "dir", e.dir) ∷ [];
}

unfoldable pub ssl_items : List SslEntry → List KeyedItem
ssl_items = map λ e. record {
  key = e.domains;
  detail = e.issuer;
  fields =
      (lit "issuer", e.issuer)
      ∷ (lit "validation_type", e.validation_type)
      ∷ (lit "is_self_signed", format_bool e.is_self_signed)
      ∷ (lit "valid_until", format_int e.valid_until)
      ∷ [];
}

unfoldable pub php_items : List PhpEntry → List KeyedItem
php_items =
    map λ e. record { key = e.domain; detail = e.version; fields = (lit "version", e.version) ∷ [] }

abbrev mx_text : MxRecordEntry → Bytes
mx_text m = format_int m.priority ++ (lit " " ++ m.exchange)

unfoldable pub email_routing_items : List EmailRoutingEntry → List KeyedItem
unfolding join_with
email_routing_items = map λ e. record {
  key = e.domain;
  detail =
      lit "detected="
      ++ (e.detected ++ (lit "; mx=" ++ join_with (lit ", ") (map mx_text e.mx_records)));
  fields = (lit "routing", e.routing) ∷ (lit "always_accept", format_bool e.always_accept) ∷ [];
}

unfoldable pub default_address_items : List DefaultAddressEntry → List KeyedItem
default_address_items = map λ e. record {
  key = e.domain;
  detail = [];
  fields = (lit "default_address", e.default_address) ∷ [];
}

abbrev account_text : Bytes → Bytes
account_text [] = lit "(account-level)"
account_text (c ∷ s) = c ∷ s

unfoldable pub email_filter_items : List EmailFilterEntry → List KeyedItem
email_filter_items = map λ e. record {
  key = account_text e.account ++ (lit "/" ++ e.filter_name);
  detail = [];
  fields =
      (lit "enabled", format_bool e.enabled)
      ∷ (lit "rule_count", format_int e.rule_count)
      ∷ (lit "action_count", format_int e.action_count)
      ∷ [];
}

abbrev pub status_text : ℤ → Bytes
status_text (pos n) = if n == 0 then lit "-" else format_int (pos n)
status_text (negsuc n) = format_int (negsuc n)

-- The three bytes of U+2192.
abbrev pub arrow : Bytes
arrow = 226 ∷ 134 ∷ 146 ∷ []

unfoldable pub redirect_items : List RedirectEntry → List KeyedItem
redirect_items = map λ e. record {
  key = e.domain ++ (lit " " ++ e.source);
  detail =
      e.kind
      ++ (lit "/"
          ++ (e.redirect_type
              ++ (lit "/"
                  ++ (status_text e.status_code
                      ++ (lit " " ++ (arrow ++ (lit " " ++ e.destination)))))));
  fields =
      (lit "destination", e.destination)
      ∷ (lit "kind", e.kind)
      ∷ (lit "type", e.redirect_type)
      ∷ (lit "status_code", status_text e.status_code)
      ∷ [];
}
