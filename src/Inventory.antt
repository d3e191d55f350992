-- ===== src/Inventory.antt =====
-- internal/accountinventory/types.go: the normalized inventory of one side. Fields that neither the
-- comparison nor the plans read are left out; an integer of Go is ℤ.
pub mod Diff
pub mod Policy
pub mod CronPlan
pub mod DnsPlan
use c_panel_self_migration.Prelude.{Bool, List, Bytes}
use c_panel_self_migration.Strconv.{ℤ}

pub record DomainEntry : Type 0 where
  pub name : Bytes
  pub kind : Bytes
  pub document_root : Bytes

pub record MailboxEntry : Type 0 where
  pub email : Bytes

pub record DatabaseEntry : Type 0 where
  pub name : Bytes
  pub users : List Bytes

pub record ForwarderEntry : Type 0 where
  pub source : Bytes
  pub destination : Bytes
  pub domain : Bytes

pub record AutoresponderEntry : Type 0 where
  pub email : Bytes
  pub domain : Bytes
  pub subject : Bytes
  pub interval : ℤ
  pub from : Bytes
  pub body : Bytes
  pub is_html : ℤ
  pub start : ℤ
  pub stop : ℤ
  pub charset : Bytes
  pub body_collected : Bool

pub record FtpEntry : Type 0 where
  pub login : Bytes
  pub kind : Bytes
  pub dir : Bytes

pub record SslEntry : Type 0 where
  pub domains : Bytes
  pub issuer : Bytes
  pub valid_until : ℤ
  pub is_self_signed : Bool
  pub validation_type : Bytes

pub record PhpEntry : Type 0 where
  pub domain : Bytes
  pub version : Bytes

-- `ConfigSection` with the items of the section that embeds it.
pub record ConfigSection (Item : Type 0) : Type 0 where
  pub available : Bool
  pub items : List Item

pub record DnsRecordEntry : Type 0 where
  pub kind : Bytes
  pub name : Bytes
  pub ttl : ℤ
  pub value : Bytes
  pub priority : ℤ
  pub exchange : Bytes
  pub address : Bytes
  pub target : Bytes
  pub txt_data : Bytes

pub record DnsZoneResult : Type 0 where
  pub available : Bool
  pub zone : Bytes
  pub records : List DnsRecordEntry

pub record CronJobEntry : Type 0 where
  pub kind : Bytes
  pub minute : Bytes
  pub hour : Bytes
  pub day_of_month : Bytes
  pub month : Bytes
  pub day_of_week : Bytes
  pub macro : Bytes
  pub command_redacted : Bytes
  pub command_clear : Bytes
  pub command_sha256 : Bytes
  pub raw_line : Bytes
  pub enabled : Bool
  pub command_collected : Bool

pub record CronEnvEntry : Type 0 where
  pub name : Bytes
  pub value_redacted : Bytes
  pub value_clear : Bytes
  pub value_collected : Bool

pub record CronSection : Type 0 where
  pub available : Bool
  pub jobs : List CronJobEntry
  pub environment : List CronEnvEntry

pub record MxRecordEntry : Type 0 where
  pub priority : ℤ
  pub exchange : Bytes

pub record EmailRoutingEntry : Type 0 where
  pub domain : Bytes
  pub routing : Bytes
  pub detected : Bytes
  pub always_accept : Bool
  pub mx_records : List MxRecordEntry

pub record DefaultAddressEntry : Type 0 where
  pub domain : Bytes
  pub default_address : Bytes

pub record EmailFilterEntry : Type 0 where
  pub account : Bytes
  pub filter_name : Bytes
  pub enabled : Bool
  pub rule_count : ℤ
  pub action_count : ℤ

pub record RedirectEntry : Type 0 where
  pub domain : Bytes
  pub source : Bytes
  pub destination : Bytes
  pub kind : Bytes
  pub redirect_type : Bytes
  pub status_code : ℤ

pub record NormalizedInventory : Type 0 where
  pub user : Bytes
  pub domains : List DomainEntry
  pub mailboxes : List MailboxEntry
  pub databases : List DatabaseEntry
  pub forwarders : List ForwarderEntry
  pub autoresponders : List AutoresponderEntry
  pub ftp : ConfigSection FtpEntry
  pub ssl : ConfigSection SslEntry
  pub php : ConfigSection PhpEntry
  pub dns : ConfigSection DnsZoneResult
  pub cron : CronSection
  pub email_routing : ConfigSection EmailRoutingEntry
  pub default_addresses : ConfigSection DefaultAddressEntry
  pub email_filters : ConfigSection EmailFilterEntry
  pub redirects : ConfigSection RedirectEntry
